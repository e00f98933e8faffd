-- ===== src/States/Passed.antt =====
-- The loop of src/radical/pilot/states.py that digs out the states between two values. It stands
-- twice in the source, for pilots and for tasks; here it takes the inverse table as an argument.
use radical_pilot.Prelude.{
  ℤ, pos, ◌≡◌, refl, List, [], ◌∷◌, ◌++◌, map, map-append, Result, ok, raise, ◌>>=◌, ◌+ℤ◌, ◌≤ℤ◌,
  ◌∙◌, ap, ap₂, range, range-append, add_one_mono, range-snoc, range_empty, leb_ℤ, if◌then◌else◌,
  arith, Bool-cases, >>=-eq-ok, inl, inr, false, ◌⊎◌,
}

module _ {S : Type 0} (inv : ℤ → Result S) where
  -- `for i in range(…): passed.append(inv[i])`
  unfoldable pub look_up : List ℤ → Result (List S)
  look_up [] = ok []
  look_up (v ∷ vs) = do s ← inv v; rest ← look_up vs; ok (s ∷ rest)

module _ {S : Type 0} (value : S → ℤ) (inv : ℤ → Result S) where
  -- The end of `_pilot_state_progress` and of `_task_state_progress`, once the final states are
  -- dealt with: the new state and the states passed.
  unfoldable pub move_on : S → S → Result (S × List S)
  move_on current target =
      let cur = value current in
      let tgt = value target in
      if leb_ℤ tgt cur
      then ok (current, [])
      else do passed ← look_up inv (range (cur +ℤ pos 1) tgt); ok (target, passed ++ target ∷ [])

module _ {S : Type 0} (value : S → ℤ) (inv : ℤ → Result S)
    (sound : (v : ℤ) (s : S) → inv v ≡ ok s → value s ≡ v) where
  look_up-cons :
      (v : ℤ) (vs : List ℤ) (r : Result S) (q : Result (List S)) (xs : List S)
      → inv v ≡ r
      → ((ys : List S) → q ≡ ok ys → map value ys ≡ vs)
      → (do s ← r; rest ← q; ok (s ∷ rest)) ≡ ok xs
      → map value xs ≡ v ∷ vs
  look_up-cons v vs (ok s) (ok ys) xs e ih h = cc (sound v s e, ih ys refl)
  look_up-cons v vs (ok s) (raise f) xs e ih h = cc
  look_up-cons v vs (raise f) q xs e ih h = cc

  -- The states found have the values asked for, in their order.
  pub look_up_lem : (vs : List ℤ) (xs : List S) → look_up inv vs ≡ ok xs → map value xs ≡ vs
  unfolding look_up
  look_up_lem [] xs h = cc
  look_up_lem (v ∷ vs) xs h = look_up-cons v vs (inv v) (look_up inv vs) xs refl (look_up_lem vs) h

  -- With the target behind them they fill the range up to the target.
  pub look_up-range :
      (a : ℤ) (t : S) (xs : List S)
      → a ≤ℤ value t
      → look_up inv (range a (value t)) ≡ ok xs
      → map value (xs ++ t ∷ []) ≡ range a (value t +ℤ pos 1)
  look_up-range a t xs le h =
      map-append value xs (t ∷ [])
      ∙ ap (λ l. l ++ value t ∷ []) (look_up_lem (range a (value t)) xs h)
      ∙ range-snoc a (value t) le

  abbrev arrive : S → List S → Result (S × List S)
  arrive t xs = ok (t, xs ++ t ∷ [])

  move_on-eq-ok :
      (c t n : S) (passed : List S)
      → leb_ℤ (value t) (value c) ≡ false
      → move_on value inv c t ≡ ok (n, passed)
      → (xs : List S) × (look_up inv (range (value c +ℤ pos 1) (value t)) ≡ ok xs)
        × (n ≡ t)
        × (passed ≡ xs ++ t ∷ [])
  unfolding move_on
  move_on-eq-ok c t n passed e h =
      let (xs, found, end) =
        >>=-eq-ok (look_up inv (range (value c +ℤ pos 1) (value t))) (arrive t) (rw e at h) in
      (xs, found, ground arith, ground arith)

  -- The states passed fill the range from the old state to the new one.
  pub move_on-values :
      (c t n : S) (passed : List S)
      → move_on value inv c t ≡ ok (n, passed)
      → map value passed ≡ range (value c +ℤ pos 1) (value n +ℤ pos 1)
  move_on-values c t n passed h = elim (Bool-cases (leb_ℤ (value t) (value c))) [
    | inl e ↦
        let p : passed ≡ [] = unfold move_on in ground arith in
        let q : n ≡ c = unfold move_on in ground arith in rw (p, q, range_empty)
    | inr e ↦
        let target = move_on-eq-ok c t n passed e h in
        rw (target.2, target.3)
          (look_up-range (value c +ℤ pos 1) t target.0 (unfold ◌+ℤ◌ in ground arith) target.1)
  ]

  -- The new state is the later one of the two.
  pub move_on_latest :
      (c t n : S) (passed : List S)
      → move_on value inv c t ≡ ok (n, passed)
      → (value c ≤ℤ value n) × (value t ≤ℤ value n) × ((n ≡ c) ⊎ (n ≡ t))
  move_on_latest c t n passed h = elim (Bool-cases (leb_ℤ (value t) (value c))) [
    | inl e ↦
        let q : n ≡ c = unfold move_on in ground arith in rw q (omega arith, ground arith, inl refl)
    | inr e ↦
        let target = move_on-eq-ok c t n passed e h in
        rw (target.2) (ground arith, omega arith, inr refl)
  ]

module _ {S : Type 0} (value : S → ℤ) (inv : ℤ → Result S) where
  -- The states passed end with the new state, if there are any.
  pub move_on_ends :
      (c t n : S) (passed : List S)
      → move_on value inv c t ≡ ok (n, passed)
      → (passed ≡ []) × (n ≡ c) ⊎ ((xs : List S) × (passed ≡ xs ++ n ∷ []))
  unfolding move_on
  move_on_ends c t n passed h = elim (Bool-cases (leb_ℤ (value t) (value c))) [
    | inl e ↦ inl (ground arith, ground arith)
    | inr e ↦
        let (xs, found, end) =
          >>=-eq-ok (look_up inv (range (value c +ℤ pos 1) (value t))) _ (rw e at h) in
        let same : n ≡ t = cc in inr (xs, rw same (ground arith))
  ]

module _ {S : Type 0} (progress : S → S → Result (S × List S)) where
  -- A run over several targets: the last state, and all states passed.
  unfoldable pub run_steps : S → List S → Result (S × List S)
  run_steps c [] = ok (c, [])
  run_steps c (t ∷ ts) = do
    first ← progress c t
    rest ← run_steps first.0 ts
    ok (rest.0, first.1 ++ rest.1)

module _ {S : Type 0} (value : S → ℤ) (progress : S → S → Result (S × List S))
    (values : (c t n : S) (passed : List S)
      → progress c t ≡ ok (n, passed)
      → map value passed ≡ range (value c +ℤ pos 1) (value n +ℤ pos 1))
    (le : (c t n : S) (passed : List S) → progress c t ≡ ok (n, passed) → value c ≤ℤ value n) where
  pub run_steps-values :
      (c : S) (ts : List S) (n : S) (passed : List S)
      → run_steps progress c ts ≡ ok (n, passed)
      → (map value passed ≡ range (value c +ℤ pos 1) (value n +ℤ pos 1)) × (value c ≤ℤ value n)
  unfolding run_steps
  run_steps-values c [] n passed h =
      let p : passed ≡ [] = ground arith in
      let q : n ≡ c = ground arith in rw (p, q) (rw range_empty refl, omega arith)
  run_steps-values c (t ∷ ts) n passed h =
      let (first, e, h') = >>=-eq-ok (progress c t) _ h in
      let (rest, f, g) = >>=-eq-ok (run_steps progress first.0 ts) _ h' in
      let p : passed ≡ first.1 ++ rest.1 = ground arith in
      let q : n ≡ rest.0 = ground arith in
      let (ih, up) = run_steps-values first.0 ts rest.0 rest.1 f in
      let step = le c t first.0 first.1 e in
      rw (p, q)
        (
          map-append value first.1 rest.1
              ∙ ap₂ ◌++◌ (values c t first.0 first.1 e) ih
              ∙ range-append (value c +ℤ pos 1) (value first.0 +ℤ pos 1) (value rest.0 +ℤ pos 1)
                  (add_one_mono _ _ step) (add_one_mono _ _ up),
          omega arith,
        )
