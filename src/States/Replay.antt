-- ===== src/States/Replay.antt =====
-- The replay of the states passed, by the managers' `_update_tasks` and `_update_pilot` and by the
-- `_update` methods of tasks and pilots (src/radical/pilot: task_manager.py, pilot_manager.py, task.py,
-- pilot.py). It stands twice in the source; here the states are an argument.
use radical_pilot.Prelude.{
  ℤ, pos, ◌+ℤ◌, ◌-ℤ◌, leb_ℤ, ◌≤ℤ◌, ≤ℤ_of_eq, int_laws, arith, Ascends, ◌≡◌, refl, ◌⊎◌, inl, inr,
  Bool, true, ◌&&◌, Bool-cases, if◌then◌else◌, List, [], ◌∷◌, ◌++◌, map, Result, ok, raise,
  runtime_error, ◌>>=◌,
}

-- `d == 1`
abbrev is_one : ℤ → Bool
is_one d = leb_ℤ d (pos 1) && leb_ℤ (pos 1) d

-- `passed[-1:]`
unfoldable pub last_one {ℓ} : {S : Type ℓ} → List S → List S
last_one [] = []
last_one (x ∷ []) = x ∷ []
last_one (x ∷ y ∷ xs) = last_one (y ∷ xs)

-- The last state, or the first one where none follows.
unfoldable pub last_or {ℓ} : {S : Type ℓ} → S → List S → S
last_or s [] = s
last_or s (x ∷ xs) = last_or x xs

last_one-snoc {ℓ} : {S : Type ℓ} (xs : List S) (x : S) → last_one (xs ++ x ∷ []) ≡ x ∷ []
unfolding last_one
last_one-snoc [] x = refl
last_one-snoc (y ∷ []) x = refl
last_one-snoc (y ∷ z ∷ xs) x = last_one-snoc (z ∷ xs) x

last_or-snoc {ℓ} : {S : Type ℓ} (s : S) (xs : List S) (x : S) → last_or s (xs ++ x ∷ []) ≡ x
unfolding last_or
last_or-snoc s [] x = refl
last_or-snoc s (y ∷ xs) x = last_or-snoc y xs x

one_more : (v : ℤ) → (v +ℤ pos 1) -ℤ v ≡ pos 1
one_more v = omega int_laws

module _ {S : Type 0} (value : S → ℤ) (unchecked : S → Bool) where
  -- The check of a transition: a state in `[FAILED, CANCELED]` is taken from any state.
  unfoldable pub move_to : S → S → Result S
  move_to current target =
      if unchecked target
      then ok target
      else if is_one (value target -ℤ value current)
      then ok target
      else raise runtime_error

  -- The states that are replayed on the way to a new state.
  unfoldable pub shown : S → List S → List S
  shown new passed = if unchecked new then last_one passed else passed

  unfoldable pub follow : S → List S → Result S
  follow s [] = ok s
  follow s (x ∷ xs) = do s' ← move_to s x; follow s' xs

  move_to-next : (s x : S) → value x ≡ value s +ℤ pos 1 → move_to s x ≡ ok x
  unfolding move_to
  move_to-next s x h =
      let one : value x -ℤ value s ≡ pos 1 = rw h (one_more (value s)) in
      elim (Bool-cases (unchecked x)) [ inl e ↦ rw e refl | inr e ↦ rw e (rw one refl) ]

  follow-Ascends :
      (s : S) (xs : List S) → Ascends (value s) (map value xs) → follow s xs ≡ ok (last_or s xs)
  unfolding follow last_or
  follow-Ascends s [] h = refl
  follow-Ascends s (x ∷ xs) h = rw (move_to-next s x h.0) (follow-Ascends x xs h.1)

  move_to-unchecked : (s n : S) → unchecked n ≡ true → follow s (n ∷ []) ≡ ok n
  unfolding follow move_to
  move_to-unchecked s n e = rw e refl

  follow-last :
      (s n : S) (passed : List S)
      → unchecked n ≡ true
      → (passed ≡ []) ⊎ ((xs : List S) × (passed ≡ xs ++ n ∷ []))
      → follow s (last_one passed) ≡ ok (last_or s passed)
  follow-last s n passed e (inl z) = rw z (unfold follow last_one last_or in refl)
  follow-last s n passed e (inr (xs, z)) =
      rw (z, last_one-snoc xs n, last_or-snoc s xs n) (move_to-unchecked s n e)

  -- The states shown are all taken.
  pub follow-shown :
      (s n : S) (passed : List S)
      → Ascends (value s) (map value passed)
      → (passed ≡ []) ⊎ ((xs : List S) × (passed ≡ xs ++ n ∷ []))
      → follow s (shown n passed) ≡ ok (last_or s passed)
  unfolding shown
  follow-shown s n passed h ends = elim (Bool-cases (unchecked n)) [
    | inr e ↦ rw e (follow-Ascends s passed h)
    | inl e ↦ rw e (follow-last s n passed e ends)
  ]

  last_or-last_one : (s : S) (xs : List S) → last_or s (last_one xs) ≡ last_or s xs
  unfolding last_or last_one
  last_or-last_one s [] = refl
  last_or-last_one s (x ∷ []) = refl
  last_or-last_one s (x ∷ y ∷ xs) = last_or-last_one s (y ∷ xs)

  pub last_or-shown : (s n : S) (passed : List S) → last_or s (shown n passed) ≡ last_or s passed
  unfolding shown
  last_or-shown s n passed = elim (Bool-cases (unchecked n)) [
    | inl e ↦ rw e (last_or-last_one s passed)
    | inr e ↦ rw e refl
  ]

module _ {S : Type 0} (value : S → ℤ) (progress : S → S → Result (S × List S))
    (latest : (c t n : S) (passed : List S)
      → progress c t ≡ ok (n, passed)
      → (value c ≤ℤ value n) × (value t ≤ℤ value n) × ((n ≡ c) ⊎ (n ≡ t)))
    (ends : (c t n : S) (passed : List S)
      → progress c t ≡ ok (n, passed)
      → (passed ≡ []) × ((n ≡ c) ⊎ (value c ≡ value t))
        ⊎ ((xs : List S) × (passed ≡ xs ++ n ∷ []))) where
  -- The last state passed is not before either state, and is one of them.
  pub last_passed :
      (c t n : S) (passed : List S)
      → progress c t ≡ ok (n, passed)
      → (value c ≤ℤ value (last_or c passed))
        × (value t ≤ℤ value (last_or c passed))
        × ((last_or c passed ≡ c) ⊎ (last_or c passed ≡ t))
  unfolding last_or
  last_passed c t n passed h =
      let (low, high, one) = latest c t n passed h in
      elim (ends c t n passed h) [
        | inl (z, w) ↦ elim w [
          | inl e ↦ rw z (omega arith, (rw e at high), inl refl)
          | inr e ↦ rw z (omega arith, (≤ℤ_of_eq e).1, inl refl)
        ]
        | inr (xs, z) ↦ rw (z, last_or-snoc c xs n) (low, high, one)
      ]

module _ {S : Type 0} (value : S → ℤ) (progress : S → S → Result (S × List S))
    (ends : (c t n : S) (passed : List S)
      → progress c t ≡ ok (n, passed)
      → (passed ≡ []) × ((n ≡ c) ⊎ (value c ≡ value t))
        ⊎ ((xs : List S) × (passed ≡ xs ++ n ∷ []))) where
  pub passed_ends :
      (c t n : S) (passed : List S)
      → progress c t ≡ ok (n, passed)
      → (passed ≡ []) ⊎ ((xs : List S) × (passed ≡ xs ++ n ∷ []))
  passed_ends c t n passed h = elim (ends c t n passed h) [ inl (z, w) ↦ inl z | inr w ↦ inr w ]
