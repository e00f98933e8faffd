-- ===== src/Components/Buckets.antt =====
-- The buckets of src/radical/pilot/utils/component.py: things sorted by a key into a dictionary of
-- lists, in the order in which the keys are first met.
use radical_pilot.Prelude.{
  Bool, true, false, Bool-cases, is_yes_of, same, same-eq, same_apart, if◌then◌else◌, List, [], ◌∷◌,
  ◌++◌, append-nil, append_assoc, All, All-append, ◌≡◌, refl, sym, ap, inl, inr,
}

module _ {T : Type 0} where
  -- The members of a list that pass a test.
  unfoldable pub keep : (T → Bool) → List T → List T
  keep p [] = []
  keep p (x ∷ xs) = let rest = keep p xs in if p x then x ∷ rest else rest

  pub keep-append : (p : T → Bool) (xs ys : List T) → keep p (xs ++ ys) ≡ keep p xs ++ keep p ys
  unfolding keep
  keep-append p [] ys = refl
  keep-append p (x ∷ xs) ys = elim (Bool-cases (p x)) [
    | inl e ↦ rw (e, keep-append p xs ys) refl
    | inr e ↦ rw (e, keep-append p xs ys) refl
  ]

module _ {S T : Type 0} where
  -- The buckets of the states that pass a test, laid end to end.
  unfoldable pub spread : (S → Bool) → List (S × List T) → List T
  spread p [] = []
  spread p ((s, xs) ∷ d) = let rest = spread p d in if p s then xs ++ rest else rest

module _ {S T : Type 0} (dec : Discrete S) (key : T → S) where
  -- `if state not in buckets: buckets[state] = list()` and `buckets[state].append(thing)`
  unfoldable pub add_to : T → List (S × List T) → List (S × List T)
  add_to x [] = (key x, x ∷ []) ∷ []
  add_to x ((s, xs) ∷ d) =
      let rest = add_to x d in if same dec s (key x) then (s, xs ++ x ∷ []) ∷ d else (s, xs) ∷ rest

  unfoldable pub sort_into : List T → List (S × List T) → List (S × List T)
  sort_into [] d = d
  sort_into (x ∷ xs) d = sort_into xs (add_to x d)

  -- `buckets.get(s, [])`
  unfoldable pub bucket : S → List (S × List T) → List T
  bucket s [] = []
  bucket s ((t, xs) ∷ d) = let rest = bucket s d in if same dec t s then xs else rest

  abbrev pub in_state : S → T → Bool
  in_state s x = same dec (key x) s

  bucket-add_to :
      (s : S) (x : T) (d : List (S × List T))
      → bucket s (add_to x d) ≡ bucket s d ++ keep (in_state s) (x ∷ [])
  unfolding bucket add_to keep
  bucket-add_to s x [] = refl
  bucket-add_to s x ((t, xs) ∷ d) = elim (Bool-cases (same dec t (key x))) [
    | inl e ↦
        let one : t ≡ key x = same-eq dec t (key x) e in
        elim (Bool-cases (same dec t s)) [
          | inl f ↦ let g : same dec (key x) s ≡ true = cc in rw (e, f, g) refl
          | inr f ↦
              let g : same dec (key x) s ≡ false = cc in
              rw (e, f, g) (sym (append-nil (bucket s d)))
        ]
    | inr e ↦ elim (Bool-cases (same dec t s)) [
      | inl f ↦ rw (e, f, same_apart dec t (key x) s e f) (sym (append-nil xs))
      | inr f ↦ rw (e, f) (bucket-add_to s x d)
    ]
  ]

  pub bucket-sort_into :
      (s : S) (xs : List T) (d : List (S × List T))
      → bucket s (sort_into xs d) ≡ bucket s d ++ keep (in_state s) xs
  unfolding sort_into keep
  bucket-sort_into s [] d = sym (append-nil (bucket s d))
  bucket-sort_into s (x ∷ xs) d = elim (Bool-cases (in_state s x)) [
    | inl e ↦
        rw (bucket-sort_into s xs (add_to x d), bucket-add_to s x d, e)
          (append_assoc (bucket s d) (x ∷ []) (keep (in_state s) xs))
    | inr e ↦
        rw (bucket-sort_into s xs (add_to x d), bucket-add_to s x d, e)
          (ap (λ ys. ys ++ keep (in_state s) xs) (append-nil (bucket s d)))
  ]

  -- Each bucket holds things of its own state, and no state has two buckets.
  abbrev pub Keyed : List (S × List T) → Type 0
  Keyed [] = Unit
  Keyed ((t, xs) ∷ d) = All (λ x. in_state t x ≡ true) xs × (bucket t d ≡ []) × Keyed d

  not_in_state : (t : S) (x : T) → same dec t (key x) ≡ false → in_state t x ≡ false
  not_in_state t x e = elim (Bool-cases (in_state t x)) [
    | inr f ↦ f
    | inl f ↦
        let two : same dec t (key x) ≡ true =
          is_yes_of (dec t (key x)) (sym (same-eq dec (key x) t f)) in
        cc
  ]

  add_to-bucket_nil :
      (t : S) (x : T) (d : List (S × List T))
      → same dec t (key x) ≡ false
      → bucket t d ≡ []
      → bucket t (add_to x d) ≡ []
  unfolding keep
  add_to-bucket_nil t x d e h = rw (bucket-add_to t x d, h, not_in_state t x e) refl

  add_to-Keyed : (x : T) (d : List (S × List T)) → Keyed d → Keyed (add_to x d)
  unfolding add_to bucket
  add_to-Keyed x [] h = ((is_yes_of (dec (key x) (key x)) refl, tt), refl, tt)
  add_to-Keyed x ((t, xs) ∷ d) h = elim (Bool-cases (same dec t (key x))) [
    | inl e ↦
        let one : in_state t x ≡ true = is_yes_of (dec (key x) t) (sym (same-eq dec t (key x) e)) in
        rw e (All-append _ xs (x ∷ []) h.0 (one, tt), h.1, h.2)
    | inr e ↦ rw e (h.0, add_to-bucket_nil t x d e h.1, add_to-Keyed x d h.2)
  ]

  pub sort_into-Keyed : (xs : List T) (d : List (S × List T)) → Keyed d → Keyed (sort_into xs d)
  unfolding sort_into
  sort_into-Keyed [] d h = h
  sort_into-Keyed (x ∷ xs) d h = sort_into-Keyed xs (add_to x d) (add_to-Keyed x d h)

  keep-All : (s : S) (xs : List T) → All (λ x. in_state s x ≡ true) xs → keep (in_state s) xs ≡ xs
  unfolding keep
  keep-All s [] h = refl
  keep-All s (x ∷ xs) h = rw (h.0) (ap (λ ys. x ∷ ys) (keep-All s xs h.1))

  in_state_apart :
      (t s : S) (x : T) → in_state t x ≡ true → same dec t s ≡ false → in_state s x ≡ false
  in_state_apart t s x h e = elim (Bool-cases (in_state s x)) [
    | inr f ↦ f
    | inl f ↦
        let one : t ≡ s = cc (same-eq dec (key x) t h, same-eq dec (key x) s f) in
        let two : same dec t s ≡ true = is_yes_of (dec t s) one in cc
  ]

  keep_none :
      (t s : S) (xs : List T)
      → All (λ x. in_state t x ≡ true) xs
      → same dec t s ≡ false
      → keep (in_state s) xs ≡ []
  unfolding keep
  keep_none t s [] h e = refl
  keep_none t s (x ∷ xs) h e = rw (in_state_apart t s x h.0 e) (keep_none t s xs h.1 e)

  -- They hold, of each such state, what its bucket holds, and nothing else.
  pub keep-spread :
      (p : S → Bool) (s : S) (d : List (S × List T))
      → Keyed d
      → keep (in_state s) (spread p d) ≡ (if p s then bucket s d else [])
  unfolding spread bucket keep
  keep-spread p s [] h = elim (Bool-cases (p s)) [ inl e ↦ rw e refl | inr e ↦ rw e refl ]
  keep-spread p s ((t, xs) ∷ d) h = elim (Bool-cases (same dec t s)) [
    | inl e ↦
        let one : t ≡ s = same-eq dec t s e in
        let two : bucket s d ≡ [] = rw (sym one) (h.1) in
        let own : keep (in_state s) xs ≡ xs = rw (sym one) (keep-All t xs h.0) in
        elim (Bool-cases (p s)) [
          | inl f ↦
              let f' : p t ≡ true = rw one f in
              rw
                (
                  f,
                  f',
                  e,
                  keep-append (in_state s) xs (spread p d),
                  own,
                  keep-spread p s d h.2,
                  f,
                  two,
                )
                (append-nil xs)
          | inr f ↦ let f' : p t ≡ false = rw one f in rw (f, f', keep-spread p s d h.2, f) refl
        ]
    | inr e ↦ elim (Bool-cases (p t)) [
      | inl f ↦
          rw (f, e, keep-append (in_state s) xs (spread p d), keep_none t s xs h.0 e)
            (keep-spread p s d h.2)
      | inr f ↦ rw (f, e) (keep-spread p s d h.2)
    ]
  ]
