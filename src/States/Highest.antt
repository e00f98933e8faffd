-- ===== src/States/Highest.antt =====
-- The loop of the two `collapse` functions of src/radical/pilot/states.py: the first state of the
-- highest value. It stands twice in the source; here it takes the table of values as an argument.
use radical_pilot.Prelude.{
  ℤ, ◌≡◌, refl, ◌∙◌, Bool, true, false, ◌||◌, if◌then◌else◌, List, [], ◌∷◌, Option, some, ltb_ℤ,
  ◌≤ℤ◌, ◌⊎◌, inl, inr, All, Any, arith,
}

module _ {S : Type 0} where
  -- `state in states`, by the test for the state.
  unfoldable pub any_state : (Option S → Bool) → List S → Bool
  any_state test [] = false
  any_state test (s ∷ states) = test (some s) || any_state test states

module _ {S : Type 0} (value : Option S → ℤ) where
  unfoldable pub highest : Option S → List S → Option S
  highest ret [] = ret
  highest ret (s ∷ states) =
      highest (if ltb_ℤ (value ret) (value (some s)) then some s else ret) states

  abbrev higher : Option S → S → Option S
  higher ret s = if ltb_ℤ (value ret) (value (some s)) then some s else ret

  higher-le :
      (ret : Option S) (s : S)
      → (value ret ≤ℤ value (higher ret s)) × (value (some s) ≤ℤ value (higher ret s))
  higher-le ret s = ground arith

  higher_cases : (ret : Option S) (s : S) → (higher ret s ≡ ret) ⊎ (higher ret s ≡ some s)
  higher_cases ret s = ground arith

  pub highest-le :
      (ret : Option S) (states : List S)
      → (value ret ≤ℤ value (highest ret states))
        × All (λ s. value (some s) ≤ℤ value (highest ret states)) states
  unfolding highest
  highest-le ret [] = (omega arith, tt)
  highest-le ret (s ∷ states) =
      let (low, rest) = highest-le (higher ret s) states in
      let (old, this) = higher-le ret s in (omega arith, (omega arith, rest))

  pub highest-mem :
      (ret : Option S) (states : List S)
      → (highest ret states ≡ ret) ⊎ Any (λ s. highest ret states ≡ some s) states
  unfolding highest
  highest-mem ret [] = inl refl
  highest-mem ret (s ∷ states) = elim (highest-mem (higher ret s) states) [
    | inl e ↦ elim (higher_cases ret s) [ inl f ↦ inl (e ∙ f) | inr f ↦ inr (inl (e ∙ f)) ]
    | inr m ↦ inr (inr m)
  ]

module _ {S : Type 0} where
  pub any_state-mem :
      (test : Option S → Bool) (states : List S)
      → any_state test states ≡ true
      → Any (λ s. test (some s) ≡ true) states
  unfolding any_state
  any_state-mem test [] h = cc
  any_state-mem test (s ∷ states) h = ground (arith, any_state-mem test states)

  pub any_state-All :
      (test : Option S → Bool) (states : List S)
      → any_state test states ≡ false
      → All (λ s. test (some s) ≡ false) states
  unfolding any_state
  any_state-All test [] h = tt
  any_state-All test (s ∷ states) h = ground (arith, any_state-All test states)
