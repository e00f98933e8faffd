-- ===== src/Prelude/Dicts.antt =====
-- Dictionaries with numbers as keys, in the order of their first insertion as in Python.
use radical_pilot.Prelude.Tests.{◌==◌, ==_refl, ==_iff, Bool-cases, if◌then◌else◌}
use radical_pilot.Prelude.Lists.{All}
use Prim.Native.Nat.{ℕ}
use mathlib.Core.Path.{◌≡◌, refl}
use mathlib.Core.Logic.{inl, inr}
use mathlib.Core.Bool.{false}
use mathlib.Core.Option.{Option, none, some}
use mathlib.Core.List.{List, [], ◌∷◌}

module _ {ℓ} {V : Type ℓ} where
  -- `d.get(k)`; `k in d` is that something is found.
  unfoldable pub find : ℕ → List (ℕ × V) → Option V
  find k [] = none
  find k ((j, v) ∷ d) = if j == k then some v else find k d

  -- `d[k] = v`
  unfoldable pub put : ℕ → V → List (ℕ × V) → List (ℕ × V)
  put k v [] = (k, v) ∷ []
  put k v ((j, w) ∷ d) = if j == k then (j, v) ∷ d else (j, w) ∷ put k v d

  -- A property of all values.
  abbrev pub Values {κ} : (V → Type κ) → List (ℕ × V) → Type κ
  Values P d = All (λ (x : ℕ × V). P x.1) d

  abbrev pub Holds {κ} : (V → Type κ) → Option V → Type κ
  Holds P none = Unit
  Holds P (some v) = P v

  pub find-Holds {κ} : (P : V → Type κ) (k : ℕ) (d : List (ℕ × V)) → Values P d → Holds P (find k d)
  unfolding find
  find-Holds P k [] h = tt
  find-Holds P k ((j, w) ∷ d) h = elim (Bool-cases (j == k)) [
    | inl t ↦ rw t (h.0)
    | inr t ↦ rw t (find-Holds P k d h.1)
  ]

  pub put-Values {κ} :
      (P : V → Type κ) (k : ℕ) (v : V) (d : List (ℕ × V)) → P v → Values P d → Values P (put k v d)
  unfolding put
  put-Values P k v [] p h = (p, tt)
  put-Values P k v ((j, w) ∷ d) p h = elim (Bool-cases (j == k)) [
    | inl t ↦ rw t (p, h.1)
    | inr t ↦ rw t (h.0, put-Values P k v d p h.1)
  ]

  pub find-put_same : (k : ℕ) (v : V) (d : List (ℕ × V)) → find k (put k v d) ≡ some v
  unfolding find put
  find-put_same k v [] = rw (==_refl k) refl
  find-put_same k v ((j, w) ∷ d) = elim (Bool-cases (j == k)) [
    | inl t ↦ rw (t, t) refl
    | inr t ↦ rw (t, t) (find-put_same k v d)
  ]

  pub find-put_other :
      (k u : ℕ) (v : V) (d : List (ℕ × V)) → (k == u) ≡ false → find u (put k v d) ≡ find u d
  unfolding find put
  find-put_other k u v [] h = rw h refl
  find-put_other k u v ((j, w) ∷ d) h = elim (Bool-cases (j == k)) [
    | inl t ↦
        let p : j ≡ k = (==_iff j k).0 t in let f : (j == u) ≡ false = rw p h in rw (t, f) refl
    | inr t ↦ elim (Bool-cases (j == u)) [
      | inl f ↦ rw (t, f) refl
      | inr f ↦ rw (t, f) (find-put_other k u v d h)
    ]
  ]
