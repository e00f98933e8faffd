-- ===== src/Prelude/Tests.antt =====
-- Boolean tests on the native numbers, the conditional, and case splits that keep an equation.
use Prim.Native.Nat.{ℕ, ◌≤◌, ◌<◌, compare, Ordering}
use mathlib.Core.Path.{◌≡◌, refl}
use mathlib.Core.Logic.{◌↔◌, ◌≢◌, ◌⊎◌, inl, inr}
use mathlib.Core.Bool.{Bool, true, false}
use mathlib.Core.Option.{Option, none, some}
use native.Mathlib.Omega.{arith}

abbrev pub ltb : ℕ → ℕ → Bool
ltb a b = elim (compare a b) [ Ordering.lt ↦ true | _ ↦ false ]

abbrev pub leb : ℕ → ℕ → Bool
leb a b = elim (compare a b) [ Ordering.gt ↦ false | _ ↦ true ]

infix 50 ◌==◌
abbrev pub ◌==◌ : ℕ → ℕ → Bool
a == b = elim (compare a b) [ Ordering.eq ↦ true | _ ↦ false ]

infix 1 if◌then◌else◌
abbrev pub if◌then◌else◌ {ℓ} : {A : Type ℓ} → Bool → A → A → A
if true then x else y = x
if false then x else y = y

pub ltb→lt : (a b : ℕ) → ltb a b ≡ true → a < b
ltb→lt a b h = ground arith

pub lt→ltb : (a b : ℕ) → a < b → ltb a b ≡ true
lt→ltb a b h = ground arith

pub leb→le : (a b : ℕ) → leb a b ≡ true → a ≤ b
leb→le a b h = ground arith

pub ==_iff : (a b : ℕ) → ((a == b) ≡ true) ↔ (a ≡ b)
==_iff a b = ground arith

pub ==_refl : (a : ℕ) → (a == a) ≡ true
==_refl a = ground arith

pub ==_of_ne : (a b : ℕ) → a ≢ b → (a == b) ≡ false
==_of_ne a b h = ground arith

pub Bool-cases : (b : Bool) → (b ≡ true) ⊎ (b ≡ false)
Bool-cases true = inl refl
Bool-cases false = inr refl

pub Option-cases {ℓ} : {A : Type ℓ} (o : Option A) → (o ≡ none) ⊎ ((a : A) × (o ≡ some a))
Option-cases none = inl refl
Option-cases (some a) = inr (a, refl)

-- The truth value of an optional value is that it is there.
abbrev pub is_some {ℓ} : {A : Type ℓ} → Option A → Bool
is_some none = false
is_some (some a) = true

-- To prove a predicate of a conditional, with the test's value in each branch.
pub if_ind {ℓ κ} :
    {A : Type ℓ} (P : A → Type κ) (b : Bool) {x y : A}
    → (b ≡ true → P x)
    → (b ≡ false → P y)
    → P (if b then x else y)
if_ind P true p q = p refl
if_ind P false p q = q refl

module _ {ℓ} {P : Type ℓ} where
  abbrev pub is_yes : Dec P → Bool
  is_yes (yes p) = true
  is_yes (no f) = false

  pub is_yes_of : (d : Dec P) → P → is_yes d ≡ true
  is_yes_of (yes p) q = refl
  is_yes_of (no f) q = absurd (f q)

  pub of-is_yes : (d : Dec P) → is_yes d ≡ true → P
  of-is_yes (yes p) h = p
  of-is_yes (no f) h = cc

module _ {S : Type 0} (dec : Discrete S) where
  -- `a == b`
  abbrev pub same : S → S → Bool
  same a b = is_yes (dec a b)

  pub same-eq : (a b : S) → same a b ≡ true → a ≡ b
  same-eq a b h = of-is_yes (dec a b) h

  pub same_apart : (t k s : S) → same t k ≡ false → same t s ≡ true → same k s ≡ false
  same_apart t k s h e = elim (Bool-cases (same k s)) [
    | inr f ↦ f
    | inl f ↦
        let one : t ≡ k = cc (same-eq t s e, same-eq k s f) in
        let two : same t k ≡ true = is_yes_of (dec t k) one in cc
  ]
