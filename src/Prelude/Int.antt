-- ===== src/Prelude/Int.antt =====
-- Signed integers over the native numbers, and Python's `range` on them.
use Prim.Native.Nat.{ℕ, zero, suc, ◌+◌, ◌-◌, ◌≤◌, compare, Ordering}
use mathlib.Core.Path.{◌≡◌, sym, subst}
use mathlib.Core.Bool.{Bool, true, false}
use mathlib.Core.List.{List, [], ◌∷◌, ◌++◌}
use native.Mathlib.Omega.{arith}

-- `negsuc n` is -(n + 1).
pub data ℤ : Type 0 where
  pos : ℕ → ℤ
  negsuc : ℕ → ℤ

abbrev pub pos_part : ℤ → ℕ
pos_part (pos n) = n
pos_part (negsuc n) = 0

abbrev pub neg_part : ℤ → ℕ
neg_part (pos n) = 0
neg_part (negsuc n) = suc n

-- a - b, as an integer.
abbrev pub sub_ℕ : ℕ → ℕ → ℤ
sub_ℕ a b = elim (compare a b) [ Ordering.lt ↦ negsuc (b - a - 1) | _ ↦ pos (a - b) ]

infixl 65 ◌+ℤ◌ ◌-ℤ◌
infix 50 ◌≤ℤ◌
unfoldable pub ◌+ℤ◌ : ℤ → ℤ → ℤ
a +ℤ b = sub_ℕ (pos_part a + pos_part b) (neg_part a + neg_part b)

unfoldable pub ◌-ℤ◌ : ℤ → ℤ → ℤ
a -ℤ b = sub_ℕ (pos_part a + neg_part b) (neg_part a + pos_part b)

abbrev pub ◌≤ℤ◌ : ℤ → ℤ → Type 0
a ≤ℤ b = pos_part a + neg_part b ≤ pos_part b + neg_part a

abbrev pub ltb_ℤ : ℤ → ℤ → Bool
ltb_ℤ a b = elim (compare (pos_part a + neg_part b) (pos_part b + neg_part a)) [
  | Ordering.lt ↦ true
  | _ ↦ false
]

abbrev pub leb_ℤ : ℤ → ℤ → Bool
leb_ℤ a b = elim (compare (pos_part a + neg_part b) (pos_part b + neg_part a)) [
  | Ordering.gt ↦ false
  | _ ↦ true
]

-- One lemma for each operation lets `omega` work with the operations shut.
pub +ℤ_parts :
    (a b : ℤ)
    → pos_part (a +ℤ b) + neg_part a + neg_part b ≡ neg_part (a +ℤ b) + pos_part a + pos_part b
unfolding ◌+ℤ◌
+ℤ_parts a b = ground arith

pub -ℤ_parts :
    (a b : ℤ)
    → pos_part (a -ℤ b) + neg_part a + pos_part b ≡ neg_part (a -ℤ b) + pos_part a + neg_part b
unfolding ◌-ℤ◌
-ℤ_parts a b = ground arith

pub eq_of_parts : (a b : ℤ) → pos_part a + neg_part b ≡ pos_part b + neg_part a → a ≡ b
eq_of_parts a b h = ground arith

pub ruleset int_laws = (arith, +ℤ_parts, -ℤ_parts, eq_of_parts)

pub ≤ℤ_of_eq : {a b : ℤ} → a ≡ b → (a ≤ℤ b) × (b ≤ℤ a)
≤ℤ_of_eq e = rw e (omega arith, omega arith)

pub add_one_mono : (a b : ℤ) → a ≤ℤ b → a +ℤ pos 1 ≤ℤ b +ℤ pos 1
add_one_mono a b h = omega int_laws

-- A difference that is no less than zero is the distance.
pub -ℤ_distance :
    (a b : ℤ) → a ≤ℤ b → pos_part (b -ℤ a) + pos_part a + neg_part b ≡ pos_part b + neg_part a
unfolding ◌-ℤ◌
-ℤ_distance a b h = ground arith

-- `range(a, b)`.
range_from : ℕ → ℤ → List ℤ
range_from zero a = []
range_from (suc n) a = a ∷ range_from n (a +ℤ pos 1)

unfoldable pub range : ℤ → ℤ → List ℤ
unfolding range_from ◌+ℤ◌ ◌-ℤ◌
range a b = range_from (pos_part (b -ℤ a)) a

range_from-snoc : (n : ℕ) (a : ℤ) → range_from n a ++ (a +ℤ pos n) ∷ [] ≡ range_from (suc n) a
unfolding range_from
range_from-snoc zero a = let e : a +ℤ pos 0 ≡ a = omega int_laws in rw e
range_from-snoc (suc n) a =
    let e : a +ℤ pos (suc n) ≡ (a +ℤ pos 1) +ℤ pos n = omega int_laws in
    rw (e, range_from-snoc n (a +ℤ pos 1))

-- A range is extended by its upper end.
pub range-snoc : (a b : ℤ) → a ≤ℤ b → range a b ++ b ∷ [] ≡ range a (b +ℤ pos 1)
unfolding range
range-snoc a b h =
    let d = -ℤ_distance a b h in
    let last : a +ℤ pos (pos_part (b -ℤ a)) ≡ b = omega (int_laws, d) in
    let longer : pos_part (b +ℤ pos 1 -ℤ a) ≡ suc (pos_part (b -ℤ a)) =
      omega (int_laws, d, -ℤ_distance a (b +ℤ pos 1)) in
    rw longer (rw last at (range_from-snoc (pos_part (b -ℤ a)) a))

pub range_empty : (a : ℤ) → range a a ≡ []
unfolding range
range_empty a = let e : pos_part (a -ℤ a) ≡ 0 = omega (int_laws, -ℤ_distance a a) in rw e

-- Two ranges that meet make one.
range_from-append :
    (m n : ℕ) (a : ℤ) → range_from m a ++ range_from n (a +ℤ pos m) ≡ range_from (m + n) a
unfolding range_from
range_from-append zero n a =
    let e : a +ℤ pos 0 ≡ a = omega int_laws in let z : 0 + n ≡ n = omega arith in rw (e, z)
range_from-append (suc m) n a =
    let e : a +ℤ pos (suc m) ≡ (a +ℤ pos 1) +ℤ pos m = omega int_laws in
    let s : suc m + n ≡ suc (m + n) = omega arith in rw (e, s, range_from-append m n (a +ℤ pos 1))

pub range-append : (a b c : ℤ) → a ≤ℤ b → b ≤ℤ c → range a b ++ range b c ≡ range a c
unfolding range
range-append a b c h k =
    let mid : b ≡ a +ℤ pos (pos_part (b -ℤ a)) = omega (int_laws, -ℤ_distance a b h) in
    let all : pos_part (c -ℤ a) ≡ pos_part (b -ℤ a) + pos_part (c -ℤ b) =
      omega (int_laws, -ℤ_distance a b h, -ℤ_distance b c k, -ℤ_distance a c) in
    rw all (
      subst
        (λ z.
          range_from (pos_part (b -ℤ a)) a ++ range_from (pos_part (c -ℤ b)) z
          ≡ range_from (pos_part (b -ℤ a) + pos_part (c -ℤ b)) a)
        (sym mid) (range_from-append (pos_part (b -ℤ a)) (pos_part (c -ℤ b)) a))

-- Each value is by one larger than the one before it; the first follows `v`.
abbrev pub Ascends : ℤ → List ℤ → Type 0
Ascends v [] = Unit
Ascends v (x ∷ xs) = (x ≡ v +ℤ pos 1) × Ascends x xs

range_from-Ascends : (n : ℕ) (v : ℤ) → Ascends v (range_from n (v +ℤ pos 1))
unfolding range_from
range_from-Ascends zero v = tt
range_from-Ascends (suc n) v = (λ i. v +ℤ pos 1, range_from-Ascends n (v +ℤ pos 1))

pub range-Ascends : (v w : ℤ) → Ascends v (range (v +ℤ pos 1) w)
unfolding range
range-Ascends v w = range_from-Ascends (pos_part (w -ℤ (v +ℤ pos 1))) v
