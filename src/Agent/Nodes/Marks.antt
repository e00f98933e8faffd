-- ===== src/Agent/Nodes/Marks.antt =====
-- Writes of marks, total and in any order: what stands at an index after a row of writes.
use radical_pilot.Prelude.{
  ℕ, zero, suc, ◌<◌, ◌≡◌, refl, ap, Bool, true, false, ◌||◌, ◌==◌, if◌then◌else◌, List, [], ◌∷◌,
  ◌++◌, length, get_elem?, All, some, ok, arith, ◌∙◌, sym,
}
use radical_pilot.Agent.Nodes.{Mark, free, busy, set, mark_all}

-- `mark_all` without its range check.
unfoldable pub write : List Mark → List ℕ → Mark → List Mark
write marks [] v = marks
write marks (i ∷ is) v = write (set marks i v) is v

-- `i in is`
unfoldable pub elem : ℕ → List ℕ → Bool
elem i [] = false
elem i (j ∷ js) = i == j || elem i js

pub length-set : (marks : List Mark) (i : ℕ) (v : Mark) → length (set marks i v) ≡ length marks
unfolding set
length-set [] i v = refl
length-set (m ∷ ms) zero v = refl
length-set (m ∷ ms) (suc i) v = ap suc (length-set ms i v)

pub length-write :
    (marks : List Mark) (is : List ℕ) (v : Mark) → length (write marks is v) ≡ length marks
unfolding write
length-write marks [] v = refl
length-write marks (i ∷ is) v = length-write (set marks i v) is v ∙ length-set marks i v

pub write-append :
    (marks : List Mark) (is js : List ℕ) (v : Mark)
    → write marks (is ++ js) v ≡ write (write marks is v) js v
unfolding write
write-append marks [] js v = refl
write-append marks (i ∷ is) js v = write-append (set marks i v) is js v

abbrev pub InRange : List Mark → List ℕ → Type 0
InRange marks is = All (λ i. i < length marks) is

pub InRange-length :
    (xs ys : List Mark) (is : List ℕ) → length xs ≡ length ys → InRange xs is → InRange ys is
InRange-length xs ys [] e h = tt
InRange-length xs ys (i ∷ is) e h = (omega arith, InRange-length xs ys is e h.1)

pub mark_all-write :
    (marks : List Mark) (is : List ℕ) (v : Mark)
    → InRange marks is
    → mark_all marks is v ≡ ok (write marks is v)
unfolding mark_all write
mark_all-write marks [] v h = refl
mark_all-write marks (i ∷ is) v h = ground (
  arith,
  mark_all-write (set marks i v) is v
      (InRange-length marks (set marks i v) is (sym (length-set marks i v)) h.1),
)

get_elem?-set :
    (marks : List Mark) (i j : ℕ) (v : Mark)
    → i < length marks
    → get_elem? (set marks i v) j ≡ (if j == i then some v else get_elem? marks j)
unfolding set
get_elem?-set [] i j v h = absurd (omega arith)
get_elem?-set (m ∷ ms) zero zero v h = refl
get_elem?-set (m ∷ ms) zero (suc j) v h = ground arith
get_elem?-set (m ∷ ms) (suc i) zero v h = ground arith
get_elem?-set (m ∷ ms) (suc i) (suc j) v h = ground (arith, get_elem?-set ms i j v (omega arith))

-- At an index that was written stands the value written, at any other what stood there.
pub get_elem?-write :
    (marks : List Mark) (is : List ℕ) (j : ℕ) (v : Mark)
    → InRange marks is
    → get_elem? (write marks is v) j ≡ (if elem j is then some v else get_elem? marks j)
unfolding write elem
get_elem?-write marks [] j v h = refl
get_elem?-write marks (i ∷ is) j v h = ground (
  arith,
  get_elem?-set marks i j v h.0,
  get_elem?-write (set marks i v) is j v
      (InRange-length marks (set marks i v) is (sym (length-set marks i v)) h.1),
)

pub list_ext {ℓ} :
    {A : Type ℓ} (xs ys : List A) → ((i : ℕ) → get_elem? xs i ≡ get_elem? ys i) → xs ≡ ys
list_ext [] [] h = refl
list_ext [] (y ∷ ys) h = cc (h 0)
list_ext (x ∷ xs) [] h = cc (h 0)
list_ext (x ∷ xs) (y ∷ ys) h = let tails = list_ext xs ys (λ i. h (suc i)) in cc (tails, h 0)

-- All listed marks are free.
abbrev pub AllFree : List Mark → List ℕ → Type 0
AllFree marks is = All (λ i. get_elem? marks i ≡ some free) is

in_range_of_some {ℓ} :
    {A : Type ℓ} (xs : List A) (i : ℕ) {a : A} → get_elem? xs i ≡ some a → i < length xs
in_range_of_some [] i h = cc
in_range_of_some (x ∷ xs) zero h = omega arith
in_range_of_some (x ∷ xs) (suc i) h = omega (arith, in_range_of_some xs i h)

pub AllFree-InRange : (marks : List Mark) (is : List ℕ) → AllFree marks is → InRange marks is
AllFree-InRange marks [] h = tt
AllFree-InRange marks (i ∷ is) h = (in_range_of_some marks i h.0, AllFree-InRange marks is h.1)

elem-AllFree :
    (marks : List Mark) (is : List ℕ) (j : ℕ)
    → AllFree marks is
    → elem j is ≡ true
    → get_elem? marks j ≡ some free
unfolding elem
elem-AllFree marks [] j h e = cc
elem-AllFree marks (i ∷ is) j h e = ground (arith, elem-AllFree marks is j h.1)

-- Marks that were free and have been marked busy are restored by marking them free.
pub write_restores :
    (marks : List Mark) (is : List ℕ)
    → AllFree marks is
    → write (write marks is busy) is free ≡ marks
write_restores marks is h =
    let fits = AllFree-InRange marks is h in
    let fits' =
      InRange-length marks (write marks is busy) is (sym (length-write marks is busy)) fits in
    list_ext _ _ (λ i. ground (
      arith,
      get_elem?-write (write marks is busy) is i free fits',
      get_elem?-write marks is i busy fits,
      elem-AllFree marks is i h,
    ))
