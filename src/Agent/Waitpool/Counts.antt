-- ===== src/Agent/Waitpool/Counts.antt =====
-- How often a task stands in the lists that `_schedule_tasks` (base.py) works on, by its uid.
use radical_pilot.Prelude.{
  ℕ, ◌+◌, ◌≤◌, ◌≡◌, refl, Bool-cases, Bool, inl, inr, if◌then◌else◌, ◌==◌, leb, List, [], ◌∷◌, ◌++◌,
  map, arith,
}
use native.Mathlib.Decide.{dec_le}
use radical_pilot.Agent.Continuous.Task.{Task}
use radical_pilot.Agent.Continuous.Schedule.{pool}
use radical_pilot.Agent.Waitpool.{
  wait_for, wait_for_all, insert_by, sort_by, with_resources, split_by,
}

-- How often a task stands in a list.
abbrev pub count_uid : ℕ → List Task → ℕ
count_uid u [] = 0
count_uid u (t ∷ ts) = (if t.uid == u then 1 else 0) + count_uid u ts

pub count_uid-append :
    (u : ℕ) (xs ys : List Task) → count_uid u (xs ++ ys) ≡ count_uid u xs + count_uid u ys
count_uid-append u [] ys = omega arith
count_uid-append u (x ∷ xs) ys = omega (arith, count_uid-append u xs ys)

insert_by-count :
    (key : Task → ℕ) (u : ℕ) (t : Task) (ts : List Task)
    → count_uid u (insert_by key t ts) ≡ count_uid u (t ∷ ts)
unfolding insert_by
insert_by-count key u t [] = refl
insert_by-count key u t (x ∷ ts) = elim (Bool-cases (leb (key x) (key t))) [
  | inl e ↦ rw e refl
  | inr e ↦ rw e (omega (arith, insert_by-count key u t ts))
]

pub sort_by-count :
    (key : Task → ℕ) (u : ℕ) (ts : List Task) → count_uid u (sort_by key ts) ≡ count_uid u ts
unfolding sort_by
sort_by-count key u [] = refl
sort_by-count key u (t ∷ ts) =
    omega (arith, insert_by-count key u t (sort_by key ts), sort_by-count key u ts)

pub split_by-count :
    (test : Task → Bool) (u : ℕ) (ts : List Task)
    → count_uid u (split_by test ts).0 + count_uid u (split_by test ts).1 ≡ count_uid u ts
unfolding split_by
split_by-count test u [] = omega arith
split_by-count test u (t ∷ ts) = elim (Bool-cases (test t)) [
  | inl e ↦ rw e (omega (arith, split_by-count test u ts))
  | inr e ↦ rw e (omega (arith, split_by-count test u ts))
]

pub map-count : (u : ℕ) (ts : List Task) → count_uid u (map with_resources ts) ≡ count_uid u ts
map-count u [] = refl
map-count u (t ∷ ts) = omega (arith, map-count u ts)

-- A task that is put into the pool is in it, and so is any other that was.
wait_for-count :
    (u : ℕ) (t : Task) (pool : List Task)
    → 1 ≤ count_uid u (t ∷ []) + count_uid u pool
    → 1 ≤ count_uid u (wait_for t pool)
unfolding wait_for
wait_for-count u t [] h = omega (arith, h)
wait_for-count u t (x ∷ xs) h = elim (Bool-cases (x.uid == t.uid)) [
  | inl e ↦
      let same : x.uid ≡ t.uid = ground (arith, e) in
      let equal : count_uid u (x ∷ []) ≡ count_uid u (t ∷ []) = rw same refl in
      rw e (omega (arith, h, equal))
  | inr e ↦ elim (Bool-cases (x.uid == u)) [
    | inl f ↦ rw (e, f) (omega arith)
    | inr f ↦
        let rest : 1 ≤ count_uid u (t ∷ []) + (0 + count_uid u xs) = rw f at h in
        rw (e, f) (omega (arith, wait_for-count u t xs (omega (arith, rest))))
  ]
]

pub wait_for_all-count :
    (u : ℕ) (ts pool : List Task)
    → 1 ≤ count_uid u ts + count_uid u pool
    → 1 ≤ count_uid u (wait_for_all ts pool)
unfolding wait_for_all
wait_for_all-count u [] pool h = omega (arith, h)
wait_for_all-count u (t ∷ ts) pool h = elim (Bool-cases (t.uid == u)) [
  | inl e ↦
      let one : count_uid u (t ∷ []) ≡ 1 = rw e refl in
      let put = wait_for-count u t pool (omega (arith, one)) in
      wait_for_all-count u ts (wait_for t pool) (omega (arith, put))
  | inr e ↦ wait_for_all-count u ts (wait_for t pool) (later u t ts pool (rw e at h))
]
  where
    later :
        (u : ℕ) (t : Task) (ts pool : List Task)
        → 1 ≤ 0 + count_uid u ts + count_uid u pool
        → 1 ≤ count_uid u ts + count_uid u (wait_for t pool)
    later u t ts pool h = elim (dec_le 1 (count_uid u ts)) [
      | yes f ↦ omega arith
      | no f ↦ let put = wait_for-count u t pool (omega (arith, h)) in omega (arith, put)
    ]
