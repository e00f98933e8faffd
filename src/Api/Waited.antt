-- ===== src/Api/Waited.antt =====
-- What a wait of `TaskManager.wait_tasks` (src/radical/pilot/task_manager.py) ends with.
use radical_pilot.Prelude.{
  ℕ, ◌+◌, Bool, true, false, ◌==◌, ==_iff, ==_refl, Bool-cases, if◌then◌else◌, List, [], ◌∷◌, map,
  All, All-imp, Any, Option, is_some, ok, find, times, ◌≡◌, ◌↔◌, ◌⊎◌, refl, ap, ◌∙◌, inl, inr,
  arith,
}
use radical_pilot.States.Task.{TaskState, is_final}
use radical_pilot.Components.Buckets.{keep}
use radical_pilot.Api.Tasks.{Task}
use radical_pilot.Api.Wait.{
  open_uids, uids_or, check_value, again, all_known, wait_tasks, missed, watch-missed,
}
use radical_pilot.Api.Reached.{
  IsEnd, Reached, ended, running, phase_of, again-Reached, again-missed,
}

abbrev pub Pass : Type 0
Pass = ℕ → Option TaskState

-- No pass reached the task, and it is left as often as it was awaited; or some pass did, and it is not.
abbrev pub IsSettled : List TaskState → List Pass → List ℕ → List ℕ → ℕ → Type 0
IsSettled states passes awaited left u =
    All (λ pass. Reached states (pass u) → ⊥) passes × (times u left ≡ times u awaited)
    ⊎ (Any (λ pass. Reached states (pass u)) passes × (times u left ≡ 0))

missed-Reached :
    (states : List TaskState) (passes : List Pass) (u : ℕ)
    → (missed (check_value states) passes u ≡ true)
        × All (λ pass. Reached states (pass u) → ⊥) passes
      ⊎ ((missed (check_value states) passes u ≡ false)
          × Any (λ pass. Reached states (pass u)) passes)
unfolding missed
missed-Reached states [] u = inl (refl, tt)
missed-Reached states (pass ∷ passes) u = elim (Bool-cases (again (check_value states) (pass u))) [
  | inr e ↦ inr (rw e refl, inl (again-Reached states (pass u) e))
  | inl e ↦ elim (missed-Reached states passes u) [
    | inl (f, k) ↦ inl (rw (e, f) refl, (again-missed states (pass u) e, k))
    | inr (f, k) ↦ inr (rw (e, f) refl, inr k)
  ]
]

times-keep :
    (p : ℕ → Bool) (us : List ℕ) (u : ℕ) → times u (keep p us) ≡ (if p u then times u us else 0)
unfolding times keep
times-keep p [] u = ground arith
times-keep p (v ∷ us) u = elim (Bool-cases (v == u)) [
  | inl e ↦
      let same : v ≡ u = (==_iff v u).0 e in
      let rest = times-keep p us u in
      elim (Bool-cases (p u)) [
        | inl f ↦
            let g : p v ≡ true = rw same f in
            let k = rw f at rest in rw (g, f, e) (ap (λ n. 1 + n) k)
        | inr f ↦ let g : p v ≡ false = rw same f in let k = rw f at rest in rw (g, f) k
      ]
  | inr e ↦
      let rest = times-keep p us u in
      let skipped : 0 + times u us ≡ times u us = omega arith in
      elim (Bool-cases (p v)) [
        | inl f ↦ rw (f, e, skipped) (omega (arith, rest))
        | inr f ↦ rw (f, e, skipped) rest
      ]
]

-- The tasks awaited: those given, or else all that are not done, failed or canceled.
abbrev pub Awaits : List (ℕ × Task) → List ℕ → List ℕ → Type 0
Awaits tasks [] awaited =
    (u : ℕ) → Any (λ v. v ≡ u) awaited ↔ Any (λ (v, t). (v ≡ u) × (IsEnd t.state → ⊥)) tasks
Awaits tasks (u ∷ us) awaited = awaited ≡ u ∷ us

open_uids-Awaits : (tasks : List (ℕ × Task)) → Awaits tasks [] (open_uids tasks)
unfolding open_uids
open_uids-Awaits [] u = (λ h. h, λ h. h)
open_uids-Awaits ((v, t) ∷ tasks) u =
    let rest = open_uids-Awaits tasks u in
    elim (phase_of t.state) [
      | ended f k ↦
          rw f (λ h. inr (rest.0 h), λ h. elim h [ inl m ↦ absurd (m.1 k) | inr m ↦ rest.1 m ])
      | running f k le ↦ rw f (
        λ h. elim h [ inl m ↦ inl (m, k) | inr m ↦ inr (rest.0 m) ],
        λ h. elim h [ inl m ↦ inl (m.0) | inr m ↦ inr (rest.1 m) ],
      )
    ]

uids_or-Awaits : (tasks : List (ℕ × Task)) (uids : List ℕ) → Awaits tasks uids (uids_or tasks uids)
unfolding uids_or
uids_or-Awaits tasks [] = open_uids-Awaits tasks
uids_or-Awaits tasks (u ∷ us) = refl

abbrev pub IsFound : List (ℕ × Task) → ℕ → Type 0
IsFound tasks u = is_some (find u tasks) ≡ true

IsFound-cons :
    (j : ℕ) (t : Task) (tasks : List (ℕ × Task)) (u : ℕ)
    → IsFound tasks u
    → IsFound ((j, t) ∷ tasks) u
unfolding find
IsFound-cons j t tasks u h = elim (Bool-cases (j == u)) [ inl e ↦ rw e refl | inr e ↦ rw e h ]

All-IsFound : (tasks : List (ℕ × Task)) → All (λ (u, t). IsFound tasks u) tasks
unfolding find
All-IsFound [] = tt
All-IsFound ((j, t) ∷ tasks) =
    (rw (==_refl j) refl, All-imp (λ x h. IsFound-cons j t tasks x.0 h) tasks (All-IsFound tasks))

open_uids-known :
    (all tasks : List (ℕ × Task))
    → All (λ (u, t). IsFound all u) tasks
    → all_known all (open_uids tasks) ≡ true
unfolding all_known open_uids
open_uids-known all [] h = refl
open_uids-known all ((u, t) ∷ tasks) h =
    let rest = open_uids-known all tasks h.1 in
    elim (Bool-cases (is_final t.state)) [ inl e ↦ rw e rest | inr e ↦ rw (e, h.0) rest ]

given-known :
    (tasks : List (ℕ × Task)) (uids : List ℕ)
    → All (IsFound tasks) uids
    → all_known tasks uids ≡ true
unfolding all_known
given-known tasks [] h = refl
given-known tasks (u ∷ us) h = rw (h.0) (given-known tasks us h.1)

uids_or-known :
    (tasks : List (ℕ × Task)) (uids : List ℕ)
    → All (IsFound tasks) uids
    → all_known tasks (uids_or tasks uids) ≡ true
unfolding uids_or
uids_or-known tasks [] h = open_uids-known tasks tasks (All-IsFound tasks)
uids_or-known tasks (u ∷ us) h = given-known tasks (u ∷ us) h

-- Where the tasks given are known, a wait returns the states that the awaited tasks have at the end, and
-- it leaves exactly those of them that no pass found to be final or no earlier than one of the states
-- waited for. Awaited are the tasks given, or without any all those that are not final.
pub wait_tasks-IsSettled :
    (tasks : List (ℕ × Task)) (uids : List ℕ) (states : List TaskState) (passes : List Pass)
    (last : Pass)
    → All (IsFound tasks) uids
    → (awaited left : List ℕ) × Awaits tasks uids awaited
      × (wait_tasks tasks uids states passes last ≡ ok (left, map last awaited))
      × ((u : ℕ) → IsSettled states passes awaited left u)
unfolding wait_tasks
wait_tasks-IsSettled tasks uids states passes last h =
    let awaited = uids_or tasks uids in
    let check = check_value states in
    let known = uids_or-known tasks uids h in
    let left = keep (missed check passes) awaited in
    let run = watch-missed check passes awaited in
    (
      awaited,
      left,
      uids_or-Awaits tasks uids,
      rw (known, run) refl,
      λ u.
          let count : times u left ≡ (if missed check passes u then times u awaited else 0) =
            times-keep (missed check passes) awaited u in
          elim (missed-Reached states passes u) [
            | inl (e, k) ↦ inl (k, count ∙ rw e refl)
            | inr (e, k) ↦ inr (k, count ∙ rw e refl)
          ],
    )
