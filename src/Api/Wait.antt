-- ===== src/Api/Wait.antt =====
-- `TaskManager.wait_tasks` of src/radical/pilot/task_manager.py. What the loop reads is given: each pass
-- reads a state for each task it still watches. The row of passes ends with the timeout or with the
-- termination of the manager. The result holds the tasks still watched, at which the source only prints
-- a warning, and the states that it returns; a single uid is a list of one.
use radical_pilot.Prelude.{
  ℕ, ℤ, ltb_ℤ, leb_ℤ, Bool, true, not, ◌&&◌, Bool-cases, if◌then◌else◌, List, [], ◌∷◌, map, Option,
  some, is_some, Result, ok, key_error, guard, ◌>>◌, find, ◌≡◌, refl, sym, ap, ◌∙◌, inl, inr,
}
use radical_pilot.States.Task.{TaskState, done, failed, canceled, task_state_value, is_final}
use radical_pilot.Components.Buckets.{keep}
use radical_pilot.Api.Tasks.{Task}

-- `if not uids`: all tasks that are not final
unfoldable pub open_uids : List (ℕ × Task) → List ℕ
open_uids [] = []
open_uids ((u, t) ∷ tasks) =
    let rest = open_uids tasks in if is_final t.state then rest else u ∷ rest

unfoldable pub uids_or : List (ℕ × Task) → List ℕ → List ℕ
uids_or tasks [] = open_uids tasks
uids_or tasks (u ∷ us) = u ∷ us

-- `if not state: states = rps.FINAL`
unfoldable pub states_or : List TaskState → List TaskState
states_or [] = done ∷ failed ∷ canceled ∷ []
states_or (s ∷ ss) = s ∷ ss

abbrev pub min_ℤ : ℤ → ℤ → ℤ
min_ℤ a b = if leb_ℤ a b then a else b

-- The earliest of the states' values, at most that of the final states.
unfoldable pub earliest : ℤ → List TaskState → ℤ
earliest v [] = v
earliest v (s ∷ ss) = earliest (min_ℤ v (task_state_value (some s))) ss

unfoldable pub check_value : List TaskState → ℤ
check_value states = earliest (task_state_value (some canceled)) (states_or states)

-- The test of the loop that a task is watched on.
unfoldable pub again : ℤ → Option TaskState → Bool
again check s = not (is_final s) && ltb_ℤ (task_state_value s) check

-- One pass: `check_again`
unfoldable pub check_again : ℤ → (ℕ → Option TaskState) → List ℕ → List ℕ
check_again check state [] = []
check_again check state (u ∷ us) =
    let rest = check_again check state us in if again check (state u) then u ∷ rest else rest

-- `while to_check`
unfoldable pub watch : ℤ → List (ℕ → Option TaskState) → List ℕ → List ℕ
watch check [] to_check = to_check
watch check (pass ∷ passes) [] = []
watch check (pass ∷ passes) (u ∷ us) = watch check passes (check_again check pass (u ∷ us))

-- `[self._tasks[uid] for uid in uids]`
unfoldable pub all_known : List (ℕ × Task) → List ℕ → Bool
all_known tasks [] = true
all_known tasks (u ∷ us) = is_some (find u tasks) && all_known tasks us

-- `wait_tasks`: the tasks still watched at the end, and the states returned.
unfoldable pub wait_tasks :
    List (ℕ × Task)
    → List ℕ
    → List TaskState
    → List (ℕ → Option TaskState)
    → (ℕ → Option TaskState)
    → Result (List ℕ × List (Option TaskState))
wait_tasks tasks uids states passes last = do
  let awaited = uids_or tasks uids
  guard (all_known tasks awaited) key_error
  ok (watch (check_value states) passes awaited, map last awaited)

-- No pass found the task final or late enough.
unfoldable pub missed : ℤ → List (ℕ → Option TaskState) → ℕ → Bool
missed check [] u = true
missed check (pass ∷ passes) u = again check (pass u) && missed check passes u

keep-true : (us : List ℕ) → keep (λ u. true) us ≡ us
unfolding keep
keep-true [] = refl
keep-true (u ∷ us) = ap (λ vs. u ∷ vs) (keep-true us)

keep-check_again :
    (check : ℤ) (pass : ℕ → Option TaskState) (passes : List (ℕ → Option TaskState)) (us : List ℕ)
    → keep (missed check passes) (check_again check pass us)
      ≡ keep (missed check (pass ∷ passes)) us
unfolding keep check_again missed
keep-check_again check pass passes [] = refl
keep-check_again check pass passes (u ∷ us) = elim (Bool-cases (again check (pass u))) [
  | inr e ↦ rw e (keep-check_again check pass passes us)
  | inl e ↦ elim (Bool-cases (missed check passes u)) [
    | inl f ↦ rw (e, f) (ap (λ vs. u ∷ vs) (keep-check_again check pass passes us))
    | inr f ↦ rw (e, f) (keep-check_again check pass passes us)
  ]
]

pub watch-missed :
    (check : ℤ) (passes : List (ℕ → Option TaskState)) (us : List ℕ)
    → watch check passes us ≡ keep (missed check passes) us
unfolding watch
watch-missed check [] us = unfold missed in sym (keep-true us)
watch-missed check (pass ∷ passes) [] = unfold keep in refl
watch-missed check (pass ∷ passes) (u ∷ us) =
    watch-missed check passes (check_again check pass (u ∷ us))
    ∙ keep-check_again check pass passes (u ∷ us)
