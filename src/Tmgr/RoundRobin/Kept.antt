-- ===== src/Tmgr/RoundRobin/Kept.antt =====
-- The tasks of the round robin scheduler (round_robin.py): those that wait, those advanced, and those
-- that failed.
use radical_pilot.Prelude.{
  ℕ, suc, ◌+◌, ◌≡◌, refl, List, [], ◌∷◌, ◌++◌, get_elem?, Option, none, some, Result, ok, raise,
  >>=-eq-ok, find, arith,
}
use radical_pilot.Tmgr.Base.{Pilot, Entry, Task, Base, Sandboxes, assign_known}
use radical_pilot.Tmgr.Counts.{count_uid, count_uid-append, assign_known-uid}
use radical_pilot.Tmgr.RoundRobin.{
  RoundRobin, Loop, touched, settle_task, assign_to, next_idx, entry_at, assign_next, assign_all,
  start_loop, schedule_over, schedule_tasks, Sorted, sort_bound, sort_task, sort_tasks, start_sort,
  end_sort, schedule_rest, work,
}

touched-uid : (pilot : Option Pilot) (task : Task) → (touched pilot task).uid ≡ task.uid
touched-uid none task = refl
touched-uid (some pilot) task = refl

abbrev in_loop : ℕ → Loop → ℕ
in_loop u l = count_uid u l.tasks_ok + count_uid u l.tasks_fail

-- A task more at the end of a list, with the uid of another.
count_uid-snoc :
    (u : ℕ) (xs : List Task) (t t' : Task)
    → t'.uid ≡ t.uid
    → count_uid u (xs ++ t' ∷ []) ≡ count_uid u xs + count_uid u (t ∷ [])
count_uid-snoc u xs t t' same =
    let one : count_uid u (t' ∷ []) ≡ count_uid u (t ∷ []) = rw same refl in
    omega (arith, one, count_uid-append u xs (t' ∷ []))

settle_task-in_loop :
    (sandboxes : Sandboxes) (u : ℕ) (pilot : Option Pilot) (task : Task) (l : Loop) (b : Base)
    (r : Result (Task × Base))
    → assign_known sandboxes pilot task b ≡ r
    → in_loop u (settle_task pilot task l r) ≡ in_loop u l + count_uid u (task ∷ [])
unfolding settle_task
settle_task-in_loop sandboxes u pilot task l b (ok (task', b')) h =
    let one =
      count_uid-snoc u l.tasks_ok task task' (assign_known-uid sandboxes pilot task task' b b' h) in
    omega (arith, one)
settle_task-in_loop sandboxes u pilot task l b (raise e) h =
    let one = count_uid-snoc u l.tasks_fail task (touched pilot task) (touched-uid pilot task) in
    omega (arith, one)

assign_to-in_loop :
    (sandboxes : Sandboxes) (u idx : ℕ) (o : Option Entry) (task : Task) (l : Loop)
    → in_loop u (assign_to sandboxes idx o task l) ≡ in_loop u l + count_uid u (task ∷ [])
unfolding assign_to
assign_to-in_loop sandboxes u idx none task l =
    let one = count_uid-snoc u l.tasks_fail task task refl in omega (arith, one)
assign_to-in_loop sandboxes u idx (some e) task l =
    settle_task-in_loop sandboxes u (e.pilot) task (record l { idx = suc idx }) (l.base) _ refl

assign_all-in_loop :
    (sandboxes : Sandboxes) (u : ℕ) (pids : List ℕ) (tasks : List Task) (l : Loop)
    → in_loop u (assign_all sandboxes pids tasks l) ≡ in_loop u l + count_uid u tasks
unfolding assign_all assign_next
assign_all-in_loop sandboxes u pids [] l = omega arith
assign_all-in_loop sandboxes u pids (task ∷ tasks) l =
    let idx = next_idx pids l.idx in
    let o = entry_at (get_elem? pids idx) l.base.pilots in
    omega (
      arith,
      assign_to-in_loop sandboxes u idx o task l,
      assign_all-in_loop sandboxes u pids tasks (assign_to sandboxes idx o task l),
    )

-- How often a task is known.
abbrev pub known : ℕ → RoundRobin → ℕ
known u s = count_uid u s.advanced + count_uid u s.failed + count_uid u s.wait_pool

schedule_over-known :
    (sandboxes : Sandboxes) (u : ℕ) (pids : List ℕ) (tasks : List Task) (s : RoundRobin)
    → known u (schedule_over sandboxes pids tasks s) ≡ known u s + count_uid u tasks
unfolding schedule_over
schedule_over-known sandboxes u [] tasks s = omega (arith, count_uid-append u s.wait_pool tasks)
schedule_over-known sandboxes u (pid ∷ pids) tasks s =
    let l = assign_all sandboxes (pid ∷ pids) tasks (start_loop s) in
    omega (
      arith,
      assign_all-in_loop sandboxes u (pid ∷ pids) tasks (start_loop s),
      count_uid-append u s.advanced l.tasks_ok,
      count_uid-append u s.failed l.tasks_fail,
    )

schedule_rest-known :
    (sandboxes : Sandboxes) (u : ℕ) (tasks : List Task) (s : RoundRobin)
    → known u (schedule_rest sandboxes tasks s) ≡ known u s + count_uid u tasks
unfolding schedule_rest schedule_tasks
schedule_rest-known sandboxes u [] s = omega arith
schedule_rest-known sandboxes u (task ∷ tasks) s =
    schedule_over-known sandboxes u (s.pids) (task ∷ tasks) s

-- How often a task stands in the lists of `_work`.
abbrev in_sort : ℕ → Sorted → ℕ
in_sort u w = count_uid u w.scheduled + count_uid u w.failed + count_uid u w.unscheduled

sort_bound-in_sort :
    (sandboxes : Sandboxes) (u : ℕ) (o : Option Entry) (task : Task) (w w' : Sorted)
    → sort_bound sandboxes o task w ≡ ok w'
    → in_sort u w' ≡ in_sort u w + count_uid u (task ∷ [])
unfolding sort_bound
sort_bound-in_sort sandboxes u none task w w' h =
    let w1 : Sorted = record w { failed = w.failed ++ task ∷ [] } in
    let same : w1 ≡ w' = cc in
    let one = count_uid-snoc u w.failed task task refl in rw (← same) (omega (arith, one))
sort_bound-in_sort sandboxes u (some e) task w w' h =
    let ((task', b), got, h') = >>=-eq-ok (assign_known sandboxes e.pilot task w.base) _ h in
    let w1 : Sorted = record w { base = b; scheduled = w.scheduled ++ task' ∷ [] } in
    let same : w1 ≡ w' = cc in
    let uid = assign_known-uid sandboxes e.pilot task task' w.base b got in
    let one = count_uid-snoc u w.scheduled task task' uid in rw (← same) (omega (arith, one))

sort_task-in_sort :
    (sandboxes : Sandboxes) (u : ℕ) (pid : Option ℕ) (task : Task) (w w' : Sorted)
    → sort_task sandboxes pid task w ≡ ok w'
    → in_sort u w' ≡ in_sort u w + count_uid u (task ∷ [])
unfolding sort_task
sort_task-in_sort sandboxes u none task w w' h =
    let w1 : Sorted = record w { unscheduled = w.unscheduled ++ task ∷ [] } in
    let same : w1 ≡ w' = cc in
    let one = count_uid-snoc u w.unscheduled task task refl in rw (← same) (omega (arith, one))
sort_task-in_sort sandboxes u (some pid) task w w' h =
    sort_bound-in_sort sandboxes u (find pid w.base.pilots) task w w' h

sort_tasks-in_sort :
    (sandboxes : Sandboxes) (u : ℕ) (tasks : List Task) (w w' : Sorted)
    → sort_tasks sandboxes tasks w ≡ ok w'
    → in_sort u w' ≡ in_sort u w + count_uid u tasks
unfolding sort_tasks
sort_tasks-in_sort sandboxes u [] w w' h = let same : w ≡ w' = cc in rw same (omega arith)
sort_tasks-in_sort sandboxes u (task ∷ tasks) w w' h =
    let (w1, e, h') = >>=-eq-ok (sort_task sandboxes task.pilot task w) _ h in
    omega (
      arith,
      sort_task-in_sort sandboxes u task.pilot task w w1 e,
      sort_tasks-in_sort sandboxes u tasks w1 w' h',
    )

-- Tasks that come in and raise nothing are all kept, none twice: as often as a task comes in, it is
-- afterwards more often advanced, failed or waiting, taken together.
pub work-known :
    (sandboxes : Sandboxes) (u : ℕ) (tasks : List Task) (s s' : RoundRobin)
    → work sandboxes tasks s ≡ ok s'
    → known u s' ≡ known u s + count_uid u tasks
unfolding work
work-known sandboxes u tasks s s' h =
    let (w, e, h') = >>=-eq-ok (sort_tasks sandboxes tasks (start_sort s)) _ h in
    let same : schedule_rest sandboxes w.unscheduled (end_sort s w) ≡ s' = cc in
    let sorted = sort_tasks-in_sort sandboxes u tasks (start_sort s) w e in
    let rest = schedule_rest-known sandboxes u w.unscheduled (end_sort s w) in
    rw (← same) (
      omega (
        arith,
        sorted,
        rest,
        count_uid-append u s.advanced w.scheduled,
        count_uid-append u s.failed w.failed,
      ))
