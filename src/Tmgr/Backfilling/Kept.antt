-- ===== src/Tmgr/Backfilling/Kept.antt =====
-- The tasks of the backfilling scheduler (backfilling.py): those that wait and those advanced.
use radical_pilot.Prelude.{
  ℕ, ◌+◌, ◌≡◌, refl, List, [], ◌∷◌, ◌++◌, Option, none, some, ok, >>=-eq-ok, arith,
}
use radical_pilot.Tmgr.Base.{Info, Entry, Task, Sandboxes, assign_known}
use radical_pilot.Tmgr.Counts.{count_uid, count_uid-append, assign_known-uid}
use radical_pilot.Tmgr.Backfilling.{
  Settings, Backfilling, first_open, Loop, give, assign_all, schedule_over, schedule_tasks,
  eligible_pids, end_loop, start_loop,
}

-- How often a task stands in the two lists of the loop.
abbrev in_loop : ℕ → Loop → ℕ
in_loop u l = count_uid u l.scheduled + count_uid u l.unscheduled

give-in_loop :
    (sandboxes : Sandboxes) (u : ℕ) (task : Task) (l l' : Loop) (found : Option (ℕ × Entry × Info))
    → give sandboxes task l found ≡ ok l'
    → in_loop u l' ≡ in_loop u l + count_uid u (task ∷ [])
unfolding give
give-in_loop sandboxes u task l l' none eq =
    let scheduled : l'.scheduled ≡ l.scheduled = cc in
    let unscheduled : l'.unscheduled ≡ l.unscheduled ++ task ∷ [] = cc in
    rw (scheduled) (rw (unscheduled) (omega (arith, count_uid-append u l.unscheduled (task ∷ []))))
give-in_loop sandboxes u task l l' (some (pid, e, i)) eq =
    let ((task', b), got, next) = >>=-eq-ok (assign_known sandboxes e.pilot task _) _ eq in
    let same = assign_known-uid sandboxes e.pilot task task' _ b got in
    let scheduled : l'.scheduled ≡ l.scheduled ++ task' ∷ [] = cc in
    let unscheduled : l'.unscheduled ≡ l.unscheduled = cc in
    rw (scheduled)
      (rw (unscheduled) (rw (← same) (omega (arith, count_uid-append u l.scheduled (task' ∷ [])))))

assign_all-in_loop :
    (sandboxes : Sandboxes) (u : ℕ) (tasks : List Task) (l l' : Loop)
    → assign_all sandboxes tasks l ≡ ok l'
    → in_loop u l' ≡ in_loop u l + count_uid u tasks
unfolding assign_all
assign_all-in_loop sandboxes u [] l l' eq = let same : l ≡ l' = cc in rw same (omega arith)
assign_all-in_loop sandboxes u (task ∷ tasks) l l' eq =
    let (found, f, eq') = >>=-eq-ok (first_open l.pids l.base.pilots) _ eq in
    let (l1, g, eq'') = >>=-eq-ok (give sandboxes task l found) _ eq' in
    omega (
      arith,
      give-in_loop sandboxes u task l l1 found g,
      assign_all-in_loop sandboxes u tasks l1 l' eq'',
    )

-- How often a task is known.
abbrev pub known : ℕ → Backfilling → ℕ
known u s = count_uid u s.advanced + count_uid u s.wait_pool

schedule_over-known :
    (sandboxes : Sandboxes) (u : ℕ) (s s' : Backfilling) (pids : List ℕ)
    → schedule_over sandboxes s pids ≡ ok s'
    → known u s' ≡ known u s
unfolding schedule_over
schedule_over-known sandboxes u s s' [] eq = let same : s ≡ s' = cc in rw same refl
schedule_over-known sandboxes u s s' (pid ∷ pids) eq =
    let l0 = start_loop s (pid ∷ pids) in
    let (l, ran, eq') = >>=-eq-ok (assign_all sandboxes s.wait_pool l0) _ eq in
    let sum = assign_all-in_loop sandboxes u s.wait_pool (start_loop s (pid ∷ pids)) l ran in
    let same : end_loop s l ≡ s' = cc in
    rw (← same) (omega (arith, sum, count_uid-append u s.advanced l.scheduled))

-- A round of scheduling that raises nothing loses no task and doubles none: each task is advanced and
-- waits as often as before, taken together.
pub schedule_tasks-known :
    (cfg : Settings) (sandboxes : Sandboxes) (u : ℕ) (s s' : Backfilling)
    → schedule_tasks cfg sandboxes s ≡ ok s'
    → known u s' ≡ known u s
unfolding schedule_tasks
schedule_tasks-known cfg sandboxes u s s' eq =
    let (pids, e, eq') = >>=-eq-ok (eligible_pids cfg s.pids s.base.pilots) _ eq in
    schedule_over-known sandboxes u s s' pids eq'
