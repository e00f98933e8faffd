-- ===== src/Tmgr/Backfilling/Messages.antt =====
-- Rows of messages to the backfilling scheduler, each by its callback in
-- src/radical/pilot/tmgr/scheduler/base.py.
use radical_pilot.Prelude.{ℕ, ◌≡◌, List, [], ◌∷◌, All, Result, ok, >>=-eq-ok, ◌>>=◌}
use radical_pilot.Tmgr.Base.{Pilot, Task, Sandboxes}
use radical_pilot.Tmgr.Backfilling.{Settings, Backfilling, work}
use radical_pilot.Tmgr.Backfilling.Updates.{
  Report, update_tasks, pilots_changed, add_command, remove_command,
}
use radical_pilot.Tmgr.Backfilling.Bounds.{Small, IsBounded}
use radical_pilot.Tmgr.Backfilling.Steps.{same-IsBounded, update_tasks-IsBounded, work-IsBounded}
use radical_pilot.Tmgr.Backfilling.Commands.{
  pilots_changed-IsBounded, add_command-IsBounded, remove_command-IsBounded,
}

-- What the scheduler is told.
pub data Message : Type 0 where
  add_message : List Pilot → Message
  remove_message : List ℕ → Message
  pilot_message : List Pilot → Message
  task_message : List Report → Message
  work_message : List Task → Message

unfoldable pub handle : Settings → Sandboxes → Message → Backfilling → Result Backfilling
handle cfg sandboxes (add_message pilots) s = add_command cfg sandboxes pilots s
handle cfg sandboxes (remove_message pids) s = remove_command pids s
handle cfg sandboxes (pilot_message pilots) s = pilots_changed cfg sandboxes pilots s
handle cfg sandboxes (task_message reports) s = update_tasks cfg sandboxes reports s
handle cfg sandboxes (work_message tasks) s = work cfg sandboxes tasks s

unfoldable pub handle_all : Settings → Sandboxes → List Message → Backfilling → Result Backfilling
handle_all cfg sandboxes [] s = ok s
handle_all cfg sandboxes (m ∷ ms) s = do
  s' ← handle cfg sandboxes m s
  handle_all cfg sandboxes ms s'

-- The tasks that a message brings need at most `c` cores each.
abbrev pub SmallMessage : ℕ → Message → Type 0
SmallMessage c (work_message tasks) = Small c tasks
SmallMessage c _ = Unit

handle-IsBounded :
    (cfg : Settings) (sandboxes : Sandboxes) (c : ℕ) (m : Message) (s s' : Backfilling)
    → SmallMessage c m
    → IsBounded c s
    → handle cfg sandboxes m s ≡ ok s'
    → IsBounded c s'
unfolding handle
handle-IsBounded cfg sandboxes c (add_message pilots) s s' small h eq =
    add_command-IsBounded cfg sandboxes c pilots s s' h eq
handle-IsBounded cfg sandboxes c (remove_message pids) s s' small h eq =
    remove_command-IsBounded c pids s s' h eq
handle-IsBounded cfg sandboxes c (pilot_message pilots) s s' small h eq =
    pilots_changed-IsBounded cfg sandboxes c pilots s s' h eq
handle-IsBounded cfg sandboxes c (task_message reports) s s' small h eq =
    update_tasks-IsBounded cfg sandboxes c reports s s' h eq
handle-IsBounded cfg sandboxes c (work_message tasks) s s' small h eq =
    work-IsBounded cfg sandboxes c tasks s s' small h eq

-- Whatever the scheduler is told from a state in bounds on, with tasks of at most `c` cores: as long as
-- nothing is raised, the load of each pilot is not negative and exceeds the pilot's high water mark by
-- at most `c` cores.
pub handle_all-IsBounded :
    (cfg : Settings) (sandboxes : Sandboxes) (c : ℕ) (ms : List Message) (s s' : Backfilling)
    → All (SmallMessage c) ms
    → IsBounded c s
    → handle_all cfg sandboxes ms s ≡ ok s'
    → IsBounded c s'
unfolding handle_all
handle_all-IsBounded cfg sandboxes c [] s s' small h eq = same-IsBounded c s s' h eq
handle_all-IsBounded cfg sandboxes c (m ∷ ms) s s' small h eq =
    let (s1, e, eq') = >>=-eq-ok (handle cfg sandboxes m s) _ eq in
    handle_all-IsBounded cfg sandboxes c ms s1 s' small.1
      (handle-IsBounded cfg sandboxes c m s s1 small.0 h e) eq'
