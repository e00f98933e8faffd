-- ===== src/Agent/Waitpool.antt =====
-- The loop of the agent's scheduler (`_schedule_tasks` of src/radical/pilot/agent/scheduler/base.py)
-- over the continuous scheduler: waiting tasks, incoming tasks and completed tasks.
--
-- What a queue yields in one round is a list. Whether the file of a named environment is there is a
-- parameter, which stays the same during one call. `ru.lazy_bisect` is a parameter too: it calls the
-- check for some of the tasks, and returns those that were placed and the others. The map from tuple
-- sizes to waiting tasks (`_ts_map`) is only written in the source.
pub mod Counts
pub mod Kept
use radical_pilot.Prelude.{
  ℕ, ◌+◌, ◌*◌, leb, String, Bool, true, false, not, ◌&&◌, ◌==◌, if◌then◌else◌, List, [], ◌∷◌, ◌++◌,
  take, drop, map, Option, none, some, Result, ok, raise, key_error, ◌>>=◌,
}
use radical_pilot.Agent.Continuous.Task.{TaskDescription, Slots, Task, Config, State}
use radical_pilot.Agent.Continuous.Schedule.{non_empty, unschedule_task}
use radical_pilot.Agent.Continuous.Allocate.{CvdIdMode, try_allocation}

-- The scheduler, its wait pool (a dictionary from uids to tasks, here its tasks), and the tasks that
-- were advanced to `AGENT_EXECUTING_PENDING`.
pub record Agent : Type 0 where
  pub state : State
  pub waitpool : List Task
  pub executing : List Task

-- `waitpool[task['uid']] = task`
unfoldable pub wait_for : Task → List Task → List Task
wait_for task [] = task ∷ []
wait_for task (t ∷ ts) = if t.uid == task.uid then task ∷ ts else t ∷ wait_for task ts

unfoldable pub wait_for_all : List Task → List Task → List Task
wait_for_all [] pool = pool
wait_for_all (task ∷ tasks) pool = wait_for_all tasks (wait_for task pool)

-- The sort in reverse order: tasks with the same key stay in their order.
unfoldable pub insert_by : (Task → ℕ) → Task → List Task → List Task
insert_by key task [] = task ∷ []
insert_by key task (t ∷ ts) =
    if leb (key t) (key task) then task ∷ t ∷ ts else t ∷ insert_by key task ts

unfoldable pub sort_by : (Task → ℕ) → List Task → List Task
sort_by key [] = []
sort_by key (task ∷ tasks) = insert_by key task (sort_by key tasks)

-- `_set_tuple_size`
abbrev pub tuple_size : Task → ℕ × ℕ × ℕ × String
tuple_size task = (
  task.description.cpu_processes, task.description.cpu_threads, task.description.gpu_processes,
  task.description.cpu_process_type,
)

abbrev pub by_processes : Task → ℕ
by_processes task = (tuple_size task).0

abbrev pub by_size : Task → ℕ
by_size task = ((tuple_size task).0 + (tuple_size task).2) * (tuple_size task).1

-- The environment that the task names, if any, is set up.
abbrev pub env_of : (String → Bool) → Option String → Bool
env_of exists none = true
env_of exists (some env) = exists env

abbrev pub has_env : (String → Bool) → Task → Bool
has_env exists task = env_of exists (non_empty task.description.named_env)

abbrev pub with_resources : Task → Task
with_resources task = record task {
  resources = some (
    task.description.cpu_processes * task.description.cpu_threads,
    task.description.gpu_processes,
  );
}

-- `to_test` and `to_wait`.
unfoldable pub split_by : (Task → Bool) → List Task → List Task × List Task
split_by test [] = ([], [])
split_by test (task ∷ tasks) =
    let rest = split_by test tasks in
    if test task then (task ∷ rest.0, rest.1) else (rest.0, task ∷ rest.1)

-- A check changes the state, and a task that it places.
abbrev pub Check : Type 0
Check = Task → State → Result (Bool × Task × State)

-- `ru.lazy_bisect`: the tasks placed, the other tasks, and the state.
abbrev pub Bisect : Type 0
Bisect = Check → List Task → State → Result (List Task × List Task × State)

abbrev pub any_of : List Task → Bool
any_of [] = false
any_of (task ∷ tasks) = true

-- What one of the steps returns: `resources`, which can be `None`, `active`, and the scheduler.
abbrev pub Step : Type 0
Step = Option Bool × Bool × Agent

-- `_schedule_waitpool`; the test of `resources` is that of the source.
unfoldable pub schedule_waitpool :
    (String → Bool) → Bisect → Config → CvdIdMode → Agent → Result Step
schedule_waitpool exists bisect cfg mode a = do
  let (to_test, to_wait) = split_by (has_env exists) a.waitpool
  (scheduled, unscheduled, s) ← bisect (try_allocation cfg mode) (sort_by by_size to_test) a.state
  ok (
    some (not (any_of unscheduled && any_of unscheduled)),
    any_of scheduled,
    record {
      state = s;
      waitpool = wait_for_all (unscheduled ++ to_wait) [];
      executing = a.executing ++ map with_resources scheduled;
    },
  )

-- The variables of the loop of `_schedule_incoming`.
pub record Incoming : Type 0 where
  pub state : State
  pub executing : List Task
  pub to_wait : List Task

unfoldable pub settle_incoming : Incoming → Bool × Task × State → Incoming
settle_incoming l (true, task, s) = record l {
  state = s;
  executing = l.executing ++ with_resources task ∷ [];
}
settle_incoming l (false, task, s) = record l { state = s; to_wait = l.to_wait ++ task ∷ [] }

unfoldable pub place_incoming :
    (String → Bool) → Config → CvdIdMode → List Task → Incoming → Result Incoming
place_incoming exists cfg mode [] l = ok l
place_incoming exists cfg mode (task ∷ tasks) l =
    let wait = record l { to_wait = l.to_wait ++ task ∷ [] } in
    let go_on = λ (l' : Incoming). place_incoming exists cfg mode tasks l' in
    if has_env exists task
    then (do r ← try_allocation cfg mode task l.state; go_on (settle_incoming l r))
    else go_on wait

-- `_schedule_incoming`, with the tasks that the queue yields.
unfoldable pub schedule_incoming :
    (String → Bool) → Config → CvdIdMode → List Task → Agent → Result Step
schedule_incoming exists cfg mode [] a = ok (none, false, a)
schedule_incoming exists cfg mode (task ∷ tasks) a = do
  l ←
      place_incoming exists cfg mode (sort_by by_processes (task ∷ tasks))
        (record { state = a.state; executing = a.executing; to_wait = [] })
  ok (
    some (not (any_of l.to_wait)),
    true,
    record {
      state = l.state;
      waitpool = wait_for_all l.to_wait a.waitpool;
      executing = l.executing;
    },
  )

-- A task without slots has no key `slots`.
abbrev pub slots_or_raise : Option Slots → Result Slots
slots_or_raise none = raise key_error
slots_or_raise (some slots) = ok slots

unfoldable pub release_all : List Task → State → Result State
release_all [] s = ok s
release_all (task ∷ tasks) s = do
  slots ← slots_or_raise task.slots
  s' ← unschedule_task slots.nodes s
  release_all tasks s'

-- `_unschedule_completed`, with what the queue yields: at most 129 tasks are taken from it. The tasks
-- left in the queue come first.
unfoldable pub unschedule_completed : List Task → Agent → Result (List Task × Step)
unschedule_completed queue a = do
  s ← release_all (take 129 queue) a.state
  ok (drop 129 queue, (some (any_of queue), any_of queue, record a { state = s }))

-- `r is False`
abbrev pub is_false : Option Bool → Bool
is_false none = false
is_false (some r) = not r

-- One round of `_schedule_tasks`: the tasks left in the queue of completed tasks, `resources`, and the
-- scheduler.
unfoldable pub schedule_tasks :
    (String → Bool)
    → Bisect
    → Config
    → CvdIdMode
    → List Task
    → List Task
    → Bool
    → Agent
    → Result (List Task × Bool × Agent)
schedule_tasks exists bisect cfg mode incoming completed resources a = do
  (r_wait, active, a1) ←
      if resources then schedule_waitpool exists bisect cfg mode a else ok (some false, false, a)
  (r_inc, active', a2) ← schedule_incoming exists cfg mode incoming a1
  let useful = resources && not (is_false r_wait && is_false r_inc)
  (queue, (r, active'', a3)) ← unschedule_completed completed a2
  ok (queue, if useful then true else not (is_false r), a3)
