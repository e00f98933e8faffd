-- ===== src/Lib.antt =====
-- Verification of the core of RADICAL-Pilot (src/radical/pilot): a pilot system places many tasks on
-- the nodes of a batch allocation (a pilot). Tasks and pilots move through a model of states; in the
-- agent of a pilot a scheduler places tasks on free cores and GPUs.
--
-- Parts:
--   States             src/radical/pilot/states.py: `_task_state_progress`, `_task_state_collapse`,
--                      `_pilot_state_progress` and `_pilot_state_collapse` with their tables; States.Task
--                      and States.Pilot hold the definitions, States.Passed and States.Highest
--                      the loops that the two models share; States.Replay the replay of passed states
--                      by tasks, pilots and their managers.
--   Components         src/radical/pilot/utils/component.py: Buckets (things sorted by state), Advance
--                      (`advance`, `publish`) and Work (`work_cb`). The queues and the workers of the
--                      derived classes are parameters.
--   Api                src/radical/pilot/task.py and task_manager.py: Tasks (`Task._update`,
--                      `_update_tasks`), Wait (`wait_tasks`, over the states that its passes read),
--                      Pull (`_task_pull_cb`, over what the database returns, and
--                      `_pilot_state_cb`, over a list of documents that it queries and updates);
--                      Pilots (`Pilot._update` of pilot.py, `_update_pilot` of pilot_manager.py).
--   Agent.Nodes        src/radical/pilot/agent/scheduler/base.py: the node list, and
--                      `_change_slot_states` as `change_slot_states`. The `lfs` dictionary is one object
--                      for all nodes in the source, so its size stands once, in `Pool`.
--   Agent.Continuous   src/radical/pilot/agent/scheduler/continuous.py, and `_try_allocation` and
--                      `_handle_cuda` of base.py: Configure (`_configure`), Find (`_find_resources`),
--                      Search (`_iterate_nodes` and the loop of `schedule_task`), Schedule
--                      (`schedule_task`, `unschedule_task`), Allocate (`_try_allocation`). `State` is what
--                      the scheduler object changes, `Config` what it only reads.
--   Agent.Waitpool     one round of `_schedule_tasks` of base.py: `_schedule_waitpool`,
--                      `_schedule_incoming` and `_unschedule_completed`. `ru.lazy_bisect` and the
--                      test for the file of a named environment are parameters.
--   Agent.Torus        src/radical/pilot/agent/scheduler/torus.py: `_alloc_sub_block` and `_free_cores`
--                      for a whole number of nodes. Its loop runs on fuel, one more than the block has
--                      nodes, which is enough where sub-blocks have a node at least.
--   Agent.Ordered      src/radical/pilot/agent/scheduler/continuous_ordered.py: `_schedule_tasks`,
--                      `_try_schedule` and `_state_cb`. The placement of a task is a parameter. Its loop
--                      over orders runs on fuel, one more than the largest number of an order, which is
--                      enough, since orders are passed upwards and each is in the name space.
--   Tmgr               src/radical/pilot/tmgr/scheduler: Base (base.py: pilots, `_assign_pilot`,
--                      `_update_pilot_states`), Early (`work` and `cancel_tasks` of base.py),
--                      Backfilling (backfilling.py; Updates and Messages hold its updates and the
--                      callbacks of base.py over it) and RoundRobin (round_robin.py). The sandboxes
--                      that the session gives to a task are a parameter that can raise. Pilots are assigned tasks here; the agent of the
--                      pilot then places them by Agent.
--   Raptor             src/radical/pilot/raptor/worker.py: `_alloc_task`, `_dealloc_task` and one try of
--                      `_request_cb`; whether the process of a task starts is given.
--   Samples            runs on concrete inputs.
--
-- Operations take the state and return a `Result`: the new state, or the class of the exception
-- raised. After an exception the state is not looked at. Loops go over lists or over numbers that fall,
-- without fuel but for those of Agent.Torus and Agent.Ordered. Node uids are compared only and are
-- natural numbers; sizes that the source can take below zero are integers; `floor` of a float quotient
-- is the quotient of whole numbers, which agrees below 2^53.
--
-- Not modelled: file transfers, processes, queues, the database server and batch systems; profiling
-- and log messages; the map `_ts_map`, which nothing reads; the agent schedulers ContinuousColo, Hombre and
-- Flux; the cancellation of tasks by the task manager, the submission of tasks and pilots, and
-- sessions.
pub mod Prelude
pub mod States
pub mod Components
pub mod Api
pub mod Raptor
pub mod Agent
pub mod Tmgr
mod Samples
