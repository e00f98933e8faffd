-- ===== src/Samples/Tmgr.antt =====
-- Runs of the task manager's schedulers (src/radical/pilot/tmgr/scheduler).
use radical_pilot.Prelude.{
  ℕ, ◌+◌, ◌≡◌, refl, pos, ◌+ℤ◌, ◌-ℤ◌, range, List, [], ◌∷◌, ◌++◌, none, some, Result, ok, raise,
  find, put, arith,
}
use radical_pilot.States.Passed.{look_up, move_on}
use radical_pilot.States.Pilot.{
  pmgr_active, pilot_state_value, pilot_state_inv, pilot_state_progress,
}
use radical_pilot.States.Task.{agent_staging_output_pending, task_state_value}
use radical_pilot.Agent.Nodes.Marks.{elem}
use radical_pilot.Tmgr.Base.{
  added, Pilot, Task, Base, Sandboxes, append_to, assign_pilot, assign_known, update_pilot_state,
  update_pilot_states, add_roles,
}
use radical_pilot.Tmgr.Counts.{count_uid}
use radical_pilot.Tmgr.Backfilling as Bf
use radical_pilot.Tmgr.Backfilling.{
  Settings, Backfilling, in_window, eligible_pids, first_open, remove_first, give, assign_all,
  schedule_over, schedule_tasks, wait_for, wait_for_all, work, add_infos, add_pilots,
}
use radical_pilot.Tmgr.Backfilling.Updates.{
  discharged, store, report_info, report_on, report_of, report_task, report_tasks, update_tasks,
  any_in_window, update_pilots, notify_pilots, pilots_changed, assign_early, release_early,
  add_command,
}
use radical_pilot.Tmgr.Backfilling.Bounds.{IsBounded}
use radical_pilot.Tmgr.Backfilling.Messages.{
  Message, add_message, work_message, task_message, handle, handle_all, handle_all-IsBounded,
}
use radical_pilot.Tmgr.Backfilling.Kept.{known, schedule_tasks-known}
use radical_pilot.Tmgr.RoundRobin as Rr
use radical_pilot.Tmgr.RoundRobin.{RoundRobin}
use radical_pilot.Tmgr.RoundRobin.Turns.{turns, pilots_of, assign_all-turns}
use radical_pilot.Tmgr.RoundRobin.Kept.{known as rr_known, work-known}

abbrev in_tmp : Sandboxes
in_tmp = λ pilot task. ok ("/tmp" ∷ [])

abbrev no_pilots : Base
no_pilots = record { early = []; pilots = []; tasks = [] }

abbrev small_pilot : Pilot
small_pilot = record { uid = 1; cores = 2; state = pmgr_active }

abbrev two_cores : ℕ → Task
two_cores uid = record {
  uid = uid;
  pilot = none;
  cpu_processes = 2;
  cpu_threads = 1;
  sandboxes = none;
}

abbrev settings : Settings
settings = record { hwm = 200; start = pos 4; stop = pos 4 }

-- Three tasks of two cores on a pilot of two cores; then the first one is done.
abbrev messages : List Message
messages =
    add_message (small_pilot ∷ [])
    ∷ work_message (two_cores 1 ∷ two_cores 2 ∷ two_cores 3 ∷ [])
    ∷ task_message (
        record {
          task = record (two_cores 1) { pilot = some 1 };
          state = agent_staging_output_pending;
        }
        ∷ [])
    ∷ []

abbrev or_else : Result Backfilling → Backfilling → Backfilling
or_else (ok s) t = s
or_else (raise e) t = t

abbrev busy_pilots : Backfilling
busy_pilots =
    or_else (handle_all settings in_tmp messages (Bf.configure no_pilots)) (Bf.configure no_pilots)

messages_handled : handle_all settings in_tmp messages (Bf.configure no_pilots) ≡ ok busy_pilots
unfolding handle_all handle add_command add_roles pilots_changed update_pilot_states
    update_pilot_state pilot_state_progress pilot_state_value pilot_state_inv move_on look_up range
    ◌+ℤ◌ ◌-ℤ◌ notify_pilots update_pilots any_in_window in_window release_early assign_early
    add_pilots add_infos schedule_tasks eligible_pids schedule_over assign_all first_open give
    assign_known assign_pilot append_to remove_first find put work wait_for_all wait_for
    update_tasks report_tasks report_task report_of report_on report_info discharged store elem
    task_state_value
messages_handled = refl

handle_all-IsBounded_example : IsBounded 2 busy_pilots
handle_all-IsBounded_example =
    handle_all-IsBounded settings in_tmp 2 messages (Bf.configure no_pilots) busy_pilots
      (tt, ((omega arith, (omega arith, (omega arith, tt))), (tt, tt)))
      (record { fits = tt; small = tt }) messages_handled

-- A pilot that is active and idle, and three tasks that wait.
abbrev one_pilot : Base
one_pilot = record no_pilots {
  pilots =
      (
        1,
        record {
          role = some added;
          state = some pmgr_active;
          pilot = some small_pilot;
          info = some (record { cores = 2; hwm = 4; used = pos 0; tasks = []; done = [] });
        },
      )
      ∷ [];
}

abbrev waiting : Backfilling
waiting = record {
  base = one_pilot;
  wait_pool = two_cores 1 ∷ two_cores 2 ∷ two_cores 3 ∷ [];
  pids = 1 ∷ [];
  advanced = [];
}

abbrev filled : Backfilling
filled = or_else (schedule_tasks settings in_tmp waiting) waiting

schedule_run : schedule_tasks settings in_tmp waiting ≡ ok filled
unfolding schedule_tasks eligible_pids in_window pilot_state_value schedule_over assign_all
    first_open give assign_known assign_pilot append_to remove_first find put ◌+ℤ◌
schedule_run = refl

schedule_tasks-known_example : known 3 filled ≡ known 3 waiting
schedule_tasks-known_example = schedule_tasks-known settings in_tmp 3 waiting filled schedule_run

-- One task that is bound to the pilot, one that is bound to an unknown pilot, and two that are not
-- bound.
abbrev incoming : List Task
incoming =
    record (two_cores 1) { pilot = some 1 }
    ∷ record (two_cores 2) { pilot = some 7 }
    ∷ two_cores 3
    ∷ two_cores 4
    ∷ []

abbrev idle_robin : RoundRobin
idle_robin = record (Rr.configure one_pilot) { pids = 1 ∷ [] }

abbrev robin_or : Result RoundRobin → RoundRobin
robin_or (ok s) = s
robin_or (raise e) = idle_robin

abbrev worked : RoundRobin
worked = robin_or (Rr.work in_tmp incoming idle_robin)

robin_run : Rr.work in_tmp incoming idle_robin ≡ ok worked
unfolding Rr.work Rr.sort_tasks Rr.sort_task Rr.sort_bound Rr.schedule_rest Rr.schedule_tasks
    Rr.schedule_over Rr.assign_all Rr.assign_next Rr.assign_to Rr.settle_task assign_known
    assign_pilot append_to find
robin_run = refl

work-known_example : rr_known 3 worked ≡ rr_known 3 idle_robin + count_uid 3 incoming
work-known_example = work-known in_tmp 3 incoming idle_robin worked robin_run

-- Two pilots, and an index at the end of their list.
abbrev two_pilots : Base
two_pilots = record one_pilot {
  pilots =
      one_pilot.pilots
      ++ (
        2,
        record {
          role = some added;
          state = some pmgr_active;
          pilot = some (record small_pilot { uid = 2 });
          info = none;
        },
      )
        ∷ [];
}

abbrev at_end : Rr.Loop
at_end = record { base = two_pilots; idx = 2; tasks_ok = []; tasks_fail = [] }

abbrev three_tasks : List Task
three_tasks = two_cores 1 ∷ two_cores 2 ∷ two_cores 3 ∷ []

assign_all-turns_example :
    (pilots_of (Rr.assign_all in_tmp (1 ∷ 2 ∷ []) three_tasks at_end).tasks_ok
      ≡ pilots_of [] ++ turns (1 ∷ 2 ∷ []) 0 three_tasks)
    × ((Rr.assign_all in_tmp (1 ∷ 2 ∷ []) three_tasks at_end).tasks_fail ≡ [])
unfolding find
assign_all-turns_example =
    assign_all-turns in_tmp (1 ∷ 2 ∷ []) three_tasks at_end (λ p t. ("/tmp" ∷ [], refl))
      (omega arith) ((_, _, refl, refl, refl), ((_, _, refl, refl, refl), tt))
