-- ===== src/Samples/Pull.antt =====
-- Runs of the callbacks of the task manager (src/radical/pilot/task_manager.py).
use radical_pilot.Prelude.{
  ℕ, ◌+◌, true, false, ◌≡◌, refl, List, [], ◌∷◌, Bool, Option, none, some, ok,
}
use radical_pilot.States.Task.{
  TaskState, tmgr_scheduling, agent_executing, tmgr_staging_output, done, failed,
}
use radical_pilot.States.Pilot.{PilotState, pmgr_active, done as pilot_done}
use radical_pilot.Components.Buckets.{keep}
use radical_pilot.Components.Advance.{
  Thing, task, whole, part, Routes, publish_thing, publish_things, publish_all, set_fields,
  assign_state, drop_all, advance,
}
use radical_pilot.Components.Tallies.{tally}
use radical_pilot.Api.Pull.{
  Doc, Control, take_over, things_of, to_finalize, to_stage, set_targets, finalize, Pull,
  task_pull_cb, fail_target, fail_task, Lost, lose_tasks, check_pilot, pilot_state_cb, find_tasks,
  update_tasks, set_control, with_agent, bound_to,
}
use radical_pilot.Components.Work.{listed}
use radical_pilot.Api.Pulled.{states, end_states, task_pull_cb-end_states}
use radical_pilot.Api.Lost.{IsLost, pilot_state_cb-IsLost}

-- Tasks in staging go to queue 4.
abbrev route : Option TaskState → Option (Option ℕ)
route (some tmgr_staging_output) = some (some 4)
route _ = none

abbrev routes : Routes (Option TaskState)
routes = record { outputs = route; publisher = true }

abbrev thing : ℕ → Option TaskState → Thing (Option TaskState)
thing u s = record { uid = u; type = task; state = s; all = false; set = none; fields = [] }

abbrev doc : ℕ → Bool → Doc
doc u staging = record {
  thing = thing u (some agent_executing);
  states = agent_executing ∷ tmgr_scheduling ∷ [];
  target_state = some done;
  output_staging = staging;
  restartable = staging;
  pilot = some 8;
  control = Control.agent;
}

-- Without a stager, the second task fails.
abbrev pulled : Pull
pulled = record {
  staged = record { things = []; published = []; put = [] };
  passing = record {
    things = thing 1 (some tmgr_staging_output) ∷ thing 2 (some tmgr_staging_output) ∷ [];
    published =
        part 1 task (some tmgr_staging_output) [] ∷ part 2 task (some tmgr_staging_output) [] ∷ [];
    put = [];
  };
  finalized = record {
    things = thing 1 (some done) ∷ thing 2 (some failed) ∷ [];
    published = whole (thing 1 (some done)) ∷ whole (thing 2 (some failed)) ∷ [];
    put = [];
  };
}

pulled_run : task_pull_cb routes false (doc 1 false ∷ doc 2 true ∷ []) ≡ ok pulled
unfolding task_pull_cb to_stage to_finalize take_over fail_target finalize set_targets advance
    publish_all publish_things publish_thing set_fields assign_state drop_all keep
pulled_run = refl

task_pull_cb-end_states_example :
    (tally 2 pulled.staged.things + tally 2 pulled.finalized.things
      ≡ tally 2 (things_of (doc 1 false ∷ doc 2 true ∷ [])))
    × (states pulled.finalized ≡ end_states false (doc 1 false ∷ doc 2 true ∷ []))
task_pull_cb-end_states_example =
    task_pull_cb-end_states routes false (doc 1 false ∷ doc 2 true ∷ []) pulled 2 pulled_run

-- Pilot 8 has ended and is listed twice, pilot 9 has not. An agent has a task of each.
abbrev pilots : List (ℕ × Option PilotState)
pilots = (8, some pilot_done) ∷ (9, some pmgr_active) ∷ (8, some pilot_done) ∷ []

abbrev on_other : Doc
on_other = record (doc 2 true) { pilot = some 9 }

abbrev db : List Doc
db = doc 1 true ∷ on_other ∷ []

abbrev db_after : List Doc
db_after = record (doc 1 true) { control = Control.tmgr } ∷ on_other ∷ []

-- The second time, no task of pilot 8 is found.
abbrev lost : List Lost
lost =
    record {
      to_restart = doc 1 true ∷ [];
      advanced = record {
        things = thing 1 (some failed) ∷ [];
        published = whole (thing 1 (some failed)) ∷ [];
        put = [];
      };
    }
    ∷ record { to_restart = []; advanced = record { things = []; published = []; put = [] } }
    ∷ []

lost_run : pilot_state_cb routes db pilots ≡ ok (lost, db_after)
unfolding pilot_state_cb check_pilot lose_tasks fail_task find_tasks update_tasks set_control
    with_agent bound_to listed advance publish_all publish_things publish_thing set_fields
    assign_state drop_all keep
lost_run = refl

pilot_state_cb-IsLost_example : IsLost db pilots lost db_after
pilot_state_cb-IsLost_example =
    pilot_state_cb-IsLost routes db pilots lost db_after ((refl, tt), (tt, tt)) lost_run
