-- ===== src/Samples/Components.antt =====
-- Runs of the base class of components (src/radical/pilot/utils/component.py).
use radical_pilot.Prelude.{
  ℕ, Bool, true, false, ◌&&◌, ◌≡◌, refl, List, [], ◌∷◌, map, All, Option, none, some, is_some, ok,
  if◌then◌else◌,
}
use radical_pilot.States.Task.{
  TaskState, agent_scheduling_pending, agent_executing_pending, failed, canceled, is_final,
  task_state_discrete,
}
use radical_pilot.Components.Buckets.{keep, in_state, add_to, sort_into}
use radical_pilot.Components.Advance.{
  Thing, task, whole, part, Advanced, Routes, target_of, registered, put_buckets, put_bucket,
  publish_thing, publish_things, publish_all, set_fields, assign_state, drop_all, advance,
}
use radical_pilot.Components.Routed.{OnTarget, is_routed, all_put, advance_routed}
use radical_pilot.Components.Work.{
  Event, canceled_things, handed_over, Names, mark_canceled, to_cancel, put_back, has, finish,
  hand_over, after_cancel, cancel_first, work_bucket, work_buckets, work_cb, listed, remove,
}
use radical_pilot.Components.Tallies.{tally, taken}
use radical_pilot.Components.Handed.{handed, work_cb-handed}

abbrev names : Names (Option TaskState)
names = record { final = is_final; named = is_some; failed = some failed; canceled = some canceled }

-- A component with one output, for tasks to be executed.
abbrev route : Option TaskState → Option (Option ℕ)
route (some agent_executing_pending) = some (some 3)
route _ = none

abbrev routes : Routes (Option TaskState)
routes = record { outputs = route; publisher = true }

abbrev waiting : ℕ → Thing (Option TaskState)
waiting u = record {
  uid = u;
  type = task;
  state = some agent_scheduling_pending;
  all = false;
  set = none;
  fields = [];
}

abbrev pending : ℕ → Thing (Option TaskState)
pending u = record {
  uid = u;
  type = task;
  state = some agent_executing_pending;
  all = false;
  set = none;
  fields = [];
}

abbrev moved : Advanced (Option TaskState)
moved = record {
  things = pending 6 ∷ pending 7 ∷ [];
  published =
      part 6 task (some agent_executing_pending) []
      ∷ part 7 task (some agent_executing_pending) []
      ∷ [];
  put = (3, pending 6 ∷ pending 7 ∷ []) ∷ [];
}

both_advance :
    advance is_final task_state_discrete routes
      (waiting 6 ∷ waiting 7 ∷ [])
      (some (some agent_executing_pending))
      true
      true
    ≡ ok moved
unfolding advance publish_all publish_things publish_thing set_fields assign_state drop_all
    sort_into add_to put_buckets put_bucket target_of registered task_state_discrete
both_advance = refl

advance_routed_example :
    (map (λ x. x.uid) moved.things ≡ 6 ∷ 7 ∷ [])
    × (map (λ x. x.state) moved.things
        ≡ some agent_executing_pending ∷ some agent_executing_pending ∷ [])
    × All (OnTarget is_final routes) moved.put
    × (keep
          (in_state task_state_discrete (λ t. t.state) (some agent_executing_pending))
          (all_put is_final moved)
        ≡ (if true && is_routed is_final routes (some agent_executing_pending)
            then keep
                (in_state task_state_discrete (λ t. t.state) (some agent_executing_pending))
                moved.things
            else []))
advance_routed_example =
    advance_routed is_final task_state_discrete routes (waiting 6 ∷ waiting 7 ∷ [])
      (some (some agent_executing_pending)) true true moved (some agent_executing_pending)
      both_advance

-- A worker that returns and leaves its things as they are; task 7 is to be canceled.
abbrev returns : ℕ → List (Thing (Option TaskState)) → Bool × List (Thing (Option TaskState))
returns w xs = (true, xs)

abbrev inputs : List (List (Option TaskState) × List (Thing (Option TaskState)))
inputs = (some agent_scheduling_pending ∷ [], waiting 6 ∷ waiting 7 ∷ []) ∷ []

abbrev stopped : Thing (Option TaskState)
stopped = record {
  uid = 7;
  type = task;
  state = some canceled;
  all = false;
  set = none;
  fields = [];
}

abbrev round : List (Event (Option TaskState) ℕ)
round =
    canceled_things (record { things = stopped ∷ []; published = whole stopped ∷ []; put = [] })
    ∷ handed_over 0 (waiting 6 ∷ stopped ∷ [])
    ∷ []

round_runs :
    work_cb task_state_discrete names routes returns (λ s. some 0) inputs (7 ∷ []) ≡ ok ([], round)
unfolding work_cb work_buckets work_bucket cancel_first after_cancel hand_over finish put_back
    to_cancel mark_canceled listed remove has advance publish_all publish_things publish_thing
    assign_state drop_all sort_into add_to put_buckets task_state_discrete
round_runs = refl

-- The canceled task is handed to the worker all the same.
work_cb-handed_example : tally 7 (handed round) ≡ tally 7 (taken inputs)
work_cb-handed_example =
    work_cb-handed task_state_discrete names routes returns refl refl 7 (λ s. some 0) inputs
      (7 ∷ []) [] round round_runs
