-- ===== src/Api/Pull.antt =====
-- Tasks that come back from the agent: `_task_pull_cb` and `_pilot_state_cb` of
-- src/radical/pilot/task_manager.py. For the first, what the database returns is given, and its update is
-- left out; for the second, the database is the list of the documents of this manager's tasks, which is
-- searched and updated. Where a call raises, the database is not kept.
use radical_pilot.Prelude.{
  ℕ, Bool, true, false, not, if◌then◌else◌, List, [], ◌∷◌, ◌++◌, map, Option, none, some, Result,
  ok, ◌>>=◌, ◌&&◌, ◌==◌,
}
use radical_pilot.States.Task.{
  TaskState, tmgr_staging_output, failed, task_state_collapse, task_state_discrete, is_final,
}
use radical_pilot.States.Pilot.{PilotState, is_final as is_final_pilot}
use radical_pilot.Components.Buckets.{keep}
use radical_pilot.Components.Work.{listed}
use radical_pilot.Components.Advance.{Thing, Advanced, Routes, advance}

-- `control`: the part of the system that has the task
pub data Control : Type 0 where
  agent_pending agent tmgr_pending tmgr : Control

-- A task as the database has it.
pub record Doc : Type 0 where
  pub thing : Thing (Option TaskState)
  pub states : List TaskState
  pub target_state : Option TaskState
  pub output_staging : Bool
  pub restartable : Bool
  pub pilot : Option ℕ
  pub control : Control

-- `task['control'] = 'tmgr'`, and the state by `_task_state_collapse`
unfoldable pub take_over : Doc → Doc
take_over d = record d {
  thing = record d.thing { state = task_state_collapse d.states };
  control = tmgr;
}

abbrev pub needs_staging : Doc → Bool
needs_staging d = d.output_staging

abbrev pub needs_none : Doc → Bool
needs_none d = not d.output_staging

abbrev pub things_of : List Doc → List (Thing (Option TaskState))
things_of ds = map (λ d. d.thing) ds

-- `task['target_state'] = rps.FAILED`
unfoldable pub fail_target : Doc → Doc
fail_target d = record d { target_state = some failed }

-- `to_finalize`
unfoldable pub to_finalize : Bool → List Doc → List Doc
to_finalize true docs = keep needs_none docs
to_finalize false docs = keep needs_none docs ++ map fail_target (keep needs_staging docs)

-- `to_stage`, where there is a stager
unfoldable pub to_stage : Bool → List Doc → List Doc
to_stage true docs = keep needs_staging docs
to_stage false docs = []

-- `task['state'] = task['target_state']`, in the things as they were advanced
unfoldable pub set_targets :
    List Doc → List (Thing (Option TaskState)) → List (Thing (Option TaskState))
set_targets [] things = []
set_targets (d ∷ ds) [] = []
set_targets (d ∷ ds) (x ∷ xs) = record x { state = d.target_state } ∷ set_targets ds xs

abbrev pub Batch : Type 0
Batch = Advanced (Option TaskState)

unfoldable pub finalize : Routes (Option TaskState) → List Doc → Result (Batch × Batch)
finalize r docs = do
  passing ←
      advance is_final task_state_discrete r (things_of docs) (some (some tmgr_staging_output)) true
        false
  last ← advance is_final task_state_discrete r (set_targets docs passing.things) none true false
  ok (passing, last)

-- The three calls of `advance`; a call with no things does nothing.
pub record Pull : Type 0 where
  pub staged : Batch
  pub passing : Batch
  pub finalized : Batch

-- `_task_pull_cb`
unfoldable pub task_pull_cb : Routes (Option TaskState) → Bool → List Doc → Result Pull
task_pull_cb r has_sout docs = do
  let tasks = map take_over docs
  staged ←
      advance is_final task_state_discrete r (things_of (to_stage has_sout tasks)) none true true
  final ← finalize r (to_finalize has_sout tasks)
  ok (record { staged = staged; passing = final.0; finalized = final.1 })

-- `task['state'] = rps.FAILED`
unfoldable pub fail_task : Doc → Doc
fail_task d = record d { thing = record d.thing { state = some failed } }

-- The tasks of pilots that are final: those to submit again, and those advanced.
pub record Lost : Type 0 where
  pub to_restart : List Doc
  pub advanced : Batch

abbrev pub restarts : Doc → Bool
restarts d = d.restartable

unfoldable pub lose_tasks : Routes (Option TaskState) → List Doc → Result Lost
lose_tasks r docs = do
  batch ← advance is_final task_state_discrete r (things_of (map fail_task docs)) none true false
  ok (record { to_restart = keep restarts docs; advanced = batch })

-- `'$in' : ['agent_pending', 'agent']`
unfoldable pub with_agent : Control → Bool
with_agent agent_pending = true
with_agent agent = true
with_agent tmgr_pending = false
with_agent tmgr = false

unfoldable pub bound_to : ℕ → Option ℕ → Bool
bound_to p none = false
bound_to p (some q) = q == p

-- The query for the tasks that an agent has of a pilot.
abbrev pub found_by : ℕ → Doc → Bool
found_by p d = bound_to p d.pilot && with_agent d.control

unfoldable pub find_tasks : ℕ → List Doc → List Doc
find_tasks p db = keep (found_by p) db

abbrev pub doc_uids : List Doc → List ℕ
doc_uids ds = map (λ d. d.thing.uid) ds

-- The update `{'$set' : {'control' : 'tmgr'}}` of one document, if its uid is among those given.
unfoldable pub set_control : List ℕ → Doc → Doc
set_control us d = if listed d.thing.uid us then record d { control = tmgr } else d

unfoldable pub update_tasks : List ℕ → List Doc → List Doc
update_tasks us db = map (set_control us) db

-- `if state in rps.FINAL`; a pilot without tasks gives an entry without tasks. The result holds the database
-- as it is then.
unfoldable pub check_pilot :
    Routes (Option TaskState) → Option PilotState → ℕ → List Doc → Result (List Lost × List Doc)
check_pilot r s p db =
    if is_final_pilot s
    then (lose_tasks r (find_tasks p db) >>= λ lost.
        ok (lost ∷ [], update_tasks (doc_uids (find_tasks p db)) db))
    else ok ([], db)

-- `_pilot_state_cb`, while the manager is not closed. What `submit_tasks` adds to the database has no
-- pilot yet, so that the query does not find it.
unfoldable pub pilot_state_cb :
    Routes (Option TaskState)
    → List Doc
    → List (ℕ × Option PilotState)
    → Result (List Lost × List Doc)
pilot_state_cb r db [] = ok ([], db)
pilot_state_cb r db ((p, s) ∷ pilots) = do
  first ← check_pilot r s p db
  rest ← pilot_state_cb r first.1 pilots
  ok (first.0 ++ rest.0, rest.1)
