-- ===== src/Samples/Waitpool.antt =====
-- A round of the agent's scheduler (src/radical/pilot/agent/scheduler/base.py).
use radical_pilot.Prelude.{
  ℕ, ◌+◌, ◌≤◌, ◌≡◌, refl, ◌+ℤ◌, ◌-ℤ◌, Bool, true, false, String, List, [], ◌∷◌, Result, ok, raise,
  ◌>>=◌, >>=-eq-ok, arith,
}
use radical_pilot.Agent.Nodes.{
  mark_all, set, change_node, change_nodes, change_slot, change_slot_states,
}
use radical_pilot.Agent.Nodes.Marks.{elem}
use radical_pilot.Agent.Continuous.Task.{Task, State, is_mpi}
use radical_pilot.Agent.Continuous.Find.{
  count_free, limit, alc_slots, pick, build_slots, find_counted, find_resources,
}
use radical_pilot.Agent.Continuous.Search.{
  lookup, insert, nodes_from, iterate_nodes, search_nodes, visit, settle, tag_excludes,
  node_partition,
}
use radical_pilot.Agent.Continuous.Schedule.{
  fits_node, slots_per_node, partition_tag, add_all, remember, conclude, schedule_task,
  unschedule_task,
}
use radical_pilot.Agent.Continuous.Allocate.{
  CvdIdMode, gpu_maps, cuda_setting, handle_cuda, place, place_found, try_allocation,
}
use radical_pilot.Agent.Waitpool.{
  Agent, wait_for, wait_for_all, insert_by, sort_by, split_by, Bisect, schedule_waitpool,
  settle_incoming, place_incoming, schedule_incoming, release_all, unschedule_completed,
  schedule_tasks,
}
use radical_pilot.Agent.Waitpool.Counts.{count_uid}
use radical_pilot.Agent.Waitpool.Kept.{KeepsTasks, in_agent, schedule_tasks-in_agent}
use radical_pilot.Samples.Continuous.{cfg, task, placed_task, busy_state}

-- The task at the head of one of the two lists.
abbrev put_back :
    Bool × Task × State → List Task × List Task × State → List Task × List Task × State
put_back (true, t, s) (placed, others, s') = (t ∷ placed, others, s')
put_back (false, t, s) (placed, others, s') = (placed, t ∷ others, s')

-- A bisection that checks every task.
unfoldable one_by_one : Bisect
one_by_one check [] s = ok ([], [], s)
one_by_one check (t ∷ ts) s = do r ← check t s; rest ← one_by_one check ts r.2; ok (put_back r rest)

put_back-count :
    (u : ℕ) (r : Bool × Task × State) (rest : List Task × List Task × State)
    → count_uid u (put_back r rest).0 + count_uid u (put_back r rest).1
      ≡ count_uid u (r.1 ∷ []) + (count_uid u rest.0 + count_uid u rest.1)
put_back-count u (true, t, s) (placed, others, s') = omega arith
put_back-count u (false, t, s) (placed, others, s') = omega arith

one_by_one-KeepsTasks : KeepsTasks one_by_one
unfolding one_by_one
one_by_one-KeepsTasks check [] s s' placed others keeps h u =
    let p : placed ≡ [] = cc in let o : others ≡ [] = cc in rw (p, o) (omega arith)
one_by_one-KeepsTasks check (t ∷ ts) s s' placed others keeps h u =
    let (r, e, h') = >>=-eq-ok (check t s) _ h in
    let (rest, f, h'') = >>=-eq-ok (one_by_one check ts r.2) _ h' in
    let same : put_back r rest ≡ (placed, others, s') = cc in
    let ih = one_by_one-KeepsTasks check ts r.2 rest.2 rest.0 rest.1 keeps f u in
    let uid = keeps t s r e in
    let one : count_uid u (r.1 ∷ []) ≡ count_uid u (t ∷ []) = rw uid refl in
    let sum = rw same at (put_back-count u r rest) in omega (arith, sum, one, ih)

-- One task waits, one comes in, and one is done.
abbrev full_agent : Agent
full_agent = record {
  state = busy_state;
  waitpool = record task { uid = 2 } ∷ [];
  executing = placed_task ∷ [];
}

abbrev no_envs : String → Bool
no_envs = λ env. false

abbrev round : Result (List Task × Bool × Agent)
round =
    schedule_tasks no_envs one_by_one cfg CvdIdMode.physical (record task { uid = 3 } ∷ [])
      (placed_task ∷ []) true full_agent

abbrev round_end : List Task × Bool × Agent
round_end = end_of round
  where
    end_of : Result (List Task × Bool × Agent) → List Task × Bool × Agent
    end_of (ok r) = r
    end_of (raise e) = ([], true, full_agent)

round_runs : round ≡ ok round_end
unfolding schedule_tasks schedule_waitpool split_by sort_by insert_by one_by_one wait_for_all
    wait_for schedule_incoming place_incoming settle_incoming unschedule_completed release_all
    unschedule_task try_allocation place_found place schedule_task fits_node slots_per_node
    partition_tag iterate_nodes nodes_from search_nodes visit tag_excludes lookup node_partition
    find_resources alc_slots count_free limit find_counted build_slots pick settle conclude remember
    insert add_all elem is_mpi change_slot_states change_slot change_nodes change_node mark_all set
    ◌+ℤ◌ ◌-ℤ◌ handle_cuda gpu_maps cuda_setting
round_runs = refl

schedule_tasks-in_agent_example : 1 ≤ in_agent 3 round_end.2
schedule_tasks-in_agent_example =
    schedule_tasks-in_agent no_envs one_by_one cfg CvdIdMode.physical 3
      (record task { uid = 3 } ∷ []) (placed_task ∷ []) true full_agent round_end
      one_by_one-KeepsTasks round_runs (omega arith)
