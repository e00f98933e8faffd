-- ===== src/Samples/Continuous.antt =====
-- Runs of the continuous scheduler (src/radical/pilot/agent/scheduler/continuous.py).
use radical_pilot.Prelude.{
  ℕ, ◌≡◌, refl, ◌⊎◌, inl, inr, pos, ◌+ℤ◌, ◌-ℤ◌, true, false, List, [], ◌∷◌, Option, none, some, ok,
  raise, assertion_error, value_error, arith, All,
}
use radical_pilot.Agent.Nodes.{
  Node, Slot, Pool, free, busy, down, mark_all, set, change_node, change_nodes, change_slot,
  change_slot_states,
}
use radical_pilot.Agent.Nodes.Marks.{elem}
use radical_pilot.Agent.Nodes.Release.{change_slot_states-release}
use radical_pilot.Agent.Continuous.Task.{TaskDescription, Slots, Task, Config, State, is_mpi}
use radical_pilot.Agent.Continuous.Find.{
  PerSlot, count_free, limit, alc_slots, pick, build_slots, find_counted, find_resources,
}
use radical_pilot.Agent.Continuous.Found.{Found, find_resources-Found}
use radical_pilot.Agent.Continuous.Configure.{
  RmInfo, block, summit_marks, node_marks, node_entries, configure,
}
use radical_pilot.Agent.Continuous.Placement.{IsReady, IsPlacement, Outcome}
use radical_pilot.Agent.Continuous.Search.{
  lookup, insert, nodes_from, iterate_nodes, search_nodes, visit, settle, tag_excludes,
  node_partition,
}
use radical_pilot.Agent.Continuous.Schedule.{
  fits_node, slots_per_node, partition_tag, add_all, remember, conclude, schedule_task,
  unschedule_task,
}
use radical_pilot.Agent.Continuous.Scheduled.{schedule_task-Outcome}
use radical_pilot.Agent.Continuous.Allocate.{
  CvdIdMode, gpu_maps, cuda_setting, handle_cuda, place, place_found, try_allocation,
}
use radical_pilot.Agent.Continuous.Configured.{IsEntry, DistinctUids, entry_uids, configure-IsReady}
use radical_pilot.Agent.Continuous.Allocated.{try_allocation-unschedule_task}

-- Two nodes of three cores, of which the first is blocked, and one GPU.
abbrev two_nodes : RmInfo
two_nodes = record {
  node_list = ("a", 1) ∷ ("b", 2) ∷ [];
  partitions = [];
  cores_per_node = 3;
  gpus_per_node = 1;
  lfs_size = 10;
  lfs_path = some "/tmp";
  mem_per_node = 8;
  smt = 1;
  is_jsrun = false;
  scattered = false;
  blocked_cores = 0 ∷ [];
  blocked_gpus = [];
}

abbrev node_a : Node
node_a = record {
  name = "a";
  uid = 1;
  cores = down ∷ free ∷ free ∷ [];
  gpus = free ∷ [];
  mem = pos 8;
}

abbrev node_b : Node
node_b = record node_a { name = "b"; uid = 2 }

abbrev pub cfg : Config
cfg = record {
  scattered = false;
  cores_per_node = 2;
  gpus_per_node = 1;
  mem_per_node = 8;
  lfs_path = some "/tmp";
  partitions = [];
}

abbrev idle : State
idle = record {
  nodes = node_a ∷ node_b ∷ [];
  lfs = pos 10;
  node_offset = 0;
  colo_history = [];
  tagged_nodes = [];
}

two_nodes-configure : configure two_nodes ≡ ok (cfg, idle)
unfolding configure node_entries node_marks summit_marks block set
two_nodes-configure = refl

two_nodes-DistinctUids : DistinctUids (entry_uids two_nodes.node_list)
unfolding entry_uids
two_nodes-DistinctUids = ((λ e. omega (arith, e), tt), (tt, tt))

configure-IsReady_example : IsReady idle × All (IsEntry two_nodes) idle.nodes
configure-IsReady_example =
    configure-IsReady two_nodes (cfg, idle) (omega arith) two_nodes-DistinctUids two_nodes-configure

idle-IsReady : IsReady idle
idle-IsReady = configure-IsReady_example.0

-- An MPI task of three processes, which needs both nodes.
abbrev pub wide : TaskDescription
wide = record {
  cpu_processes = 3;
  cpu_threads = 1;
  cpu_process_type = "MPI";
  gpu_processes = 0;
  lfs_per_process = 1;
  mem_per_process = 2;
  colocate = some "tag";
  exclusive = false;
  partition = none;
  named_env = none;
}

abbrev pub task : Task
task = record {
  uid = 1;
  description = wide;
  slots = none;
  node_lfs_path = none;
  cuda_visible_devices = none;
  resources = none;
}

abbrev a_slot : ℕ → Slot
a_slot core = record {
  name = "a";
  uid = 1;
  core_map = (core ∷ []) ∷ [];
  gpu_map = [];
  lfs_size = 1;
  lfs_path = some "/tmp";
  mem = 2;
}

abbrev wide_nodes : List Slot
wide_nodes = a_slot 1 ∷ a_slot 2 ∷ record (a_slot 1) { name = "b"; uid = 2 } ∷ []

abbrev wide_slots : Slots
wide_slots = record {
  nodes = wide_nodes;
  partition_id = none;
  cores_per_node = 2;
  gpus_per_node = 1;
  mem_per_node = 8;
  lfs_path = some "/tmp";
}

abbrev pub placed_task : Task
placed_task = record task { slots = some wide_slots; node_lfs_path = some "/tmp" }

abbrev pub busy_state : State
busy_state = record {
  nodes =
      record node_a { cores = down ∷ busy ∷ busy ∷ []; mem = pos 4 }
      ∷ record node_b { cores = down ∷ busy ∷ free ∷ []; mem = pos 6 }
      ∷ [];
  lfs = pos 7;
  node_offset = 1;
  colo_history = ("tag", 1 ∷ 1 ∷ 2 ∷ []) ∷ [];
  tagged_nodes = 1 ∷ 2 ∷ [];
}

wide_placed : try_allocation cfg CvdIdMode.physical task idle ≡ ok (true, placed_task, busy_state)
unfolding try_allocation place_found place schedule_task fits_node slots_per_node partition_tag
    iterate_nodes nodes_from search_nodes visit tag_excludes lookup node_partition find_resources
    alc_slots count_free limit find_counted build_slots pick settle conclude remember insert add_all
    elem is_mpi change_slot_states change_slot change_nodes change_node mark_all set ◌+ℤ◌ ◌-ℤ◌
    handle_cuda gpu_maps cuda_setting
wide_placed = refl

try_allocation-unschedule_task_example :
    (slots : Slots) × (r : State) × (placed_task.slots ≡ some slots)
    × IsPlacement cfg idle wide slots.nodes
    × (unschedule_task slots.nodes busy_state ≡ ok r)
    × (r.nodes ≡ idle.nodes)
    × (r.lfs ≡ idle.lfs)
try_allocation-unschedule_task_example =
    try_allocation-unschedule_task cfg CvdIdMode.physical task placed_task idle busy_state
      idle-IsReady wide_placed

schedule_task-Outcome_example :
    (schedule_task cfg wide idle ≡ raise assertion_error)
    ⊎ (schedule_task cfg wide idle ≡ raise value_error)
    ⊎ ((res : Option Slots × State) × (schedule_task cfg wide idle ≡ ok res)
        × Outcome cfg idle wide res)
schedule_task-Outcome_example = schedule_task-Outcome cfg wide idle idle-IsReady

abbrev idle_pool : Pool
idle_pool = record { nodes = idle.nodes; lfs = idle.lfs }

change_slot_states-release_example :
    (q : Pool) × (change_slot_states wide_nodes busy idle_pool ≡ ok q)
    × (change_slot_states wide_nodes free q ≡ ok idle_pool)
change_slot_states-release_example =
    change_slot_states-release wide_nodes idle_pool idle-IsReady.distinct (
      inl (refl, (refl, tt), tt),
      (inl (refl, (refl, tt), tt), (inr (inl (refl, (refl, tt), tt)), tt)),
    )

abbrev one_core : PerSlot
one_core = record { cores = 1; gpus = 0; lfs = 1; mem = 2 }

find_resources-Found_example :
    (find_resources (some "/tmp") node_a (pos 10) 3 one_core true ≡ ok none)
    ⊎ ((slots : List Slot) × (find_resources (some "/tmp") node_a (pos 10) 3 one_core true
          ≡ ok (some slots))
        × Found (some "/tmp") node_a (pos 10) 3 one_core true slots)
find_resources-Found_example =
    find_resources-Found (some "/tmp") node_a (pos 10) 3 one_core true (omega arith) (omega arith)
