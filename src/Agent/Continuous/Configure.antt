-- ===== src/Agent/Continuous/Configure.antt =====
-- `_configure` of src/radical/pilot/agent/scheduler/continuous.py, over the resource information that
-- `initialize` of base.py stores.
--
-- The two counts per node stop at 0. In the source they fall below it only where a list of blocked
-- indices names an index twice, or where all cores of a Summit node are blocked.
use radical_pilot.Prelude.{
  ℕ, zero, suc, ◌+◌, ◌-◌, ◌*◌, String, pos, Bool, ◌&&◌, ◌||◌, ltb, if◌then◌else◌, List, [], ◌∷◌,
  length, replicate, Option, Result, ok, assertion_error, guard, ◌>>=◌, ◌>>◌,
}
use radical_pilot.Agent.Nodes.{Mark, free, down, Node, set, mark_all}
use radical_pilot.Agent.Continuous.Task.{Config, State}

-- `self._rm_…` and the configuration entries that are read.
pub record RmInfo : Type 0 where
  pub node_list : List (String × ℕ)
  pub partitions : List (String × List ℕ)
  pub cores_per_node : ℕ
  pub gpus_per_node : ℕ
  pub lfs_size : ℕ
  pub lfs_path : Option String
  pub mem_per_node : ℕ
  pub smt : ℕ
  pub is_jsrun : Bool
  pub scattered : Bool
  pub blocked_cores : List ℕ
  pub blocked_gpus : List ℕ

-- The system is Summit.
abbrev is_summit : RmInfo → Bool
is_summit rm = ltb 40 rm.cores_per_node && rm.is_jsrun

-- `range(smt)`, moved to the second socket.
summit_indices : ℕ → ℕ → List ℕ
summit_indices smt zero = []
summit_indices smt (suc n) = (1 * 21 * smt + (smt - suc n)) ∷ summit_indices smt n

-- `for idx in blocked: assert(len(marks) > idx); marks[idx] = rpc.DOWN`
unfoldable pub block : List Mark → List ℕ → Result (List Mark)
block marks [] = ok marks
block marks (i ∷ is) =
    let rest = block (set marks i down) is in do guard (ltb i (length marks)) assertion_error; rest

-- The cores of a node before the blocked ones are marked.
unfoldable pub summit_marks : RmInfo → Result (List Mark)
unfolding summit_indices
summit_marks rm =
    if is_summit rm
    then mark_all (replicate rm.cores_per_node free) (summit_indices rm.smt rm.smt) down
    else ok (replicate rm.cores_per_node free)

-- The cores and GPUs of each node: the lists are made anew for each, with the same content.
unfoldable pub node_marks : RmInfo → Result (List Mark × List Mark)
node_marks rm = do
  summit ← summit_marks rm
  cores ← block summit rm.blocked_cores
  gpus ← block (replicate rm.gpus_per_node free) rm.blocked_gpus
  ok (cores, gpus)

unfoldable pub node_entries : RmInfo → List (String × ℕ) → Result (List Node)
node_entries rm [] = ok []
node_entries rm ((name, uid) ∷ entries) = do
  (cores, gpus) ← node_marks rm
  rest ← node_entries rm entries
  ok (
      record { name = name; uid = uid; cores = cores; gpus = gpus; mem = pos rm.mem_per_node }
      ∷ rest)

abbrev any_blocked : RmInfo → Bool
any_blocked rm = ltb 0 (length rm.blocked_cores) || ltb 0 (length rm.blocked_gpus)

-- `_configure`, with what `__init__` sets up.
unfoldable pub configure : RmInfo → Result (Config × State)
configure rm = do
  nodes ← node_entries rm rm.node_list
  let summit_cores = if is_summit rm then rm.cores_per_node - 1 else rm.cores_per_node
  let cores = if any_blocked rm then summit_cores - length rm.blocked_cores else summit_cores
  let gpus = if any_blocked rm then rm.gpus_per_node - length rm.blocked_gpus else rm.gpus_per_node
  ok (
    record {
      scattered = rm.scattered;
      cores_per_node = cores;
      gpus_per_node = gpus;
      mem_per_node = rm.mem_per_node;
      lfs_path = rm.lfs_path;
      partitions = rm.partitions;
    },
    record {
      nodes = nodes;
      lfs = pos rm.lfs_size;
      node_offset = 0;
      colo_history = [];
      tagged_nodes = [];
    },
  )
