-- ===== src/Agent/Continuous/Task.antt =====
-- Tasks as the agent's scheduler sees them, its configuration and its state (`__init__` of
-- src/radical/pilot/agent/scheduler/continuous.py, and the task dictionaries that it reads).
use radical_pilot.Prelude.{
  ℕ, ◌+◌, String, ℤ, Bool, false, ◌&&◌, ◌||◌, ◌==◌, leb, if◌then◌else◌, List, [], ◌∷◌, Option,
}
use Prim.Native.Char.{code}
use radical_pilot.Agent.Nodes.{Node, Slot}

-- `task['description']`. Missing tags are `none`.
pub record TaskDescription : Type 0 where
  pub cpu_processes : ℕ
  pub cpu_threads : ℕ
  pub cpu_process_type : String
  pub gpu_processes : ℕ
  pub lfs_per_process : ℕ
  pub mem_per_process : ℕ
  pub colocate : Option String
  pub exclusive : Bool
  pub partition : Option String
  pub named_env : Option String

-- What `schedule_task` returns. The `lfs_per_node` entry is the shared dictionary, of which the path
-- never changes.
pub record Slots : Type 0 where
  pub nodes : List Slot
  pub partition_id : Option String
  pub cores_per_node : ℕ
  pub gpus_per_node : ℕ
  pub mem_per_node : ℕ
  pub lfs_path : Option String

pub record Task : Type 0 where
  pub uid : ℕ
  pub description : TaskDescription
  pub slots : Option Slots
  pub node_lfs_path : Option String
  pub cuda_visible_devices : Option (List ℕ)
  pub resources : Option (ℕ × ℕ)

-- What `_configure` leaves fixed.
pub record Config : Type 0 where
  pub scattered : Bool
  pub cores_per_node : ℕ
  pub gpus_per_node : ℕ
  pub mem_per_node : ℕ
  pub lfs_path : Option String
  pub partitions : List (String × List ℕ)

-- The state of the scheduler: the node list with the shared `lfs` size, and what `__init__` sets up.
pub record State : Type 0 where
  pub nodes : List Node
  pub lfs : ℤ
  pub node_offset : ℕ
  pub colo_history : List (String × List ℕ)
  pub tagged_nodes : List ℕ

-- The code points of a text.
codes : String → List ℕ
codes String.[] = []
codes (String.◌∷◌ c s) = code c ∷ codes s

lower : ℕ → ℕ
lower c = if leb b'A' c && leb c b'Z' then c + 32 else c

-- `'mpi' in text.lower()`
has_mpi : List ℕ → Bool
has_mpi [] = false
has_mpi (a ∷ []) = false
has_mpi (a ∷ b ∷ []) = false
has_mpi (a ∷ b ∷ c ∷ s) =
    lower a == b'm' && lower b == b'p' && lower c == b'i' || has_mpi (b ∷ c ∷ s)

unfoldable pub is_mpi : TaskDescription → Bool
unfolding codes lower has_mpi
is_mpi td = has_mpi (codes td.cpu_process_type)
