-- ===== src/Agent/Continuous/Schedule.antt =====
-- `schedule_task` and `unschedule_task` of src/radical/pilot/agent/scheduler/continuous.py, and
-- `_try_allocation` of base.py around them.
use radical_pilot.Prelude.{
  ℕ, ◌/◌, min, String, ℤ, pos, pos_part, Bool, true, false, not, ◌||◌, ◌==◌, ltb, leb, leb_ℤ,
  if◌then◌else◌, List, [], ◌∷◌, ◌++◌, map, Option, none, some, is_some, Result, ok, raise,
  assertion_error, value_error, guard, ◌>>=◌, ◌>>◌,
}
use Prim.Native.String.{◌++◌ as text_append}
use text.Mathlib.Text.{◌==◌ as str_eq}
use radical_pilot.Agent.Nodes.{free, Slot, Pool, change_slot_states}
use radical_pilot.Agent.Nodes.Marks.{elem}
use radical_pilot.Agent.Continuous.Task.{TaskDescription, Slots, Config, State, is_mpi}
use radical_pilot.Agent.Continuous.Find.{PerSlot}
use radical_pilot.Agent.Continuous.Search.{
  lookup, insert, iterate_nodes, Request, Progress, start, search_nodes,
}

-- `if per_slot: slots = min(slots, int(m.floor(per_node / per_slot)))`
abbrev pub bound : ℕ → ℕ → ℕ → ℕ
bound slots per_node per_slot = if per_slot == 0 then slots else min slots (per_node / per_slot)

-- Processes are at least single-threaded.
abbrev pub per_slot : TaskDescription → PerSlot
per_slot td = record {
  cores = if td.cpu_threads == 0 then 1 else td.cpu_threads;
  gpus = td.gpu_processes;
  lfs = td.lfs_per_process;
  mem = td.mem_per_process;
}

-- The four assertions.
unfoldable pub fits_node : Config → ℤ → PerSlot → Result (Unit {0})
fits_node cfg lfs per = do
  guard (leb per.cores cfg.cores_per_node) assertion_error
  guard (leb per.gpus cfg.gpus_per_node) assertion_error
  guard (leb_ℤ (pos per.lfs) lfs) assertion_error
  guard (leb per.mem cfg.mem_per_node) assertion_error

-- Called where the assertions hold, so that `lfs` is no less than 0.
unfoldable pub slots_per_node : Config → ℤ → PerSlot → ℕ
slots_per_node cfg lfs per =
    bound
      (bound (bound (cfg.cores_per_node / per.cores) cfg.gpus_per_node per.gpus) (pos_part lfs)
        per.lfs)
      cfg.mem_per_node per.mem

-- The truth value of an optional text.
abbrev pub non_empty : Option String → Option String
non_empty none = none
non_empty (some String.[]) = none
non_empty (some (String.◌∷◌ c s)) = some (String.◌∷◌ c s)

abbrev pub join_tag : String → Option String → String
join_tag partition tag = elim (non_empty tag) [
  | none ↦ partition
  | some t ↦ text_append partition (text_append "_" t)
]

-- The tag for a partition that the task names, and the history with the partition's nodes entered.
unfoldable pub enter_partition :
    List (String × List ℕ)
    → Option String
    → Option String
    → List (String × List ℕ)
    → Result (Option String × List (String × List ℕ))
enter_partition partitions colocate none history = ok (colocate, history)
enter_partition partitions colocate (some partition) history = elim (lookup partition partitions) [
  | none ↦ raise value_error
  | some uids ↦
      let tag = join_tag partition colocate in
      ok (some tag, (if is_some (lookup tag history) then history else insert tag uids history))
]

-- The tag under which the task is placed, with the history; partitions count if there are any.
unfoldable pub partition_tag :
    List (String × List ℕ)
    → TaskDescription
    → List (String × List ℕ)
    → Result (Option String × List (String × List ℕ))
partition_tag [] td history = ok (td.colocate, history)
partition_tag (p ∷ ps) td history = enter_partition (p ∷ ps) td.colocate td.partition history

-- `set.update`
unfoldable pub add_all : List ℕ → List ℕ → List ℕ
add_all [] known = known
add_all (u ∷ us) known = add_all us (if elem u known then known else known ++ u ∷ [])

-- `colo_tag is not None and colo_tag != partition`
abbrev pub is_remembered : Option String → Option String → Bool
is_remembered none partition = false
is_remembered (some tag) none = true
is_remembered (some tag) (some partition) = not (str_eq tag partition)

abbrev pub tag_text : Option String → String
tag_text none = ""
tag_text (some tag) = tag

-- The tag history after a placement.
unfoldable pub remember : State → Option String → Option String → List ℕ → State
remember s tag partition uids =
    if is_remembered tag partition
    then record s {
      colo_history = insert (tag_text tag) uids s.colo_history;
      tagged_nodes = add_all uids s.tagged_nodes;
    }
    else s

abbrev pub slots_of : Config → Progress → Slots
slots_of cfg p = record {
  nodes = p.alc_slots;
  partition_id = p.task_partition_id;
  cores_per_node = cfg.cores_per_node;
  gpus_per_node = cfg.gpus_per_node;
  mem_per_node = cfg.mem_per_node;
  lfs_path = cfg.lfs_path;
}

abbrev pub request : Config → ℤ → TaskDescription → Option String → Request
request cfg lfs td tag = record {
  mpi = is_mpi td;
  req_slots = td.cpu_processes;
  per = per_slot td;
  slots_per_node = slots_per_node cfg lfs (per_slot td);
  colo_tag = tag;
  exclusive = td.exclusive;
}

-- What follows the loop.
unfoldable pub conclude :
    Config → TaskDescription → Option String → State → Progress → Option Slots × State
conclude cfg td tag s p = if ltb 0 p.rem_slots then (none, s) else (
  some (slots_of cfg p),
  remember s tag td.partition (map (λ (slot : Slot). slot.uid) p.alc_slots),
)

-- `schedule_task`. `None` is `none`; the state comes back on both paths.
unfoldable pub schedule_task : Config → TaskDescription → State → Result (Option Slots × State)
schedule_task cfg td s = do
  fits_node cfg s.lfs (per_slot td)
  guard (is_mpi td || leb td.cpu_processes (slots_per_node cfg s.lfs (per_slot td))) value_error
  (tag, history) ← partition_tag cfg.partitions td s.colo_history
  let r = request cfg s.lfs td tag
  let s' = record s { colo_history = history }
  nodes ← iterate_nodes s'
  (p, offset) ← search_nodes cfg s' r nodes s'.node_offset (start r)
  ok (conclude cfg td tag (record s' { node_offset = offset }) p)

abbrev pub pool : State → Pool
pool s = record { nodes = s.nodes; lfs = s.lfs }

abbrev pub with_pool : State → Pool → State
with_pool s p = record s { nodes = p.nodes; lfs = p.lfs }

-- `unschedule_task`, with the slots of the task.
unfoldable pub unschedule_task : List Slot → State → Result State
unschedule_task slots s = do p ← change_slot_states slots free (pool s); ok (with_pool s p)
