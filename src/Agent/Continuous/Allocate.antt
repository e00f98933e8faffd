-- ===== src/Agent/Continuous/Allocate.antt =====
-- `_try_allocation` and `_handle_cuda` of src/radical/pilot/agent/scheduler/base.py, over the
-- continuous scheduler.
use radical_pilot.Prelude.{
  ℕ, suc, Bool, true, false, ◌&&◌, ◌||◌, ◌==◌, if◌then◌else◌, List, [], ◌∷◌, ◌++◌, Option, none,
  some, Result, ok, raise, value_error, index_error, ◌>>=◌,
}
use radical_pilot.Agent.Nodes.{busy, Slot, has_path, change_slot_states}
use radical_pilot.Agent.Continuous.Task.{Slots, Task, Config, State}
use radical_pilot.Agent.Continuous.Schedule.{schedule_task, pool, with_pool}

-- `lm_info.get('cvd_id_mode', 'physical')`
pub data CvdIdMode : Type 0 where
  physical logical invalid : CvdIdMode

same_list : List ℕ → List ℕ → Bool
same_list [] [] = true
same_list (x ∷ xs) (y ∷ ys) = x == y && same_list xs ys
same_list _ _ = false

same_map : List (List ℕ) → List (List ℕ) → Bool
same_map [] [] = true
same_map (x ∷ xs) (y ∷ ys) = same_list x y && same_map xs ys
same_map _ _ = false

known_map : List (List ℕ) → List (List (List ℕ)) → Bool
known_map m [] = false
known_map m (n ∷ maps) = same_map m n || known_map m maps

-- The different GPU maps of the slots, in the order of their first use.
unfoldable pub gpu_maps : List (List (List ℕ)) → List Slot → List (List (List ℕ))
unfolding same_list same_map known_map
gpu_maps maps [] = maps
gpu_maps maps (slot ∷ slots) =
    gpu_maps (if known_map slot.gpu_map maps then maps else maps ++ slot.gpu_map ∷ []) slots

-- `[gpu_set[0] for gpu_set in gpu_map]`
first_gpus : List (List ℕ) → Result (List ℕ)
first_gpus [] = ok []
first_gpus ([] ∷ sets) = raise index_error
first_gpus ((g ∷ gs) ∷ sets) = do rest ← first_gpus sets; ok (g ∷ rest)

-- `range(len(gpu_map))`
count_up : ℕ → List (List ℕ) → List ℕ
count_up n [] = []
count_up n (set ∷ sets) = n ∷ count_up (suc n) sets

cuda_devices : CvdIdMode → List (List ℕ) → Result (List ℕ)
cuda_devices physical gpu_map = first_gpus gpu_map
cuda_devices logical gpu_map = ok (count_up 0 gpu_map)
cuda_devices invalid gpu_map = raise value_error

-- The setting for the different maps. A text of numbers joined by commas is the list of the numbers.
unfoldable pub cuda_setting :
    CvdIdMode → Option (List ℕ) → List (List (List ℕ)) → Result (Option (List ℕ))
unfolding first_gpus count_up cuda_devices
cuda_setting mode old [] = ok old
cuda_setting mode old ([] ∷ maps) = ok old
cuda_setting mode old ((set ∷ sets) ∷ []) = do
  devices ← cuda_devices mode (set ∷ sets)
  ok (some devices)
cuda_setting mode old ((set ∷ sets) ∷ m ∷ maps) = ok old

-- `_handle_cuda`: the environment entry `CUDA_VISIBLE_DEVICES` of a task with these slots.
unfoldable pub handle_cuda : CvdIdMode → Option (List ℕ) → List Slot → Result (Option (List ℕ))
handle_cuda mode old slots = cuda_setting mode old (gpu_maps [] slots)

-- The part of `_try_allocation` behind a placement.
unfoldable pub place : CvdIdMode → Task → State → Slots → Result (Bool × Task × State)
place mode task s slots = do
  p ← change_slot_states slots.nodes busy (pool s)
  cuda ← handle_cuda mode task.cuda_visible_devices slots.nodes
  ok (
    true,
    record task {
      slots = some slots;
      node_lfs_path = (if has_path slots.lfs_path then slots.lfs_path else task.node_lfs_path);
      cuda_visible_devices = cuda;
    },
    with_pool s p,
  )

unfoldable pub place_found : CvdIdMode → Task → Option Slots × State → Result (Bool × Task × State)
place_found mode task (none, s) = ok (false, task, s)
place_found mode task (some slots, s) = place mode task s slots

-- `_try_allocation`: whether the task was placed, the task, and the state.
unfoldable pub try_allocation : Config → CvdIdMode → Task → State → Result (Bool × Task × State)
try_allocation cfg mode task s = do
  found ← schedule_task cfg task.description s
  place_found mode task found
