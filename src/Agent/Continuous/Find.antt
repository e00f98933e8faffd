-- ===== src/Agent/Continuous/Find.antt =====
-- `_find_resources` of src/radical/pilot/agent/scheduler/continuous.py.
--
-- `int(floor(a / b))` is the quotient of whole numbers: the source's division of floats agrees with
-- it below 2^53.
use radical_pilot.Prelude.{
  ℕ, zero, suc, ◌/◌, min, String, ℤ, pos, negsuc, Bool, not, ◌&&◌, ◌||◌, ◌==◌, ltb, if◌then◌else◌,
  List, [], ◌∷◌, length, map, Option, none, some, Result, ok, raise, assertion_error, index_error,
  ◌>>=◌, ltb_ℤ,
}
use radical_pilot.Agent.Nodes.{Mark, free, busy, down, Node, Slot}

-- The amounts of one slot.
pub record PerSlot : Type 0 where
  pub cores : ℕ
  pub gpus : ℕ
  pub lfs : ℕ
  pub mem : ℕ

-- `marks.count(rpc.FREE)`
unfoldable pub count_free : List Mark → ℕ
count_free [] = 0
count_free (free ∷ ms) = suc (count_free ms)
count_free (busy ∷ ms) = count_free ms
count_free (down ∷ ms) = count_free ms

-- Floor division by a number that is not 0.
abbrev pub floor_div : ℤ → ℕ → ℤ
floor_div (pos n) d = pos (n / d)
floor_div (negsuc n) d = negsuc (n / d)

-- `if per_slot: slots = min(slots, int(m.floor(available / per_slot)))`
unfoldable pub limit : ℤ → ℤ → ℕ → ℤ
limit slots available per_slot =
    if per_slot == 0
    then slots
    else if ltb_ℤ (floor_div available per_slot) slots
    then floor_div available per_slot
    else slots

-- How many slots the node can serve at most.
unfoldable pub alc_slots : Node → ℤ → PerSlot → ℤ
alc_slots node lfs per =
    let by_cores =
      if per.cores == 0 then pos 1 else floor_div (pos (count_free node.cores)) per.cores in
    limit (limit (limit by_cores (pos (count_free node.gpus)) per.gpus) lfs per.lfs) node.mem
      per.mem

-- `while len(found) < want`: the free indices found from `idx` on, with the index and the marks that
-- follow. The marks are those from `idx` on; behind the last of them it is an `IndexError`.
unfoldable pub pick : ℕ → ℕ → List Mark → Result (List ℕ × ℕ × List Mark)
pick zero idx marks = ok ([], idx, marks)
pick (suc want) idx [] = raise index_error
pick (suc want) idx (free ∷ ms) = do
  (found, next, rest) ← pick want (suc idx) ms
  ok (idx ∷ found, next, rest)
pick (suc want) idx (busy ∷ ms) = pick (suc want) (suc idx) ms
pick (suc want) idx (down ∷ ms) = pick (suc want) (suc idx) ms

module _ (path : Option String) (node : Node) (per : PerSlot) where
  abbrev pub slot_at : List ℕ → List ℕ → Slot
  slot_at cores gpus = record {
    name = node.name;
    uid = node.uid;
    core_map = cores ∷ [];
    gpu_map = map (λ gpu. gpu ∷ []) gpus;
    lfs_size = per.lfs;
    lfs_path = path;
    mem = per.mem;
  }

  -- `for _ in range(alc_slots)`: the indices go on from slot to slot.
  unfoldable pub build_slots : ℕ → ℕ → List Mark → ℕ → List Mark → Result (List Slot)
  build_slots zero core_idx cores gpu_idx gpus = ok []
  build_slots (suc n) core_idx cores gpu_idx gpus = do
    (slot_cores, core_idx', cores') ← pick per.cores core_idx cores
    (slot_gpus, gpu_idx', gpus') ← pick per.gpus gpu_idx gpus
    slots ← build_slots n core_idx' cores' gpu_idx' gpus'
    ok (slot_at slot_cores slot_gpus ∷ slots)

-- The consistency check before the return.
abbrev pub checked : ℕ → Bool → List Slot → Result (Option (List Slot))
checked find_slots partial slots =
    if length slots == find_slots || not (length slots == 0) && partial
    then ok (some slots)
    else raise assertion_error

-- The tests behind the count of slots, and the slots. A negative count makes an empty `range`.
unfoldable pub find_counted :
    Option String → Node → ℕ → PerSlot → Bool → ℤ → Result (Option (List Slot))
find_counted path node find_slots per partial (negsuc n) =
    if partial then checked find_slots partial [] else ok none
find_counted path node find_slots per partial (pos n) =
    if n == 0 then ok none else if not partial && ltb n find_slots then ok none else do
      slots ← build_slots path node per (min n find_slots) 0 node.cores 0 node.gpus
      checked find_slots partial slots

-- `_find_resources`, with the shared `lfs` size and path. `None` is `none`.
unfoldable pub find_resources :
    Option String → Node → ℤ → ℕ → PerSlot → Bool → Result (Option (List Slot))
find_resources path node lfs find_slots per partial =
    find_counted path node find_slots per partial (alc_slots node lfs per)
