-- ===== src/Agent/Continuous/Found.antt =====
-- The results of `_find_resources` in src/radical/pilot/agent/scheduler/continuous.py.
use radical_pilot.Prelude.{
  ℕ, ◌*◌, ◌/◌, ◌≤◌, min, ◌≡◌, ◌≢◌, sym, subst, ◌∙◌, ◌⊎◌, inl, inr, ℤ, pos, pos_part, ◌≤ℤ◌, Bool,
  true, false, not, ◌&&◌, ◌==◌, ltb, Bool-cases, if◌then◌else◌, List, length, take, All, Option,
  none, some, String, ok, arith,
}
use native.Mathlib.Nat.{div-add-mod, le_refl, le_trans}
use radical_pilot.Agent.Nodes.{Node, Slot}
use radical_pilot.Agent.Continuous.Find.{
  PerSlot, count_free, floor_div, limit, alc_slots, build_slots, checked, find_counted,
  find_resources,
}
use radical_pilot.Agent.Continuous.Picks.{
  free_from, length-free_from, all_cores, all_gpus, IsSlotOf, build_slots-Built,
}

-- What the slots found on a node are.
pub record Found (path : Option String) (node : Node) (lfs : ℤ) (find_slots : ℕ) (per : PerSlot)
    (partial : Bool) (slots : List Slot) : Type 0 where
  pub at_most : length slots ≤ find_slots
  pub complete : partial ≡ false → length slots ≡ find_slots
  pub cores : all_cores slots ≡ take (length slots * per.cores) (free_from 0 node.cores)
  pub gpus : all_gpus slots ≡ take (length slots * per.gpus) (free_from 0 node.gpus)
  pub enough_lfs : pos (length slots * per.lfs) ≤ℤ lfs
  pub enough_mem : pos (length slots * per.mem) ≤ℤ node.mem
  pub of_node : All (IsSlotOf path node per) slots

mul-le_of_le_div : (n a d : ℕ) → n ≤ a / d → n * d ≤ a
mul-le_of_le_div n a d h = grind (arith, div-add-mod a d)

limit_ℕ : ℕ → ℕ → ℕ → ℕ
limit_ℕ a avail per = if per == 0 then a else if ltb (avail / per) a then avail / per else a

limit-pos : (a avail per : ℕ) → limit (pos a) (pos avail) per ≡ pos (limit_ℕ a avail per)
unfolding limit limit_ℕ
limit-pos a avail per = ground arith

limit_ℕ-le : (a avail per : ℕ) → limit_ℕ a avail per ≤ a
unfolding limit_ℕ
limit_ℕ-le a avail per = ground arith

limit_ℕ-enough : (a avail per n : ℕ) → n ≤ limit_ℕ a avail per → n * per ≤ avail
unfolding limit_ℕ
limit_ℕ-enough a avail per n h = elim (Bool-cases (per == 0)) [
  | inl e ↦ let z : per ≡ 0 = ground arith in rw z (omega arith)
  | inr e ↦ mul-le_of_le_div n avail per (ground arith)
]

by_cores_ℕ : ℕ → ℕ → ℕ
by_cores_ℕ avail per = if per == 0 then 1 else avail / per

by_cores-pos :
    (avail per : ℕ)
    → (if per == 0 then pos 1 else floor_div (pos avail) per) ≡ pos (by_cores_ℕ avail per)
unfolding by_cores_ℕ
by_cores-pos avail per = ground arith

by_cores_ℕ-enough : (avail per n : ℕ) → n ≤ by_cores_ℕ avail per → n * per ≤ avail
unfolding by_cores_ℕ
by_cores_ℕ-enough avail per n h = elim (Bool-cases (per == 0)) [
  | inl e ↦ let z : per ≡ 0 = ground arith in rw z (omega arith)
  | inr e ↦ mul-le_of_le_div n avail per (ground arith)
]

-- The count of slots, over sizes that are no less than zero.
alc_slots_ℕ : Node → ℕ → ℕ → PerSlot → ℕ
alc_slots_ℕ node lfs mem per =
    limit_ℕ
      (limit_ℕ
        (limit_ℕ (by_cores_ℕ (count_free node.cores) per.cores) (count_free node.gpus) per.gpus) lfs
        per.lfs)
      mem per.mem

alc_slots-pos :
    (node : Node) (per : PerSlot) (lfs mem : ℕ)
    → node.mem ≡ pos mem
    → alc_slots node (pos lfs) per ≡ pos (alc_slots_ℕ node lfs mem per)
unfolding alc_slots alc_slots_ℕ
alc_slots-pos node per lfs mem h =
    let by_cores = by_cores_ℕ (count_free node.cores) per.cores in
    let by_gpus = limit_ℕ by_cores (count_free node.gpus) per.gpus in
    let by_lfs = limit_ℕ by_gpus lfs per.lfs in
    rw (
      h,
      by_cores-pos (count_free node.cores) per.cores,
      limit-pos by_cores (count_free node.gpus) per.gpus,
      limit-pos by_gpus lfs per.lfs,
      limit-pos by_lfs mem per.mem,
    )

mul_mono : (m n c : ℕ) → m ≤ n → m * c ≤ n * c
mul_mono m n c h = grind arith

record Enough (node : Node) (per : PerSlot) (lfs mem n : ℕ) : Type 0 where
  cores : n * per.cores ≤ count_free node.cores
  gpus : n * per.gpus ≤ count_free node.gpus
  lfs_fits : n * per.lfs ≤ lfs
  mem_fits : n * per.mem ≤ mem

alc_slots_ℕ-Enough :
    (node : Node) (per : PerSlot) (lfs mem n : ℕ)
    → n ≤ alc_slots_ℕ node lfs mem per
    → Enough node per lfs mem n
unfolding alc_slots_ℕ
alc_slots_ℕ-Enough node per lfs mem n h =
    let by_cores = by_cores_ℕ (count_free node.cores) per.cores in
    let by_gpus = limit_ℕ by_cores (count_free node.gpus) per.gpus in
    let by_lfs = limit_ℕ by_gpus lfs per.lfs in
    let lfs_le = limit_ℕ-le by_lfs mem per.mem in
    let gpus_le = limit_ℕ-le by_gpus lfs per.lfs in
    let cores_le = limit_ℕ-le by_cores (count_free node.gpus) per.gpus in
    record {
      cores = by_cores_ℕ-enough (count_free node.cores) per.cores n (omega arith);
      gpus = limit_ℕ-enough by_cores (count_free node.gpus) per.gpus n (omega arith);
      lfs_fits = limit_ℕ-enough by_gpus lfs per.lfs n (omega arith);
      mem_fits = limit_ℕ-enough by_lfs mem per.mem n (omega arith);
    }

Enough-le :
    (node : Node) (per : PerSlot) (lfs mem m n : ℕ)
    → m ≤ n
    → Enough node per lfs mem n
    → Enough node per lfs mem m
Enough-le node per lfs mem m n h e = record {
  cores = le_trans (mul_mono m n per.cores h) (e.cores);
  gpus = le_trans (mul_mono m n per.gpus h) (e.gpus);
  lfs_fits = le_trans (mul_mono m n per.lfs h) (e.lfs_fits);
  mem_fits = le_trans (mul_mono m n per.mem h) (e.mem_fits);
}

enough_of_test :
    (partial : Bool) (n find_slots : ℕ)
    → not partial && ltb n find_slots ≡ false
    → partial ≡ false
    → min n find_slots ≡ find_slots
enough_of_test partial n find_slots h p = ground arith

checked_lem :
    (find_slots : ℕ) (partial : Bool) (slots : List Slot)
    → (length slots ≡ find_slots) ⊎ (length slots ≢ 0) × (partial ≡ true)
    → checked find_slots partial slots ≡ ok (some slots)
checked_lem find_slots partial slots h = ground arith

module _ (path : Option String) (node : Node) (per : PerSlot) (partial : Bool) (lfs mem : ℕ)
    (in_pool : node.mem ≡ pos mem) where
  Enough-Found :
      (n find_slots : ℕ)
      → Enough node per lfs mem n
      → n ≤ find_slots
      → (partial ≡ false → n ≡ find_slots)
      → (slots : List Slot) × (build_slots path node per n 0 node.cores 0 node.gpus ≡ ok slots)
        × Found path node (pos lfs) find_slots per partial slots
        × (length slots ≡ n)
  Enough-Found n find_slots e le full =
      let b =
        build_slots-Built path node per n 0 node.cores 0 node.gpus (rw (length-free_from) (e.cores))
          (rw (length-free_from) (e.gpus)) in
      (
        b.slots,
        b.builds,
        record {
          at_most = rw (b.count) le;
          complete = λ p. b.count ∙ full p;
          cores = rw (b.count) (b.cores);
          gpus = rw (b.count) (b.gpus);
          enough_lfs = rw (b.count) (omega (arith, e.lfs_fits));
          enough_mem = rw (b.count, in_pool) (omega (arith, e.mem_fits));
          of_node = b.of_node;
        },
        b.count,
      )

  find_counted_cases :
      (find_slots n : ℕ)
      → Enough node per lfs mem n
      → (find_counted path node find_slots per partial (pos n) ≡ ok none)
        ⊎ ((slots : List Slot) × (find_counted path node find_slots per partial (pos n)
              ≡ ok (some slots))
            × Found path node (pos lfs) find_slots per partial slots)
  unfolding find_counted
  find_counted_cases find_slots n e = elim (Bool-cases (n == 0)) [
    | inl z ↦ inl (rw z)
    | inr z ↦ elim (Bool-cases (not partial && ltb n find_slots)) [
      | inl few ↦ inl (rw (z, few))
      | inr many ↦
          let k = min n find_slots in
          let (slots, builds, found, count) =
            Enough-Found k find_slots (Enough-le node per lfs mem k n (omega arith) e) (omega arith)
              (λ p. enough_of_test partial n find_slots many p) in
          inr (
            slots,
            rw (z, many, builds) (checked_lem find_slots partial slots (ground (arith, count))),
            found,
          )
    ]
  ]

-- Where neither the local storage nor the node's memory is below zero, `_find_resources` raises
-- nothing: it returns nothing, or slots of the node as `Found` describes them.
pub find_resources-Found :
    (path : Option String) (node : Node) (lfs : ℤ) (find_slots : ℕ) (per : PerSlot) (partial : Bool)
    → pos 0 ≤ℤ lfs
    → pos 0 ≤ℤ node.mem
    → (find_resources path node lfs find_slots per partial ≡ ok none)
      ⊎ ((slots : List Slot) × (find_resources path node lfs find_slots per partial
            ≡ ok (some slots))
          × Found path node lfs find_slots per partial slots)
unfolding find_resources
find_resources-Found path node lfs find_slots per partial h k =
    let l : lfs ≡ pos (pos_part lfs) = ground arith in
    let m : node.mem ≡ pos (pos_part node.mem) = ground arith in
    let n = alc_slots_ℕ node (pos_part lfs) (pos_part node.mem) per in
    let count = alc_slots-pos node per (pos_part lfs) (pos_part node.mem) m in
    subst
      (λ a.
        (find_counted path node find_slots per partial (alc_slots node a per) ≡ ok none)
        ⊎ ((slots : List Slot) × (find_counted path node find_slots per partial
                (alc_slots node a per)
              ≡ ok (some slots))
            × Found path node a find_slots per partial slots))
      (sym l)
      (rw count (
        find_counted_cases path node per partial (pos_part lfs) (pos_part node.mem) m find_slots n
          (alc_slots_ℕ-Enough node per (pos_part lfs) (pos_part node.mem) n (le_refl n))))
