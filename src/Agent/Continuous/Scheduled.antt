-- ===== src/Agent/Continuous/Scheduled.antt =====
-- The results of `schedule_task` in src/radical/pilot/agent/scheduler/continuous.py.
use radical_pilot.Prelude.{
  ℕ, ◌<◌, ◌≡◌, refl, ◌∙◌, ◌⊎◌, inl, inr, ◌||◌, ltb, leb, Bool-cases, [], length, map, All-imp,
  Option, ok, raise, assertion_error, value_error, arith,
}
use radical_pilot.Agent.Nodes.{Slot}
use radical_pilot.Agent.Continuous.Task.{TaskDescription, Slots, Config, State, is_mpi}
use radical_pilot.Agent.Continuous.Search.{Request, Progress}
use radical_pilot.Agent.Continuous.Ended.{Ended}
use radical_pilot.Agent.Continuous.Placement.{
  IsReady, IsPlacement, Outcome, Tagged, fits_node_cases, remember-SameNodes, partition_tag_cases,
  allowed_of_tag, search_ready,
}
use radical_pilot.Agent.Continuous.Schedule.{
  per_slot, slots_per_node, request, conclude, schedule_task,
}

module _ (cfg : Config) (td : TaskDescription) (s : State) (tagged : Tagged)
    (untouched : cfg.partitions ≡ [] → (tagged.0 ≡ td.colocate) × (tagged.1 ≡ s.colo_history)) where
  abbrev r : Request
  r = request cfg s.lfs td tagged.0

  abbrev entered : State
  entered = record s { colo_history = tagged.1 }

  Ended-IsPlacement :
      (p : Progress) → Ended entered r p → p.rem_slots ≡ 0 → IsPlacement cfg s td p.alc_slots
  Ended-IsPlacement p e done = record {
    count = omega (arith, e.counted);
    offered = e.sound.offered;
    cores_once = e.sound.cores_once;
    gpus_once = e.sound.gpus_once;
    amounts = e.sound.amounts;
    together = e.together;
    colocated = λ tag uids z f g.
        All-imp
          (λ (t : Slot) a.
            allowed_of_tag entered r tag uids t.uid ((untouched z).0 ∙ f) (rw ((untouched z).1) g)
              a)
          p.alc_slots e.sound.allowed;
  }

  conclude-Outcome :
      (p : Progress) (offset : ℕ)
      → Ended entered r p
      → offset < length s.nodes
      → Outcome cfg s td (conclude cfg td tagged.0 (record entered { node_offset = offset }) p)
  unfolding conclude
  conclude-Outcome p offset e small = elim (Bool-cases (ltb 0 p.rem_slots)) [
    | inl few ↦
        rw few
          (record { same_nodes = refl; same_lfs = refl; in_range = small; placed = λ slots f. cc })
    | inr all ↦
        let keep =
          remember-SameNodes (record entered { node_offset = offset }) tagged.0 td.partition
            (map (λ (slot : Slot). slot.uid) p.alc_slots) in
        rw all (record {
          same_nodes = keep.nodes;
          same_lfs = keep.lfs;
          in_range = rw (keep.node_offset) small;
          placed = λ slots f.
              let same : p.alc_slots ≡ slots.nodes = cc in
              rw same at (Ended-IsPlacement p e (ground arith));
        })
  ]

-- From a state that is ready a call of `schedule_task` raises an `AssertionError` or a `ValueError`,
-- or it returns and leaves the nodes as they are; slots that it returns are a placement of the task.
pub schedule_task-Outcome :
    (cfg : Config) (td : TaskDescription) (s : State)
    → IsReady s
    → (schedule_task cfg td s ≡ raise assertion_error)
      ⊎ (schedule_task cfg td s ≡ raise value_error)
      ⊎ ((res : Option Slots × State) × (schedule_task cfg td s ≡ ok res) × Outcome cfg s td res)
unfolding schedule_task
schedule_task-Outcome cfg td s ready = elim (fits_node_cases cfg s.lfs (per_slot td)) [
  | inl e ↦ inl (rw e refl)
  | inr (e, lfs) ↦
      elim (Bool-cases
        (is_mpi td || leb td.cpu_processes (slots_per_node cfg s.lfs (per_slot td)))) [
          | inr f ↦ inr (inl (rw e (rw f refl)))
          | inl f ↦ elim (partition_tag_cases cfg.partitions td s.colo_history) [
            | inl g ↦ inr (inl (rw e (rw f (rw g refl))))
            | inr (tagged, g, untouched) ↦
                let entered = record s { colo_history = tagged.1 } in
                let (xs, listed, (res, ran, ended, small)) =
                  search_ready cfg (record s { colo_history = tagged.1 })
                    (request cfg s.lfs td tagged.0)
                    (record {
                      distinct = ready.distinct;
                      in_range = ready.in_range;
                      memory = ready.memory;
                    })
                    lfs (λ m. ground (arith, f)) in
                inr (
                  inr (
                    conclude cfg td tagged.0 (record entered { node_offset = res.1 }) res.0,
                    rw e (rw f (rw g (rw listed (rw ran refl)))),
                    conclude-Outcome cfg td s tagged untouched res.0 res.1 ended small,
                  ))
          ]
        ]
]
