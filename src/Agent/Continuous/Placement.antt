-- ===== src/Agent/Continuous/Placement.antt =====
-- Placements, as `schedule_task` of src/radical/pilot/agent/scheduler/continuous.py returns them.
use radical_pilot.Prelude.{
  ℕ, ◌≤◌, ◌<◌, ◌≡◌, refl, ◌⊎◌, inl, inr, ℤ, pos, ◌≤ℤ◌, true, false, Option-cases, if_ind,
  if◌then◌else◌, String, List, [], ◌∷◌, length, map, All, Any, Option, none, some, is_some, ok,
  raise, assertion_error, value_error, arith,
}
use radical_pilot.Agent.Nodes.{Node, Slot}
use radical_pilot.Agent.Nodes.Marks.{elem}
use radical_pilot.Agent.Nodes.Touch.{Distinct}
use radical_pilot.Agent.Nodes.Totals.{core_indices, gpu_indices}
use radical_pilot.Agent.Nodes.Release.{Offers}
use radical_pilot.Agent.Continuous.Task.{TaskDescription, Slots, Config, State, is_mpi}
use radical_pilot.Agent.Continuous.Find.{PerSlot}
use radical_pilot.Agent.Continuous.Free.{Increasing}
use radical_pilot.Agent.Continuous.Iterate.{
  Among, iterate_nodes-Yields, rotation-Distinct, rotation-Among,
}
use radical_pilot.Agent.Continuous.Search.{
  lookup, insert, Request, Progress, start, tag_excludes, iterate_nodes, search_nodes,
}
use radical_pilot.Agent.Continuous.Placed.{HasAmounts}
use radical_pilot.Agent.Continuous.Ended.{Ended, start-Going, search_nodes-Ended}
use radical_pilot.Agent.Continuous.Schedule.{
  per_slot, fits_node, enter_partition, join_tag, partition_tag, is_remembered, remember,
}

-- The state of a scheduler between two calls.
pub record IsReady (s : State) : Type 0 where
  pub distinct : Distinct s.nodes
  pub in_range : s.node_offset < length s.nodes
  pub memory : All (λ (n : Node). pos 0 ≤ℤ n.mem) s.nodes

-- The slots that were found for a task.
pub record IsPlacement (cfg : Config) (s : State) (td : TaskDescription) (slots : List Slot)
    : Type 0 where
  pub count : length slots ≡ td.cpu_processes
  pub offered : All (λ t. Any (Offers t) s.nodes) slots
  pub cores_once : (u : ℕ) → Increasing (core_indices slots u)
  pub gpus_once : (u : ℕ) → Increasing (gpu_indices slots u)
  pub amounts : All (HasAmounts (per_slot td)) slots
  pub together : is_mpi td ≡ false → (u : ℕ) × All (λ (t : Slot). t.uid ≡ u) slots
  pub colocated :
      (tag : String) (uids : List ℕ)
      → cfg.partitions ≡ []
      → td.colocate ≡ some tag
      → lookup tag s.colo_history ≡ some uids
      → All (λ (t : Slot). elem t.uid uids ≡ true) slots

-- What a call leaves behind.
pub record Outcome (cfg : Config) (s : State) (td : TaskDescription) (res : Option Slots × State)
    : Type 0 where
  pub same_nodes : res.1.nodes ≡ s.nodes
  pub same_lfs : res.1.lfs ≡ s.lfs
  pub in_range : res.1.node_offset < length s.nodes
  pub placed : (slots : Slots) → res.0 ≡ some slots → IsPlacement cfg s td slots.nodes

pub fits_node_cases :
    (cfg : Config) (lfs : ℤ) (per : PerSlot)
    → (fits_node cfg lfs per ≡ raise assertion_error)
      ⊎ (fits_node cfg lfs per ≡ ok tt) × (pos 0 ≤ℤ lfs)
unfolding fits_node
fits_node_cases cfg lfs per = ground arith

-- The slots were not changed, nor anything that a later search reads but the tags.
pub record SameNodes (s s' : State) : Type 0 where
  pub nodes : s'.nodes ≡ s.nodes
  pub lfs : s'.lfs ≡ s.lfs
  pub node_offset : s'.node_offset ≡ s.node_offset

pub remember-SameNodes :
    (s : State) (tag partition : Option String) (uids : List ℕ)
    → SameNodes s (remember s tag partition uids)
unfolding remember
remember-SameNodes s tag partition uids =
    if_ind (SameNodes s) (is_remembered tag partition)
      (λ _. record { nodes = refl; lfs = refl; node_offset = refl })
      (λ _. record { nodes = refl; lfs = refl; node_offset = refl })

abbrev pub Tagged : Type 0
Tagged = Option String × List (String × List ℕ)

enter_partition_cases :
    (ps : List (String × List ℕ)) (colocate partition : Option String)
    (history : List (String × List ℕ))
    → (enter_partition ps colocate partition history ≡ raise value_error)
      ⊎ ((r : Tagged) × (enter_partition ps colocate partition history ≡ ok r))
unfolding enter_partition
enter_partition_cases ps colocate none history = inr ((colocate, history), refl)
enter_partition_cases ps colocate (some partition) history =
    elim (Option-cases (lookup partition ps)) [
      | inl e ↦ inl (rw (e, enter_partition) refl)
      | inr (uids, e) ↦ inr (
        (
          some (join_tag partition colocate),
          (if is_some (lookup (join_tag partition colocate) history)
              then history
              else insert (join_tag partition colocate) uids history),
        ),
        rw (e, enter_partition) refl,
      )
    ]

pub partition_tag_cases :
    (ps : List (String × List ℕ)) (td : TaskDescription) (history : List (String × List ℕ))
    → (partition_tag ps td history ≡ raise value_error)
      ⊎ ((r : Tagged) × (partition_tag ps td history ≡ ok r)
          × (ps ≡ [] → (r.0 ≡ td.colocate) × (r.1 ≡ history)))
unfolding partition_tag
partition_tag_cases [] td history = inr ((td.colocate, history), refl, λ _. (refl, refl))
partition_tag_cases (p ∷ ps) td history =
    elim (enter_partition_cases (p ∷ ps) td.colocate td.partition history) [
      | inl e ↦ inl e
      | inr (r, e) ↦ inr (r, e, λ z. cc)
    ]

-- With a known tag only the nodes in its history are allowed.
pub allowed_of_tag :
    (s : State) (r : Request) (tag : String) (uids : List ℕ) (u : ℕ)
    → r.colo_tag ≡ some tag
    → lookup tag s.colo_history ≡ some uids
    → tag_excludes s r u ≡ false
    → elem u uids ≡ true
unfolding tag_excludes
allowed_of_tag s r tag uids u e f g = ground arith

memory_pairs :
    (nodes : List Node) (xs : List (ℕ × Node))
    → All (Among nodes) (map (λ (x : ℕ × Node). x.1) xs)
    → All (λ (n : Node). pos 0 ≤ℤ n.mem) nodes
    → All (λ (x : ℕ × Node). Among nodes x.1) xs × All (λ (x : ℕ × Node). pos 0 ≤ℤ x.1.mem) xs
memory_pairs nodes [] a m = (tt, tt)
memory_pairs nodes (x ∷ xs) a m =
    let (l, r) = memory_pairs nodes xs a.1 m in ((a.0, l), (at_node nodes a.0 m, r))
  where
    at_node :
        (ns : List Node) → Among ns x.1 → All (λ (n : Node). pos 0 ≤ℤ n.mem) ns → pos 0 ≤ℤ x.1.mem
    at_node [] a m = absurd a
    at_node (n ∷ ns) (inl e) m = rw e (m.0)
    at_node (n ∷ ns) (inr a) m = at_node ns a m.1

-- The loop, from a state that is ready.
pub search_ready :
    (cfg : Config) (s : State) (r : Request)
    → IsReady s
    → pos 0 ≤ℤ s.lfs
    → (r.mpi ≡ false → r.req_slots ≤ r.slots_per_node)
    → (xs : List (ℕ × Node)) × (iterate_nodes s ≡ ok xs)
      × ((res : Progress × ℕ) × (search_nodes cfg s r xs s.node_offset (start r) ≡ ok res)
          × Ended s r res.0
          × (res.1 < length s.nodes))
unfolding iterate_nodes
search_ready cfg s r h lfs fits =
    let y = iterate_nodes-Yields s h.in_range in
    let among = rw (← y.nodes_of) at (rotation-Among s.node_offset s.nodes) in
    let (member, memory) = memory_pairs s.nodes y.pairs among h.memory in
    (
      y.pairs,
      y.yields,
      search_nodes-Ended cfg s r lfs fits y.pairs s.node_offset (start r) h.in_range memory
          y.in_range member (rw (y.nodes_of) (rotation-Distinct s.node_offset s.nodes h.distinct))
          (start-Going s r _),
    )
