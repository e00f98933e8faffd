-- ===== src/Agent/Continuous/Placed.antt =====
-- The slots collected so far in the search of `schedule_task` (continuous.py).
use radical_pilot.Prelude.{
  ℕ, ◌*◌, ◌≡◌, ◌≢◌, ◌∙◌, inl, inr, ℤ, Bool, false, ◌==◌, Bool-cases, List, [], ◌∷◌, ◌++◌,
  append-nil, length, concat, All, All-append, All-imp, Any, Option, String, arith,
}
use radical_pilot.Agent.Nodes.{Node, Slot}
use radical_pilot.Agent.Nodes.Totals.{core_indices, gpu_indices}
use radical_pilot.Agent.Nodes.Release.{Offers}
use radical_pilot.Agent.Continuous.Task.{State}
use radical_pilot.Agent.Continuous.Find.{PerSlot}
use radical_pilot.Agent.Continuous.Found.{Found}
use radical_pilot.Agent.Continuous.Picks.{IsSlotOf, all_cores, all_gpus}
use radical_pilot.Agent.Continuous.Iterate.{Among}
use radical_pilot.Agent.Continuous.Free.{
  Increasing, first_free, first_Increasing, All-Offers, core_indices-append, gpu_indices-append,
  indices_elsewhere, indices_here,
}
use radical_pilot.Agent.Continuous.Search.{Request, tag_excludes}

-- A slot has the amounts that were asked for.
abbrev pub HasAmounts : PerSlot → Slot → Type 0
HasAmounts per slot =
    (length (concat slot.core_map) ≡ per.cores)
    × (length (concat slot.gpu_map) ≡ per.gpus)
    × (slot.lfs_size ≡ per.lfs)
    × (slot.mem ≡ per.mem)

-- Facts about a list of slots: each lies on a node of the list whose cores and GPUs it names are
-- free, none of these is named twice, and each slot has the amounts asked for and stands on a node
-- that the tag allows.
pub record Sound (s : State) (r : Request) (slots : List Slot) : Type 0 where
  pub offered : All (λ t. Any (Offers t) s.nodes) slots
  pub cores_once : (u : ℕ) → Increasing (core_indices slots u)
  pub gpus_once : (u : ℕ) → Increasing (gpu_indices slots u)
  pub amounts : All (HasAmounts r.per) slots
  pub allowed : All (λ (t : Slot). tag_excludes s r t.uid ≡ false) slots

-- No slot lies on one of the nodes.
abbrev pub Apart : List Slot → List Node → Type 0
Apart slots ns = All (λ (n : Node). All (λ (t : Slot). n.uid ≢ t.uid) slots) ns

pub Sound-nil : (s : State) (r : Request) → Sound s r []
unfolding core_indices gpu_indices
Sound-nil s r = record {
  offered = tt;
  cores_once = λ u. tt;
  gpus_once = λ u. tt;
  amounts = tt;
  allowed = tt;
}

pub Apart-nil : (ns : List Node) → Apart [] ns
Apart-nil [] = tt
Apart-nil (n ∷ ns) = (tt, Apart-nil ns)

offered-Among :
    (s : State) (node : Node) (slots : List Slot)
    → Among s.nodes node
    → All (λ t. Offers t node) slots
    → All (λ t. Any (Offers t) s.nodes) slots
offered-Among s node [] m h = tt
offered-Among s node (t ∷ slots) m h = (there s.nodes m, offered-Among s node slots m h.1)
  where
    there : (ns : List Node) → Among ns node → Any (Offers t) ns
    there [] m = m
    there (n ∷ ns) (inl e) = inl (rw (← e) (h.0))
    there (n ∷ ns) (inr m) = inr (there ns m)

pub All-uid :
    (node : Node) (per : PerSlot) (path : Option String) (slots : List Slot)
    → All (IsSlotOf path node per) slots
    → All (λ (t : Slot). t.uid ≡ node.uid) slots
All-uid node per path slots h = All-imp (λ t i. i.uid) slots h

Increasing-join :
    (u : ℕ) (node : Node) (f g : List ℕ)
    → (u ≡ node.uid → f ≡ [])
    → (u ≢ node.uid → g ≡ [])
    → Increasing f
    → Increasing g
    → Increasing (f ++ g)
Increasing-join u node f g old new i j = elim (Bool-cases (u == node.uid)) [
  | inl e ↦ let z : u ≡ node.uid = ground arith in rw (old z) j
  | inr e ↦ let z : u ≢ node.uid = ground arith in rw (new z) (rw (append-nil f) i)
]

-- The new slots name on each node an increasing row of cores and of GPUs.
new_once :
    (node : Node) (lfs : ℤ) (find : ℕ) (per : PerSlot) (partial : Bool) (path : Option String)
    (new : List Slot) (u : ℕ)
    → Found path node lfs find per partial new
    → Increasing (core_indices new u) × Increasing (gpu_indices new u)
new_once node lfs find per partial path new u f = elim (Bool-cases (u == node.uid)) [
  | inl e ↦
      let z : u ≡ node.uid = ground arith in
      let (c, g) = indices_here new node.uid (All-uid node per path new f.of_node) in
      rw (z, c, g)
        (
          first_Increasing (length new * per.cores) node.cores (all_cores new) f.cores,
          first_Increasing (length new * per.gpus) node.gpus (all_gpus new) f.gpus,
        )
  | inr e ↦
      let z : u ≢ node.uid = ground arith in
      let (c, g) =
        indices_elsewhere new u
          (All-imp (λ x i. λ q. z (q ∙ i)) new (All-uid node per path new f.of_node)) in
      rw (c, g) (tt, tt)
]

-- Slots found on a node that had none are added.
pub Sound-append :
    (s : State) (r : Request) (node : Node) (slots new : List Slot) (find : ℕ) (partial : Bool)
    (path : Option String)
    → Sound s r slots
    → Among s.nodes node
    → All (λ (t : Slot). node.uid ≢ t.uid) slots
    → Found path node s.lfs find r.per partial new
    → tag_excludes s r node.uid ≡ false
    → Sound s r (slots ++ new)
Sound-append s r node slots new find partial path a m apart f t =
    let uids = All-uid node r.per path new f.of_node in
    let once = λ (u : ℕ). new_once node s.lfs find r.per partial path new u f in
    let old = indices_elsewhere slots node.uid apart in
    let others = λ (u : ℕ) (e : u ≢ node.uid).
      indices_elsewhere new u (All-imp (λ x i. λ q. e (q ∙ i)) new uids) in
    record {
      offered = All-append _ slots new a.offered (
          offered-Among s node new m (
            All-Offers path r.per node new f.of_node
              (first_free (length new * r.per.cores) node.cores (all_cores new) f.cores)
              (first_free (length new * r.per.gpus) node.gpus (all_gpus new) f.gpus)));
      cores_once = λ u. rw (core_indices-append slots new u) (
          Increasing-join u node _ _ (λ e. rw e (old.0)) (λ e. (others u e).0) (a.cores_once u)
            (once u).0);
      gpus_once = λ u. rw (gpu_indices-append slots new u) (
          Increasing-join u node _ _ (λ e. rw e (old.1)) (λ e. (others u e).1) (a.gpus_once u)
            (once u).1);
      amounts =
          All-append _ slots new a.amounts
            (All-imp (λ x i. (i.cores, i.gpus, i.lfs, i.mem)) new f.of_node);
      allowed = All-append _ slots new a.allowed (All-imp (λ x i. rw (i.uid) t) new f.of_node);
    }
