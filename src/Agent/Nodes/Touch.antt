-- ===== src/Agent/Nodes/Touch.antt =====
-- `_change_slot_states` of base.py, node by node: what a row of slots does to each node of the list.
use radical_pilot.Prelude.{
  ℕ, ◌≡◌, ◌≢◌, refl, sym, ◌∙◌, ℤ, inl, inr, Bool-cases, ◌==◌, if◌then◌else◌, List, [], ◌∷◌, concat,
  map, All, Any, ok, arith,
}
use radical_pilot.Agent.Nodes.{
  Mark, Node, Slot, account, has_path, change_node, change_nodes, change_slot, change_slot_states,
}
use radical_pilot.Agent.Nodes.Marks.{write, InRange, InRange-length, length-write, mark_all-write}

abbrev pub Distinct : List Node → Type 0
Distinct [] = Unit
Distinct (n ∷ ns) = All (λ m. n.uid ≢ m.uid) ns × Distinct ns

-- The node is the slot's, and has the slot's cores and GPUs.
abbrev pub Hosts : Slot → Node → Type 0
Hosts slot n =
    (n.uid ≡ slot.uid)
    × InRange n.cores (concat slot.core_map)
    × InRange n.gpus (concat slot.gpu_map)

unfoldable pub take_slot : Slot → Mark → Node → Node
take_slot slot v n = record n {
  cores = write n.cores (concat slot.core_map) v;
  gpus = write n.gpus (concat slot.gpu_map) v;
  mem = if slot.mem == 0 then n.mem else account v n.mem slot.mem;
}

unfoldable pub touch : Slot → Mark → Node → Node
touch slot v n = if n.uid == slot.uid then take_slot slot v n else n

unfoldable pub touches : List Slot → Mark → Node → Node
touches [] v n = n
touches (slot ∷ slots) v n = touches slots v (touch slot v n)

change_node-take_slot :
    (slot : Slot) (v : Mark) (n : Node)
    → Hosts slot n
    → change_node slot v n ≡ ok (take_slot slot v n)
unfolding change_node take_slot
change_node-take_slot slot v n h = rw (
  mark_all-write n.cores (concat slot.core_map) v h.1,
  mark_all-write n.gpus (concat slot.gpu_map) v h.2,
)

map-touch_others :
    (slot : Slot) (v : Mark) (ns : List Node)
    → All (λ m. slot.uid ≢ m.uid) ns
    → map (touch slot v) ns ≡ ns
unfolding touch
map-touch_others slot v [] h = refl
map-touch_others slot v (n ∷ ns) h = ground (arith, map-touch_others slot v ns h.1)

ne_of_host :
    (slot : Slot) (k : ℕ) (ns : List Node)
    → All (λ m. k ≢ m.uid) ns
    → Any (Hosts slot) ns
    → k ≢ slot.uid
ne_of_host slot k (n ∷ ns) d (inl h) = λ e. d.0 (e ∙ sym h.0)
ne_of_host slot k (n ∷ ns) d (inr h) = ne_of_host slot k ns d.1 h
ne_of_host slot k [] d h = absurd h

change_nodes-touch :
    (slot : Slot) (v : Mark) (ns : List Node)
    → Distinct ns
    → Any (Hosts slot) ns
    → change_nodes slot v ns ≡ ok (map (touch slot v) ns)
unfolding change_nodes touch
change_nodes-touch slot v [] d h = absurd h
change_nodes-touch slot v (n ∷ ns) d (inl h) =
    ground (arith, change_node-take_slot slot v n h, map-touch_others slot v ns (rw h.0 at d.0))
change_nodes-touch slot v (n ∷ ns) d (inr h) =
    ground (arith, ne_of_host slot n.uid ns d.0 h, change_nodes-touch slot v ns d.1 h)

unfoldable pub lfs_after : List Slot → Mark → ℤ → ℤ
lfs_after [] v size = size
lfs_after (slot ∷ slots) v size =
    lfs_after slots v (if has_path slot.lfs_path then account v size slot.lfs_size else size)

touch-uid : (slot : Slot) (v : Mark) (n : Node) → (touch slot v n).uid ≡ n.uid
unfolding touch take_slot
touch-uid slot v n = ground arith

touch-InRange :
    (slot : Slot) (v : Mark) (n : Node) (is : List ℕ)
    → (InRange n.cores is → InRange (touch slot v n).cores is)
      × (InRange n.gpus is → InRange (touch slot v n).gpus is)
unfolding touch
touch-InRange slot v n is = elim (Bool-cases (n.uid == slot.uid)) [
  | inl e ↦ rw e (
    unfold take_slot in
        λ h. InRange-length _ _ is (sym (length-write n.cores (concat slot.core_map) v)) h,
    unfold take_slot in
        λ h. InRange-length _ _ is (sym (length-write n.gpus (concat slot.gpu_map) v)) h,
  )
  | inr e ↦ rw e (λ h. h, λ h. h)
]

touch-Hosts :
    (slot other : Slot) (v : Mark) (ns : List Node)
    → Any (Hosts other) ns
    → Any (Hosts other) (map (touch slot v) ns)
touch-Hosts slot other v [] h = h
touch-Hosts slot other v (n ∷ ns) (inl h) = inl (
  touch-uid slot v n ∙ h.0,
  (touch-InRange slot v n (concat other.core_map)).0 h.1,
  (touch-InRange slot v n (concat other.gpu_map)).1 h.2,
)
touch-Hosts slot other v (n ∷ ns) (inr h) = inr (touch-Hosts slot other v ns h)

touch-apart :
    (slot : Slot) (v : Mark) (k : ℕ) (ns : List Node)
    → All (λ m. k ≢ m.uid) ns
    → All (λ m. k ≢ m.uid) (map (touch slot v) ns)
touch-apart slot v k [] h = tt
touch-apart slot v k (n ∷ ns) h = (rw (touch-uid slot v n) h.0, touch-apart slot v k ns h.1)

touch-Distinct :
    (slot : Slot) (v : Mark) (ns : List Node) → Distinct ns → Distinct (map (touch slot v) ns)
touch-Distinct slot v [] d = tt
touch-Distinct slot v (n ∷ ns) d =
    (rw (touch-uid slot v n) (touch-apart slot v n.uid ns d.0), touch-Distinct slot v ns d.1)

pub map-touches :
    (slot : Slot) (slots : List Slot) (v : Mark) (ns : List Node)
    → map (touches slots v) (map (touch slot v) ns) ≡ map (touches (slot ∷ slots) v) ns
unfolding touches
map-touches slot slots v [] = refl
map-touches slot slots v (n ∷ ns) = rw (map-touches slot slots v ns)

map-touches_nil : (v : Mark) (ns : List Node) → map (touches [] v) ns ≡ ns
unfolding touches
map-touches_nil v [] = refl
map-touches_nil v (n ∷ ns) = rw (map-touches_nil v ns)

All-touch :
    (slot : Slot) (v : Mark) (slots : List Slot) (ns : List Node)
    → All (λ s. Any (Hosts s) ns) slots
    → All (λ s. Any (Hosts s) (map (touch slot v) ns)) slots
All-touch slot v [] ns h = tt
All-touch slot v (s ∷ slots) ns h = (touch-Hosts slot s v ns h.0, All-touch slot v slots ns h.1)

-- Slots that all have a node change each node on its own.
pub change_slot_states-touches :
    (slots : List Slot) (v : Mark) (ns : List Node) (lfs : ℤ)
    → Distinct ns
    → All (λ s. Any (Hosts s) ns) slots
    → change_slot_states slots v (record { nodes = ns; lfs = lfs })
      ≡ ok (record { nodes = map (touches slots v) ns; lfs = lfs_after slots v lfs })
unfolding change_slot_states change_slot lfs_after
change_slot_states-touches [] v ns lfs d h = rw (map-touches_nil v ns)
change_slot_states-touches (slot ∷ slots) v ns lfs d h = rw (change_nodes-touch slot v ns d h.0) (
    change_slot_states-touches slots v (map (touch slot v) ns)
      (if has_path slot.lfs_path then account v lfs slot.lfs_size else lfs)
      (touch-Distinct slot v ns d) (All-touch slot v slots ns h.1)
    ∙ rw (map-touches slot slots v ns))

pub touches-Distinct :
    (slots : List Slot) (v : Mark) (ns : List Node)
    → Distinct ns
    → Distinct (map (touches slots v) ns)
touches-Distinct [] v ns d = rw (map-touches_nil v ns) d
touches-Distinct (slot ∷ slots) v ns d =
    rw (← map-touches slot slots v ns)
      (touches-Distinct slots v (map (touch slot v) ns) (touch-Distinct slot v ns d))

pub touches-Hosts :
    (slots others : List Slot) (v : Mark) (ns : List Node)
    → All (λ s. Any (Hosts s) ns) others
    → All (λ s. Any (Hosts s) (map (touches slots v) ns)) others
touches-Hosts [] others v ns h = rw (map-touches_nil v ns) h
touches-Hosts (slot ∷ slots) others v ns h =
    rw (← map-touches slot slots v ns)
      (touches-Hosts slots others v (map (touch slot v) ns) (All-touch slot v others ns h))
