-- ===== src/Agent/Nodes/Release.antt =====
-- Taking slots and giving them back (`_change_slot_states` of base.py with BUSY, then with FREE).
use radical_pilot.Prelude.{
  ℕ, ◌≡◌, ◌≢◌, refl, sym, ap, ◌∙◌, inl, inr, ◌==◌, ==_iff, Bool-cases, List, [], ◌∷◌, concat, map,
  All, All-append, All-imp, Any, Any-imp, ok, ℤ,
}
use radical_pilot.Agent.Nodes.{account, free, busy, Node, Slot, Pool, change_slot_states}
use radical_pilot.Agent.Nodes.Marks.{AllFree, AllFree-InRange, write_restores}
use radical_pilot.Agent.Nodes.Touch.{
  Distinct, Hosts, touches, lfs_after, change_slot_states-touches, touches-Distinct, touches-Hosts,
}
use radical_pilot.Agent.Nodes.Totals.{
  core_indices, gpu_indices, mem_sum, lfs_sum, account_back, total, node_path, touches-total,
  lfs_after-sum,
}

-- The node is the slot's, and all cores and GPUs that the slot names are free on it.
abbrev pub Offers : Slot → Node → Type 0
Offers slot n =
    (n.uid ≡ slot.uid)
    × AllFree n.cores (concat slot.core_map)
    × AllFree n.gpus (concat slot.gpu_map)

Offers-Hosts : (slot : Slot) (n : Node) → Offers slot n → Hosts slot n
Offers-Hosts slot n h = (
  h.0,
  AllFree-InRange n.cores (concat slot.core_map) h.1,
  AllFree-InRange n.gpus (concat slot.gpu_map) h.2,
)

-- In a list of distinct nodes the node of a slot's uid is the one that offers it.
offers_of_uid :
    (slot : Slot) (n : Node)
    → (n.uid ≡ slot.uid
        → AllFree n.cores (concat slot.core_map) × AllFree n.gpus (concat slot.gpu_map))
    → (slots : List Slot)
    → AllFree n.cores (core_indices slots n.uid) × AllFree n.gpus (gpu_indices slots n.uid)
    → AllFree n.cores (core_indices (slot ∷ slots) n.uid)
      × AllFree n.gpus (gpu_indices (slot ∷ slots) n.uid)
unfolding core_indices gpu_indices
offers_of_uid slot n f slots h = elim (Bool-cases (n.uid == slot.uid)) [
  | inl e ↦
      let g = f ((==_iff n.uid slot.uid).0 e) in
      rw e (
        All-append _ (concat slot.core_map) _ g.0 h.0,
        All-append _ (concat slot.gpu_map) _ g.1 h.1,
      )
  | inr e ↦ rw e h
]

-- What the first node gives, and what the others do.
abbrev OffersIfNamed : Slot → Node → Type 0
OffersIfNamed slot n =
    n.uid ≡ slot.uid → AllFree n.cores (concat slot.core_map) × AllFree n.gpus (concat slot.gpu_map)

apart_from_host :
    (slot : Slot) (k : ℕ) (ns : List Node)
    → All (λ m. k ≢ m.uid) ns
    → Any (Offers slot) ns
    → k ≢ slot.uid
apart_from_host slot k [] d h = absurd h
apart_from_host slot k (n ∷ ns) d (inl h) = λ e. d.0 (e ∙ sym h.0)
apart_from_host slot k (n ∷ ns) d (inr h) = apart_from_host slot k ns d.1 h

others_offer :
    (slot : Slot) (k : ℕ) (ns : List Node)
    → k ≡ slot.uid
    → All (λ m. k ≢ m.uid) ns
    → All (OffersIfNamed slot) ns
others_offer slot k [] e d = tt
others_offer slot k (n ∷ ns) e d = (λ f. absurd (d.0 (e ∙ sym f)), others_offer slot k ns e d.1)

each-Offers :
    (slot : Slot) (ns : List Node)
    → Distinct ns
    → Any (Offers slot) ns
    → All (OffersIfNamed slot) ns
each-Offers slot [] d h = tt
each-Offers slot (n ∷ ns) d (inl h) = (λ _. (h.1, h.2), others_offer slot n.uid ns h.0 d.0)
each-Offers slot (n ∷ ns) d (inr h) =
    (λ e. absurd (apart_from_host slot n.uid ns d.0 h e), each-Offers slot ns d.1 h)

-- All cores and GPUs that the slots name on a node are free on it.
abbrev AllOffered : List Slot → Node → Type 0
AllOffered slots n =
    AllFree n.cores (core_indices slots n.uid) × AllFree n.gpus (gpu_indices slots n.uid)

offered_cons :
    (slot : Slot) (slots : List Slot) (ns : List Node)
    → All (OffersIfNamed slot) ns
    → All (AllOffered slots) ns
    → All (AllOffered (slot ∷ slots)) ns
offered_cons slot slots [] f h = tt
offered_cons slot slots (n ∷ ns) f h =
    (offers_of_uid slot n f.0 slots h.0, offered_cons slot slots ns f.1 h.1)

offered_nil : (ns : List Node) → All (AllOffered []) ns
unfolding core_indices gpu_indices
offered_nil [] = tt
offered_nil (n ∷ ns) = ((tt, tt), offered_nil ns)

all_offered :
    (slots : List Slot) (ns : List Node)
    → Distinct ns
    → All (λ s. Any (Offers s) ns) slots
    → All (AllOffered slots) ns
all_offered [] ns d h = offered_nil ns
all_offered (slot ∷ slots) ns d h =
    offered_cons slot slots ns (each-Offers slot ns d h.0) (all_offered slots ns d h.1)

touches_back :
    (slots : List Slot) (n : Node)
    → AllOffered slots n
    → touches slots free (touches slots busy n) ≡ n
touches_back slots n h =
    ap (touches slots free) (touches-total slots busy n)
    ∙ touches-total slots free (total slots busy n)
    ∙ node_path _ _ refl refl (write_restores n.cores (core_indices slots n.uid) h.0)
        (write_restores n.gpus (gpu_indices slots n.uid) h.1)
        (account_back n.mem (mem_sum slots n.uid))

map-touches_back :
    (slots : List Slot) (ns : List Node)
    → All (AllOffered slots) ns
    → map (touches slots free) (map (touches slots busy) ns) ≡ ns
map-touches_back slots [] h = refl
map-touches_back slots (n ∷ ns) h = rw (touches_back slots n h.0, map-touches_back slots ns h.1)

lfs_back : (slots : List Slot) (a : ℤ) → lfs_after slots free (lfs_after slots busy a) ≡ a
lfs_back slots a =
    lfs_after-sum slots free (lfs_after slots busy a)
    ∙ ap (λ b. account free b (lfs_sum slots)) (lfs_after-sum slots busy a)
    ∙ account_back a (lfs_sum slots)

Any-Offers : (slot : Slot) (ns : List Node) → Any (Offers slot) ns → Any (Hosts slot) ns
Any-Offers slot ns h = Any-imp (Offers-Hosts slot) ns h

-- When the nodes have different uids, and each slot lies on a node of the list whose cores and GPUs it
-- names are all free, marking the slots busy succeeds, and marking them free again restores the
-- node list, its memory and the local storage.
pub change_slot_states-release :
    (slots : List Slot) (p : Pool)
    → Distinct p.nodes
    → All (λ s. Any (Offers s) p.nodes) slots
    → (q : Pool) × (change_slot_states slots busy p ≡ ok q)
      × (change_slot_states slots free q ≡ ok p)
change_slot_states-release slots p d h =
    let hosts = All-imp (λ s. Any-Offers s p.nodes) slots h in
    (
      record { nodes = map (touches slots busy) p.nodes; lfs = lfs_after slots busy p.lfs },
      change_slot_states-touches slots busy p.nodes p.lfs d hosts,
      change_slot_states-touches slots free _ _ (touches-Distinct slots busy p.nodes d)
            (touches-Hosts slots slots busy p.nodes hosts)
          ∙ rw (
            map-touches_back slots p.nodes (all_offered slots p.nodes d h),
            lfs_back slots p.lfs,
          ),
    )
