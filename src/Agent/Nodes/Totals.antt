-- ===== src/Agent/Nodes/Totals.antt =====
-- The sum of what a row of slots does to one node, and to the `lfs` size (`_change_slot_states` of
-- base.py).
use radical_pilot.Prelude.{
  ℕ, ◌+◌, ◌≡◌, refl, sym, ap, ◌∙◌, ℤ, int_laws, inl, inr, ◌==◌, if◌then◌else◌, List, [], ◌∷◌, ◌++◌,
  concat, arith, Bool-cases,
}
use radical_pilot.Agent.Nodes.{Mark, free, busy, Node, Slot, account, has_path}
use radical_pilot.Agent.Nodes.Marks.{write, write-append}
use radical_pilot.Agent.Nodes.Touch.{take_slot, touch, touches, lfs_after}

-- The cores that the slots name on the node of a uid.
unfoldable pub core_indices : List Slot → ℕ → List ℕ
core_indices [] u = []
core_indices (slot ∷ slots) u =
    if u == slot.uid then concat slot.core_map ++ core_indices slots u else core_indices slots u

unfoldable pub gpu_indices : List Slot → ℕ → List ℕ
gpu_indices [] u = []
gpu_indices (slot ∷ slots) u =
    if u == slot.uid then concat slot.gpu_map ++ gpu_indices slots u else gpu_indices slots u

pub mem_sum : List Slot → ℕ → ℕ
mem_sum [] u = 0
mem_sum (slot ∷ slots) u = if u == slot.uid then slot.mem + mem_sum slots u else mem_sum slots u

pub lfs_sum : List Slot → ℕ
lfs_sum [] = 0
lfs_sum (slot ∷ slots) =
    if has_path slot.lfs_path then slot.lfs_size + lfs_sum slots else lfs_sum slots

account_zero : (v : Mark) (a : ℤ) → account v a 0 ≡ a
account_zero busy a = omega int_laws
account_zero free a = omega int_laws
account_zero Mark.down a = omega int_laws

account_add : (v : Mark) (a : ℤ) (m n : ℕ) → account v (account v a m) n ≡ account v a (m + n)
account_add busy a m n = omega int_laws
account_add free a m n = omega int_laws
account_add Mark.down a m n = omega int_laws

pub account_back : (a : ℤ) (m : ℕ) → account free (account busy a m) m ≡ a
account_back a m = omega int_laws

-- What a row of slots makes of one node.
abbrev pub total : List Slot → Mark → Node → Node
total slots v n = record n {
  cores = write n.cores (core_indices slots n.uid) v;
  gpus = write n.gpus (gpu_indices slots n.uid) v;
  mem = account v n.mem (mem_sum slots n.uid);
}

pub node_path :
    (n m : Node)
    → n.name ≡ m.name
    → n.uid ≡ m.uid
    → n.cores ≡ m.cores
    → n.gpus ≡ m.gpus
    → n.mem ≡ m.mem
    → n ≡ m
node_path n m p q r s t = λ i. record { name = p i; uid = q i; cores = r i; gpus = s i; mem = t i }

mem_taken :
    (v : Mark) (a : ℤ) (m n : ℕ)
    → account v (if m == 0 then a else account v a m) n ≡ account v a (m + n)
mem_taken v a m n = elim (Bool-cases (m == 0)) [
  | inl e ↦ let z : m ≡ 0 = ground arith in rw (e, z) (ap (account v a) (omega arith))
  | inr e ↦ rw e (account_add v a m n)
]

pub touches-total : (slots : List Slot) (v : Mark) (n : Node) → touches slots v n ≡ total slots v n
unfolding touches core_indices gpu_indices mem_sum write
touches-total [] v n = node_path _ _ refl refl refl refl (sym (account_zero v n.mem))
touches-total (slot ∷ slots) v n = elim (Bool-cases (n.uid == slot.uid)) [
  | inl e ↦
      touches-total slots v (touch slot v n)
      ∙ unfold touch take_slot in
        rw e (
          node_path _ _ refl refl
            (sym (write-append n.cores (concat slot.core_map) (core_indices slots n.uid) v))
            (sym (write-append n.gpus (concat slot.gpu_map) (gpu_indices slots n.uid) v))
            (mem_taken v n.mem slot.mem (mem_sum slots n.uid)))
  | inr e ↦ touches-total slots v (touch slot v n) ∙ unfold touch in rw e
]

pub lfs_after-sum :
    (slots : List Slot) (v : Mark) (a : ℤ) → lfs_after slots v a ≡ account v a (lfs_sum slots)
unfolding lfs_after lfs_sum
lfs_after-sum [] v a = sym (account_zero v a)
lfs_after-sum (slot ∷ slots) v a = elim (Bool-cases (has_path slot.lfs_path)) [
  | inl e ↦
      rw (e, lfs_after)
        (lfs_after-sum slots v (account v a slot.lfs_size)
          ∙ account_add v a slot.lfs_size (lfs_sum slots))
  | inr e ↦ rw (e, lfs_after) (lfs_after-sum slots v a)
]
