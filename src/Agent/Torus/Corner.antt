-- ===== src/Agent/Torus/Corner.antt =====
-- Freeing what `_alloc_sub_block` found by its corner and shape (src/radical/pilot/agent/scheduler/torus.py).
use radical_pilot.Prelude.{
  ℕ, zero, suc, ◌+◌, ◌*◌, true, Bool-cases, ◌==◌, ==_iff, ==_refl, List, [], ◌∷◌, length, get_elem?,
  All, some, ok, ◌≡◌, refl, sym, ap, ap₂, ◌∙◌, inl, inr, arith,
}
use radical_pilot.Agent.Torus.{
  Entry, same_coor, alloc_sub_block, corner2offset, shape2num_nodes, free_cores,
}
use radical_pilot.Agent.Torus.Range.{coors}
use radical_pilot.Agent.Torus.Search.{span, alloc_sub_block_total}

-- No two nodes have the same coordinates.
abbrev pub IsApart : List (List ℕ) → Type 0
IsApart [] = Unit
IsApart (c ∷ cs) = All (λ d. d ≡ c → ⊥) cs × IsApart cs

same_coor_refl : (c : List ℕ) → same_coor c c ≡ true
same_coor_refl [] = refl
same_coor_refl (n ∷ ns) = rw (==_refl n) (same_coor_refl ns)

same_coor-eq : (c d : List ℕ) → same_coor c d ≡ true → c ≡ d
same_coor-eq [] [] h = refl
same_coor-eq [] (n ∷ ns) h = cc
same_coor-eq (m ∷ ms) [] h = cc
same_coor-eq (m ∷ ms) (n ∷ ns) h = elim (Bool-cases (m == n)) [
  | inl e ↦ ap₂ (λ x xs. x ∷ xs) ((==_iff m n).0 e) (same_coor-eq ms ns (rw e at h))
  | inr e ↦ let k = rw e at h in cc
]

get_elem?-All :
    (P : List ℕ → Type 0) (cs : List (List ℕ)) (i : ℕ) (c : List ℕ)
    → All P cs
    → get_elem? cs i ≡ some c
    → P c
get_elem?-All P [] i c h e = cc
get_elem?-All P (d ∷ cs) zero c h e = let same : d ≡ c = cc in rw (sym same) (h.0)
get_elem?-All P (d ∷ cs) (suc i) c h e = get_elem?-All P cs i c h.1 e

-- The offset of the node with the coordinates of the node at an index is that index.
corner2offset-get_elem? :
    (block : List Entry) (i : ℕ) (corner : List ℕ)
    → IsApart (coors block)
    → get_elem? (coors block) i ≡ some corner
    → corner2offset block corner ≡ i
unfolding corner2offset
corner2offset-get_elem? [] i corner h e = cc
corner2offset-get_elem? (x ∷ block) zero corner h e =
    let same : x.coor ≡ corner = cc in rw (same, same_coor_refl corner) refl
corner2offset-get_elem? (x ∷ block) (suc i) corner h e =
    elim (Bool-cases (same_coor corner x.coor)) [
      | inl f ↦ absurd (
          get_elem?-All (λ d. d ≡ x.coor → ⊥) (coors block) i corner h.0 e
            (same_coor-eq corner x.coor f))
      | inr f ↦ rw f (ap suc (corner2offset-get_elem? block i corner h.1 e))
    ]

shape2num_nodes-product :
    (a b c d e : ℕ) → shape2num_nodes (a ∷ b ∷ c ∷ d ∷ e ∷ []) ≡ a * (b * (c * (d * e)))
unfolding shape2num_nodes
shape2num_nodes-product a b c d e =
    ap (λ n. a * (b * (c * (d * n)))) (let one : e * 1 ≡ e = omega arith in one)

-- In a block of a whole number of blocks of n nodes, no two with the same coordinates: what the search finds
-- and marks is freed, and the block restored, by the coordinates of the node at the offset found and a
-- shape of n nodes.
pub alloc_sub_block-free_cores :
    (n r : ℕ) (block marked : List Entry) (offset : ℕ) (corner : List ℕ) (a b c d e : ℕ)
    → length block ≡ span (suc n) (suc r)
    → IsApart (coors block)
    → alloc_sub_block block (suc n) ≡ some (ok (some offset, marked))
    → get_elem? (coors block) offset ≡ some corner
    → a * (b * (c * (d * e))) ≡ suc n
    → free_cores marked corner (a ∷ b ∷ c ∷ d ∷ e ∷ []) ≡ ok block
unfolding free_cores
alloc_sub_block-free_cores n r block marked offset corner a b c d e len apart found here nodes =
    elim (alloc_sub_block_total n r block len) [
      | inl (f, g) ↦ cc
      | inr (j, k, placed) ↦
          let q : some (ok (some offset, marked))
              ≡ some (ok (some (0 + span (suc n) j), placed.marked)) =
            sym found ∙ placed.result in
          let same_offset : offset ≡ 0 + span (suc n) j = cc in
          let same_block : marked ≡ placed.marked = cc in
          let kept : coors marked ≡ coors block = ap coors same_block ∙ placed.coors_kept in
          let back : corner2offset marked corner ≡ offset =
            corner2offset-get_elem? marked offset corner (rw kept apart) (rw kept here) in
          rw (back, shape2num_nodes-product a b c d e, nodes, same_offset, same_block)
            (placed.restored)
    ]
