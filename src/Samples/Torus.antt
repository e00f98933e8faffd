-- ===== src/Samples/Torus.antt =====
-- A run of the block search of src/radical/pilot/agent/scheduler/torus.py.
use radical_pilot.Prelude.{
  ℕ, ◌≤◌, Bool, true, false, ◌≡◌, ◌⊎◌, refl, List, [], ◌∷◌, none, some, ok, ◌==◌, ==_iff,
}
use radical_pilot.Agent.Torus.{
  Entry, any_busy, set_busy, for_range, try_offset, search, alloc_sub_block, free_cores,
}
use radical_pilot.Agent.Torus.Range.{coors}
use radical_pilot.Agent.Torus.Search.{AllBusy, IsPlaced, alloc_sub_block_total}
use radical_pilot.Agent.Torus.Corner.{IsApart, alloc_sub_block-free_cores}

abbrev node : ℕ → Bool → Entry
node x b = record { coor = 0 ∷ x ∷ []; name = x; busy = b }

-- Four nodes in a row, of which the second one is busy.
abbrev row : List Entry
row = node 0 false ∷ node 1 true ∷ node 2 false ∷ node 3 false ∷ []

abbrev row_marked : List Entry
row_marked = node 0 false ∷ node 1 true ∷ node 2 true ∷ node 3 true ∷ []

second_half : alloc_sub_block row 2 ≡ some (ok (some 2, row_marked))
unfolding alloc_sub_block search try_offset any_busy for_range set_busy
second_half = refl

alloc_sub_block_total_example :
    (alloc_sub_block row 2 ≡ some (ok (none, row))) × AllBusy 2 0 2 row
    ⊎ ((j : ℕ) × (j ≤ 1) × IsPlaced 2 0 j row (alloc_sub_block row 2))
alloc_sub_block_total_example = alloc_sub_block_total 1 1 row refl

-- Nodes in the row have different coordinates where their places differ.
apart : (m n : ℕ) → (m == n) ≡ false → 0 ∷ m ∷ [] ≡ 0 ∷ n ∷ [] → ⊥
apart m n h e = let same : m ≡ n = cc in let both = (==_iff m n).1 same in cc

row-IsApart : IsApart (coors row)
row-IsApart = (
  (apart 1 0 refl, (apart 2 0 refl, (apart 3 0 refl, tt))),
  ((apart 2 1 refl, (apart 3 1 refl, tt)), ((apart 3 2 refl, tt), (tt, tt))),
)

alloc_sub_block-free_cores_example :
    free_cores row_marked (0 ∷ 2 ∷ []) (1 ∷ 1 ∷ 1 ∷ 1 ∷ 2 ∷ []) ≡ ok row
alloc_sub_block-free_cores_example =
    alloc_sub_block-free_cores 1 1 row row_marked 2 (0 ∷ 2 ∷ []) 1 1 1 1 2 refl row-IsApart
      second_half refl refl
