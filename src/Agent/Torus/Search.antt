-- ===== src/Agent/Torus/Search.antt =====
-- The search for free nodes by `_alloc_sub_block` of src/radical/pilot/agent/scheduler/torus.py.
use radical_pilot.Prelude.{
  ℕ, zero, suc, ◌+◌, ◌%◌, ◌≤◌, true, false, Bool-cases, ◌==◌, ltb, if◌then◌else◌, List, length,
  drop, Option, none, some, ok, ◌≡◌, ◌⊎◌, refl, ◌∙◌, inl, inr, arith,
}
use radical_pilot.Agent.Torus.{
  Entry, any_busy, free_range, Found, try_offset, search, alloc_sub_block,
}
use radical_pilot.Agent.Torus.Range.{FreeAt, coors, mark_range-free_range, any_busy-FreeAt}
use native.Mathlib.Nat.{add-mod_right, zero-mod}

-- So many blocks of n nodes.
abbrev pub span : ℕ → ℕ → ℕ
span n zero = 0
span n (suc r) = n + span n r

-- The blocks of n nodes from an offset on all have a busy node.
abbrev pub AllBusy : ℕ → ℕ → ℕ → List Entry → Type 0
AllBusy n offset zero block = Unit
AllBusy n offset (suc r) block =
    (any_busy n (drop offset block) ≡ true) × AllBusy n (offset + n) r block

-- A free block was found behind j blocks with busy nodes, was marked, and can be freed; the coordinates of
-- the nodes stay.
pub record IsPlaced (n offset j : ℕ) (block : List Entry) (found : Option Found) : Type 0 where
  pub marked : List Entry
  pub skipped : AllBusy n offset j block
  pub was_free : FreeAt (offset + span n j) n block
  pub result : found ≡ some (ok (some (offset + span n j), marked))
  pub restored : free_range (offset + span n j) n marked ≡ ok block
  pub coors_kept : coors marked ≡ coors block

at_offset :
    (n offset : ℕ) (block : List Entry) (later : Option Found)
    → offset % n ≡ 0
    → any_busy n (drop offset block) ≡ false
    → offset + n ≤ length block
    → IsPlaced n offset 0 block (try_offset n offset block later)
unfolding try_offset
at_offset n offset block later m e le =
    let free = any_busy-FreeAt offset n block e le in
    let (marked, p, q, c) = mark_range-free_range offset n block free in
    let here : offset + 0 ≡ offset = omega arith in
    let whole : (offset % n == 0) ≡ true = rw m refl in
    record {
      marked = marked;
      skipped = tt;
      was_free = rw here free;
      result = rw (whole, e, p, here) refl;
      restored = rw here q;
      coors_kept = c;
    }

past_offset :
    (n offset : ℕ) (block : List Entry) (later : Option Found)
    → offset % n ≡ 0
    → any_busy n (drop offset block) ≡ true
    → try_offset n offset block later
      ≡ (if ltb (offset + n) (length block) then later else some (ok (none, block)))
unfolding try_offset
past_offset n offset block later m e =
    let whole : (offset % n == 0) ≡ true = rw m refl in rw (whole, e) refl

one_further :
    (n offset j : ℕ) (block : List Entry) (found : Option Found)
    → any_busy n (drop offset block) ≡ true
    → IsPlaced n (offset + n) j block found
    → IsPlaced n offset (suc j) block found
one_further n offset j block found e h =
    let here : offset + (n + span n j) ≡ offset + n + span n j = omega arith in
    record {
      marked = h.marked;
      skipped = (e, h.skipped);
      was_free = rw here (h.was_free);
      result = rw here (h.result);
      restored = rw here (h.restored);
      coors_kept = h.coors_kept;
    }

-- A search over whole blocks, on as much fuel as there are blocks: it finds the first free block, or all
-- have busy nodes.
search_total :
    (fuel n offset r : ℕ) (block : List Entry)
    → 1 ≤ n
    → offset % n ≡ 0
    → offset + span n (suc r) ≡ length block
    → suc r ≤ fuel
    → (search fuel n offset block ≡ some (ok (none, block))) × AllBusy n offset (suc r) block
      ⊎ ((j : ℕ) × (j ≤ r) × IsPlaced n offset j block (search fuel n offset block))
unfolding search
search_total zero n offset r block pos m len le = absurd (omega arith)
search_total (suc fuel) n offset zero block pos m len le =
    elim (Bool-cases (any_busy n (drop offset block))) [
      | inr e ↦ inr (0, omega arith, at_offset n offset block _ m e (omega arith))
      | inl e ↦
          let last : ltb (offset + n) (length block) ≡ false = ground arith in
          inl (past_offset n offset block _ m e ∙ rw last refl, (e, tt))
    ]
search_total (suc fuel) n offset (suc r) block pos m len le =
    elim (Bool-cases (any_busy n (drop offset block))) [
      | inr e ↦ inr (0, omega arith, at_offset n offset block _ m e (omega arith))
      | inl e ↦
          let more : ltb (offset + n) (length block) ≡ true = ground arith in
          let on : search (suc fuel) n offset block ≡ search fuel n (offset + n) block =
            past_offset n offset block _ m e ∙ rw more refl in
          elim (search_total fuel n (offset + n) r block pos (add-mod_right offset n ∙ m)
            (omega arith) (omega arith)) [
              | inl (p, q) ↦ inl (on ∙ p, (e, q))
              | inr (j, k, placed) ↦
                  inr (suc j, omega arith, rw on (one_further n offset j block _ e placed))
            ]
    ]

span_le : (n r : ℕ) → r ≤ span (suc n) r
span_le n zero = omega arith
span_le n (suc r) = let k = span_le n r in omega arith

-- On a block of a whole number of blocks of n nodes the search returns: with nothing, where each of them
-- has a busy node, or else with the first free one, marked, which can be freed again.
pub alloc_sub_block_total :
    (n r : ℕ) (block : List Entry)
    → length block ≡ span (suc n) (suc r)
    → (alloc_sub_block block (suc n) ≡ some (ok (none, block))) × AllBusy (suc n) 0 (suc r) block
      ⊎ ((j : ℕ) × (j ≤ r) × IsPlaced (suc n) 0 j block (alloc_sub_block block (suc n)))
unfolding alloc_sub_block
alloc_sub_block_total n r block h =
    search_total (suc (length block)) (suc n) 0 r block (omega arith) (zero-mod (suc n))
      (omega (arith, h)) (let k = span_le n r in omega (arith, h))
