-- ===== src/Agent/Torus/Range.antt =====
-- Marking a range of nodes and freeing it again (src/radical/pilot/agent/scheduler/torus.py).
use radical_pilot.Prelude.{
  ℕ, zero, suc, ◌+◌, ◌≤◌, true, false, Bool-cases, List, [], ◌∷◌, map, length, drop, Result, ok,
  raise, ◌>>=◌, ◌≡◌, refl, sym, ap, ◌∙◌, inl, inr, arith,
}
use radical_pilot.Agent.Torus.{
  Entry, any_busy, set_busy, for_range, mark_range, set_free, free_range,
}

-- The nodes from an index on are there, and free.
abbrev pub FreeAt : ℕ → ℕ → List Entry → Type 0
FreeAt zero zero block = Unit
FreeAt zero (suc k) [] = ⊥
FreeAt zero (suc k) (e ∷ block) = (e.busy ≡ false) × FreeAt zero k block
FreeAt (suc i) k [] = ⊥
FreeAt (suc i) k (e ∷ block) = FreeAt i k block

abbrev behind : Entry → Result (List Entry) → Result (List Entry)
behind e r = r >>= λ block. ok (e ∷ block)

module _ (change : ℕ → List Entry → Result (List Entry))
    (shift : (i : ℕ) (e : Entry) (block : List Entry)
      → change (suc i) (e ∷ block) ≡ behind e (change i block)) where
  shift_chain :
      (i k : ℕ) (e : Entry) (r : Result (List Entry))
      → ((block : List Entry)
          → for_range change (suc (suc i)) k (e ∷ block)
            ≡ behind e (for_range change (suc i) k block))
      → (behind e r >>= λ block. for_range change (suc (suc i)) k block)
        ≡ behind e (r >>= λ block. for_range change (suc i) k block)
  shift_chain i k e (ok block) h = h block
  shift_chain i k e (raise f) h = refl

  -- A range that does not hold the first entry leaves it.
  for_range_shift :
      (i k : ℕ) (e : Entry) (block : List Entry)
      → for_range change (suc i) k (e ∷ block) ≡ behind e (for_range change i k block)
  unfolding for_range
  for_range_shift i zero e block = refl
  for_range_shift i (suc k) e block =
      rw (shift i e block) (shift_chain i k e (change i block) (λ b. for_range_shift (suc i) k e b))

set_busy_shift :
    (i : ℕ) (e : Entry) (block : List Entry)
    → set_busy (suc i) (e ∷ block) ≡ behind e (set_busy i block)
unfolding set_busy
set_busy_shift i e block = refl

set_free_shift :
    (i : ℕ) (e : Entry) (block : List Entry)
    → set_free (suc i) (e ∷ block) ≡ behind e (set_free i block)
unfolding set_free
set_free_shift i e block = refl

freed : (e : Entry) → e.busy ≡ false → record (record e { busy = true }) { busy = false } ≡ e
freed e h = rw (sym h) refl

-- The coordinates of the nodes of a block.
abbrev pub coors : List Entry → List (List ℕ)
coors block = map (λ (e : Entry). e.coor) block

-- A free range can be marked, which keeps the coordinates, and then freed, which restores the block.
pub mark_range-free_range :
    (i k : ℕ) (block : List Entry)
    → FreeAt i k block
    → (block' : List Entry) × (mark_range i k block ≡ ok block')
      × (free_range i k block' ≡ ok block)
      × (coors block' ≡ coors block)
unfolding for_range set_busy set_free
mark_range-free_range zero zero block h = (block, refl, refl, refl)
mark_range-free_range zero (suc k) [] h = absurd h
mark_range-free_range zero (suc k) (e ∷ block) h =
    let (block', p, q, c) = mark_range-free_range zero k block h.1 in
    let e1 : Entry = record e { busy = true } in
    let e2 : Entry = record e1 { busy = false } in
    let first : for_range set_busy 1 k (e1 ∷ block) ≡ ok (e1 ∷ block') =
      for_range_shift set_busy set_busy_shift 0 k e1 block ∙ rw p refl in
    let last : for_range set_free 1 k (e2 ∷ block') ≡ ok (e ∷ block) =
      for_range_shift set_free set_free_shift 0 k e2 block' ∙ rw (q, freed e h.0) refl in
    (e1 ∷ block', first, last, ap (λ cs. e.coor ∷ cs) c)
mark_range-free_range (suc i) k [] h = absurd h
mark_range-free_range (suc i) k (e ∷ block) h =
    let (block', p, q, c) = mark_range-free_range i k block h in
    (
      e ∷ block',
      for_range_shift set_busy set_busy_shift i k e block ∙ rw p refl,
      for_range_shift set_free set_free_shift i k e block' ∙ rw q refl,
      ap (λ cs. e.coor ∷ cs) c,
    )

-- Nodes that are there, and none of them busy, are free.
pub any_busy-FreeAt :
    (i k : ℕ) (block : List Entry)
    → any_busy k (drop i block) ≡ false
    → i + k ≤ length block
    → FreeAt i k block
unfolding any_busy
any_busy-FreeAt zero zero block h le = tt
any_busy-FreeAt zero (suc k) [] h le = omega arith
any_busy-FreeAt zero (suc k) (e ∷ block) h le = elim (Bool-cases e.busy) [
  | inl f ↦ let g = rw f at h in cc
  | inr f ↦ (f, any_busy-FreeAt zero k block (rw f at h) (omega arith))
]
any_busy-FreeAt (suc i) k [] h le = omega arith
any_busy-FreeAt (suc i) k (e ∷ block) h le = any_busy-FreeAt i k block h (omega arith)
