-- ===== src/Agent/Torus.antt =====
-- The blocks of nodes of src/radical/pilot/agent/scheduler/torus.py: `_alloc_sub_block`, `_free_cores` and
-- what they use. The number of nodes is whole, as the functions take it. The search runs on fuel.
pub mod Range
pub mod Search
pub mod Corner
use radical_pilot.Prelude.{
  ℕ, zero, suc, ◌+◌, ◌*◌, ◌%◌, Bool, true, false, ◌==◌, ltb, not, if◌then◌else◌, List, [], ◌∷◌,
  length, drop, Option, none, some, Result, ok, raise, assertion_error, index_error, value_error,
  zero_division_error, guard, ◌>>=◌, ◌>>◌,
}

-- An entry of the block: the coordinates in the order of the labels, the name, and whether it is `BUSY`.
pub record Entry : Type 0 where
  pub coor : List ℕ
  pub name : ℕ
  pub busy : Bool

-- The nodes peeked at; past the end the `IndexError` is caught, and the loop goes on.
unfoldable pub any_busy : ℕ → List Entry → Bool
any_busy zero block = false
any_busy (suc n) [] = false
any_busy (suc n) (e ∷ block) = let rest = any_busy n block in if e.busy then true else rest

-- `block[i][TORUS_BLOCK_STATUS] = BUSY`
unfoldable pub set_busy : ℕ → List Entry → Result (List Entry)
set_busy i [] = raise index_error
set_busy zero (e ∷ block) = ok (record e { busy = true } ∷ block)
set_busy (suc i) (e ∷ block) = do rest ← set_busy i block; ok (e ∷ rest)

-- A loop over `range(num_nodes)` that changes the entries from an offset on
unfoldable pub for_range :
    (ℕ → List Entry → Result (List Entry)) → ℕ → ℕ → List Entry → Result (List Entry)
for_range change i zero block = ok block
for_range change i (suc k) block = do block' ← change i block; for_range change (suc i) k block'

abbrev pub mark_range : ℕ → ℕ → List Entry → Result (List Entry)
mark_range i k block = for_range set_busy i k block

-- The assertion that a node is `BUSY`, and its reset
unfoldable pub set_free : ℕ → List Entry → Result (List Entry)
set_free i [] = raise index_error
set_free zero (e ∷ block) = do guard e.busy assertion_error; ok (record e { busy = false } ∷ block)
set_free (suc i) (e ∷ block) = do rest ← set_free i block; ok (e ∷ rest)

abbrev pub free_range : ℕ → ℕ → List Entry → Result (List Entry)
free_range i k block = for_range set_free i k block

abbrev pub Found : Type 0
Found = Result (Option ℕ × List Entry)

-- What is done at an offset, given what a search from the next offset comes to.
unfoldable pub try_offset : ℕ → ℕ → List Entry → Option Found → Option Found
try_offset n offset block later =
    if not (offset % n == 0)
    then some (raise value_error)
    else if any_busy n (drop offset block)
    then if ltb (offset + n) (length block) then later else some (ok (none, block))
    else some (mark_range offset n block >>= λ block'. ok (some offset, block'))

-- `while True`; nothing where the fuel runs out.
unfoldable pub search : ℕ → ℕ → ℕ → List Entry → Option Found
search zero n offset block = none
search (suc fuel) n offset block =
    let later = search fuel n (offset + n) block in try_offset n offset block later

-- `_alloc_sub_block`; an offset modulo zero nodes raises.
unfoldable pub alloc_sub_block : List Entry → ℕ → Option Found
alloc_sub_block block zero = some (raise zero_division_error)
alloc_sub_block block (suc n) = search (suc (length block)) (suc n) 0 block

-- `_shape2num_nodes`
unfoldable pub shape2num_nodes : List ℕ → ℕ
shape2num_nodes [] = 1
shape2num_nodes (n ∷ shape) = n * shape2num_nodes shape

abbrev pub same_coor : List ℕ → List ℕ → Bool
same_coor [] [] = true
same_coor (m ∷ ms) (n ∷ ns) = if m == n then same_coor ms ns else false
same_coor _ _ = false

-- `corner2offset`: the length of the block where no entry has the coordinates.
unfoldable pub corner2offset : List Entry → List ℕ → ℕ
corner2offset [] corner = 0
corner2offset (e ∷ block) corner =
    let rest = corner2offset block corner in if same_coor corner e.coor then 0 else suc rest

-- `_free_cores`
unfoldable pub free_cores : List Entry → List ℕ → List ℕ → Result (List Entry)
free_cores block corner shape =
    free_range (corner2offset block corner) (shape2num_nodes shape) block
