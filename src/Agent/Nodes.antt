-- ===== src/Agent/Nodes.antt =====
-- The node list of src/radical/pilot/agent/scheduler/base.py and the change of slot states in it.
--
-- `self.nodes[i]['lfs']` is one dictionary for all nodes: `_configure` of continuous.py stores
-- `self._rm_lfs_per_node` itself in each entry, so its size stands here once, beside the nodes.
-- Sizes can fall below zero, as in the source, so they are integers.
pub mod Marks
pub mod Touch
pub mod Totals
pub mod Release
use radical_pilot.Prelude.{
  ℕ, zero, suc, String, ℤ, pos, ◌+ℤ◌, ◌-ℤ◌, Bool, true, false, ◌==◌, ltb, if◌then◌else◌, List, [],
  ◌∷◌, ◌++◌, concat, length, Option, none, some, Result, ok, raise, index_error, runtime_error,
  ◌>>=◌,
}

-- `rpc.FREE`, `rpc.BUSY` and `rpc.DOWN`.
pub data Mark : Type 0 where
  free busy down : Mark

-- Node uids are compared only, so they are numbers.
pub record Node : Type 0 where
  pub name : String
  pub uid : ℕ
  pub cores : List Mark
  pub gpus : List Mark
  pub mem : ℤ

-- One entry of `slots['nodes']`.
pub record Slot : Type 0 where
  pub name : String
  pub uid : ℕ
  pub core_map : List (List ℕ)
  pub gpu_map : List (List ℕ)
  pub lfs_size : ℕ
  pub lfs_path : Option String
  pub mem : ℕ

-- The node list and the size of the one `lfs` dictionary.
pub record Pool : Type 0 where
  pub nodes : List Node
  pub lfs : ℤ

-- `l[i] = v`, for an index in range.
unfoldable pub set : List Mark → ℕ → Mark → List Mark
set [] i v = []
set (m ∷ ms) zero v = v ∷ ms
set (m ∷ ms) (suc i) v = m ∷ set ms i v

-- `for i in …: l[i] = v`
unfoldable pub mark_all : List Mark → List ℕ → Mark → Result (List Mark)
mark_all marks [] v = ok marks
mark_all marks (i ∷ is) v =
    let rest = mark_all (set marks i v) is v in
    if ltb i (length marks) then rest else raise index_error

-- The truth value of the path.
abbrev pub has_path : Option String → Bool
has_path none = false
has_path (some String.[]) = false
has_path (some (String.◌∷◌ c s)) = true

-- `-=` for BUSY, `+=` for any other state.
abbrev pub account : Mark → ℤ → ℕ → ℤ
account busy size n = size -ℤ pos n
account free size n = size +ℤ pos n
account down size n = size +ℤ pos n

-- The node's part of the loop body of `_change_slot_states`.
unfoldable pub change_node : Slot → Mark → Node → Result Node
change_node slot v node = do
  cores ← mark_all node.cores (concat slot.core_map) v
  gpus ← mark_all node.gpus (concat slot.gpu_map) v
  ok (record node {
    cores = cores;
    gpus = gpus;
    mem = if slot.mem == 0 then node.mem else account v node.mem slot.mem;
  })

-- The first node of the slot's uid is changed; without one it is a `RuntimeError`.
unfoldable pub change_nodes : Slot → Mark → List Node → Result (List Node)
change_nodes slot v [] = raise runtime_error
change_nodes slot v (n ∷ ns) =
    let here = (do n' ← change_node slot v n; ok (n' ∷ ns)) in
    let there = (do ns' ← change_nodes slot v ns; ok (n ∷ ns')) in
    if n.uid == slot.uid then here else there

unfoldable pub change_slot : Slot → Mark → Pool → Result Pool
change_slot slot v p = do
  nodes ← change_nodes slot v p.nodes
  ok (record {
    nodes = nodes;
    lfs = if has_path slot.lfs_path then account v p.lfs slot.lfs_size else p.lfs;
  })

-- `_change_slot_states`
unfoldable pub change_slot_states : List Slot → Mark → Pool → Result Pool
change_slot_states [] v p = ok p
change_slot_states (slot ∷ slots) v p = do p' ← change_slot slot v p; change_slot_states slots v p'

-- `slot_status`: the glyphs of a node list. A `DOWN` mark is `!`.
abbrev glyph : Mark → ℕ
glyph free = b'-'
glyph busy = b'#'
glyph down = b'!'

glyphs : List Mark → List ℕ
glyphs [] = []
glyphs (m ∷ ms) = glyph m ∷ glyphs ms

node_status : List Node → List ℕ
node_status [] = []
node_status (n ∷ ns) = glyphs n.cores ++ b':' ∷ (glyphs n.gpus ++ b'|' ∷ node_status ns)

unfoldable pub slot_status : List Node → List ℕ
unfolding glyphs node_status
slot_status nodes = b'|' ∷ node_status nodes
