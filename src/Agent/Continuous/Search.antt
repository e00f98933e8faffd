-- ===== src/Agent/Continuous/Search.antt =====
-- The search of `schedule_task` in src/radical/pilot/agent/scheduler/continuous.py: the order in which
-- nodes are visited, the loop body, and the loop.
use radical_pilot.Prelude.{
  ℕ, zero, suc, ◌+◌, ◌-◌, ◌%◌, min, String, Bool, true, false, not, ◌&&◌, ◌||◌, ◌==◌, ltb,
  if◌then◌else◌, List, [], ◌∷◌, ◌++◌, length, get_elem?, Option, none, some, Result, ok, raise,
  index_error, ◌>>=◌,
}
use text.Mathlib.Text.{◌==◌ as str_eq}
use radical_pilot.Agent.Nodes.{Node, Slot}
use radical_pilot.Agent.Nodes.Marks.{elem}
use radical_pilot.Agent.Continuous.Task.{Config, State}
use radical_pilot.Agent.Continuous.Find.{PerSlot, find_resources}

-- `d[k]` and `k in d`, for a dictionary with text keys.
unfoldable pub lookup {ℓ} : {V : Type ℓ} → String → List (String × V) → Option V
lookup k [] = none
lookup k ((j, v) ∷ d) = if str_eq j k then some v else lookup k d

-- `d[k] = v`
unfoldable pub insert {ℓ} : {V : Type ℓ} → String → V → List (String × V) → List (String × V)
insert k v [] = (k, v) ∷ []
insert k v ((j, w) ∷ d) = if str_eq j k then (j, v) ∷ d else (j, w) ∷ insert k v d

-- `_iterate_nodes`: the nodes that the generator yields, each with the offset at that time. The
-- offset moves on when the loop asks for the next node.
unfoldable pub nodes_from : ℕ → ℕ → List Node → Result (List (ℕ × Node))
nodes_from zero offset nodes = ok []
nodes_from (suc count) offset nodes = do
  rest ← nodes_from count ((offset + 1) % length nodes) nodes
  elim (get_elem? nodes offset) [
    | none ↦ raise index_error
    | some node ↦ ok ((offset, node) ∷ rest)
  ]

unfoldable pub iterate_nodes : State → Result (List (ℕ × Node))
iterate_nodes s = nodes_from (length s.nodes) s.node_offset s.nodes

-- The values that stay fixed during a search.
pub record Request : Type 0 where
  pub mpi : Bool
  pub req_slots : ℕ
  pub per : PerSlot
  pub slots_per_node : ℕ
  pub colo_tag : Option String
  pub exclusive : Bool

-- The variables of the loop.
pub record Progress : Type 0 where
  pub alc_slots : List Slot
  pub rem_slots : ℕ
  pub is_first : Bool
  pub is_last : Bool
  pub task_partition_id : Option String

abbrev pub start : Request → Progress
start r = record {
  alc_slots = [];
  rem_slots = r.req_slots;
  is_first = true;
  is_last = false;
  task_partition_id = none;
}

-- The node is passed over on account of the colocation tag.
unfoldable pub tag_excludes : State → Request → ℕ → Bool
tag_excludes s r uid = elim r.colo_tag [
  | none ↦ false
  | some tag ↦ elim (lookup tag s.colo_history) [
    | some uids ↦ not (elem uid uids)
    | none ↦ r.exclusive && elem uid s.tagged_nodes && ltb (length s.tagged_nodes) (length s.nodes)
  ]
]

-- The partition of a node: the first one that lists it.
unfoldable pub partition_of : ℕ → List (String × List ℕ) → Option String
partition_of uid [] = none
partition_of uid ((p, uids) ∷ ps) = if elem uid uids then some p else partition_of uid ps

abbrev pub same_partition : Option String → String → Bool
same_partition none p = true
same_partition (some q) p = str_eq q p

-- `none`: the node is skipped. `some o`: it is used, and `o` is `node_partition_id`.
unfoldable pub node_partition : Config → Option String → ℕ → Option (Option String)
node_partition cfg task_partition uid = elim cfg.partitions [
  | [] ↦ some none
  | p ∷ ps ↦ elim (partition_of uid (p ∷ ps)) [
    | none ↦ none
    | some q ↦ if same_partition task_partition q then some (some q) else none
  ]
]

-- What follows once `_find_resources` returned: the new variables, and whether the loop breaks.
unfoldable pub settle :
    Config → Request → Option String → Bool → Progress → Option (List Slot) → Progress × Bool
settle cfg r node_partition_id last p none =
    if cfg.scattered
    then (record p { is_last = last }, false)
    else (record (start r) { task_partition_id = p.task_partition_id }, false)
settle cfg r node_partition_id last p (some []) =
    if cfg.scattered
    then (record p { is_last = last }, false)
    else (record (start r) { task_partition_id = p.task_partition_id }, false)
settle cfg r node_partition_id last p (some (slot ∷ slots)) =
    let rem = p.rem_slots - length (slot ∷ slots) in
    (
      record {
        alc_slots = p.alc_slots ++ slot ∷ slots;
        rem_slots = rem;
        is_first = false;
        is_last = last;
        task_partition_id = elim p.task_partition_id [ none ↦ node_partition_id | some q ↦ some q ];
      },
      rem == 0,
    )

abbrev pub is_last_now : Request → Progress → Bool
is_last_now r p = p.is_last || ltb p.rem_slots r.slots_per_node

abbrev pub partial_now : Config → Request → Progress → Bool
partial_now cfg r p = r.mpi && (p.is_first || cfg.scattered || is_last_now r p)

-- The loop body on one node.
unfoldable pub visit : Config → State → Request → Node → Progress → Result (Progress × Bool)
visit cfg s r node p =
    let use_node = λ (node_partition_id : Option String). (do
      found ←
          find_resources cfg.lfs_path node s.lfs (min p.rem_slots r.slots_per_node) r.per
            (partial_now cfg r p)
      ok (settle cfg r node_partition_id (is_last_now r p) p found)) in
    if tag_excludes s r node.uid
    then ok (p, false)
    else elim (node_partition cfg p.task_partition_id node.uid) [
      | none ↦ ok (p, false)
      | some node_partition_id ↦ use_node node_partition_id
    ]

-- The loop: the variables after it, and the offset at which the generator stands.
unfoldable pub search_nodes :
    Config → State → Request → List (ℕ × Node) → ℕ → Progress → Result (Progress × ℕ)
search_nodes cfg s r [] offset p = ok (p, offset)
search_nodes cfg s r ((o, node) ∷ rest) offset p =
    let go_on = λ (q : Progress). search_nodes cfg s r rest ((o + 1) % length s.nodes) q in
    do (q, done) ← visit cfg s r node p; if done then ok (q, o) else go_on q
