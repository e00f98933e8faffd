-- ===== src/Agent/Continuous/Configured.antt =====
-- The state that `_configure` of src/radical/pilot/agent/scheduler/continuous.py sets up.
use radical_pilot.Prelude.{
  ℕ, suc, ◌<◌, ◌≡◌, ◌≢◌, refl, ap, ◌∙◌, pos, ◌≤ℤ◌, true, ltb, String, List, [], ◌∷◌, length,
  get_elem?, replicate, All, All-imp, some, ok, guard, >>=-eq-ok, guard-eq-ok, ltb→lt, arith,
}
use radical_pilot.Agent.Nodes.{Mark, free, down, Node, set}
use radical_pilot.Agent.Nodes.Marks.{
  elem, write, InRange, InRange-length, length-set, get_elem?-write,
}
use radical_pilot.Agent.Nodes.Touch.{Distinct}
use radical_pilot.Agent.Continuous.Task.{Config, State}
use radical_pilot.Agent.Continuous.Configure.{
  RmInfo, block, summit_marks, node_marks, node_entries, configure,
}
use radical_pilot.Agent.Continuous.Placement.{IsReady}

block-write :
    (marks : List Mark) (is : List ℕ) (res : List Mark)
    → block marks is ≡ ok res
    → InRange marks is × (res ≡ write marks is down)
unfolding block write
block-write marks [] res h = (tt, ground arith)
block-write marks (i ∷ is) res h =
    let (u, e, f) = >>=-eq-ok (guard (ltb i (length marks)) _) _ h in
    let fits = ltb→lt i (length marks) (guard-eq-ok _ _ e) in
    let (r, w) = block-write (set marks i down) is res f in
    ((fits, InRange-length (set marks i down) marks is (length-set marks i down) r), w)

elem_self : (is : List ℕ) → All (λ i. elem i is ≡ true) is
unfolding elem
elem_self [] = tt
elem_self (i ∷ is) =
    (ground arith, All-imp (λ j (h : elem j is ≡ true). ground arith) is (elem_self is))

-- All listed marks are down.
abbrev pub AllDown : List Mark → List ℕ → Type 0
AllDown marks is = All (λ i. get_elem? marks i ≡ some down) is

block-AllDown :
    (marks : List Mark) (is : List ℕ) (res : List Mark) → block marks is ≡ ok res → AllDown res is
block-AllDown marks is res h =
    let (fits, w) = block-write marks is res h in
    rw w (
      All-imp (λ i (e : elem i is ≡ true). rw (get_elem?-write marks is i down fits, e) refl) is
        (elem_self is))

-- What an entry of the node list is.
pub record IsEntry (rm : RmInfo) (n : Node) : Type 0 where
  pub memory : pos 0 ≤ℤ n.mem
  pub cores_down : AllDown n.cores rm.blocked_cores
  pub gpus_down : AllDown n.gpus rm.blocked_gpus

node_marks-AllDown :
    (rm : RmInfo) (marks : List Mark × List Mark)
    → node_marks rm ≡ ok marks
    → AllDown marks.0 rm.blocked_cores × AllDown marks.1 rm.blocked_gpus
unfolding node_marks
node_marks-AllDown rm marks h =
    let (summit, e, h') = >>=-eq-ok (summit_marks rm) _ h in
    let (cores, f, h'') = >>=-eq-ok (block summit rm.blocked_cores) _ h' in
    let (gpus, g, h''') =
      >>=-eq-ok (block (replicate rm.gpus_per_node free) rm.blocked_gpus) _ h'' in
    let c : cores ≡ marks.0 = ground arith in
    let d : gpus ≡ marks.1 = ground arith in
    (
      rw c at (block-AllDown summit rm.blocked_cores cores f),
      rw d at (block-AllDown (replicate rm.gpus_per_node free) rm.blocked_gpus gpus g),
    )

unfoldable pub entry_uids : List (String × ℕ) → List ℕ
entry_uids [] = []
entry_uids ((name, uid) ∷ entries) = uid ∷ entry_uids entries

node_uids : List Node → List ℕ
node_uids [] = []
node_uids (n ∷ ns) = n.uid ∷ node_uids ns

node_entries-IsEntry :
    (rm : RmInfo) (entries : List (String × ℕ)) (nodes : List Node)
    → node_entries rm entries ≡ ok nodes
    → All (IsEntry rm) nodes × (node_uids nodes ≡ entry_uids entries)
unfolding node_entries node_uids entry_uids
node_entries-IsEntry rm [] nodes h = let z : nodes ≡ [] = ground arith in rw z (tt, refl)
node_entries-IsEntry rm ((name, uid) ∷ entries) nodes h =
    let (marks, e, h') = >>=-eq-ok (node_marks rm) _ h in
    let (rest, f, h'') = >>=-eq-ok (node_entries rm entries) _ h' in
    let (c, g) = node_marks-AllDown rm marks e in
    let (all, uids) = node_entries-IsEntry rm entries rest f in
    let n : Node = record {
      name = name;
      uid = uid;
      cores = marks.0;
      gpus = marks.1;
      mem = pos rm.mem_per_node;
    } in
    let same : nodes ≡ n ∷ rest = ground arith in
    rw same (
      (record { memory = omega arith; cores_down = c; gpus_down = g }, all),
      ap (λ l. uid ∷ l) uids,
    )

-- No uid stands twice.
abbrev pub DistinctUids : List ℕ → Type 0
DistinctUids [] = Unit
DistinctUids (u ∷ us) = All (λ v. u ≢ v) us × DistinctUids us

apart_of_uids :
    (u : ℕ) (ns : List Node) → All (λ v. u ≢ v) (node_uids ns) → All (λ (m : Node). u ≢ m.uid) ns
unfolding node_uids
apart_of_uids u [] h = tt
apart_of_uids u (n ∷ ns) h = (h.0, apart_of_uids u ns h.1)

Distinct-of_uids : (ns : List Node) → DistinctUids (node_uids ns) → Distinct ns
unfolding node_uids
Distinct-of_uids [] h = tt
Distinct-of_uids (n ∷ ns) h = (apart_of_uids n.uid ns h.0, Distinct-of_uids ns h.1)

length-node_uids : (ns : List Node) → length (node_uids ns) ≡ length ns
unfolding node_uids
length-node_uids [] = refl
length-node_uids (n ∷ ns) = ap suc (length-node_uids ns)

length-entry_uids : (es : List (String × ℕ)) → length (entry_uids es) ≡ length es
unfolding entry_uids
length-entry_uids [] = refl
length-entry_uids ((name, uid) ∷ es) = ap suc (length-entry_uids es)

-- When the resource manager lists at least one node, and no uid twice, a configuration that succeeds
-- leaves a state from which tasks can be scheduled, in which every blocked core and GPU of every node
-- is down.
pub configure-IsReady :
    (rm : RmInfo) (res : Config × State)
    → 0 < length rm.node_list
    → DistinctUids (entry_uids rm.node_list)
    → configure rm ≡ ok res
    → IsReady res.1 × All (IsEntry rm) res.1.nodes
unfolding configure
configure-IsReady rm res some_node distinct h =
    let (nodes, e, h') = >>=-eq-ok (node_entries rm rm.node_list) _ h in
    let (all, uids) = node_entries-IsEntry rm rm.node_list nodes e in
    let same : nodes ≡ res.1.nodes = ground arith in
    let offset : res.1.node_offset ≡ 0 = ground arith in
    let count = ap length uids ∙ length-entry_uids rm.node_list in
    (
      record {
        distinct = rw same at (Distinct-of_uids nodes (rw uids distinct));
        in_range = rw (offset, ← same) (omega (arith, count, length-node_uids nodes));
        memory = rw same at (All-imp (λ n (i : IsEntry rm n). i.memory) nodes all);
      },
      rw same at all,
    )
