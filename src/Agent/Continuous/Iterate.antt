-- ===== src/Agent/Continuous/Iterate.antt =====
-- The order in which `_iterate_nodes` of src/radical/pilot/agent/scheduler/continuous.py yields.
use radical_pilot.Prelude.{
  ℕ, zero, suc, ◌+◌, ◌-◌, ◌%◌, ◌≤◌, ◌<◌, ◌≡◌, ◌≢◌, refl, sym, ap, inl, inr, List, [], ◌∷◌, ◌++◌,
  map, length, get_elem?, take, drop, All, All-append, Any, append-nil, subst, some, ok, arith,
}
use native.Mathlib.Nat.{mod-eq_of_lt, mod_self}
use radical_pilot.Agent.Nodes.{Node}
use radical_pilot.Agent.Nodes.Touch.{Distinct}
use radical_pilot.Agent.Continuous.Picks.{length-drop}
use radical_pilot.Agent.Continuous.Task.{State}
use radical_pilot.Agent.Continuous.Search.{nodes_from}

-- The generator yields the given nodes, at offsets in range.
pub record Yields (count offset : ℕ) (nodes ys : List Node) : Type 0 where
  pub pairs : List (ℕ × Node)
  pub yields : nodes_from count offset nodes ≡ ok pairs
  pub nodes_of : map (λ (x : ℕ × Node). x.1) pairs ≡ ys
  pub in_range : All (λ (x : ℕ × Node). x.0 < length nodes) pairs

record At (nodes : List Node) (i : ℕ) : Type 0 where
  node : Node
  found : get_elem? nodes i ≡ some node
  rest : drop i nodes ≡ node ∷ drop (suc i) nodes

at : (nodes : List Node) (i : ℕ) → i < length nodes → At nodes i
at [] i h = absurd (omega arith)
at (n ∷ ns) zero h = record { node = n; found = refl; rest = refl }
at (n ∷ ns) (suc i) h =
    let a = at ns i (omega arith) in record { node = a.node; found = a.found; rest = a.rest }

-- One more node in front.
Yields-cons :
    (count offset : ℕ) (nodes ys : List Node) (a : At nodes offset)
    → offset < length nodes
    → Yields count ((offset + 1) % length nodes) nodes ys
    → Yields (suc count) offset nodes (a.node ∷ ys)
Yields-cons count offset nodes ys a h y = record {
  pairs = (offset, a.node) ∷ y.pairs;
  yields = unfold nodes_from in rw (y.yields) (rw (a.found));
  nodes_of = ap (λ l. a.node ∷ l) (y.nodes_of);
  in_range = (h, y.in_range);
}

Yields-nil : (offset : ℕ) (nodes : List Node) → Yields 0 offset nodes []
unfolding nodes_from
Yields-nil offset nodes = record { pairs = []; yields = refl; nodes_of = refl; in_range = tt }

take-drop-suc :
    (k : ℕ) (nodes : List Node) (i : ℕ) (a : At nodes i)
    → a.node ∷ take k (drop (suc i) nodes) ≡ take (suc k) (drop i nodes)
take-drop-suc k nodes i a = ap (take (suc k)) (sym (a.rest))

next_offset : (offset n : ℕ) → suc offset < n → (offset + 1) % n ≡ suc offset
next_offset offset n h = let e : offset + 1 ≡ suc offset = omega arith in rw e (mod-eq_of_lt h)

wrap_offset : (offset n : ℕ) → offset + 1 ≡ n → (offset + 1) % n ≡ 0
wrap_offset offset n h = rw h (mod_self n)

-- As long as the end is not reached.
straight :
    (k offset : ℕ) (nodes : List Node)
    → offset + k ≤ length nodes
    → Yields k offset nodes (take k (drop offset nodes))
straight zero offset nodes h = Yields-nil offset nodes
straight (suc zero) offset nodes h =
    let a = at nodes offset (omega arith) in
    rw (← take-drop-suc 0 nodes offset a)
      (Yields-cons 0 offset nodes [] a (omega arith) (Yields-nil _ nodes))
straight (suc (suc k)) offset nodes h =
    let a = at nodes offset (omega arith) in
    let next = next_offset offset (length nodes) (omega arith) in
    rw (← take-drop-suc (suc k) nodes offset a) (
      Yields-cons (suc k) offset nodes _ a (omega arith)
        (rw next (straight (suc k) (suc offset) nodes (omega arith))))

-- Past the end it goes on from the start.
wrapped :
    (k b offset : ℕ) (nodes ys : List Node)
    → offset + suc k ≡ length nodes
    → Yields b 0 nodes ys
    → Yields (suc (k + b)) offset nodes (take (suc k) (drop offset nodes) ++ ys)
wrapped zero b offset nodes ys h y =
    let a = at nodes offset (omega arith) in
    let next = wrap_offset offset (length nodes) (omega arith) in
    let count : 0 + b ≡ b = omega arith in
    rw (← take-drop-suc 0 nodes offset a, count)
      (Yields-cons b offset nodes ys a (omega arith) (rw next y))
wrapped (suc k) b offset nodes ys h y =
    let a = at nodes offset (omega arith) in
    let next = next_offset offset (length nodes) (omega arith) in
    let count : suc k + b ≡ suc (k + b) = omega arith in
    rw (← take-drop-suc (suc k) nodes offset a, count)
      (Yields-cons (suc (k + b)) offset nodes _ a (omega arith)
        (rw next (wrapped k b (suc offset) nodes ys (omega arith) y)))

take_all {ℓ} : {A : Type ℓ} (n : ℕ) (xs : List A) → length xs ≤ n → take n xs ≡ xs
take_all zero [] h = refl
take_all zero (x ∷ xs) h = absurd (omega arith)
take_all (suc n) [] h = refl
take_all (suc n) (x ∷ xs) h = ap (λ l. x ∷ l) (take_all n xs (omega arith))

-- The order in which a search visits the nodes.
abbrev pub rotation : ℕ → List Node → List Node
rotation offset nodes = drop offset nodes ++ take offset nodes

pub iterate_nodes-Yields :
    (s : State)
    → s.node_offset < length s.nodes
    → Yields (length s.nodes) s.node_offset s.nodes (rotation s.node_offset s.nodes)
iterate_nodes-Yields s h =
    let k = length s.nodes - suc s.node_offset in
    let w =
      wrapped k s.node_offset s.node_offset s.nodes (take s.node_offset s.nodes) (omega arith)
        (straight s.node_offset 0 s.nodes (omega arith)) in
    let count : suc (k + s.node_offset) ≡ length s.nodes = omega arith in
    let all =
      take_all (suc k) (drop s.node_offset s.nodes)
        (omega (arith, length-drop s.node_offset s.nodes)) in
    subst (λ (c : ℕ). Yields c s.node_offset s.nodes (rotation s.node_offset s.nodes)) count
      (subst
        (λ (l : List Node).
          Yields (suc (k + s.node_offset)) s.node_offset s.nodes (l ++ take s.node_offset s.nodes))
        all w)

module _ {ℓ} {A : Type ℓ} where
  take-drop : (n : ℕ) (xs : List A) → take n xs ++ drop n xs ≡ xs
  take-drop zero xs = refl
  take-drop (suc n) [] = refl
  take-drop (suc n) (x ∷ xs) = ap (λ l. x ∷ l) (take-drop n xs)

Apart-append :
    (k : ℕ) (xs ys : List Node)
    → All (λ m. k ≢ m.uid) (xs ++ ys)
    → All (λ m. k ≢ m.uid) xs × All (λ m. k ≢ m.uid) ys
Apart-append k [] ys h = (tt, h)
Apart-append k (x ∷ xs) ys h = let (l, r) = Apart-append k xs ys h.1 in ((h.0, l), r)

Distinct-snoc :
    (n : Node) (xs ys : List Node)
    → All (λ m. n.uid ≢ m.uid) (ys ++ xs)
    → Distinct (ys ++ xs)
    → Distinct (ys ++ n ∷ xs)
Distinct-snoc n xs [] a d = (a, d)
Distinct-snoc n xs (y ∷ ys) a d =
    let (l, r) = Apart-append y.uid ys xs d.0 in
    (All-append _ ys (n ∷ xs) l ((λ e. a.0 (sym e)), r), Distinct-snoc n xs ys a.1 d.1)

Apart-swap :
    (k : ℕ) (xs ys : List Node) → All (λ m. k ≢ m.uid) (xs ++ ys) → All (λ m. k ≢ m.uid) (ys ++ xs)
Apart-swap k xs ys h = let (l, r) = Apart-append k xs ys h in All-append _ ys xs r l

Distinct-swap : (xs ys : List Node) → Distinct (xs ++ ys) → Distinct (ys ++ xs)
Distinct-swap [] ys d = rw (append-nil ys) d
Distinct-swap (x ∷ xs) ys d =
    Distinct-snoc x xs ys (Apart-swap x.uid xs ys d.0) (Distinct-swap xs ys d.1)

pub rotation-Distinct :
    (offset : ℕ) (nodes : List Node) → Distinct nodes → Distinct (rotation offset nodes)
rotation-Distinct offset nodes d =
    Distinct-swap (take offset nodes) (drop offset nodes) (rw (take-drop offset nodes) d)

-- The node is one of the list.
abbrev pub Among : List Node → Node → Type 0
Among nodes n = Any (λ m. n ≡ m) nodes

Among-self :
    (xs nodes : List Node) → ((n : Node) → Among xs n → Among nodes n) → All (Among nodes) xs
Among-self [] nodes f = tt
Among-self (x ∷ xs) nodes f = (f x (inl refl), Among-self xs nodes (λ n h. f n (inr h)))

Any-swap : (n : Node) (xs ys : List Node) → Among (xs ++ ys) n → Among (ys ++ xs) n
Any-swap n [] ys h = rw (append-nil ys) h
Any-swap n (x ∷ xs) ys (inl e) = inside ys
  where
    inside : (ys : List Node) → Among (ys ++ x ∷ xs) n
    inside [] = inl e
    inside (y ∷ ys) = inr (inside ys)
Any-swap n (x ∷ xs) ys (inr h) = insert_one ys (Any-swap n xs ys h)
  where
    insert_one : (ys : List Node) → Among (ys ++ xs) n → Among (ys ++ x ∷ xs) n
    insert_one [] m = inr m
    insert_one (y ∷ ys) (inl m) = inl m
    insert_one (y ∷ ys) (inr m) = inr (insert_one ys m)

pub rotation-Among : (offset : ℕ) (nodes : List Node) → All (Among nodes) (rotation offset nodes)
rotation-Among offset nodes =
    Among-self (rotation offset nodes) nodes
      (λ n h. rw (take-drop offset nodes) at (Any-swap n (drop offset nodes) (take offset nodes) h))
