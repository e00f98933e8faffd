-- ===== src/Agent/Continuous/Ended.antt =====
-- The search of `schedule_task` (continuous.py) from its start to its end.
use radical_pilot.Prelude.{
  ℕ, ◌+◌, ◌%◌, ◌≤◌, ◌<◌, ◌≡◌, ◌≢◌, refl, sym, ◌∙◌, ◌⊎◌, inl, inr, pos, ◌≤ℤ◌, Bool, true, false,
  Bool-cases, List, [], ◌∷◌, ◌++◌, length, length-append, map, All, All-append, All-imp, ok, arith,
}
use native.Mathlib.Nat.{mod-lt}
use radical_pilot.Agent.Nodes.{Node, Slot}
use radical_pilot.Agent.Nodes.Touch.{Distinct}
use radical_pilot.Agent.Continuous.Task.{Config, State}
use radical_pilot.Agent.Continuous.Iterate.{Among}
use radical_pilot.Agent.Continuous.Placed.{
  Sound, Sound-nil, Sound-append, Apart, Apart-nil, All-uid,
}
use radical_pilot.Agent.Continuous.Search.{Request, Progress, start, visit, search_nodes}
use radical_pilot.Agent.Continuous.Visit.{Kept, Restarted, Added, visit_cases}

-- What holds whenever the loop goes on, with the nodes still to come.
pub record Going (s : State) (r : Request) (rest : List Node) (p : Progress) : Type 0 where
  pub sound : Sound s r p.alc_slots
  pub counted : p.rem_slots + length p.alc_slots ≡ r.req_slots
  pub apart : Apart p.alc_slots rest
  pub whole : r.mpi ≡ false → p.alc_slots ≡ []

-- What holds when it has ended.
pub record Ended (s : State) (r : Request) (p : Progress) : Type 0 where
  pub sound : Sound s r p.alc_slots
  pub counted : p.rem_slots + length p.alc_slots ≡ r.req_slots
  pub together : r.mpi ≡ false → (u : ℕ) × All (λ (t : Slot). t.uid ≡ u) p.alc_slots

Going-Ended :
    (s : State) (r : Request) (rest : List Node) (p : Progress) → Going s r rest p → Ended s r p
Going-Ended s r rest p g = record {
  sound = g.sound;
  counted = g.counted;
  together = λ m. (0, rw (g.whole m) tt);
}

pub start-Going : (s : State) (r : Request) (rest : List Node) → Going s r rest (start r)
start-Going s r rest = record {
  sound = Sound-nil s r;
  counted = omega arith;
  apart = Apart-nil rest;
  whole = λ _. refl;
}

Apart-append :
    (xs ys : List Slot) (ns : List Node) → Apart xs ns → Apart ys ns → Apart (xs ++ ys) ns
Apart-append xs ys [] h k = tt
Apart-append xs ys (n ∷ ns) h k = (All-append _ xs ys h.0 k.0, Apart-append xs ys ns h.1 k.1)

new-Apart :
    (node : Node) (new : List Slot) (ns : List Node)
    → All (λ (m : Node). node.uid ≢ m.uid) ns
    → All (λ (t : Slot). t.uid ≡ node.uid) new
    → Apart new ns
new-Apart node new [] d u = tt
new-Apart node new (n ∷ ns) d u =
    (All-imp (λ t e. λ q. d.0 (sym (q ∙ e))) new u, new-Apart node new ns d.1 u)

module _ (cfg : Config) (s : State) (r : Request) (node : Node) (rest : List Node) (p : Progress)
    (member : Among s.nodes node) (apart : All (λ (m : Node). node.uid ≢ m.uid) rest)
    (going : Going s r (node ∷ rest) p) where
  Kept-Going : (res : Progress × Bool) → Kept p res → Going s r rest res.0
  Kept-Going res k = record {
    sound = rw (k.slots) (going.sound);
    counted = rw (k.slots, k.rem) (going.counted);
    apart = rw (k.slots) (going.apart.1);
    whole = λ m. k.slots ∙ going.whole m;
  }

  Restarted-Going : (res : Progress × Bool) → Restarted r res → Going s r rest res.0
  Restarted-Going res k = record {
    sound = rw (k.slots) (Sound-nil s r);
    counted = rw (k.slots, k.rem) (omega arith);
    apart = rw (k.slots) (Apart-nil rest);
    whole = λ _. k.slots;
  }

  Added-Sound : (res : Progress × Bool) → Added cfg s r node p res → Sound s r res.0.alc_slots
  Added-Sound res a = rw (a.slots) (
      Sound-append s r node p.alc_slots a.new _ _ cfg.lfs_path going.sound member going.apart.0
        a.found a.tag_allows)

  Added-counted :
      (res : Progress × Bool)
      → Added cfg s r node p res
      → res.0.rem_slots + length res.0.alc_slots ≡ r.req_slots
  Added-counted res a =
      rw (a.slots, a.rem)
        (omega (arith, length-append p.alc_slots a.new, a.found.at_most, going.counted))

  -- A task that is no MPI task gets all its slots at once.
  Added-All :
      (res : Progress × Bool) (a : Added cfg s r node p res)
      → r.req_slots ≤ r.slots_per_node
      → r.mpi ≡ false
      → (res.0.alc_slots ≡ a.new) × (res.0.rem_slots ≡ 0)
  Added-All res a le m =
      let none_yet = going.whole m in
      let before : length p.alc_slots ≡ 0 = rw none_yet in
      let full = a.found.complete (rw m) in
      (a.slots ∙ rw none_yet, a.rem ∙ omega (arith, full, going.counted, before))

  Added-Going :
      (res : Progress × Bool)
      → Added cfg s r node p res
      → (r.mpi ≡ false → r.req_slots ≤ r.slots_per_node)
      → res.1 ≡ false
      → Going s r rest res.0
  Added-Going res a le d = record {
    sound = Added-Sound res a;
    counted = Added-counted res a;
    apart = rw (a.slots) (
        Apart-append p.alc_slots a.new rest going.apart.1 (
          new-Apart node a.new rest apart (All-uid node r.per cfg.lfs_path a.new a.found.of_node)));
    whole = λ m. ground (arith, (Added-All res a (le m) m).1, a.ends);
  }

  Added-Ended :
      (res : Progress × Bool)
      → Added cfg s r node p res
      → (r.mpi ≡ false → r.req_slots ≤ r.slots_per_node)
      → Ended s r res.0
  Added-Ended res a le = record {
    sound = Added-Sound res a;
    counted = Added-counted res a;
    together = λ m. (
      node.uid,
      rw ((Added-All res a (le m) m).0) (All-uid node r.per cfg.lfs_path a.new a.found.of_node),
    );
  }

  -- After the body the loop goes on, or has all it wants.
  visit-Going :
      pos 0 ≤ℤ s.lfs
      → pos 0 ≤ℤ node.mem
      → (r.mpi ≡ false → r.req_slots ≤ r.slots_per_node)
      → (res : Progress × Bool) × (visit cfg s r node p ≡ ok res)
        × ((res.1 ≡ false) × Going s r rest res.0 ⊎ (res.1 ≡ true) × Ended s r res.0)
  visit-Going lfs mem le =
      let (res, visited, outcome) = visit_cases cfg s r node p lfs mem in
      (
        res,
        visited,
        elim outcome [
          | inl k ↦ inl (k.goes_on, Kept-Going res k)
          | inr (inl k) ↦ inl (k.goes_on, Restarted-Going res k)
          | inr (inr a) ↦ elim (Bool-cases res.1) [
            | inl e ↦ inr (e, Added-Ended res a le)
            | inr e ↦ inl (e, Added-Going res a le e)
          ]
        ],
      )

module _ (cfg : Config) (s : State) (r : Request) (lfs : pos 0 ≤ℤ s.lfs)
    (fits : r.mpi ≡ false → r.req_slots ≤ r.slots_per_node) where
  -- The loop ends without an exception; its offset stays in range.
  pub search_nodes-Ended :
      (xs : List (ℕ × Node)) (offset : ℕ) (p : Progress)
      → offset < length s.nodes
      → All (λ (x : ℕ × Node). pos 0 ≤ℤ x.1.mem) xs
      → All (λ (x : ℕ × Node). x.0 < length s.nodes) xs
      → All (λ (x : ℕ × Node). Among s.nodes x.1) xs
      → Distinct (map (λ (x : ℕ × Node). x.1) xs)
      → Going s r (map (λ (x : ℕ × Node). x.1) xs) p
      → (res : Progress × ℕ) × (search_nodes cfg s r xs offset p ≡ ok res)
        × Ended s r res.0
        × (res.1 < length s.nodes)
  unfolding search_nodes
  search_nodes-Ended [] offset p o m i a d g = ((p, offset), refl, Going-Ended s r [] p g, o)
  search_nodes-Ended ((o', node) ∷ xs) offset p o m i a d g =
      let rest = map (λ (x : ℕ × Node). x.1) xs in
      let (res, visited, outcome) = visit-Going cfg s r node rest p a.0 d.0 g lfs m.0 fits in
      elim outcome [
        | inl (e, going) ↦
            let (end, ran, ended, small) =
              search_nodes-Ended xs ((o' + 1) % length s.nodes) res.0
                (mod-lt (o' + 1) (omega arith)) m.1 i.1 a.1 d.1 going in
            (end, rw (visited) (rw e ran), ended, small)
        | inr (e, ended) ↦ ((res.0, o'), rw (visited) (rw e refl), ended, i.0)
      ]
