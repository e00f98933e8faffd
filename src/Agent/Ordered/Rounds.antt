-- ===== src/Agent/Ordered/Rounds.antt =====
-- What a round of src/radical/pilot/agent/scheduler/continuous_ordered.py schedules of a name space.
use radical_pilot.Prelude.{
  ℕ, suc, ◌+◌, Bool, true, false, if◌then◌else◌, List, [], ◌∷◌, times, Option, none, some, Result,
  ok, key_error, guard, >>=-eq-ok, find, put, find-put_same, ◌≡◌, ◌⊎◌, refl, sym, ◌∙◌, inl, inr,
  arith,
}
use radical_pilot.Agent.Ordered.{
  Order, Space, Placed, complete, last_order, place_all, place_order, place_found, schedule_space,
}
use radical_pilot.Agent.Ordered.InOrder.{
  Completed, Stop, no_order, open_order, Intact, seek-IsSought,
}

module _ {P : Type 0} (allocate : P → ℕ → Result (P × Bool)) where
  -- One task more in one of the lists.
  placed_lem :
      (u v : ℕ) (us : List ℕ) (rest : Placed P) (r : Placed P) (b : Bool)
      → times u us ≡ times u rest.scheduled + times u rest.kept
      → record {
        pool = rest.pool;
        scheduled = if b then v ∷ rest.scheduled else rest.scheduled;
        kept = if b then rest.kept else v ∷ rest.kept;
      }
        ≡ r
      → times u (v ∷ us) ≡ times u r.scheduled + times u r.kept
  unfolding times
  placed_lem u v us rest r true ih h = rw (sym h) (omega arith)
  placed_lem u v us rest r false ih h = rw (sym h) (omega arith)

  -- Each task is scheduled or kept.
  pub place_all-times :
      (known : ℕ → Bool) (p : P) (us : List ℕ) (r : Placed P) (u : ℕ)
      → place_all allocate known p us ≡ ok r
      → times u us ≡ times u r.scheduled + times u r.kept
  unfolding place_all
  place_all-times known p [] r u h =
      let same : record { pool = p; scheduled = []; kept = [] } ≡ r = cc in
      rw (sym same) (unfold times in refl)
  place_all-times known p (v ∷ us) r u h =
      let (g, e0, h0) = >>=-eq-ok (guard (known v) key_error) _ h in
      let (one, e1, h1) = >>=-eq-ok (allocate p v) _ h0 in
      let (rest, e2, h2) = >>=-eq-ok (place_all allocate known one.0 us) _ h1 in
      let ih = place_all-times known one.0 us rest u e2 in placed_lem u v us rest r one.1 ih cc

-- What a round does with a name space: no order is left, or the first one that is not complete has its
-- tasks scheduled or kept.
pub record IsInOrder (space space' : Space) (scheduled : List ℕ) (u : ℕ) : Type 0 where
  pub passed : ℕ
  pub completed : Completed space.current passed space.orders
  pub rest :
      (find (space.current + passed) space.orders ≡ none) × (scheduled ≡ [])
      ⊎ ((o : Order) × (o' : Order) × (find (space.current + passed) space.orders ≡ some o)
          × (complete o ≡ false)
          × (find (space.current + passed) space'.orders ≡ some o')
          × (times u o.uids ≡ times u scheduled + times u o'.uids))

module _ {P : Type 0} (allocate : P → ℕ → Result (P × Bool)) where
  found-IsInOrder :
      (known : ℕ → Bool) (p p' : P) (space space' : Space) (orders : List (ℕ × Order)) (n u : ℕ)
      (found : Option ℕ) (scheduled : List ℕ)
      → Completed space.current n space.orders
      → Stop space.current n space.orders found
      → Intact found space.orders orders
      → place_found allocate known p space (orders, found) ≡ ok (p', space', scheduled)
      → IsInOrder space space' scheduled u
  unfolding place_found place_order
  found-IsInOrder known p p' space space' orders n u found scheduled c (no_order e) i h = record {
    passed = n;
    completed = c;
    rest = inl (e, cc);
  }
  found-IsInOrder known p p' space space' orders n u found scheduled c (open_order o e d) i h =
      let here : find (space.current + n) orders ≡ some o = i ∙ e in
      let (r, f, g) = >>=-eq-ok (place_all allocate known p o.uids) _ (rw here at h) in
      let o' : Order = record o { uids = r.kept } in
      let all = place_all-times allocate known p o.uids r u f in
      let new : record space { orders = put (space.current + n) o' orders } ≡ space' = cc in
      let told : r.scheduled ≡ scheduled = cc in
      rw (sym new, sym told)
        (record {
          passed = n;
          completed = c;
          rest = inr (o, o', e, d, find-put_same (space.current + n) o' orders, all);
        })

  -- A round schedules tasks of a name space only from its first order that is not complete, counted from
  -- the current one; the tasks of this order are scheduled or kept, none lost and none twice.
  pub schedule_space-IsInOrder :
      (known : ℕ → Bool) (p p' : P) (space space' : Space) (scheduled : List ℕ) (u : ℕ)
      → schedule_space allocate known p space ≡ ok (p', space', scheduled)
      → IsInOrder space space' scheduled u
  unfolding schedule_space
  schedule_space-IsInOrder known p p' space space' scheduled u h =
      let sought =
        seek-IsSought (suc (last_order space.orders)) space.current space.orders (omega arith) in
      found-IsInOrder known p p' space space' _ sought.passed u _ scheduled sought.completed
        sought.stop sought.intact h
