-- ===== src/Components/Handed.antt =====
-- What `Component.work_cb` of src/radical/pilot/utils/component.py hands to the workers.
use radical_pilot.Prelude.{
  ℕ, Bool, true, false, Bool-cases, List, [], ◌∷◌, ◌++◌, map, append-nil, append_assoc, Option,
  none, some, ok, guard, assertion_error, >>=-eq-ok, ◌≡◌, refl, sym, ap, inl, inr, arith,
}
use radical_pilot.Components.Buckets.{sort_into}
use radical_pilot.Components.Advance.{
  Thing, Update, Advanced, Routes, publish_thing, publish_things, publish_all, assign_state,
  advance,
}
use radical_pilot.Components.Routed.{advance_routed}
use radical_pilot.Components.Work.{
  Event, canceled_things, failed_things, handed_over, Names, mark_canceled, to_cancel, put_back,
  has, fail_things, finish, hand_over, after_cancel, cancel_first, work_bucket, work_buckets,
  work_cb,
}
use radical_pilot.Components.Tallies.{
  uids, tally, tally-append, tally_of_uids, tally-nil, all_of, tally-sort_into, first_of,
  mark_canceled-things, put_back-uids, taken,
}

module _ {S : Type 0} (final : S → Bool) where
  publish_thing-final :
      (x : Thing S)
      → final x.state ≡ true
      → (one : Thing S × Update S) × (publish_thing final x ≡ ok one)
  unfolding publish_thing
  publish_thing-final x h = elim (Bool-cases x.all) [
    | inl e ↦ rw e (_, refl)
    | inr e ↦ rw (e, h) (_, refl)
  ]

  publish_things-final :
      (s : S) (xs : List (Thing S))
      → final s ≡ true
      → (all : List (Thing S) × List (Update S)) × (publish_things final
            (map (assign_state (some s)) xs)
          ≡ ok all)
  unfolding publish_things
  publish_things-final s [] h = (([], []), refl)
  publish_things-final s (x ∷ xs) h =
      let (one, e) = publish_thing-final (assign_state (some s) x) (unfold assign_state in h) in
      let (rest, f) = publish_things-final s xs h in rw (e, f) (_, refl)

  -- Things that get a final state are advanced without an exception, once a publisher is registered.
  advance_final :
      (dec : Discrete S) (r : Routes S) (xs : List (Thing S)) (s : S)
      → r.publisher ≡ true
      → final s ≡ true
      → (a : Advanced S) × (advance final dec r xs (some s) true false ≡ ok a)
  unfolding advance publish_all
  advance_final dec r [] s h k = (_, refl)
  advance_final dec r (x ∷ xs) s h k =
      let (all, e) = publish_things-final s (x ∷ xs) k in rw (e, h) (_, refl)

module _ {S W : Type 0} where
  -- The things handed to the workers.
  abbrev pub handed : List (Event S W) → List (Thing S)
  handed [] = []
  handed (handed_over w xs ∷ es) = xs ++ handed es
  handed (_ ∷ es) = handed es

  handed-append : (es fs : List (Event S W)) → handed (es ++ fs) ≡ handed es ++ handed fs
  handed-append [] fs = refl
  handed-append (handed_over w xs ∷ es) fs =
      rw (handed-append es fs) (sym (append_assoc xs (handed es) (handed fs)))
  handed-append (canceled_things a ∷ es) fs = handed-append es fs
  handed-append (failed_things a ∷ es) fs = handed-append es fs

module _ {S W : Type 0} (dec : Discrete S) (names : Names S) (r : Routes S)
    (run : W → List (Thing S) → Bool × List (Thing S)) (listening : r.publisher ≡ true)
    (ends : names.final names.canceled ≡ true) where
  fail_things-handed :
      (s : S) (xs : List (Thing S)) (es : List (Event S W))
      → fail_things dec names r run s xs ≡ ok es
      → handed es ≡ []
  unfolding fail_things
  fail_things-handed s xs es h = elim (Bool-cases (names.named s)) [
    | inl e ↦
        let (a, f, g) =
          >>=-eq-ok (advance names.final dec r xs (some names.failed) true false) _ (rw e at h) in
        let p : failed_things a ∷ [] ≡ es = cc in rw (sym p) refl
    | inr e ↦ let k = rw e at h in let p : [] ≡ es = cc in rw (sym p) refl
  ]

  finish-handed :
      (s : S) (w : W) (xs : List (Thing S)) (end : Bool × List (Thing S)) (es : List (Event S W))
      → finish dec names r run s w xs end ≡ ok es
      → handed es ≡ xs
  unfolding finish
  finish-handed s w xs (true, after) es h =
      let p : handed_over w xs ∷ [] ≡ es = cc in rw (sym p) (append-nil xs)
  finish-handed s w xs (false, after) es h =
      let (failures, e, g) = >>=-eq-ok (fail_things dec names r run s after) _ h in
      let p : handed_over w xs ∷ failures ≡ es = cc in
      rw (sym p, fail_things-handed s after failures e) (append-nil xs)

  canceled_handed :
      (s : S) (w : W) (xs : List (Thing S)) (marked : List (Thing S × Bool)) (c : Thing S)
      (cs : List (Thing S)) (es : List (Event S W))
      → to_cancel marked ≡ c ∷ cs
      → map first_of marked ≡ xs
      → after_cancel dec names r run s w xs marked
          (advance names.final dec r (c ∷ cs) (some names.canceled) true false)
        ≡ ok es
      → uids (handed es) ≡ uids xs
  unfolding after_cancel hand_over
  canceled_handed s w xs marked c cs es t m h =
      let (a, e) = advance_final names.final dec r (c ∷ cs) names.canceled listening ends in
      let same_uids : uids a.things ≡ uids (c ∷ cs) =
        (advance_routed names.final dec r (c ∷ cs) (some names.canceled) true false a names.failed
          e).0 in
      let back : uids (put_back marked a.things) ≡ uids (map first_of marked) =
        put_back-uids marked a.things (rw t same_uids) in
      let (events, f, g) =
        >>=-eq-ok (hand_over dec names r run s w (put_back marked a.things)) _ (rw e at h) in
      let p : canceled_things a ∷ events ≡ es = cc in
      let all : handed events ≡ put_back marked a.things = finish-handed s w _ (run w _) events f in
      rw (sym p, all, back, m) refl

  cancel_first-handed :
      (s : S) (w : W) (xs : List (Thing S)) (marked : List (Thing S × Bool))
      (canceled : List (Thing S)) (es : List (Event S W))
      → to_cancel marked ≡ canceled
      → map first_of marked ≡ xs
      → cancel_first dec names r run s w xs marked canceled ≡ ok es
      → uids (handed es) ≡ uids xs
  unfolding cancel_first hand_over
  cancel_first-handed s w xs marked [] es c m h = ap uids (finish-handed s w xs (run w xs) es h)
  cancel_first-handed s w xs marked (x ∷ cs) es c m h = elim (Bool-cases (names.named s)) [
    | inr e ↦ ap uids (finish-handed s w xs (run w xs) es (rw e at h))
    | inl e ↦ canceled_handed s w xs marked x cs es c m (rw e at h)
  ]

  work_bucket-handed :
      (w : Option W) (s : S) (xs : List (Thing S)) (cancel_list rest : List ℕ)
      (es : List (Event S W))
      → work_bucket dec names r run w s xs cancel_list ≡ ok (rest, es)
      → uids (handed es) ≡ uids xs
  unfolding work_bucket
  work_bucket-handed none s xs cancel_list rest es h = cc
  work_bucket-handed (some w) s xs cancel_list rest es h =
      let marked = mark_canceled cancel_list xs in
      let (events, e, g) =
        >>=-eq-ok (cancel_first dec names r run s w xs marked.1 (to_cancel marked.1)) _ h in
      let p : events ≡ es = cc in
      rw (sym p)
        (cancel_first-handed s w xs marked.1 _ events refl (mark_canceled-things xs cancel_list) e)

  work_buckets-handed :
      (u : ℕ) (states : List S) (workers : S → Option W) (d : List (S × List (Thing S)))
      (cancel_list rest : List ℕ) (es : List (Event S W))
      → work_buckets dec names r run states workers d cancel_list ≡ ok (rest, es)
      → tally u (handed es) ≡ tally u (all_of d)
  unfolding work_buckets
  work_buckets-handed u states workers [] cancel_list rest es h =
      let p : [] ≡ es = cc in rw (sym p) refl
  work_buckets-handed u states workers ((s, xs) ∷ d) cancel_list rest es h =
      let (t, e0, h0) = >>=-eq-ok (guard (has dec s states) assertion_error) _ h in
      let (one, e1, h1) =
        >>=-eq-ok (work_bucket dec names r run (workers s) s xs cancel_list) _ h0 in
      let (more, e2, h2) = >>=-eq-ok (work_buckets dec names r run states workers d one.0) _ h1 in
      let p : one.1 ++ more.1 ≡ es = cc in
      let a =
        tally_of_uids u (handed one.1) xs
          (work_bucket-handed (workers s) s xs cancel_list one.0 one.1 e1) in
      let b = work_buckets-handed u states workers d one.0 more.0 more.1 e2 in
      let c = tally-append u xs (all_of d) in
      let f = tally-append u (handed one.1) (handed more.1) in
      rw (sym p, handed-append one.1 more.1) (omega arith)

  -- Each thing taken from a queue is handed to a worker once, also where it was canceled.
  pub work_cb-handed :
      (u : ℕ) (workers : S → Option W) (inputs : List (List S × List (Thing S)))
      (cancel_list rest : List ℕ) (es : List (Event S W))
      → work_cb dec names r run workers inputs cancel_list ≡ ok (rest, es)
      → tally u (handed es) ≡ tally u (taken inputs)
  unfolding work_cb
  work_cb-handed u workers [] cancel_list rest es h = let p : [] ≡ es = cc in rw (sym p) refl
  work_cb-handed u workers ((states, []) ∷ inputs) cancel_list rest es h =
      let p : [] ≡ es = cc in rw (sym p) refl
  work_cb-handed u workers ((states, x ∷ xs) ∷ inputs) cancel_list rest es h =
      let d = sort_into dec (λ t. t.state) (x ∷ xs) [] in
      let (one, e1, h1) =
        >>=-eq-ok (work_buckets dec names r run states workers d cancel_list) _ h in
      let (more, e2, h2) = >>=-eq-ok (work_cb dec names r run workers inputs one.0) _ h1 in
      let p : one.1 ++ more.1 ≡ es = cc in
      let a = work_buckets-handed u states workers d cancel_list one.0 one.1 e1 in
      let b = work_cb-handed u workers inputs one.0 more.0 more.1 e2 in
      let c = tally-sort_into dec u (x ∷ xs) [] in
      let f = tally-append u (handed one.1) (handed more.1) in
      let g = tally-append u (x ∷ xs) (taken inputs) in
      let z : tally {S = S} u [] ≡ 0 = tally-nil u [] refl in
      rw (sym p, handed-append one.1 more.1) (omega arith)
