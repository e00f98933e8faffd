-- ===== src/Components/Routed.antt =====
-- Where `Component.advance` of src/radical/pilot/utils/component.py puts its things.
use radical_pilot.Prelude.{
  same-eq, ℕ, Bool, true, false, ◌&&◌, Bool-cases, if◌then◌else◌, List, [], ◌∷◌, ◌++◌, map, All,
  All-imp, concat, Option, none, some, is_some, not, Option-cases, ok, >>=-eq-ok, ◌≡◌, refl, sym,
  ap, ◌∙◌, inl, inr,
}
use radical_pilot.Components.Buckets.{
  keep, bucket, sort_into, in_state, Keyed, sort_into-Keyed, bucket-sort_into, spread, keep-spread,
}
use radical_pilot.Components.Advance.{
  Thing, Update, Advanced, Routes, registered, target_of, put_bucket, put_buckets, publish_thing,
  publish_things, publish_all, set_fields, assign_state, drop_all, advance,
}

-- The state that a thing has after `advance`.
abbrev pub new_state {ℓ} : {S : Type ℓ} → Option S → S → S
new_state none s = s
new_state (some t) s = t

-- An entry of the outputs that is a queue: it is there and is not empty.
abbrev pub has_queue : Option (Option ℕ) → Bool
has_queue none = false
has_queue (some none) = false
has_queue (some (some q)) = true

registered-has_queue : (o : Option (Option ℕ)) → is_some (registered o) ≡ has_queue o
unfolding registered
registered-has_queue none = refl
registered-has_queue (some none) = refl
registered-has_queue (some (some q)) = refl

registered-some : (o : Option (Option ℕ)) (q : ℕ) → registered o ≡ some q → o ≡ some (some q)
unfolding registered
registered-some none q h = cc
registered-some (some o) q h = ap some h

if_same {ℓ} : {A : Type ℓ} (b : Bool) (x : A) → (if b then x else x) ≡ x
if_same true x = refl
if_same false x = refl

module _ {S : Type 0} (final : S → Bool) where
  abbrev bulk : ℕ × List (Thing S) → List (Thing S)
  bulk (q, xs) = xs

  -- All things put, in their order.
  abbrev pub all_put : Advanced S → List (Thing S)
  all_put a = concat (map bulk a.put)

  abbrev goes : Routes S → S → Bool
  goes r s = is_some (target_of final r s)

  -- A state that is not final and has a queue.
  abbrev pub is_routed : Routes S → S → Bool
  is_routed r s = not (final s) && has_queue (r.outputs s)

  goes-is_routed : (r : Routes S) (s : S) → goes r s ≡ is_routed r s
  unfolding target_of
  goes-is_routed r s = elim (Bool-cases (final s)) [
    | inl e ↦ rw e refl
    | inr e ↦ rw e (registered-has_queue (r.outputs s))
  ]

  -- A state that is not final and whose queue is this one.
  abbrev pub IsRoutedTo : Routes S → ℕ → S → Type 0
  IsRoutedTo r q s = (final s ≡ false) × (r.outputs s ≡ some (some q))

  target_of-IsRoutedTo :
      (r : Routes S) (s : S) (q : ℕ) → target_of final r s ≡ some q → IsRoutedTo r q s
  unfolding target_of
  target_of-IsRoutedTo r s q h = elim (Bool-cases (final s)) [
    | inl e ↦ let k = rw e at h in cc
    | inr e ↦ (e, registered-some (r.outputs s) q (rw e at h))
  ]

  put_buckets-spread :
      (r : Routes S) (d : List (S × List (Thing S)))
      → concat (map bulk (put_buckets final r d)) ≡ spread (goes r) d
  unfolding put_buckets put_bucket spread
  put_buckets-spread r [] = refl
  put_buckets-spread r ((s, xs) ∷ d) = elim (Option-cases (target_of final r s)) [
    | inl e ↦ rw e (put_buckets-spread r d)
    | inr (q, e) ↦ rw e (ap (λ ys. xs ++ ys) (put_buckets-spread r d))
  ]

  -- A bulk goes to the queue of the state of each thing in it, and that state is not final.
  abbrev pub OnTarget : Routes S → ℕ × List (Thing S) → Type 0
  OnTarget r (q, xs) = All (λ x. IsRoutedTo r q x.state) xs

  put_buckets-OnTarget :
      (dec : Discrete S) (r : Routes S) (d : List (S × List (Thing S)))
      → Keyed dec (λ t. t.state) d
      → All (OnTarget r) (put_buckets final r d)
  unfolding put_buckets put_bucket
  put_buckets-OnTarget dec r [] h = tt
  put_buckets-OnTarget dec r ((s, xs) ∷ d) h = elim (Option-cases (target_of final r s)) [
    | inl e ↦ rw e (put_buckets-OnTarget dec r d h.2)
    | inr (q, e) ↦ rw e (
      All-imp
          (λ x k.
            target_of-IsRoutedTo r x.state q (ap (target_of final r) (same-eq dec x.state s k) ∙ e))
          xs h.0,
      put_buckets-OnTarget dec r d h.2,
    )
  ]

  -- A thing keeps its uid and gets the state given.
  abbrev pub Kept : Thing S → Thing S → Type 0
  Kept x y = (x.uid ≡ y.uid) × (x.state ≡ y.state)

  publish_thing-Kept : (x y : Thing S) (u : Update S) → publish_thing final x ≡ ok (y, u) → Kept x y
  unfolding publish_thing
  publish_thing-Kept x y u h = elim (Bool-cases x.all) [
    | inl e ↦
        let k = rw e at h in
        let p : record x { all = false; set = none } ≡ y = cc in rw (sym p) (refl, refl)
    | inr e ↦ elim (Bool-cases (final x.state)) [
      | inl f ↦ let p : x ≡ y = (let k = rw (e, f) at h in cc) in rw p (refl, refl)
      | inr f ↦
          let (fs, g, k) = >>=-eq-ok (set_fields x.set x.fields) _ (rw (e, f) at h) in
          let p : record x { set = none } ≡ y = cc in rw (sym p) (refl, refl)
    ]
  ]

  publish_things-Kept :
      (xs ys : List (Thing S)) (us : List (Update S))
      → publish_things final xs ≡ ok (ys, us)
      → (map (λ x. x.uid) xs ≡ map (λ y. y.uid) ys)
        × (map (λ x. x.state) xs ≡ map (λ y. y.state) ys)
  unfolding publish_things
  publish_things-Kept [] ys us h = let p : ys ≡ [] = cc in rw p (refl, refl)
  publish_things-Kept (x ∷ xs) ys us h =
      let (one, e, h') = >>=-eq-ok (publish_thing final x) _ h in
      let (rest, f, g) = >>=-eq-ok (publish_things final xs) _ h' in
      let p : ys ≡ one.0 ∷ rest.0 = cc in
      let (a, b) = publish_thing-Kept x one.0 one.1 e in
      let (uids, states) = publish_things-Kept xs rest.0 rest.1 f in
      rw p (rw (a, uids) refl, rw (b, states) refl)

  publish_all-Kept :
      (r : Routes S) (publish : Bool) (xs ys : List (Thing S)) (us : List (Update S))
      → publish_all final r publish xs ≡ ok (ys, us)
      → (map (λ x. x.uid) xs ≡ map (λ y. y.uid) ys)
        × (map (λ x. x.state) xs ≡ map (λ y. y.state) ys)
  unfolding publish_all
  publish_all-Kept r false xs ys us h = let p : xs ≡ ys = cc in rw p (refl, refl)
  publish_all-Kept r true xs ys us h =
      let (sent, e, h') = >>=-eq-ok (publish_things final xs) _ h in
      publish_things-Kept xs ys us (elim (Bool-cases r.publisher) [
        | inl t ↦ let k = rw t at h' in cc
        | inr t ↦ let k = rw t at h' in cc
      ])

  assign_state-map :
      (st : Option S) (xs : List (Thing S))
      → (map (λ x. x.uid) (map (assign_state st) xs) ≡ map (λ x. x.uid) xs)
        × (map (λ x. x.state) (map (assign_state st) xs) ≡ map (λ x. new_state st x.state) xs)
  unfolding assign_state
  assign_state-map st [] = (refl, refl)
  assign_state-map none (x ∷ xs) = let (a, b) = assign_state-map none xs in (rw a refl, rw b refl)
  assign_state-map (some s) (x ∷ xs) =
      let (a, b) = assign_state-map (some s) xs in (rw a refl, rw b refl)

  drop_all-map :
      (xs : List (Thing S))
      → (map (λ x. x.uid) (map drop_all xs) ≡ map (λ x. x.uid) xs)
        × (map (λ x. x.state) (map drop_all xs) ≡ map (λ x. x.state) xs)
  unfolding drop_all
  drop_all-map [] = (refl, refl)
  drop_all-map (x ∷ xs) = let (a, b) = drop_all-map xs in (rw a refl, rw b refl)

  -- The things put for a state are those of the list in that state, in order, if it has a queue.
  put_buckets-keep :
      (dec : Discrete S) (r : Routes S) (xs : List (Thing S)) (s : S)
      → keep
          (in_state dec (λ t. t.state) s)
          (concat (map bulk (put_buckets final r (sort_into dec (λ t. t.state) xs []))))
        ≡ (if is_routed r s then keep (in_state dec (λ t. t.state) s) xs else [])
  unfolding bucket
  put_buckets-keep dec r xs s =
      let buckets = sort_into dec (λ t. t.state) xs [] in
      let filled : bucket dec (λ t. t.state) s buckets ≡ keep (in_state dec (λ t. t.state) s) xs =
        bucket-sort_into dec (λ t. t.state) s xs [] in
      rw (put_buckets-spread r buckets) (
        keep-spread dec (λ t. t.state) (goes r) s buckets (sort_into-Keyed dec _ xs [] tt)
        ∙ rw (filled, goes-is_routed r s) refl)

  pushed-lem :
      (dec : Discrete S) (r : Routes S) (push : Bool) (xs : List (Thing S)) (s : S)
      → let bulks = if push then put_buckets final r (sort_into dec (λ t. t.state) xs []) else [] in
        All (OnTarget r) bulks
        × (keep (in_state dec (λ t. t.state) s) (concat (map bulk bulks))
            ≡ (if push && is_routed r s then keep (in_state dec (λ t. t.state) s) xs else []))
  unfolding keep
  pushed-lem dec r false xs s = (tt, refl)
  pushed-lem dec r true xs s = (
    put_buckets-OnTarget dec r (sort_into dec _ xs []) (sort_into-Keyed dec _ xs [] tt),
    put_buckets-keep dec r xs s,
  )

module _ {S : Type 0} (final : S → Bool) (dec : Discrete S) (r : Routes S) where
  -- Where nothing is raised: things keep their uids and get the state given; each bulk goes to the queue
  -- that its things' state has, which is not final; and of the things in a state all are put, in order, if
  -- `push` is set, the state is not final and it has a queue, and none otherwise.
  pub advance_routed :
      (things : List (Thing S)) (state : Option S) (publish push : Bool) (a : Advanced S) (s : S)
      → advance final dec r things state publish push ≡ ok a
      → (map (λ x. x.uid) a.things ≡ map (λ x. x.uid) things)
        × (map (λ x. x.state) a.things ≡ map (λ x. new_state state x.state) things)
        × All (OnTarget final r) a.put
        × (keep (in_state dec (λ t. t.state) s) (all_put final a) ≡ (
            if push && is_routed final r s
            then keep (in_state dec (λ t. t.state) s) a.things
            else []))
  unfolding advance keep
  advance_routed [] state publish push a s h =
      let p : record { things = []; published = []; put = [] } ≡ a = cc in
      rw (sym p) (refl, refl, tt, sym (if_same (push && is_routed final r s) []))
  advance_routed (x ∷ xs) state publish push a s h =
      let (sent, e, h') =
        >>=-eq-ok (publish_all final r publish (map (assign_state state) (x ∷ xs))) _ h in
      let things = map drop_all sent.0 in
      let bulks =
        if push then put_buckets final r (sort_into dec (λ t. t.state) things []) else [] in
      let p : record { things = things; published = sent.1; put = bulks } ≡ a = cc in
      let kept = publish_all-Kept final r publish _ sent.0 sent.1 e in
      let given = assign_state-map final state (x ∷ xs) in
      let bare = drop_all-map final sent.0 in
      rw (sym p) (
        bare.0 ∙ sym kept.0 ∙ given.0,
        bare.1 ∙ sym kept.1 ∙ given.1,
        (pushed-lem final dec r push things s).0,
        (pushed-lem final dec r push things s).1,
      )
