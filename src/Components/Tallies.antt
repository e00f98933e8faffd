-- ===== src/Components/Tallies.antt =====
-- Things counted by their uids, in the buckets and bulks of src/radical/pilot/utils/component.py.
use radical_pilot.Prelude.{
  times, same, ℕ, ◌+◌, Bool, true, false, ◌==◌, Bool-cases, if◌then◌else◌, List, [], ◌∷◌, ◌++◌, map,
  ◌≡◌, refl, sym, ap, ◌∙◌, inl, inr, arith,
}
use radical_pilot.Components.Buckets.{add_to, sort_into}
use radical_pilot.Components.Advance.{Thing}
use radical_pilot.Components.Work.{mark_canceled, to_cancel, put_back, listed, remove}

module _ {S : Type 0} where
  abbrev pub uids : List (Thing S) → List ℕ
  uids xs = map (λ x. x.uid) xs

  -- How often a thing stands in a list, by its uid.
  unfoldable pub tally : ℕ → List (Thing S) → ℕ
  tally u [] = 0
  tally u (x ∷ xs) = (if x.uid == u then 1 else 0) + tally u xs

  pub tally-nil : (u : ℕ) (xs : List (Thing S)) → xs ≡ [] → tally u xs ≡ 0
  unfolding tally
  tally-nil u [] h = refl
  tally-nil u (x ∷ xs) h = cc

  pub tally-append : (u : ℕ) (xs ys : List (Thing S)) → tally u (xs ++ ys) ≡ tally u xs + tally u ys
  unfolding tally
  tally-append u [] ys = omega arith
  tally-append u (x ∷ xs) ys = omega (arith, tally-append u xs ys)

  tally-times : (u : ℕ) (xs : List (Thing S)) → tally u xs ≡ times u (uids xs)
  unfolding tally times
  tally-times u [] = refl
  tally-times u (x ∷ xs) = omega (arith, tally-times u xs)

  pub tally_of_uids : (u : ℕ) (xs ys : List (Thing S)) → uids xs ≡ uids ys → tally u xs ≡ tally u ys
  tally_of_uids u xs ys h = tally-times u xs ∙ ap (times u) h ∙ sym (tally-times u ys)

  abbrev pub all_of : List (S × List (Thing S)) → List (Thing S)
  all_of [] = []
  all_of ((s, xs) ∷ d) = xs ++ all_of d

  tally-add_to :
      (dec : Discrete S) (u : ℕ) (x : Thing S) (d : List (S × List (Thing S)))
      → tally u (all_of (add_to dec (λ t. t.state) x d)) ≡ tally u (x ∷ []) + tally u (all_of d)
  unfolding add_to
  tally-add_to dec u x [] = tally-append u (x ∷ []) []
  tally-add_to dec u x ((s, xs) ∷ d) = elim (Bool-cases (same dec s x.state)) [
    | inl e ↦ rw e (
        let a = tally-append u (xs ++ x ∷ []) (all_of d) in
        let b = tally-append u xs (x ∷ []) in let c = tally-append u xs (all_of d) in omega arith)
    | inr e ↦ rw e (
        let a = tally-append u xs (all_of (add_to dec (λ t. t.state) x d)) in
        let b = tally-add_to dec u x d in let c = tally-append u xs (all_of d) in omega arith)
  ]

  pub tally-sort_into :
      (dec : Discrete S) (u : ℕ) (xs : List (Thing S)) (d : List (S × List (Thing S)))
      → tally u (all_of (sort_into dec (λ t. t.state) xs d)) ≡ tally u xs + tally u (all_of d)
  unfolding sort_into
  tally-sort_into dec u [] d = unfold tally in omega arith
  tally-sort_into dec u (x ∷ xs) d =
      let a = tally-sort_into dec u xs (add_to dec (λ t. t.state) x d) in
      let b = tally-add_to dec u x d in let c = tally-append u (x ∷ []) xs in omega arith

  -- The things that a round takes from the queues, up to the first empty one.
  abbrev pub taken : List (List S × List (Thing S)) → List (Thing S)
  taken [] = []
  taken ((states, []) ∷ inputs) = []
  taken ((states, x ∷ xs) ∷ inputs) = (x ∷ xs) ++ taken inputs

  -- The things of a bucket and those to be canceled.
  abbrev pub first_of : Thing S × Bool → Thing S
  first_of (x, b) = x

  pub mark_canceled-things :
      (xs : List (Thing S)) (cancel_list : List ℕ)
      → map first_of (mark_canceled cancel_list xs).1 ≡ xs
  unfolding mark_canceled
  mark_canceled-things [] cancel_list = refl
  mark_canceled-things (x ∷ xs) cancel_list =
      ap (λ ys. x ∷ ys)
        (mark_canceled-things xs
          (if listed x.uid cancel_list then remove x.uid cancel_list else cancel_list))

  pub put_back-uids :
      (marked : List (Thing S × Bool)) (ys : List (Thing S))
      → uids ys ≡ uids (to_cancel marked)
      → uids (put_back marked ys) ≡ uids (map first_of marked)
  unfolding put_back to_cancel
  put_back-uids [] ys h = refl
  put_back-uids ((x, false) ∷ marked) ys h = ap (λ us. x.uid ∷ us) (put_back-uids marked ys h)
  put_back-uids ((x, true) ∷ marked) [] h = cc
  put_back-uids ((x, true) ∷ marked) (y ∷ ys) h =
      let a : y.uid ≡ x.uid = cc in
      let b : uids ys ≡ uids (to_cancel marked) = cc in
      rw a (ap (λ us. x.uid ∷ us) (put_back-uids marked ys b))
