-- ===== src/Api/Pulled.antt =====
-- What `TaskManager._task_pull_cb` of src/radical/pilot/task_manager.py does with each task.
use radical_pilot.Prelude.{
  ℕ, ◌+◌, arith, Bool, true, false, Bool-cases, List, [], ◌∷◌, ◌++◌, map, map-append, Option, none,
  some, ok, >>=-eq-ok, ◌≡◌, refl, sym, ap, ap₂, ◌∙◌, inl, inr,
}
use radical_pilot.States.Task.{
  TaskState, tmgr_staging_output, failed, task_state_discrete, is_final,
}
use radical_pilot.Components.Buckets.{keep}
use radical_pilot.Components.Advance.{Thing, Routes, advance}
use radical_pilot.Components.Routed.{new_state, advance_routed}
use radical_pilot.Components.Tallies.{tally, tally-append, tally_of_uids}
use radical_pilot.Api.Pull.{
  Doc, doc_uids, take_over, needs_staging, needs_none, things_of, fail_target, to_finalize,
  to_stage, set_targets, Batch, finalize, Pull, task_pull_cb,
}

abbrev pub uids : Batch → List ℕ
uids b = map (λ x. x.uid) b.things

abbrev pub states : Batch → List (Option TaskState)
states b = map (λ x. x.state) b.things

pub advance_kept :
    (r : Routes (Option TaskState)) (xs : List (Thing (Option TaskState)))
    (s : Option (Option TaskState)) (push : Bool) (b : Batch)
    → advance is_final task_state_discrete r xs s true push ≡ ok b
    → (uids b ≡ map (λ x. x.uid) xs) × (states b ≡ map (λ x. new_state s x.state) xs)
advance_kept r xs s push b h =
    let (a, c, d, e) = advance_routed is_final task_state_discrete r xs s true push b none h in
    (a, c)

set_targets-map :
    (ds : List Doc) (xs : List (Thing (Option TaskState)))
    → map (λ x. x.uid) xs ≡ doc_uids ds
    → (map (λ x. x.uid) (set_targets ds xs) ≡ doc_uids ds)
      × (map (λ x. x.state) (set_targets ds xs) ≡ map (λ d. d.target_state) ds)
unfolding set_targets
set_targets-map [] xs h = (refl, refl)
set_targets-map (d ∷ ds) [] h = cc
set_targets-map (d ∷ ds) (x ∷ xs) h =
    let first : x.uid ≡ d.thing.uid = cc in
    let (a, b) = set_targets-map ds xs cc in
    (ap₂ (λ u us. u ∷ us) first a, ap (λ ss. d.target_state ∷ ss) b)

pub map_uids : (ds : List Doc) → map (λ x. x.uid) (things_of ds) ≡ doc_uids ds
map_uids [] = refl
map_uids (d ∷ ds) = ap (λ us. d.thing.uid ∷ us) (map_uids ds)

-- Each task ends in its target state, and is advanced there once.
finalize_lem :
    (r : Routes (Option TaskState)) (ds : List Doc) (passing last : Batch)
    → finalize r ds ≡ ok (passing, last)
    → (uids last ≡ doc_uids ds) × (states last ≡ map (λ d. d.target_state) ds)
unfolding finalize
finalize_lem r ds passing last h =
    let (b1, e1, h1) =
      >>=-eq-ok
        (advance is_final task_state_discrete r (things_of ds) (some (some tmgr_staging_output))
          true false)
        _ h in
    let (b2, e2, h2) =
      >>=-eq-ok (advance is_final task_state_discrete r (set_targets ds b1.things) none true false)
        _ h1 in
    let same : b2 ≡ last = cc in
    let first = advance_kept r _ _ false b1 e1 in
    let second = advance_kept r _ _ false b2 e2 in
    let targets = set_targets-map ds b1.things (first.0 ∙ map_uids ds) in
    rw (sym same) (second.0 ∙ targets.0, second.1 ∙ targets.1)

keep-take_over :
    (p : Doc → Bool) (ds : List Doc)
    → ((d : Doc) → p (take_over d) ≡ p d)
    → keep p (map take_over ds) ≡ map take_over (keep p ds)
unfolding keep
keep-take_over p [] h = refl
keep-take_over p (d ∷ ds) h = elim (Bool-cases (p d)) [
  | inl e ↦ rw (h d, e) (ap (λ xs. take_over d ∷ xs) (keep-take_over p ds h))
  | inr e ↦ rw (h d, e) (keep-take_over p ds h)
]

things_of-append : (xs ys : List Doc) → things_of (xs ++ ys) ≡ things_of xs ++ things_of ys
things_of-append xs ys = map-append (λ d. d.thing) xs ys

take_over-uids : (ds : List Doc) → doc_uids (map take_over ds) ≡ doc_uids ds
unfolding take_over
take_over-uids [] = refl
take_over-uids (d ∷ ds) = ap (λ us. d.thing.uid ∷ us) (take_over-uids ds)

fail_target-uids : (ds : List Doc) → doc_uids (map fail_target ds) ≡ doc_uids ds
unfolding fail_target
fail_target-uids [] = refl
fail_target-uids (d ∷ ds) = ap (λ us. d.thing.uid ∷ us) (fail_target-uids ds)

fail_target-targets :
    (ds : List Doc) → map (λ d. d.target_state) (map fail_target ds) ≡ map (λ d. some failed) ds
unfolding fail_target
fail_target-targets [] = refl
fail_target-targets (d ∷ ds) = ap (λ ss. some failed ∷ ss) (fail_target-targets ds)

tally_docs :
    (u : ℕ) (ds es : List Doc)
    → doc_uids ds ≡ doc_uids es
    → tally u (things_of ds) ≡ tally u (things_of es)
tally_docs u ds es h =
    tally_of_uids u (things_of ds) (things_of es) (map_uids ds ∙ h ∙ sym (map_uids es))

both_parts :
    (u : ℕ) (ds : List Doc)
    → tally u (things_of (keep needs_none ds)) + tally u (things_of (keep needs_staging ds))
      ≡ tally u (things_of ds)
unfolding keep tally
both_parts u [] = refl
both_parts u (d ∷ ds) =
    let rest = both_parts u ds in
    elim (Bool-cases d.output_staging) [ inl e ↦ rw e omega arith | inr e ↦ rw e omega arith ]

-- No task is left out or taken twice.
parts_kept :
    (u : ℕ) (has_sout : Bool) (ds : List Doc)
    → tally u (things_of (to_stage has_sout ds)) + tally u (things_of (to_finalize has_sout ds))
      ≡ tally u (things_of ds)
unfolding to_stage to_finalize
parts_kept u true ds = let all = both_parts u ds in omega arith
parts_kept u false ds =
    let all = both_parts u ds in
    let failing = keep needs_staging ds in
    let same : tally u (things_of (map fail_target failing)) ≡ tally u (things_of failing) =
      tally_docs u (map fail_target failing) failing (fail_target-uids failing) in
    let sum =
      tally-append u (things_of (keep needs_none ds)) (things_of (map fail_target failing)) in
    rw (things_of-append (keep needs_none ds) (map fail_target failing))
      (unfold tally in omega arith)

-- The states that tasks end in which are not staged.
abbrev pub end_states : Bool → List Doc → List (Option TaskState)
end_states true ds = map (λ d. d.target_state) (keep needs_none ds)
end_states false ds =
    map (λ d. d.target_state) (keep needs_none ds) ++ map (λ d. some failed) (keep needs_staging ds)

to_finalize-targets :
    (has_sout : Bool) (ds : List Doc)
    → map (λ d. d.target_state) (to_finalize has_sout ds) ≡ end_states has_sout ds
unfolding to_finalize
to_finalize-targets true ds = refl
to_finalize-targets false ds =
    map-append (λ d. d.target_state) (keep needs_none ds) (map fail_target (keep needs_staging ds))
    ∙ ap (λ ss. map (λ d. d.target_state) (keep needs_none ds) ++ ss)
        (fail_target-targets (keep needs_staging ds))

take_over-targets :
    (ds : List Doc) → map (λ d. d.target_state) (map take_over ds) ≡ map (λ d. d.target_state) ds
unfolding take_over
take_over-targets [] = refl
take_over-targets (d ∷ ds) = ap (λ ss. d.target_state ∷ ss) (take_over-targets ds)

map_failed : (ds : List Doc) → map (λ d. some failed) (map take_over ds) ≡ map (λ d. some failed) ds
map_failed [] = refl
map_failed (d ∷ ds) = ap (λ ss. some failed ∷ ss) (map_failed ds)

end_states-take_over :
    (has_sout : Bool) (ds : List Doc)
    → end_states has_sout (map take_over ds) ≡ end_states has_sout ds
unfolding take_over
end_states-take_over true ds =
    rw (keep-take_over needs_none ds (λ d. refl)) (take_over-targets (keep needs_none ds))
end_states-take_over false ds =
    rw (keep-take_over needs_none ds (λ d. refl), keep-take_over needs_staging ds (λ d. refl))
      (ap₂ (λ ss ts. ss ++ ts) (take_over-targets (keep needs_none ds))
        (map_failed (keep needs_staging ds)))

-- Each task is staged or finalized, as often as it was pulled; those finalized end in their target states,
-- or in `FAILED` where they need staging and there is no stager.
pub task_pull_cb-end_states :
    (r : Routes (Option TaskState)) (has_sout : Bool) (docs : List Doc) (p : Pull) (u : ℕ)
    → task_pull_cb r has_sout docs ≡ ok p
    → (tally u p.staged.things + tally u p.finalized.things ≡ tally u (things_of docs))
      × (states p.finalized ≡ end_states has_sout docs)
unfolding task_pull_cb
task_pull_cb-end_states r has_sout docs p u h =
    let tasks = map take_over docs in
    let (b, e, h') =
      >>=-eq-ok
        (advance is_final task_state_discrete r (things_of (to_stage has_sout tasks)) none true
          true)
        _ h in
    let (final, f, g) = >>=-eq-ok (finalize r (to_finalize has_sout tasks)) _ h' in
    let staged : b ≡ p.staged = cc in
    let ended : final.1 ≡ p.finalized = cc in
    let first = advance_kept r (things_of (to_stage has_sout tasks)) none true b e in
    let last = finalize_lem r (to_finalize has_sout tasks) final.0 final.1 f in
    let a = tally_of_uids u b.things (things_of (to_stage has_sout tasks)) first.0 in
    let c =
      tally_of_uids u final.1.things (things_of (to_finalize has_sout tasks))
        (last.0 ∙ sym (map_uids (to_finalize has_sout tasks))) in
    let d = parts_kept u has_sout tasks in
    let k = tally_docs u tasks docs (take_over-uids docs) in
    rw (sym staged, sym ended)
      (
        omega arith,
        last.1 ∙ to_finalize-targets has_sout tasks ∙ end_states-take_over has_sout docs,
      )
