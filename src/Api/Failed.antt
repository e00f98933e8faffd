-- ===== src/Api/Failed.antt =====
-- The tasks of one pilot in `TaskManager._pilot_state_cb` of src/radical/pilot/task_manager.py.
use radical_pilot.Prelude.{
  ℕ, true, false, List, [], ◌∷◌, ◌++◌, map, append-nil, append_assoc, Option, none, some, ok,
  >>=-eq-ok, ◌≡◌, refl, sym, ap, ◌∙◌,
}
use radical_pilot.States.Task.{TaskState, failed, task_state_discrete, is_final}
use radical_pilot.States.Pilot.{PilotState, is_final as is_final_pilot}
use radical_pilot.Components.Buckets.{keep}
use radical_pilot.Components.Advance.{Routes, advance}
use radical_pilot.Api.Pull.{
  Doc, doc_uids, find_tasks, update_tasks, things_of, fail_task, Lost, restarts, lose_tasks,
  check_pilot,
}
use radical_pilot.Api.Pulled.{uids, states, advance_kept}

abbrev pub lost_uids : List Lost → List ℕ
lost_uids [] = []
lost_uids (l ∷ ls) = uids l.advanced ++ lost_uids ls

abbrev pub lost_states : List Lost → List (Option TaskState)
lost_states [] = []
lost_states (l ∷ ls) = states l.advanced ++ lost_states ls

abbrev pub restarted : List Lost → List Doc
restarted [] = []
restarted (l ∷ ls) = l.to_restart ++ restarted ls

-- The tasks are advanced to `FAILED`, and those that can be restarted are submitted again.
pub record IsFailed (docs : List Doc) (ls : List Lost) : Type 0 where
  pub all_advanced : lost_uids ls ≡ doc_uids docs
  pub all_failed : lost_states ls ≡ map (λ d. some failed) docs
  pub all_restarted : restarted ls ≡ keep restarts docs

fail_task-map :
    (ds : List Doc)
    → (map (λ x. x.uid) (things_of (map fail_task ds)) ≡ doc_uids ds)
      × (map (λ x. x.state) (things_of (map fail_task ds)) ≡ map (λ d. some failed) ds)
unfolding fail_task
fail_task-map [] = (refl, refl)
fail_task-map (d ∷ ds) =
    let (a, b) = fail_task-map ds in (ap (λ us. d.thing.uid ∷ us) a, ap (λ ss. some failed ∷ ss) b)

pub lose_tasks-IsFailed :
    (r : Routes (Option TaskState)) (docs : List Doc) (l : Lost)
    → lose_tasks r docs ≡ ok l
    → IsFailed docs (l ∷ [])
unfolding lose_tasks
lose_tasks-IsFailed r docs l h =
    let (b, k, m) =
      >>=-eq-ok
        (advance is_final task_state_discrete r (things_of (map fail_task docs)) none true false) _
        h in
    let (kept, failing) = advance_kept r (things_of (map fail_task docs)) none false b k in
    let (a, c) = fail_task-map docs in
    let whole : record { to_restart = keep restarts docs; advanced = b } ≡ l = cc in
    rw (sym whole) (record {
      all_advanced = append-nil (uids b) ∙ kept ∙ a;
      all_failed = append-nil (states b) ∙ failing ∙ c;
      all_restarted = append-nil (keep restarts docs);
    })

pub lost-append :
    (ks ls : List Lost)
    → (lost_uids (ks ++ ls) ≡ lost_uids ks ++ lost_uids ls)
      × (lost_states (ks ++ ls) ≡ lost_states ks ++ lost_states ls)
      × (restarted (ks ++ ls) ≡ restarted ks ++ restarted ls)
lost-append [] ls = (refl, refl, refl)
lost-append (k ∷ ks) ls =
    let (a, b, c) = lost-append ks ls in
    (
      rw a (sym (append_assoc (uids k.advanced) (lost_uids ks) (lost_uids ls))),
      rw b (sym (append_assoc (states k.advanced) (lost_states ks) (lost_states ls))),
      rw c (sym (append_assoc k.to_restart (restarted ks) (restarted ls))),
    )

map_const : (ds : List Doc) → map (λ d. some failed) ds ≡ map (λ u. some failed) (doc_uids ds)
map_const [] = refl
map_const (d ∷ ds) = ap (λ ss. some failed ∷ ss) (map_const ds)

pub failed-map :
    {docs : List Doc} {ls : List Lost}
    → IsFailed docs ls
    → lost_states ls ≡ map (λ u. some failed) (lost_uids ls)
failed-map {docs} h =
    h.all_failed ∙ map_const docs ∙ ap (map (λ u. some failed)) (sym h.all_advanced)

ok_same : (x y : List Lost × List Doc) → ok x ≡ ok y → x ≡ y
ok_same x y h = cc

ok_parts : (x y : List Lost × List Doc) → ok x ≡ ok y → (x.0 ≡ y.0) × (x.1 ≡ y.1)
ok_parts x y h =
    let same = ok_same x y h in
    (ap (λ (z : List Lost × List Doc). z.0) same, ap (λ (z : List Lost × List Doc). z.1) same)

pub check_pilot-ended :
    (r : Routes (Option TaskState)) (s : Option PilotState) (p : ℕ) (db : List Doc)
    (first : List Lost × List Doc)
    → is_final_pilot s ≡ true
    → check_pilot r s p db ≡ ok first
    → (l : Lost) × (lose_tasks r (find_tasks p db) ≡ ok l)
      × (l ∷ [] ≡ first.0)
      × (update_tasks (doc_uids (find_tasks p db)) db ≡ first.1)
unfolding check_pilot
check_pilot-ended r s p db first k e =
    let (l, m, n) = >>=-eq-ok (lose_tasks r (find_tasks p db)) _ (rw k at e) in
    let (one, next) = ok_parts _ first n in (l, m, one, next)

pub check_pilot-running :
    (r : Routes (Option TaskState)) (s : Option PilotState) (p : ℕ) (db : List Doc)
    (first : List Lost × List Doc)
    → is_final_pilot s ≡ false
    → check_pilot r s p db ≡ ok first
    → ([] ≡ first.0) × (db ≡ first.1)
unfolding check_pilot
check_pilot-running r s p db first k e = ok_parts ([], db) first (rw k at e)
