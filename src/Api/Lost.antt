-- ===== src/Api/Lost.antt =====
-- What `TaskManager._pilot_state_cb` of src/radical/pilot/task_manager.py does with the tasks of pilots that
-- have ended.
use radical_pilot.Prelude.{
  ℕ, Bool, true, false, Bool-cases, List, [], ◌∷◌, ◌++◌, map, map-append, All, times, times-append,
  Option, some, ok, >>=-eq-ok, ◌≡◌, refl, sym, ap, ap₂, ◌∙◌, inl, inr, arith,
}
use radical_pilot.States.Task.{TaskState, failed}
use radical_pilot.States.Pilot.{PilotState, is_final as is_final_pilot}
use radical_pilot.Components.Buckets.{keep}
use radical_pilot.Components.Advance.{Routes}
use radical_pilot.Api.Pull.{
  Doc, doc_uids, bound_to, find_tasks, Lost, restarts, check_pilot, pilot_state_cb,
}
use radical_pilot.Api.Released.{
  is_lost, IsUnique, given_back, released, map-All, update_tasks-released, released-IsUnique,
  times-released, released-given_back, keep_all,
}
use radical_pilot.Api.Failed.{
  lost_uids, lost_states, restarted, IsFailed, lose_tasks-IsFailed, lost-append, failed-map,
  check_pilot-ended, check_pilot-running,
}

-- Each lost task is advanced once, to `FAILED`, and submitted again once if it can be restarted; no other
-- task is; and the database has the lost tasks given back.
pub record IsLost (db : List Doc) (pilots : List (ℕ × Option PilotState)) (ls : List Lost)
    (db' : List Doc) : Type 0 where
  pub advanced_once :
      (u : ℕ) → times u (lost_uids ls) ≡ times u (doc_uids (keep (is_lost pilots) db))
  pub all_failed : lost_states ls ≡ map (λ u. some failed) (lost_uids ls)
  pub restarted_once :
      (u : ℕ)
      → times u (doc_uids (restarted ls))
        ≡ times u (doc_uids (keep restarts (keep (is_lost pilots) db)))
  pub given : db' ≡ map (given_back pilots) db

is_lost-skip :
    (p : ℕ) (s : Option PilotState) (pilots : List (ℕ × Option PilotState))
    → is_final_pilot s ≡ false
    → (d : Doc) → is_lost ((p, s) ∷ pilots) d ≡ is_lost pilots d
is_lost-skip p s pilots e d = elim (Bool-cases (bound_to p d.pilot)) [
  | inl a ↦ rw (a, e) refl
  | inr a ↦ rw a refl
]

keep_nothing : (ds : List Doc) → keep (is_lost []) ds ≡ []
unfolding keep
keep_nothing [] = refl
keep_nothing (d ∷ ds) = keep_nothing ds

map_same : (ds : List Doc) → map (given_back []) ds ≡ ds
map_same [] = refl
map_same (d ∷ ds) = ap (λ es. d ∷ es) (map_same ds)

map_twice : (f g : Doc → Doc) (ds : List Doc) → map f (map g ds) ≡ map (λ d. f (g d)) ds
map_twice f g [] = refl
map_twice f g (d ∷ ds) = ap (λ es. f (g d) ∷ es) (map_twice f g ds)

All-intro : {P : Doc → Type 0} → ((d : Doc) → P d) → (ds : List Doc) → All P ds
All-intro f [] = tt
All-intro f (d ∷ ds) = (f d, All-intro f ds)

none-IsLost : (db : List Doc) → IsLost db [] [] db
none-IsLost db =
    let nothing : (ds : List Doc) → keep (is_lost []) ds ≡ [] = keep_nothing in
    record {
      advanced_once = λ u. rw (nothing db) refl;
      all_failed = refl;
      restarted_once = λ u. rw (nothing db) (unfold keep in refl);
      given = sym (map_same db);
    }

first-IsLost :
    (p : ℕ) (s : Option PilotState) (pilots : List (ℕ × Option PilotState)) (db db' : List Doc)
    (l : Lost) (ls : List Lost)
    → is_final_pilot s ≡ true
    → IsFailed (find_tasks p db) (l ∷ [])
    → IsLost (map (released p) db) pilots ls db'
    → IsLost db ((p, s) ∷ pilots) (l ∷ ls) db'
first-IsLost p s pilots db db' l ls ended first rest =
    let found = find_tasks p db in
    let (a, b, c) = lost-append (l ∷ []) ls in
    record {
      advanced_once = λ u.
          let all = times-released p s pilots ended u (λ d. true) db in
          let here = ap (times u) first.all_advanced in
          let later = rest.advanced_once u in
          let x = keep_all found in
          let y = keep_all (keep (is_lost ((p, s) ∷ pilots)) db) in
          let z = keep_all (keep (is_lost pilots) (map (released p) db)) in
          let both = times-append u (lost_uids (l ∷ [])) (lost_uids ls) in
          let all' = rw (x, y, z) at all in
          ap (times u) a ∙ both ∙ omega (arith, here, later, all');
      all_failed =
          b
          ∙ ap₂ (λ ss ts. ss ++ ts) (failed-map first) rest.all_failed
          ∙ sym (map-append (λ u. some failed) (lost_uids (l ∷ [])) (lost_uids ls))
          ∙ ap (map (λ u. some failed)) (sym a);
      restarted_once = λ u.
          let all = times-released p s pilots ended u restarts db in
          let here = ap (λ ds. times u (doc_uids ds)) first.all_restarted in
          let later = rest.restarted_once u in
          let split = map-append (λ d. d.thing.uid) (restarted (l ∷ [])) (restarted ls) in
          let both = times-append u (doc_uids (restarted (l ∷ []))) (doc_uids (restarted ls)) in
          ap (λ ds. times u (doc_uids ds)) c
          ∙ ap (times u) split
          ∙ both
          ∙ omega (arith, here, later, all);
      given =
          rest.given
          ∙ map_twice (given_back pilots) (released p) db
          ∙ map-All (λ d. given_back pilots (released p d)) (given_back ((p, s) ∷ pilots)) db
              (All-intro (λ d. released-given_back p s pilots ended d) db);
    }

keep_agree : (p q : Doc → Bool) → ((d : Doc) → p d ≡ q d) → (ds : List Doc) → keep p ds ≡ keep q ds
unfolding keep
keep_agree p q same [] = refl
keep_agree p q same (d ∷ ds) = rw (same d, keep_agree p q same ds) refl

-- The same tasks are lost where the tests agree.
agree-IsLost :
    (db db' : List Doc) (before after : List (ℕ × Option PilotState)) (ls : List Lost)
    → ((d : Doc) → is_lost after d ≡ is_lost before d)
    → IsLost db before ls db'
    → IsLost db after ls db'
agree-IsLost db db' before after ls same h =
    let kept : keep (is_lost after) db ≡ keep (is_lost before) db =
      keep_agree (is_lost after) (is_lost before) same db in
    record {
      advanced_once = λ u. h.advanced_once u ∙ ap (λ ds. times u (doc_uids ds)) (sym kept);
      all_failed = h.all_failed;
      restarted_once =
          λ u. h.restarted_once u ∙ ap (λ ds. times u (doc_uids (keep restarts ds))) (sym kept);
      given =
          h.given
          ∙ map-All (given_back before) (given_back after) db
              (All-intro (λ d. rw (same d) refl) db);
    }

-- Where `_pilot_state_cb` raises nothing, and no two documents in the database have one uid: each task that
-- an agent has and whose pilot is listed with a final state is advanced to `FAILED` once, even if
-- the pilot is listed more than once, and is submitted again once if it can be restarted; no other
-- task is; and in the database the manager has these tasks, while all others stay as they are.
pub pilot_state_cb-IsLost :
    (r : Routes (Option TaskState)) (db : List Doc) (pilots : List (ℕ × Option PilotState))
    (ls : List Lost) (db' : List Doc)
    → IsUnique db
    → pilot_state_cb r db pilots ≡ ok (ls, db')
    → IsLost db pilots ls db'
unfolding pilot_state_cb
pilot_state_cb-IsLost r db [] ls db' unique h =
    let same : db ≡ db' = cc in
    let empty : [] ≡ ls = cc in rw (sym same, sym empty) (none-IsLost db)
pilot_state_cb-IsLost r db ((p, s) ∷ pilots) ls db' unique h =
    let (first, e, h') = >>=-eq-ok (check_pilot r s p db) _ h in
    let (rest, f, g) = >>=-eq-ok (pilot_state_cb r first.1 pilots) _ h' in
    let all : first.0 ++ rest.0 ≡ ls = cc in
    let last : rest.1 ≡ db' = cc in
    elim (Bool-cases (is_final_pilot s)) [
      | inl k ↦
          let (l, m, one, next) = check_pilot-ended r s p db first k e in
          let updated : first.1 ≡ map (released p) db =
            sym next ∙ update_tasks-released p db unique in
          let later =
            pilot_state_cb-IsLost r (map (released p) db) pilots rest.0 rest.1
              (released-IsUnique p db unique) (rw (sym updated) f) in
          rw (sym all, sym last, sym one)
            (first-IsLost p s pilots db rest.1 l rest.0 k
              (lose_tasks-IsFailed r (find_tasks p db) l m) later)
      | inr k ↦
          let (nothing, kept) = check_pilot-running r s p db first k e in
          let later = pilot_state_cb-IsLost r db pilots rest.0 rest.1 unique (rw (kept) f) in
          rw (sym all, sym last, sym nothing)
            (agree-IsLost db rest.1 pilots ((p, s) ∷ pilots) rest.0 (is_lost-skip p s pilots k)
              later)
    ]
