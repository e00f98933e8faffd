-- ===== src/Api/Tasks/Log.antt =====
-- Runs of `TaskManager._update_tasks` of src/radical/pilot/task_manager.py.
use radical_pilot.Prelude.{
  ℕ, ◌≤ℤ◌, ◌≢◌, false, ◌==◌, ==_iff, Bool-cases, List, [], ◌∷◌, ◌++◌, map, All, Option, none, some,
  Result, ok, raise, Error, value_error, ◌≡◌, ◌⊎◌, inl, inr, refl, sym, ap, ◌∙◌, subst, >>=-eq-ok,
  >>=-eq-raise, arith, find, put, find-put_same, find-put_other,
}
use radical_pilot.States.Task.{TaskState, task_state_value}
use radical_pilot.States.Replay.{last_or}
use radical_pilot.Api.Tasks.{Task, TaskDict, TaskLog, update_task, update_known, update_tasks}
use radical_pilot.Api.Tasks.Updates.{IsUpdated, update_task_total}
use radical_pilot.Api.Tasks.Named.{
  Named, find-Named, put-Named, log_of, log_of-append, log_of_same, log_of_other, last_or-append,
}

-- What an update can raise, and what it leaves.
update_task_lem :
    (t : Task) (d : TaskDict) (r : Result (Task × List (Option TaskState)))
    → d.uid ≡ t.uid
    → update_task t d ≡ r
    → (r ≡ raise value_error)
      ⊎ ((t' : Task) × (states : List (Option TaskState)) × (r ≡ ok (t', states))
          × IsUpdated t d t' states)
update_task_lem t d r u h = elim (update_task_total t d u) [
  | inl (c, e) ↦ inl (sym h ∙ e)
  | inr (t', states, e, up) ↦ inr (t', states, sym h ∙ e, up)
]

-- A task of a dictionary after updates: its state is the last one that the log tells, and it is not before
-- its old state nor before any state it was updated with.
pub record IsFollowed (u : ℕ) (t : Task) (ds : List TaskDict) (tasks : List (ℕ × Task))
    (log : TaskLog) : Type 0 where
  pub after : Task
  pub found : find u tasks ≡ some after
  pub last_told : after.state ≡ last_or t.state (log_of u log)
  pub not_back : task_state_value t.state ≤ℤ task_state_value after.state
  pub not_behind :
      All
        (λ (d : TaskDict). (d.uid ≢ u) ⊎ (task_state_value d.state ≤ℤ task_state_value after.state))
        ds

update_known-some :
    (tasks tasks1 : List (ℕ × Task)) (d : TaskDict) (td : Task) (log : TaskLog)
    → td.uid ≡ d.uid
    → update_known tasks d (some td) ≡ ok (tasks1, log)
    → (t1 : Task) × (states : List (Option TaskState)) × IsUpdated td d t1 states
      × (tasks1 ≡ put d.uid t1 tasks)
      × (log ≡ map (λ s. (d.uid, s)) states)
unfolding update_known
update_known-some tasks tasks1 d td log u h =
    let (r, e, g) = >>=-eq-ok (update_task td d) _ h in
    elim (update_task_lem td d (ok r) (sym u) e) [
      | inl f ↦ cc
      | inr (t1, states, f, up) ↦ let p : r ≡ (t1, states) = cc in (t1, states, up, cc, cc)
    ]

put-IsFollowed :
    (t t1 : Task) (d : TaskDict) (states : List (Option TaskState)) (tasks : List (ℕ × Task))
    → IsUpdated t d t1 states
    → IsFollowed d.uid t (d ∷ []) (put d.uid t1 tasks) (map (λ s. (d.uid, s)) states)
put-IsFollowed t t1 d states tasks up = record {
  after = t1;
  found = find-put_same d.uid t1 tasks;
  last_told = rw (log_of_same d.uid states) (up.last_shown);
  not_back = up.not_back;
  not_behind = (inr up.not_behind, tt);
}

untold-IsFollowed :
    (u : ℕ) (t : Task) (d : TaskDict) (log : TaskLog) (tasks : List (ℕ × Task))
    → d.uid ≢ u
    → log_of u log ≡ []
    → find u tasks ≡ some t
    → IsFollowed u t (d ∷ []) tasks log
unfolding last_or
untold-IsFollowed u t d log tasks apart untold e = record {
  after = t;
  found = e;
  last_told = rw untold refl;
  not_back = omega arith;
  not_behind = (inl apart, tt);
}

apart_of : (d u : ℕ) → (d == u) ≡ false → d ≢ u
apart_of d u h e = ground arith

update_known-IsFollowed :
    (tasks tasks1 : List (ℕ × Task)) (d : TaskDict) (log : TaskLog) (u : ℕ) (t : Task)
    (known : Option Task)
    → Named tasks
    → find d.uid tasks ≡ known
    → update_known tasks d known ≡ ok (tasks1, log)
    → find u tasks ≡ some t
    → Named tasks1 × IsFollowed u t (d ∷ []) tasks1 log
unfolding update_known log_of
update_known-IsFollowed tasks tasks1 d log u t none named e h f =
    let p : tasks ≡ tasks1 = cc in
    let q : [] ≡ log = cc in
    let apart : d.uid ≢ u =
      λ w. let z : find d.uid tasks ≡ find u tasks = ap (λ k. find k tasks) w in cc in
    rw (sym p, sym q) (named, untold-IsFollowed u t d [] tasks apart refl f)
update_known-IsFollowed tasks tasks1 d log u t (some td) named e h f =
    let own = find-Named d.uid tasks td named e in
    let (t1, states, up, p, q) = update_known-some tasks tasks1 d td log own h in
    let named1 = put-Named d.uid tasks t1 named (up.same_uid ∙ own) in
    elim (Bool-cases (d.uid == u)) [
      | inl w ↦
          let v : d.uid ≡ u = (==_iff d.uid u).0 w in
          let z : find d.uid tasks ≡ find u tasks = ap (λ k. find k tasks) v in
          let s : some td ≡ some t = cc in
          let s' : td ≡ t = cc in
          let mine : IsFollowed u td (d ∷ []) (put d.uid t1 tasks) (map (λ s. (d.uid, s)) states) =
            subst
              (λ k. IsFollowed k td (d ∷ []) (put d.uid t1 tasks) (map (λ s. (d.uid, s)) states)) v
              (put-IsFollowed td t1 d states tasks up) in
          rw (p, q, sym s') (named1, mine)
      | inr w ↦
          rw (p, q)
            (
              named1,
              untold-IsFollowed u t d _ _ (apart_of d.uid u w) (log_of_other u d.uid states w)
                  (find-put_other d.uid u t1 tasks w ∙ f),
            )
    ]

later :
    (u : ℕ) (d : TaskDict) (s s' : Option TaskState)
    → (d.uid ≢ u) ⊎ (task_state_value d.state ≤ℤ task_state_value s)
    → task_state_value s ≤ℤ task_state_value s'
    → (d.uid ≢ u) ⊎ (task_state_value d.state ≤ℤ task_state_value s')
later u d s s' (inl a) h = inl a
later u d s s' (inr a) h = inr (omega arith)

chain :
    (u : ℕ) (t : Task) (d : TaskDict) (ds : List TaskDict) (tasks1 : List (ℕ × Task))
    (log1 : TaskLog) (tasks2 : List (ℕ × Task)) (log2 : TaskLog)
    (first : IsFollowed u t (d ∷ []) tasks1 log1)
    → IsFollowed u first.after ds tasks2 log2
    → IsFollowed u t (d ∷ ds) tasks2 (log1 ++ log2)
chain u t d ds tasks1 log1 tasks2 log2 first next = record {
  after = next.after;
  found = next.found;
  last_told =
      next.last_told
      ∙ rw (first.last_told, log_of-append u log1 log2)
          (sym (last_or-append t.state (log_of u log1) (log_of u log2)));
  not_back = let a = first.not_back in let b = next.not_back in omega arith;
  not_behind = (
    later u d first.after.state next.after.state first.not_behind.0 next.not_back,
    next.not_behind,
  );
}

-- Each known task is followed through all updates, of known and unknown tasks in any order.
pub update_tasks-IsFollowed :
    (tasks tasks' : List (ℕ × Task)) (ds : List TaskDict) (log : TaskLog) (u : ℕ) (t : Task)
    → Named tasks
    → update_tasks tasks ds ≡ ok (tasks', log)
    → find u tasks ≡ some t
    → IsFollowed u t ds tasks' log
unfolding update_tasks log_of last_or
update_tasks-IsFollowed tasks tasks' [] log u t named h f =
    let p : tasks ≡ tasks' = cc in
    let q : [] ≡ log = cc in
    rw (sym p, sym q)
      (record { after = t; found = f; last_told = refl; not_back = omega arith; not_behind = tt })
update_tasks-IsFollowed tasks tasks' (d ∷ ds) log u t named h f =
    let (one, e, h') = >>=-eq-ok (update_known tasks d (find d.uid tasks)) _ h in
    let (rest, e', g) = >>=-eq-ok (update_tasks one.0 ds) _ h' in
    let (named1, first) =
      update_known-IsFollowed tasks one.0 d one.1 u t (find d.uid tasks) named refl e f in
    let next = update_tasks-IsFollowed one.0 rest.0 ds rest.1 u first.after named1 e' first.found in
    let p : rest.0 ≡ tasks' = cc in
    let q : one.1 ++ rest.1 ≡ log = cc in
    rw (sym p, sym q) (chain u t d ds one.0 one.1 rest.0 rest.1 first next)

update_known-Named :
    (tasks tasks1 : List (ℕ × Task)) (d : TaskDict) (log : TaskLog) (known : Option Task)
    → Named tasks
    → find d.uid tasks ≡ known
    → update_known tasks d known ≡ ok (tasks1, log)
    → Named tasks1
unfolding update_known
update_known-Named tasks tasks1 d log none named e h =
    let p : tasks ≡ tasks1 = cc in rw (sym p) named
update_known-Named tasks tasks1 d log (some td) named e h =
    let own = find-Named d.uid tasks td named e in
    let (t1, states, up, p, q) = update_known-some tasks tasks1 d td log own h in
    rw p (put-Named d.uid tasks t1 named (up.same_uid ∙ own))

update_known_error :
    (tasks : List (ℕ × Task)) (d : TaskDict) (e : Error) (known : Option Task)
    → Named tasks
    → find d.uid tasks ≡ known
    → update_known tasks d known ≡ raise e
    → e ≡ value_error
unfolding update_known
update_known_error tasks d e none named f h = cc
update_known_error tasks d e (some td) named f h =
    let own = find-Named d.uid tasks td named f in
    elim (>>=-eq-raise (update_task td d) _ h) [
      | inl g ↦ elim (update_task_lem td d (raise e) (sym own) g) [
        | inl k ↦ cc
        | inr (t1, states, k, up) ↦ cc
      ]
      | inr (r, g, k) ↦ cc
    ]

-- Known tasks are updated without another exception than a `ValueError`.
pub update_tasks_error :
    (tasks : List (ℕ × Task)) (ds : List TaskDict) (e : Error)
    → Named tasks
    → update_tasks tasks ds ≡ raise e
    → e ≡ value_error
unfolding update_tasks
update_tasks_error tasks [] e named h = cc
update_tasks_error tasks (d ∷ ds) e named h =
    elim (>>=-eq-raise (update_known tasks d (find d.uid tasks)) _ h) [
      | inl f ↦ update_known_error tasks d e (find d.uid tasks) named refl f
      | inr (one, f, h') ↦
          let named1 = update_known-Named tasks one.0 d one.1 (find d.uid tasks) named refl f in
          elim (>>=-eq-raise (update_tasks one.0 ds) _ h') [
            | inl g ↦ update_tasks_error one.0 ds e named1 g
            | inr (rest, g, k) ↦ cc
          ]
    ]
