-- ===== src/Api/Tasks/Updates.antt =====
-- One update of a task (src/radical/pilot: `Task._update` of task.py in the loop of `_update_tasks` of
-- task_manager.py).
use radical_pilot.Prelude.{
  ◌≤ℤ◌, ≤ℤ_of_eq, true, false, ==_refl, same, same-eq, Bool-cases, List, [], ◌∷◌, Option, ok, raise,
  value_error, ◌≡◌, ◌⊎◌, inl, inr, refl, sym, ap, ◌∙◌, >>=-eq-ok, arith,
}
use radical_pilot.States.Task.{
  TaskState, task_state_value, task_state_progress, task_state_discrete,
}
use radical_pilot.States.Task.Order.{
  task_state_progress-Ascends, task_state_progress_ends, task_state_progress_latest,
}
use radical_pilot.States.Task.Refused.{contradicts, task_state_progress_refused}
use radical_pilot.States.Replay.{
  move_to, follow, shown, last_or, last_or-shown, last_passed, passed_ends, follow-shown,
}
use radical_pilot.Api.Tasks.{Task, TaskDict, unchecked, set_fields, update, replay, update_task}

update-move_to :
    (t : Task) (d : TaskDict) (s : Option TaskState)
    → d.uid ≡ t.uid
    → move_to task_state_value unchecked t.state d.state ≡ ok s
    → update t d ≡ ok (record { uid = t.uid; state = s; fields = set_fields d.fields t.fields })
unfolding update
update-move_to t d s u h = rw (u, ==_refl t.uid, h) refl

-- A replay takes the states that `follow` takes.
replay-follow :
    (t : Task) (d : TaskDict) (passed : List (Option TaskState)) (s : Option TaskState)
    → d.uid ≡ t.uid
    → follow task_state_value unchecked t.state passed ≡ ok s
    → (t' : Task) × (replay t d passed ≡ ok t') × (t'.uid ≡ t.uid) × (t'.state ≡ s)
unfolding replay follow
replay-follow t d [] s u h = (t, refl, refl, cc)
replay-follow t d (x ∷ passed) s u h =
    let (s1, e, h') = >>=-eq-ok (move_to task_state_value unchecked t.state x) _ h in
    let t1 : Task = record { uid = t.uid; state = s1; fields = set_fields d.fields t.fields } in
    let (t', f, v, w) = replay-follow t1 d passed s u h' in
    rw (update-move_to t (record d { state = x }) s1 u e) (t', f, v, w)

-- The task after an update: its uid, the last of the states shown, and the later of the two states.
pub record IsUpdated (t : Task) (d : TaskDict) (t' : Task) (states : List (Option TaskState))
    : Type 0 where
  pub same_uid : t'.uid ≡ t.uid
  pub last_shown : t'.state ≡ last_or t.state states
  pub not_back : task_state_value t.state ≤ℤ task_state_value t'.state
  pub not_behind : task_state_value d.state ≤ℤ task_state_value t'.state
  pub one_of : (t'.state ≡ t.state) ⊎ (t'.state ≡ d.state)

update_task_progress :
    (t : Task) (d : TaskDict) (n : Option TaskState) (passed : List (Option TaskState))
    → d.uid ≡ t.uid
    → same task_state_discrete t.state d.state ≡ false
    → task_state_progress t.state d.state ≡ ok (n, passed)
    → (t' : Task) × (update_task t d ≡ ok (t', shown task_state_value unchecked n passed))
      × IsUpdated t d t' (shown task_state_value unchecked n passed)
unfolding update_task
update_task_progress t d n passed u e h =
    let taken =
      follow-shown task_state_value unchecked t.state n passed
        (task_state_progress-Ascends t.state d.state n passed h)
        (passed_ends task_state_value task_state_progress task_state_progress_ends t.state d.state n
          passed h) in
    let (t', f, v, w) = replay-follow t d _ _ u taken in
    let (low, high, one) =
      last_passed task_state_value task_state_progress task_state_progress_latest
        task_state_progress_ends t.state d.state n passed h in
    (
      t',
      rw (e, h, f) refl,
      record {
        same_uid = v;
        last_shown = w ∙ sym (last_or-shown task_state_value unchecked t.state n passed);
        not_back = rw w low;
        not_behind = rw w high;
        one_of = rw w one;
      },
    )

-- An update raises a `ValueError` where the states are final ones that contradict, and in no other case;
-- otherwise the task has the later state.
pub update_task_total :
    (t : Task) (d : TaskDict)
    → d.uid ≡ t.uid
    → (contradicts t.state d.state ≡ true) × (update_task t d ≡ raise value_error)
      ⊎ ((t' : Task) × (states : List (Option TaskState)) × (update_task t d ≡ ok (t', states))
          × IsUpdated t d t' states)
unfolding update_task last_or
update_task_total t d u = elim (Bool-cases (same task_state_discrete t.state d.state)) [
  | inl e ↦
      let p : t.state ≡ d.state = same-eq task_state_discrete t.state d.state e in
      inr (
        t,
        [],
        rw e refl,
        record {
          same_uid = refl;
          last_shown = refl;
          not_back = omega arith;
          not_behind = (≤ℤ_of_eq (ap task_state_value p)).1;
          one_of = inl refl;
        },
      )
  | inr e ↦ elim (task_state_progress_refused t.state d.state) [
    | inl (c, f) ↦ inl (c, rw (e, f) refl)
    | inr (c, r) ↦
        let ((n, passed), f) = r in
        let (t', g, up) = update_task_progress t d n passed u e f in inr (t', _, g, up)
  ]
]
