-- ===== src/Api/Pilots/Updates.antt =====
-- One update of a pilot (src/radical/pilot: pilot.py, pilot_manager.py), where nothing is published, as in
-- the calls of `_update_pilot`.
use radical_pilot.Prelude.{
  ℕ, ◌≤ℤ◌, ≤ℤ_of_eq, true, false, ==_refl, same, same-eq, Bool-cases, List, [], ◌∷◌, Option, some,
  ok, raise, value_error, ◌≡◌, ◌⊎◌, inl, inr, refl, sym, ap, ◌∙◌, >>=-eq-ok, arith, find, put,
}
use radical_pilot.States.Pilot.{
  PilotState, pilot_state_value, pilot_state_progress, pilot_state_discrete,
}
use radical_pilot.States.Pilot.Order.{
  pilot_state_progress-Ascends, pilot_state_progress_ends, pilot_state_progress_latest,
}
use radical_pilot.States.Pilot.Refused.{contradicts, pilot_state_progress_refused}
use radical_pilot.States.Replay.{
  move_to, follow, shown, last_or, last_or-shown, last_passed, passed_ends, follow-shown,
}
use radical_pilot.Components.Advance.{publish_all, assign_state, drop_all, advance}
use radical_pilot.Api.Pilots.{
  Pilot, PilotDict, Call, unchecked, update, first_thing, advance_dict, replay, update_known,
  update_found, update_pilot,
}

update-move_to :
    (p : Pilot) (d : PilotDict) (s : Option PilotState)
    → d.uid ≡ p.uid
    → move_to pilot_state_value unchecked p.state d.state ≡ ok s
    → update p d ≡ ok (record { uid = p.uid; state = s; pilot_dict = d })
unfolding update
update-move_to p d s u h = rw (u, ==_refl p.uid, h) refl

-- An advance that does not publish returns, and keeps the uid.
advance_dict_total :
    (c : Call) (d : PilotDict) (s : Option PilotState)
    → c.publish ≡ false
    → (d' : PilotDict) × (advance_dict c d s ≡ ok d') × (d'.uid ≡ d.uid)
unfolding advance_dict advance publish_all first_thing assign_state drop_all
advance_dict_total c d s quiet = elim (Bool-cases c.advances) [
  | inl e ↦ rw (e, quiet) (_, refl, refl)
  | inr e ↦ rw e (d, refl, refl)
]

replay-follow :
    (c : Call) (p : Pilot) (d : PilotDict) (passed : List (Option PilotState))
    (s : Option PilotState)
    → c.publish ≡ false
    → d.uid ≡ p.uid
    → follow pilot_state_value unchecked p.state passed ≡ ok s
    → (p' : Pilot) × (replay c p d passed ≡ ok p') × (p'.uid ≡ p.uid) × (p'.state ≡ s)
unfolding replay follow
replay-follow c p d [] s quiet u h = (p, refl, refl, cc)
replay-follow c p d (x ∷ passed) s quiet u h =
    let (s1, e, h') = >>=-eq-ok (move_to pilot_state_value unchecked p.state x) _ h in
    let d1 : PilotDict = record d { state = x } in
    let p1 : Pilot = record { uid = p.uid; state = s1; pilot_dict = d1 } in
    let (d2, f, v) = advance_dict_total c d1 x quiet in
    let (p', g, w, z) = replay-follow c p1 d2 passed s quiet (v ∙ u) h' in
    rw (update-move_to p d1 s1 u e, f) (p', g, w, z)

-- The pilot after an update: its uid, the last of the states shown, and the later of the two states.
pub record IsUpdated (p : Pilot) (d : PilotDict) (p' : Pilot) (states : List (Option PilotState))
    : Type 0 where
  pub same_uid : p'.uid ≡ p.uid
  pub last_shown : p'.state ≡ last_or p.state states
  pub not_back : pilot_state_value p.state ≤ℤ pilot_state_value p'.state
  pub not_behind : pilot_state_value d.state ≤ℤ pilot_state_value p'.state
  pub one_of : (p'.state ≡ p.state) ⊎ (p'.state ≡ d.state)

update_known_progress :
    (c : Call) (p : Pilot) (d : PilotDict) (n : Option PilotState)
    (passed : List (Option PilotState))
    → c.publish ≡ false
    → d.uid ≡ p.uid
    → same pilot_state_discrete p.state d.state ≡ false
    → pilot_state_progress p.state d.state ≡ ok (n, passed)
    → (p' : Pilot) × (update_known c p d ≡ ok (p', shown pilot_state_value unchecked n passed))
      × IsUpdated p d p' (shown pilot_state_value unchecked n passed)
unfolding update_known
update_known_progress c p d n passed quiet u e h =
    let ends =
      passed_ends pilot_state_value pilot_state_progress pilot_state_progress_ends p.state d.state n
        passed h in
    let taken =
      follow-shown pilot_state_value unchecked p.state n passed
        (pilot_state_progress-Ascends p.state d.state n passed h) ends in
    let (p', f, v, w) = replay-follow c p d _ _ quiet u taken in
    let (low, high, one) =
      last_passed pilot_state_value pilot_state_progress pilot_state_progress_latest
        pilot_state_progress_ends p.state d.state n passed h in
    (
      p',
      rw (e, h, f) refl,
      record {
        same_uid = v;
        last_shown = w ∙ sym (last_or-shown pilot_state_value unchecked p.state n passed);
        not_back = rw w low;
        not_behind = rw w high;
        one_of = rw w one;
      },
    )

update_known_total :
    (c : Call) (p : Pilot) (d : PilotDict)
    → c.publish ≡ false
    → d.uid ≡ p.uid
    → (contradicts p.state d.state ≡ true) × (update_known c p d ≡ raise value_error)
      ⊎ ((p' : Pilot) × (states : List (Option PilotState)) × (update_known c p d ≡ ok (p', states))
          × IsUpdated p d p' states)
unfolding update_known last_or
update_known_total c p d quiet u = elim (Bool-cases (same pilot_state_discrete p.state d.state)) [
  | inl e ↦
      let q : p.state ≡ d.state = same-eq pilot_state_discrete p.state d.state e in
      inr (
        p,
        [],
        rw e refl,
        record {
          same_uid = refl;
          last_shown = refl;
          not_back = omega arith;
          not_behind = (≤ℤ_of_eq (ap pilot_state_value q)).1;
          one_of = inl refl;
        },
      )
  | inr e ↦ elim (pilot_state_progress_refused p.state d.state) [
    | inl (k, f) ↦ inl (k, rw (e, f) refl)
    | inr (k, r) ↦
        let ((n, passed), f) = r in
        let (p', g, up) = update_known_progress c p d n passed quiet u e f in inr (p', _, g, up)
  ]
]

-- An update of a known pilot, kept by its uid, raises a `ValueError` where the states are final ones that
-- contradict, and in no other case; otherwise the pilot is replaced by one with the later state.
pub update_pilot_total :
    (c : Call) (pilots : List (ℕ × Pilot)) (p : Pilot) (d : PilotDict)
    → c.publish ≡ false
    → find d.uid pilots ≡ some p
    → d.uid ≡ p.uid
    → (contradicts p.state d.state ≡ true) × (update_pilot c pilots d ≡ raise value_error)
      ⊎ ((p' : Pilot) × (states : List (Option PilotState)) × (update_pilot c pilots d
            ≡ ok (put d.uid p' pilots, states))
          × IsUpdated p d p' states)
unfolding update_pilot update_found
update_pilot_total c pilots p d quiet known u = elim (update_known_total c p d quiet u) [
  | inl (k, f) ↦ inl (k, rw (known, f) refl)
  | inr (p', states, f, up) ↦ inr (p', states, rw (known, f) refl, up)
]
