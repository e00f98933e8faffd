-- ===== src/Api/Pilots.antt =====
-- The updates of pilots: `Pilot._update` of src/radical/pilot/pilot.py and `PilotManager._update_pilot` of
-- src/radical/pilot/pilot_manager.py. A pilot is kept by its uid. The callbacks of the application are left
-- out, and the states that they see are returned with what is advanced.
pub mod Updates
use radical_pilot.Prelude.{
  ℕ, Bool, true, false, ◌||◌, ◌==◌, same, if◌then◌else◌, List, [], ◌∷◌, ◌++◌, Option, none, some,
  Result, ok, guard, assertion_error, ◌>>=◌, ◌>>◌, find, put,
}
use radical_pilot.States.Pilot.{
  PilotState, pilot_state_value, pilot_state_progress, is_failed, is_canceled, is_final,
  pilot_state_discrete,
}
use radical_pilot.States.Replay.{move_to, shown}
use radical_pilot.Components.Advance.{Thing, Advanced, Routes, advance}

abbrev pub PilotDict : Type 0
PilotDict = Thing (Option PilotState)

-- A `Pilot`, with the last description that it was updated with.
pub record Pilot : Type 0 where
  pub uid : ℕ
  pub state : Option PilotState
  pub pilot_dict : PilotDict

-- `in [rps.FAILED, rps.CANCELED]`
abbrev pub unchecked : Option PilotState → Bool
unchecked s = is_failed s || is_canceled s

-- `_update`
unfoldable pub update : Pilot → PilotDict → Result Pilot
update p d = do
  guard (d.uid == p.uid) assertion_error
  s ← move_to pilot_state_value unchecked p.state d.state
  ok (record { uid = p.uid; state = s; pilot_dict = d })

-- How `_update_pilot` is called: whether it advances the pilot, and whether it publishes that.
pub record Call : Type 0 where
  pub routes : Routes (Option PilotState)
  pub publish : Bool
  pub advances : Bool

-- The description as `advance` leaves it
unfoldable pub first_thing : PilotDict → List PilotDict → PilotDict
first_thing d [] = d
first_thing d (x ∷ xs) = x

-- `if advance: self.advance(pilot_dict, s, publish=publish, push=False)`
unfoldable pub advance_dict : Call → PilotDict → Option PilotState → Result PilotDict
advance_dict c d s =
    if c.advances
    then (advance is_final pilot_state_discrete c.routes (d ∷ []) (some s) c.publish false
        >>= λ batch. ok (first_thing d batch.things))
    else ok d

-- `for s in passed`
unfoldable pub replay : Call → Pilot → PilotDict → List (Option PilotState) → Result Pilot
replay c p d [] = ok p
replay c p d (s ∷ passed) = do
  p' ← update p (record d { state = s })
  d' ← advance_dict c (record d { state = s }) s
  replay c p' d' passed

-- The update of a pilot that is known: the pilot, and the states shown.
unfoldable pub update_known : Call → Pilot → PilotDict → Result (Pilot × List (Option PilotState))
update_known c p d =
    if same pilot_state_discrete p.state d.state
    then ok (p, [])
    else (pilot_state_progress p.state d.state >>= λ next.
        replay c p d (shown pilot_state_value unchecked next.0 next.1) >>= λ p'.
        ok (p', shown pilot_state_value unchecked next.0 next.1))

unfoldable pub update_found :
    Call
    → List (ℕ × Pilot)
    → PilotDict
    → Option Pilot
    → Result (List (ℕ × Pilot) × List (Option PilotState))
update_found c pilots d none = ok (pilots, [])
update_found c pilots d (some p) = do r ← update_known c p d; ok (put d.uid r.0 pilots, r.1)

-- `_update_pilot`
unfoldable pub update_pilot :
    Call → List (ℕ × Pilot) → PilotDict → Result (List (ℕ × Pilot) × List (Option PilotState))
update_pilot c pilots d = update_found c pilots d (find d.uid pilots)
