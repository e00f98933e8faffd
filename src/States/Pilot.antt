-- ===== src/States/Pilot.antt =====
-- The pilot state model of src/radical/pilot/states.py.
pub mod Order
pub mod Refused
pub mod Collapse
use radical_pilot.Prelude.{
  ℤ, pos, negsuc, Bool, true, false, not, ◌&&◌, ◌||◌, ◌==◌, if◌then◌else◌, List, [], ◌∷◌, Option,
  none, some, Result, ok, raise, value_error, key_error, ltb_ℤ,
}
use radical_pilot.States.Passed.{move_on}
use radical_pilot.States.Highest.{any_state, highest}

pub data PilotState : Type 0 where
  new pmgr_launching_pending pmgr_launching pmgr_active_pending pmgr_active : PilotState
  done failed canceled : PilotState

-- `a == b` for states
unfoldable pub pilot_state_discrete : Discrete (Option PilotState)
pilot_state_discrete = hlevel

-- `_pilot_state_values`; the key `None` is `none`.
unfoldable pub pilot_state_value : Option PilotState → ℤ
pilot_state_value none = negsuc 0
pilot_state_value (some new) = pos 0
pilot_state_value (some pmgr_launching_pending) = pos 1
pilot_state_value (some pmgr_launching) = pos 2
pilot_state_value (some pmgr_active_pending) = pos 3
pilot_state_value (some pmgr_active) = pos 4
pilot_state_value (some done) = pos 5
pilot_state_value (some failed) = pos 5
pilot_state_value (some canceled) = pos 5

-- `_pilot_state_inv`: of the states with one value the last one stays; `raise` is a `KeyError`.
unfoldable pub pilot_state_inv : ℤ → Result (Option PilotState)
pilot_state_inv (negsuc n) = if n == 0 then ok none else raise key_error
pilot_state_inv (pos n) =
    if n == 0
    then ok (some new)
    else if n == 1
    then ok (some pmgr_launching_pending)
    else if n == 2
    then ok (some pmgr_launching)
    else if n == 3
    then ok (some pmgr_active_pending)
    else if n == 4
    then ok (some pmgr_active)
    else if n == 5
    then ok (some canceled)
    else raise key_error

abbrev pub is_done : Option PilotState → Bool
is_done (some done) = true
is_done _ = false

abbrev pub is_failed : Option PilotState → Bool
is_failed (some failed) = true
is_failed _ = false

abbrev pub is_canceled : Option PilotState → Bool
is_canceled (some canceled) = true
is_canceled _ = false

-- `state in FINAL`
abbrev pub is_final : Option PilotState → Bool
is_final s = is_done s || is_failed s || is_canceled s

-- `target != current`, for two final states
abbrev same_final : Option PilotState → Option PilotState → Bool
same_final s t =
    is_done s && is_done t || is_failed s && is_failed t || is_canceled s && is_canceled t

-- `_pilot_state_progress`: the new state and the states passed on the way.
unfoldable pub pilot_state_progress :
    Option PilotState → Option PilotState → Result (Option PilotState × List (Option PilotState))
pilot_state_progress current target =
    if is_canceled current && is_final target
    then ok (target, [])
    else if is_failed current && (is_done target || is_failed target)
    then ok (target, [])
    else if is_final current && not (same_final current target) && is_final target
    then raise value_error
    else move_on pilot_state_value pilot_state_inv current target

-- `_pilot_state_collapse`
unfoldable pub pilot_state_collapse : List PilotState → Option PilotState
pilot_state_collapse states =
    if any_state is_done states
    then some done
    else if any_state is_failed states
    then some failed
    else if any_state is_canceled states
    then some canceled
    else highest pilot_state_value none states
