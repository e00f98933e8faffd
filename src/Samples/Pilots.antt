-- ===== src/Samples/Pilots.antt =====
-- Runs of the updates of pilots (src/radical/pilot: pilot.py, pilot_manager.py).
use radical_pilot.Prelude.{
  ℕ, ◌+ℤ◌, ◌-ℤ◌, range, true, false, ◌≡◌, ◌⊎◌, refl, List, [], ◌∷◌, Option, none, some, ok, raise,
  value_error, find, put,
}
use radical_pilot.States.Passed.{move_on, look_up}
use radical_pilot.States.Replay.{move_to, shown, last_one}
use radical_pilot.States.Pilot.{
  PilotState, new, pmgr_launching_pending, pmgr_launching, pilot_state_value, pilot_state_inv,
  pilot_state_progress, pilot_state_discrete,
}
use radical_pilot.States.Pilot.Refused.{contradicts}
use radical_pilot.Components.Advance.{pilot, publish_all, assign_state, drop_all, advance}
use radical_pilot.Api.Pilots.{
  Pilot, PilotDict, Call, update, first_thing, advance_dict, replay, update_known, update_found,
  update_pilot,
}
use radical_pilot.Api.Pilots.Updates.{IsUpdated, update_pilot_total}

abbrev dict : Option PilotState → PilotDict
dict s = record { uid = 1; type = pilot; state = s; all = false; set = none; fields = [] }

abbrev fresh : Pilot
fresh = record { uid = 1; state = some new; pilot_dict = dict (some new) }

abbrev no_route : Option PilotState → Option (Option ℕ)
no_route s = none

abbrev quietly : Call
quietly = record {
  routes = record { outputs = no_route; publisher = true };
  publish = false;
  advances = true;
}

abbrev launching : Pilot
launching = record { uid = 1; state = some pmgr_launching; pilot_dict = dict (some pmgr_launching) }

-- An update that skips a state shows both.
skips :
    update_pilot quietly ((1, fresh) ∷ []) (dict (some pmgr_launching))
    ≡ ok ((1, launching) ∷ [], some pmgr_launching_pending ∷ some pmgr_launching ∷ [])
unfolding update_pilot update_found update_known replay update advance_dict first_thing advance
    publish_all assign_state drop_all find put shown last_one move_to pilot_state_discrete
    pilot_state_progress move_on look_up range ◌+ℤ◌ ◌-ℤ◌ pilot_state_value pilot_state_inv
skips = refl

update_pilot_total_example :
    (contradicts (some new) (some pmgr_launching) ≡ true)
      × (update_pilot quietly ((1, fresh) ∷ []) (dict (some pmgr_launching)) ≡ raise value_error)
    ⊎ ((p' : Pilot) × (states : List (Option PilotState)) × (update_pilot quietly
            ((1, fresh) ∷ [])
            (dict (some pmgr_launching))
          ≡ ok (put 1 p' ((1, fresh) ∷ []), states))
        × IsUpdated fresh (dict (some pmgr_launching)) p' states)
update_pilot_total_example =
    update_pilot_total quietly ((1, fresh) ∷ []) fresh (dict (some pmgr_launching)) refl
      (unfold find in refl) refl
