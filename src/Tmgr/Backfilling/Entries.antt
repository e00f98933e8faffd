-- ===== src/Tmgr/Backfilling/Entries.antt =====
-- The entries of the pilots under the loops of src/radical/pilot/tmgr/scheduler/base.py and of
-- `add_pilots` in backfilling.py.
use radical_pilot.Prelude.{
  ℕ, ◌≡◌, subst, Bool-cases, Bool, inl, inr, List, [], ◌∷◌, Option, none, some, ok, >>=-eq-ok,
  Values, Holds, find, put, find-Holds, put-Values, arith,
}
use radical_pilot.States.Pilot.{pilot_state_progress}
use radical_pilot.Tmgr.Base.{
  added, removed, is_added, Pilot, Entry, add_roles, remove_roles, update_pilot_state,
  update_pilot_states, entry_or_new,
}
use radical_pilot.Tmgr.Backfilling.{Settings, add_infos, with_info, add_info_of, add_info}
use radical_pilot.Tmgr.Backfilling.Bounds.{EntryFits}

entry_or_new-Fits :
    (c : ℕ) (o : Option Entry) → Holds (EntryFits c) o → EntryFits c (entry_or_new o)
entry_or_new-Fits c none h = tt
entry_or_new-Fits c (some e) h = h

-- The entry that stands for a pilot fits.
known-Fits :
    (c pid : ℕ) (ps : List (ℕ × Entry))
    → Values (EntryFits c) ps
    → EntryFits c (entry_or_new (find pid ps))
known-Fits c pid ps h = entry_or_new-Fits c (find pid ps) (find-Holds (EntryFits c) pid ps h)

update_pilot_state-Fits :
    (c : ℕ) (pilot : Pilot) (ps : List (ℕ × Entry)) (res : List (ℕ × Entry) × Bool)
    → Values (EntryFits c) ps
    → update_pilot_state pilot ps ≡ ok res
    → Values (EntryFits c) res.0
unfolding update_pilot_state
update_pilot_state-Fits c pilot ps res h eq =
    let entry = entry_or_new (find pilot.uid ps) in
    let ((target, passed), e, eq') =
      >>=-eq-ok (pilot_state_progress entry.state (some pilot.state)) _ eq in
    let same : put pilot.uid (record entry { state = target }) ps ≡ res.0 = cc in
    rw same at (
      put-Values (EntryFits c) pilot.uid (record entry { state = target }) ps
        (known-Fits c pilot.uid ps h) h)

pub update_pilot_states-Fits :
    (c : ℕ) (pilots : List Pilot) (ps : List (ℕ × Entry)) (res : List (ℕ × Entry) × List ℕ)
    → Values (EntryFits c) ps
    → update_pilot_states pilots ps ≡ ok res
    → Values (EntryFits c) res.0
unfolding update_pilot_states
update_pilot_states-Fits c [] ps res h eq = let same : ps ≡ res.0 = cc in rw same at h
update_pilot_states-Fits c (pilot ∷ pilots) ps res h eq =
    let ((ps', changed), e, eq') = >>=-eq-ok (update_pilot_state pilot ps) _ eq in
    let ((qs, rest), f, eq'') = >>=-eq-ok (update_pilot_states pilots ps') _ eq' in
    let same : qs ≡ res.0 = cc in
    rw same at (
      update_pilot_states-Fits c pilots ps' (qs, rest)
        (update_pilot_state-Fits c pilot ps (ps', changed) h e) f)

pub add_roles-Fits :
    (c : ℕ) (pilots : List Pilot) (ps qs : List (ℕ × Entry))
    → Values (EntryFits c) ps
    → add_roles pilots ps ≡ ok qs
    → Values (EntryFits c) qs
unfolding add_roles
add_roles-Fits c [] ps qs h eq = let same : ps ≡ qs = cc in rw same at h
add_roles-Fits c (pilot ∷ pilots) ps qs h eq =
    let entry = entry_or_new (find pilot.uid ps) in
    let entry' : Entry = record entry { role = some added; pilot = some pilot } in
    elim (Bool-cases (is_added entry.role)) [
      | inl t ↦ let e = rw t at eq in cc
      | inr t ↦
          add_roles-Fits c pilots (put pilot.uid entry' ps) qs
            (put-Values (EntryFits c) pilot.uid entry' ps (known-Fits c pilot.uid ps h) h)
            (rw t at eq)
    ]

pub remove_roles-Fits :
    (c : ℕ) (pids : List ℕ) (ps qs : List (ℕ × Entry))
    → Values (EntryFits c) ps
    → remove_roles pids ps ≡ ok qs
    → Values (EntryFits c) qs
unfolding remove_roles
remove_roles-Fits c [] ps qs h eq = let same : ps ≡ qs = cc in rw same at h
remove_roles-Fits c (pid ∷ pids) ps qs h eq =
    let entry = entry_or_new (find pid ps) in
    let entry' : Entry = record entry { role = some removed } in
    elim (Bool-cases (is_added entry.role)) [
      | inl t ↦
          remove_roles-Fits c pids (put pid entry' ps) qs
            (put-Values (EntryFits c) pid entry' ps (known-Fits c pid ps h) h) (rw t at eq)
      | inr t ↦ let e = rw t at eq in cc
    ]

add_info_of-Fits :
    (cfg : Settings) (c : ℕ) (e : Entry) (o : Option Pilot) (e' : Entry)
    → add_info_of cfg e o ≡ ok e'
    → EntryFits c e'
add_info_of-Fits cfg c e none e' eq = cc
add_info_of-Fits cfg c e (some p) e' eq =
    let same : with_info cfg e p ≡ e' = cc in
    let fresh : EntryFits c (with_info cfg e p) = (omega arith, omega arith) in
    subst (EntryFits c) same fresh

add_info-Fits :
    (cfg : Settings) (c : ℕ) (o : Option Entry) (e' : Entry)
    → add_info cfg o ≡ ok e'
    → EntryFits c e'
add_info-Fits cfg c none e' eq = cc
add_info-Fits cfg c (some e) e' eq = add_info_of-Fits cfg c e (e.pilot) e' eq

pub add_infos-Fits :
    (cfg : Settings) (c : ℕ) (pids : List ℕ) (ps qs : List (ℕ × Entry))
    → Values (EntryFits c) ps
    → add_infos cfg pids ps ≡ ok qs
    → Values (EntryFits c) qs
unfolding add_infos
add_infos-Fits cfg c [] ps qs h eq = let same : ps ≡ qs = cc in rw same at h
add_infos-Fits cfg c (pid ∷ pids) ps qs h eq =
    let (e, got, eq') = >>=-eq-ok (add_info cfg (find pid ps)) _ eq in
    add_infos-Fits cfg c pids (put pid e ps) qs
      (put-Values (EntryFits c) pid e ps (add_info-Fits cfg c (find pid ps) e got) h) eq'
