-- ===== src/Tmgr/Backfilling/Commands.antt =====
-- The callbacks of src/radical/pilot/tmgr/scheduler/base.py over the backfilling scheduler.
use radical_pilot.Prelude.{ℕ, ◌≡◌, List, [], ◌∷◌, ◌++◌, map, ok, >>=-eq-ok, find}
use radical_pilot.Tmgr.Base.{
  Pilot, Task, Sandboxes, assign_pilot, add_roles, remove_roles, update_pilot_states,
}
use radical_pilot.Tmgr.Backfilling.{
  Settings, Backfilling, add_infos, add_pilots, remove_pids, remove_pilots,
}
use radical_pilot.Tmgr.Backfilling.Updates.{
  with_pilots, early_tasks, notify_pilots, pilots_changed, assign_early, release_early, add_command,
  remove_command,
}
use radical_pilot.Tmgr.Backfilling.Bounds.{IsBounded, schedule_tasks-IsBounded, assign_pilot-pilots}
use radical_pilot.Tmgr.Backfilling.Steps.{
  with_pilots-IsBounded, same-IsBounded, update_pilots-IsBounded,
}
use radical_pilot.Tmgr.Backfilling.Entries.{
  update_pilot_states-Fits, add_roles-Fits, remove_roles-Fits, add_infos-Fits,
}

notify_pilots-IsBounded :
    (cfg : Settings) (sandboxes : Sandboxes) (c : ℕ) (pids : List ℕ) (s s' : Backfilling)
    → IsBounded c s
    → notify_pilots cfg sandboxes pids s ≡ ok s'
    → IsBounded c s'
unfolding notify_pilots
notify_pilots-IsBounded cfg sandboxes c [] s s' h eq = same-IsBounded c s s' h eq
notify_pilots-IsBounded cfg sandboxes c (pid ∷ pids) s s' h eq =
    update_pilots-IsBounded cfg sandboxes c (pid ∷ pids) s s' h eq

pub pilots_changed-IsBounded :
    (cfg : Settings) (sandboxes : Sandboxes) (c : ℕ) (pilots : List Pilot) (s s' : Backfilling)
    → IsBounded c s
    → pilots_changed cfg sandboxes pilots s ≡ ok s'
    → IsBounded c s'
unfolding pilots_changed
pilots_changed-IsBounded cfg sandboxes c pilots s s' h eq =
    let ((ps, changed), e, eq') = >>=-eq-ok (update_pilot_states pilots s.base.pilots) _ eq in
    let fits = update_pilot_states-Fits c pilots s.base.pilots (ps, changed) h.fits e in
    notify_pilots-IsBounded cfg sandboxes c changed (with_pilots s ps) s'
      (with_pilots-IsBounded c s ps fits h) eq'

assign_early-IsBounded :
    (sandboxes : Sandboxes) (c : ℕ) (pilot : Pilot) (tasks : List Task) (s s' : Backfilling)
    → IsBounded c s
    → assign_early sandboxes pilot tasks s ≡ ok s'
    → IsBounded c s'
unfolding assign_early
assign_early-IsBounded sandboxes c pilot [] s s' h eq = same-IsBounded c s s' h eq
assign_early-IsBounded sandboxes c pilot (task ∷ tasks) s s' h eq =
    let ((task', b), e, eq') = >>=-eq-ok (assign_pilot sandboxes pilot task s.base) _ eq in
    let kept = assign_pilot-pilots sandboxes pilot task task' s.base b e in
    assign_early-IsBounded sandboxes c pilot tasks
      (record s { base = b; advanced = s.advanced ++ task' ∷ [] }) s'
      (record { fits = rw kept (h.fits); small = h.small }) eq'

release_early-IsBounded :
    (sandboxes : Sandboxes) (c : ℕ) (pilots : List Pilot) (s s' : Backfilling)
    → IsBounded c s
    → release_early sandboxes pilots s ≡ ok s'
    → IsBounded c s'
unfolding release_early
release_early-IsBounded sandboxes c [] s s' h eq = same-IsBounded c s s' h eq
release_early-IsBounded sandboxes c (pilot ∷ pilots) s s' h eq =
    let tasks = early_tasks (find pilot.uid s.base.early) in
    let (s1, e, eq') = >>=-eq-ok (assign_early sandboxes pilot tasks s) _ eq in
    release_early-IsBounded sandboxes c pilots s1 s'
      (assign_early-IsBounded sandboxes c pilot tasks s s1 h e) eq'

add_pilots-IsBounded :
    (cfg : Settings) (sandboxes : Sandboxes) (c : ℕ) (pids : List ℕ) (s s' : Backfilling)
    → IsBounded c s
    → add_pilots cfg sandboxes pids s ≡ ok s'
    → IsBounded c s'
unfolding add_pilots
add_pilots-IsBounded cfg sandboxes c pids s s' h eq =
    let (ps, e, eq') = >>=-eq-ok (add_infos cfg pids s.base.pilots) _ eq in
    schedule_tasks-IsBounded cfg sandboxes c _ s'
      (record { fits = add_infos-Fits cfg c pids s.base.pilots ps h.fits e; small = h.small }) eq'

pub add_command-IsBounded :
    (cfg : Settings) (sandboxes : Sandboxes) (c : ℕ) (pilots : List Pilot) (s s' : Backfilling)
    → IsBounded c s
    → add_command cfg sandboxes pilots s ≡ ok s'
    → IsBounded c s'
unfolding add_command
add_command-IsBounded cfg sandboxes c pilots s s' h eq =
    let (ps, e, eq1) = >>=-eq-ok (add_roles pilots s.base.pilots) _ eq in
    let (s1, f, eq2) = >>=-eq-ok (pilots_changed cfg sandboxes pilots (with_pilots s ps)) _ eq1 in
    let (s2, g, eq3) = >>=-eq-ok (release_early sandboxes pilots s1) _ eq2 in
    let known =
      with_pilots-IsBounded c s ps (add_roles-Fits c pilots s.base.pilots ps h.fits e) h in
    let changed = pilots_changed-IsBounded cfg sandboxes c pilots (with_pilots s ps) s1 known f in
    let released = release_early-IsBounded sandboxes c pilots s1 s2 changed g in
    add_pilots-IsBounded cfg sandboxes c (map (λ (p : Pilot). p.uid) pilots) s2 s' released eq3

pub remove_command-IsBounded :
    (c : ℕ) (pids : List ℕ) (s s' : Backfilling)
    → IsBounded c s
    → remove_command pids s ≡ ok s'
    → IsBounded c s'
unfolding remove_command remove_pilots
remove_command-IsBounded c pids s s' h eq =
    let (ps, e, eq1) = >>=-eq-ok (remove_roles pids s.base.pilots) _ eq in
    let (known, f, eq2) = >>=-eq-ok (remove_pids pids s.pids) _ eq1 in
    same-IsBounded c (record (with_pilots s ps) { pids = known }) s'
      (record { fits = remove_roles-Fits c pids s.base.pilots ps h.fits e; small = h.small }) eq2
