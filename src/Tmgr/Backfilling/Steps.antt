-- ===== src/Tmgr/Backfilling/Steps.antt =====
-- The load of the pilots over all that the backfilling scheduler (backfilling.py) is told.
use radical_pilot.Prelude.{
  ℕ, ◌≤◌, ◌≡◌, pos, ◌≤ℤ◌, -ℤ_parts, ltb_ℤ, Bool-cases, Bool, false, inl, inr, List, [], ◌∷◌, Option,
  none, some, ok, >>=-eq-ok, Values, Holds, find, find-Holds, put-Values, arith, ◌==◌,
}
use radical_pilot.Tmgr.Base.{Info, Entry, Task, task_cores, Sandboxes}
use radical_pilot.Tmgr.Backfilling.{Settings, Backfilling, work, wait_for, wait_for_all}
use radical_pilot.Tmgr.Backfilling.Updates.{
  Report, discharge, discharged, store, report_info, report_of, report_on, report_task,
  report_tasks, with_pilots, update_tasks, any_in_window, update_pilots,
}
use radical_pilot.Tmgr.Backfilling.Bounds.{
  InfoFits, EntryFits, Small, IsBounded, schedule_tasks-IsBounded,
}

-- A task that waits is as small as the others.
wait_for-Small :
    (c : ℕ) (task : Task) (pool : List Task)
    → task_cores task ≤ c
    → Small c pool
    → Small c (wait_for task pool)
unfolding wait_for
wait_for-Small c task [] small h = (small, tt)
wait_for-Small c task (t ∷ ts) small h = elim (Bool-cases (t.uid == task.uid)) [
  | inl e ↦ rw e (small, h.1)
  | inr e ↦ rw e (h.0, wait_for-Small c task ts small h.1)
]

wait_for_all-Small :
    (c : ℕ) (tasks pool : List Task)
    → Small c tasks
    → Small c pool
    → Small c (wait_for_all tasks pool)
unfolding wait_for_all
wait_for_all-Small c [] pool small h = h
wait_for_all-Small c (task ∷ tasks) pool small h =
    wait_for_all-Small c tasks (wait_for task pool) small.1 (wait_for-Small c task pool small.0 h)

pub work-IsBounded :
    (cfg : Settings) (sandboxes : Sandboxes) (c : ℕ) (tasks : List Task) (s s' : Backfilling)
    → Small c tasks
    → IsBounded c s
    → work cfg sandboxes tasks s ≡ ok s'
    → IsBounded c s'
unfolding work
work-IsBounded cfg sandboxes c tasks s s' small h eq =
    schedule_tasks-IsBounded cfg sandboxes c _ s'
      (record { fits = h.fits; small = wait_for_all-Small c tasks s.wait_pool small h.small }) eq

-- A task that is done takes its load away.
discharged-InfoFits :
    (c : ℕ) (r : Report) (i : Info) (o : Option Info)
    → InfoFits c (some i)
    → discharged r i ≡ ok o
    → InfoFits c o
unfolding discharged
discharged-InfoFits c r i none h eq = tt
discharged-InfoFits c r i (some j) h eq =
    let taken : ltb_ℤ (discharge i r.task).used (pos 0) ≡ false = ground arith in
    let same : discharge i r.task ≡ j = ground arith in
    let parts = -ℤ_parts i.used (pos (task_cores r.task)) in
    let low : pos 0 ≤ℤ (discharge i r.task).used = ground (arith, taken) in
    rw (← same) (low, omega (arith, parts, h.1))

store-Fits :
    (c pid : ℕ) (e : Entry) (o : Option Info) (ps : List (ℕ × Entry))
    → InfoFits c o
    → Values (EntryFits c) ps
    → Values (EntryFits c) (store pid e o ps).0
unfolding store
store-Fits c pid e none ps f h = h
store-Fits c pid e (some i) ps f h =
    put-Values (EntryFits c) pid (record e { info = some i }) ps f h

report_info-Fits :
    (c : ℕ) (r : Report) (pid : ℕ) (e : Entry) (o : Option Info) (ps : List (ℕ × Entry))
    (res : List (ℕ × Entry) × Bool)
    → InfoFits c o
    → Values (EntryFits c) ps
    → report_info r pid e o ps ≡ ok res
    → Values (EntryFits c) res.0
unfolding report_info
report_info-Fits c r pid e none ps res f h eq = cc
report_info-Fits c r pid e (some i) ps res f h eq =
    let (o, d, eq') = >>=-eq-ok (discharged r i) _ eq in
    let same : store pid e o ps ≡ res = cc in
    rw same at (store-Fits c pid e o ps (discharged-InfoFits c r i o f d) h)

report_on-Fits :
    (c : ℕ) (r : Report) (pid : ℕ) (o : Option Entry) (ps : List (ℕ × Entry))
    (res : List (ℕ × Entry) × Bool)
    → Holds (EntryFits c) o
    → Values (EntryFits c) ps
    → report_on r pid o ps ≡ ok res
    → Values (EntryFits c) res.0
unfolding report_on
report_on-Fits c r pid none ps res f h eq = let same : ps ≡ res.0 = cc in rw same at h
report_on-Fits c r pid (some e) ps res f h eq = report_info-Fits c r pid e (e.info) ps res f h eq

report_of-Fits :
    (c : ℕ) (r : Report) (o : Option ℕ) (ps : List (ℕ × Entry)) (res : List (ℕ × Entry) × Bool)
    → Values (EntryFits c) ps
    → report_of r o ps ≡ ok res
    → Values (EntryFits c) res.0
unfolding report_of
report_of-Fits c r none ps res h eq = let same : ps ≡ res.0 = cc in rw same at h
report_of-Fits c r (some pid) ps res h eq =
    report_on-Fits c r pid (find pid ps) ps res (find-Holds (EntryFits c) pid ps h) h eq

report_tasks-Fits :
    (c : ℕ) (rs : List Report) (ps : List (ℕ × Entry)) (res : List (ℕ × Entry) × Bool)
    → Values (EntryFits c) ps
    → report_tasks rs ps ≡ ok res
    → Values (EntryFits c) res.0
unfolding report_tasks report_task
report_tasks-Fits c [] ps res h eq = let same : ps ≡ res.0 = cc in rw same at h
report_tasks-Fits c (r ∷ rs) ps res h eq =
    let ((ps', here), e, eq') = >>=-eq-ok (report_of r r.task.pilot ps) _ eq in
    let ((qs, there), f, eq'') = >>=-eq-ok (report_tasks rs ps') _ eq' in
    let same : qs ≡ res.0 = cc in
    rw same at (
      report_tasks-Fits c rs ps' (qs, there) (report_of-Fits c r r.task.pilot ps (ps', here) h e) f)

-- Another list of pilots that fit.
pub with_pilots-IsBounded :
    (c : ℕ) (s : Backfilling) (ps : List (ℕ × Entry))
    → Values (EntryFits c) ps
    → IsBounded c s
    → IsBounded c (with_pilots s ps)
with_pilots-IsBounded c s ps f h = record { fits = f; small = h.small }

pub same-IsBounded : (c : ℕ) (s s' : Backfilling) → IsBounded c s → ok s ≡ ok s' → IsBounded c s'
same-IsBounded c s s' h eq = let same : s ≡ s' = cc in rw same at h

pub update_tasks-IsBounded :
    (cfg : Settings) (sandboxes : Sandboxes) (c : ℕ) (rs : List Report) (s s' : Backfilling)
    → IsBounded c s
    → update_tasks cfg sandboxes rs s ≡ ok s'
    → IsBounded c s'
unfolding update_tasks
update_tasks-IsBounded cfg sandboxes c rs s s' h eq =
    let ((ps, again), e, eq') = >>=-eq-ok (report_tasks rs s.base.pilots) _ eq in
    let told =
      with_pilots-IsBounded c s ps (report_tasks-Fits c rs s.base.pilots (ps, again) h.fits e) h in
    elim (Bool-cases again) [
      | inl t ↦ schedule_tasks-IsBounded cfg sandboxes c (with_pilots s ps) s' told (rw t at eq')
      | inr t ↦ same-IsBounded c (with_pilots s ps) s' told (rw t at eq')
    ]

pub update_pilots-IsBounded :
    (cfg : Settings) (sandboxes : Sandboxes) (c : ℕ) (pids : List ℕ) (s s' : Backfilling)
    → IsBounded c s
    → update_pilots cfg sandboxes pids s ≡ ok s'
    → IsBounded c s'
unfolding update_pilots
update_pilots-IsBounded cfg sandboxes c pids s s' h eq =
    let (action, e, eq') = >>=-eq-ok (any_in_window cfg pids s.base.pilots) _ eq in
    elim (Bool-cases action) [
      | inl t ↦ schedule_tasks-IsBounded cfg sandboxes c s s' h (rw t at eq')
      | inr t ↦ same-IsBounded c s s' h (rw t at eq')
    ]
