-- ===== src/Tmgr/Backfilling/Bounds.antt =====
-- The load of each pilot under the backfilling scheduler (backfilling.py).
use radical_pilot.Prelude.{
  ℕ, ◌+◌, ◌≤◌, ◌≡◌, pos, ◌≤ℤ◌, leb_ℤ, +ℤ_parts, Bool-cases, true, inl, inr, List, [], ◌∷◌, ◌++◌,
  All, All-append, Option, none, some, ok, >>=-eq-ok, Values, Holds, find, find-Holds, put-Values,
  arith,
}
use radical_pilot.Tmgr.Base.{
  Info, Pilot, Entry, Task, task_cores, Base, Sandboxes, assign_pilot, assign_known,
}
use radical_pilot.Tmgr.Backfilling.{
  Settings, Backfilling, with_entry, entry_info, first_open, charge, Loop, give, assign_all,
  schedule_over, schedule_tasks, eligible_pids, end_loop, start_loop,
}

-- The load is not negative, and exceeds the high water mark by at most `c` cores.
abbrev pub InfoFits : ℕ → Option Info → Type 0
InfoFits c none = Unit
InfoFits c (some i) = (pos 0 ≤ℤ i.used) × (i.used ≤ℤ pos (i.hwm + c))

abbrev pub EntryFits : ℕ → Entry → Type 0
EntryFits c e = InfoFits c e.info

-- No task that waits needs more than `c` cores.
abbrev pub Small : ℕ → List Task → Type 0
Small c tasks = All (λ (t : Task). task_cores t ≤ c) tasks

-- All pilots fit, and so does every task that waits.
pub record IsBounded (c : ℕ) (s : Backfilling) : Type 0 where
  pub fits : Values (EntryFits c) s.base.pilots
  pub small : Small c s.wait_pool

charge-InfoFits :
    (c : ℕ) (i : Info) (task : Task)
    → InfoFits c (some i)
    → leb_ℤ i.used (pos i.hwm) ≡ true
    → task_cores task ≤ c
    → InfoFits c (some (charge i task))
charge-InfoFits c i task h e small =
    let parts = +ℤ_parts i.used (pos (task_cores task)) in
    let open_now : i.used ≤ℤ pos i.hwm = ground (arith, e) in
    (omega (arith, parts, h.0), omega (arith, parts, h.1, open_now, small))

with_entry-Fits :
    (c : ℕ) (o : Option Info) (e' e : Entry) (i : Info)
    → InfoFits c o
    → with_entry e' o ≡ ok (e, i)
    → InfoFits c (some i)
with_entry-Fits c none e' e i h eq = cc
with_entry-Fits c (some j) e' e i h eq = let same : j ≡ i = cc in rw same at h

entry_info-Fits :
    (c : ℕ) (o : Option Entry) (e : Entry) (i : Info)
    → Holds (EntryFits c) o
    → entry_info o ≡ ok (e, i)
    → InfoFits c (some i)
entry_info-Fits c none e i h eq = cc
entry_info-Fits c (some e') e i h eq = with_entry-Fits c (e'.info) e' e i h eq

-- A pilot that is found has no more load than its mark.
first_open-Fits :
    (c : ℕ) (pids : List ℕ) (ps : List (ℕ × Entry)) (pid : ℕ) (e : Entry) (i : Info)
    → Values (EntryFits c) ps
    → first_open pids ps ≡ ok (some (pid, e, i))
    → InfoFits c (some i) × (leb_ℤ i.used (pos i.hwm) ≡ true)
unfolding first_open
first_open-Fits c [] ps pid e i h eq = cc
first_open-Fits c (p ∷ pids) ps pid e i h eq =
    let ((e', i'), got, next) = >>=-eq-ok (entry_info (find p ps)) _ eq in
    elim (Bool-cases (leb_ℤ i'.used (pos i'.hwm))) [
      | inl t ↦
          let same : i' ≡ i = ground arith in
          (
            rw same at (entry_info-Fits c (find p ps) e' i' (find-Holds (EntryFits c) p ps h) got),
            rw same at t,
          )
      | inr f ↦ first_open-Fits c pids ps pid e i h (ground arith)
    ]

-- An assignment leaves the known pilots as they are.
pub assign_pilot-pilots :
    (sandboxes : Sandboxes) (pilot : Pilot) (task task' : Task) (b b' : Base)
    → assign_pilot sandboxes pilot task b ≡ ok (task', b')
    → b'.pilots ≡ b.pilots
unfolding assign_pilot
assign_pilot-pilots sandboxes pilot task task' b b' h =
    let (boxes, e, h') = >>=-eq-ok (sandboxes pilot (record task { pilot = some pilot.uid })) _ h in
    cc

pub assign_known-pilots :
    (sandboxes : Sandboxes) (pilot : Option Pilot) (task task' : Task) (b b' : Base)
    → assign_known sandboxes pilot task b ≡ ok (task', b')
    → b'.pilots ≡ b.pilots
unfolding assign_known
assign_known-pilots sandboxes none task task' b b' h = cc
assign_known-pilots sandboxes (some pilot) task task' b b' h =
    assign_pilot-pilots sandboxes pilot task task' b b' h

-- The loop keeps the pilots in their bounds.
record LoopFits (c : ℕ) (l : Loop) : Type 0 where
  fits : Values (EntryFits c) l.base.pilots
  small : Small c l.unscheduled

give-LoopFits :
    (sandboxes : Sandboxes) (c : ℕ) (task : Task) (l l' : Loop) (found : Option (ℕ × Entry × Info))
    → task_cores task ≤ c
    → LoopFits c l
    → first_open l.pids l.base.pilots ≡ ok found
    → give sandboxes task l found ≡ ok l'
    → LoopFits c l'
unfolding give
give-LoopFits sandboxes c task l l' none small h f eq =
    let same : record l { unscheduled = l.unscheduled ++ task ∷ [] } ≡ l' = cc in
    let kept : LoopFits c (record l { unscheduled = l.unscheduled ++ task ∷ [] }) = record {
      fits = h.fits;
      small = All-append _ l.unscheduled (task ∷ []) h.small (small, tt);
    } in
    rw same at kept
give-LoopFits sandboxes c task l l' (some (pid, e, i)) small h f eq =
    let ((task', b), got, next) = >>=-eq-ok (assign_known sandboxes e.pilot task _) _ eq in
    let (fit, open_now) = first_open-Fits c l.pids l.base.pilots pid e i h.fits f in
    let kept = assign_known-pilots sandboxes e.pilot task task' _ b got in
    let charged = charge-InfoFits c i task fit open_now small in
    let base : b ≡ l'.base = cc in
    let unscheduled : l.unscheduled ≡ l'.unscheduled = cc in
    record {
      fits =
          rw (← base, kept)
            (put-Values (EntryFits c) pid (record e { info = some (charge i task) }) l.base.pilots
              charged h.fits);
      small = rw unscheduled at h.small;
    }

assign_all-LoopFits :
    (sandboxes : Sandboxes) (c : ℕ) (tasks : List Task) (l l' : Loop)
    → Small c tasks
    → LoopFits c l
    → assign_all sandboxes tasks l ≡ ok l'
    → LoopFits c l'
unfolding assign_all
assign_all-LoopFits sandboxes c [] l l' small h eq = let same : l ≡ l' = cc in rw same at h
assign_all-LoopFits sandboxes c (task ∷ tasks) l l' small h eq =
    let (found, f, eq') = >>=-eq-ok (first_open l.pids l.base.pilots) _ eq in
    let (l1, g, eq'') = >>=-eq-ok (give sandboxes task l found) _ eq' in
    assign_all-LoopFits sandboxes c tasks l1 l' small.1
      (give-LoopFits sandboxes c task l l1 found small.0 h f g) eq''

schedule_over-IsBounded :
    (sandboxes : Sandboxes) (c : ℕ) (s s' : Backfilling) (pids : List ℕ)
    → IsBounded c s
    → schedule_over sandboxes s pids ≡ ok s'
    → IsBounded c s'
unfolding schedule_over
schedule_over-IsBounded sandboxes c s s' [] h eq = let same : s ≡ s' = cc in rw same at h
schedule_over-IsBounded sandboxes c s s' (pid ∷ pids) h eq =
    let (l, ran, eq') =
      >>=-eq-ok (assign_all sandboxes s.wait_pool (start_loop s (pid ∷ pids))) _ eq in
    let end =
      assign_all-LoopFits sandboxes c s.wait_pool (start_loop s (pid ∷ pids)) l h.small
        (record { fits = h.fits; small = tt }) ran in
    let same : end_loop s l ≡ s' = cc in
    let ended : IsBounded c (end_loop s l) = record { fits = end.fits; small = end.small } in
    rw same at ended

pub schedule_tasks-IsBounded :
    (cfg : Settings) (sandboxes : Sandboxes) (c : ℕ) (s s' : Backfilling)
    → IsBounded c s
    → schedule_tasks cfg sandboxes s ≡ ok s'
    → IsBounded c s'
unfolding schedule_tasks
schedule_tasks-IsBounded cfg sandboxes c s s' h eq =
    let (pids, e, eq') = >>=-eq-ok (eligible_pids cfg s.pids s.base.pilots) _ eq in
    schedule_over-IsBounded sandboxes c s s' pids h eq'
