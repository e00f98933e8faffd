-- ===== src/Tmgr/Early.antt =====
-- Tasks as they come in to a scheduler of the task manager (src/radical/pilot/tmgr/scheduler/base.py):
-- `work` sorts out those that are bound to a pilot already, and `cancel_tasks` finds the pilots of tasks.
-- Where a task is advanced, it is returned.
use radical_pilot.Prelude.{
  ℕ, ◌+◌, ◌==◌, Bool, true, false, Bool-cases, if◌then◌else◌, List, [], ◌∷◌, ◌++◌, All, All-append,
  Option, none, some, Result, ok, ◌>>=◌, >>=-eq-ok, find, ◌≡◌, refl, sym, inl, inr, arith,
}
use radical_pilot.Tmgr.Base.{Pilot, Entry, Task, Base, Sandboxes, assign_pilot, append_to}
use radical_pilot.Tmgr.Counts.{count_uid, count_uid-append, assign_pilot-uid}

-- What `work` makes of its tasks: those advanced to `TMGR_SCHEDULING`, which are all, those advanced to the
-- staging of data, and those for `_work`.
pub record Incoming : Type 0 where
  pub base : Base
  pub scheduling : List Task
  pub advanced : List Task
  pub to_schedule : List Task

-- `self._pilots.get(pid, {}).get('pilot')`
unfoldable pub known_pilot : Option Entry → Option Pilot
known_pilot none = none
known_pilot (some entry) = entry.pilot

-- A task that is bound to a pilot
unfoldable pub take_bound : Sandboxes → ℕ → Option Pilot → Task → Incoming → Result Incoming
take_bound sandboxes pid none task w =
    ok (record w { base = record w.base { early = append_to pid task w.base.early } })
take_bound sandboxes pid (some pilot) task w = do
  bound ← assign_pilot sandboxes pilot task w.base
  ok (record w { base = bound.1; advanced = w.advanced ++ bound.0 ∷ [] })

unfoldable pub take_task : Sandboxes → Option ℕ → Task → Incoming → Result Incoming
take_task sandboxes none task w = ok (record w { to_schedule = w.to_schedule ++ task ∷ [] })
take_task sandboxes (some pid) task w =
    take_bound sandboxes pid (known_pilot (find pid w.base.pilots)) task w

unfoldable pub take_tasks : Sandboxes → List Task → Incoming → Result Incoming
take_tasks sandboxes [] w = ok w
take_tasks sandboxes (t ∷ ts) w = do
  w' ← take_task sandboxes t.pilot t w
  take_tasks sandboxes ts w'

-- `work`, up to the call of `_work`
unfoldable pub filter_bound : Sandboxes → List Task → Base → Result Incoming
filter_bound sandboxes ts b =
    take_tasks sandboxes ts (record { base = b; scheduling = ts; advanced = []; to_schedule = [] })

-- `uid in self._tasks[pid]`
unfoldable pub handles : ℕ → List ℕ → Bool
handles u [] = false
handles u (v ∷ vs) = let rest = handles u vs in if v == u then true else rest

-- The tasks of a request that a pilot handles
unfoldable pub handled_by : List ℕ → List ℕ → List ℕ
handled_by [] mine = []
handled_by (u ∷ us) mine =
    let rest = handled_by us mine in if handles u mine then u ∷ rest else rest

abbrev add_request : ℕ → List ℕ → List (ℕ × List ℕ) → List (ℕ × List ℕ)
add_request pid [] requests = requests
add_request pid (u ∷ us) requests = (pid, u ∷ us) ∷ requests

-- `cancel_tasks` of `_base_command_cb`: what is sent to each pilot
unfoldable pub cancel_requests : List ℕ → List (ℕ × List ℕ) → List (ℕ × List ℕ)
cancel_requests uids [] = []
cancel_requests uids ((pid, mine) ∷ tasks) =
    add_request pid (handled_by uids mine) (cancel_requests uids tasks)

-- How often a task waits for a pilot that is not known.
unfoldable pub count_early : ℕ → List (ℕ × List Task) → ℕ
count_early u [] = 0
count_early u ((pid, ts) ∷ early) = count_uid u ts + count_early u early

count_early-append_to :
    (u k : ℕ) (t : Task) (early : List (ℕ × List Task))
    → count_early u (append_to k t early) ≡ count_uid u (t ∷ []) + count_early u early
unfolding append_to count_early
count_early-append_to u k t [] = omega arith
count_early-append_to u k t ((j, ts) ∷ early) =
    let ih = count_early-append_to u k t early in
    let one = count_uid-append u ts (t ∷ []) in
    elim (Bool-cases (j == k)) [ inl e ↦ rw e (omega arith) | inr e ↦ rw e (omega arith) ]

-- The places where a task can be.
abbrev pub placed : ℕ → Incoming → ℕ
placed u w = count_uid u w.advanced + count_uid u w.to_schedule + count_early u w.base.early

assign_pilot-early :
    (sandboxes : Sandboxes) (pilot : Pilot) (t t' : Task) (b b' : Base)
    → assign_pilot sandboxes pilot t b ≡ ok (t', b')
    → b'.early ≡ b.early
unfolding assign_pilot
assign_pilot-early sandboxes pilot t t' b b' h =
    let (boxes, e, h') = >>=-eq-ok (sandboxes pilot (record t { pilot = some pilot.uid })) _ h in
    let same : record b { tasks = append_to pilot.uid t.uid b.tasks } ≡ b' = cc in
    rw (sym same) refl

one_uid : (u : ℕ) (t t' : Task) → t'.uid ≡ t.uid → count_uid u (t' ∷ []) ≡ count_uid u (t ∷ [])
one_uid u t t' h = rw h refl

take_bound-placed :
    (sandboxes : Sandboxes) (pid u : ℕ) (pilot : Option Pilot) (t : Task) (w w' : Incoming)
    → take_bound sandboxes pid pilot t w ≡ ok w'
    → (placed u w' ≡ count_uid u (t ∷ []) + placed u w) × (w'.to_schedule ≡ w.to_schedule)
unfolding take_bound
take_bound-placed sandboxes pid u none t w w' h =
    let same : record w { base = record w.base { early = append_to pid t w.base.early } } ≡ w' =
      cc in
    let all = count_early-append_to u pid t w.base.early in rw (sym same) (omega arith, refl)
take_bound-placed sandboxes pid u (some pilot) t w w' h =
    let (bound, e, g) = >>=-eq-ok (assign_pilot sandboxes pilot t w.base) _ h in
    let same : record w { base = bound.1; advanced = w.advanced ++ bound.0 ∷ [] } ≡ w' = cc in
    let one = one_uid u t bound.0 (assign_pilot-uid sandboxes pilot t bound.0 w.base bound.1 e) in
    let all = count_uid-append u w.advanced (bound.0 ∷ []) in
    let still = assign_pilot-early sandboxes pilot t bound.0 w.base bound.1 e in
    rw (sym same) (rw still (omega arith), refl)

take_task-placed :
    (sandboxes : Sandboxes) (u : ℕ) (pid : Option ℕ) (t : Task) (w w' : Incoming)
    → t.pilot ≡ pid
    → All (λ (x : Task). x.pilot ≡ none) w.to_schedule
    → take_task sandboxes pid t w ≡ ok w'
    → (placed u w' ≡ count_uid u (t ∷ []) + placed u w)
      × All (λ (x : Task). x.pilot ≡ none) w'.to_schedule
unfolding take_task
take_task-placed sandboxes u none t w w' p free h =
    let same : record w { to_schedule = w.to_schedule ++ t ∷ [] } ≡ w' = cc in
    let all = count_uid-append u w.to_schedule (t ∷ []) in
    rw (sym same) (omega arith, All-append _ w.to_schedule (t ∷ []) free (p, tt))
take_task-placed sandboxes u (some pid) t w w' p free h =
    let (all, same) =
      take_bound-placed sandboxes pid u (known_pilot (find pid w.base.pilots)) t w w' h in
    (all, rw same free)

take_tasks-placed :
    (sandboxes : Sandboxes) (u : ℕ) (ts : List Task) (w w' : Incoming)
    → All (λ (x : Task). x.pilot ≡ none) w.to_schedule
    → take_tasks sandboxes ts w ≡ ok w'
    → (placed u w' ≡ count_uid u ts + placed u w)
      × All (λ (x : Task). x.pilot ≡ none) w'.to_schedule
unfolding take_tasks
take_tasks-placed sandboxes u [] w w' free h =
    let same : w ≡ w' = cc in rw (sym same) (omega arith, free)
take_tasks-placed sandboxes u (t ∷ ts) w w' free h =
    let (w1, e, g) = >>=-eq-ok (take_task sandboxes t.pilot t w) _ h in
    let (one, free1) = take_task-placed sandboxes u t.pilot t w w1 refl free e in
    let (rest, free2) = take_tasks-placed sandboxes u ts w1 w' free1 g in (omega arith, free2)

-- Each task that comes in is advanced, passed to `_work` or left waiting for its pilot, none lost and none
-- twice; only tasks without a pilot are passed to `_work`.
pub filter_bound-placed :
    (sandboxes : Sandboxes) (u : ℕ) (ts : List Task) (b : Base) (w : Incoming)
    → filter_bound sandboxes ts b ≡ ok w
    → (count_uid u w.advanced + count_uid u w.to_schedule + count_early u w.base.early
        ≡ count_uid u ts + count_early u b.early)
      × All (λ (x : Task). x.pilot ≡ none) w.to_schedule
unfolding filter_bound
filter_bound-placed sandboxes u ts b w h =
    let (all, free) =
      take_tasks-placed sandboxes u ts
        (record { base = b; scheduling = ts; advanced = []; to_schedule = [] }) w tt h in
    (omega arith, free)
