-- ===== src/Agent/Waitpool/Kept.antt =====
-- The tasks in the rounds of `_schedule_tasks` (src/radical/pilot/agent/scheduler/base.py).
use radical_pilot.Prelude.{
  ℕ, ◌+◌, ◌≤◌, ◌≡◌, refl, Bool-cases, Bool, true, false, inl, inr, ◌⊎◌, if◌then◌else◌, String, List,
  [], ◌∷◌, ◌++◌, map, take, Option, none, some, ok, >>=-eq-ok, arith,
}
use native.Mathlib.Decide.{dec_le}
use radical_pilot.Agent.Continuous.Task.{Slots, Task, Config, State}
use radical_pilot.Agent.Continuous.Schedule.{schedule_task, pool}
use radical_pilot.Agent.Nodes.{busy, change_slot_states}
use radical_pilot.Agent.Continuous.Allocate.{
  CvdIdMode, handle_cuda, place, place_found, try_allocation,
}
use radical_pilot.Agent.Waitpool.Counts.{
  count_uid, count_uid-append, sort_by-count, split_by-count, map-count, wait_for_all-count,
}
use radical_pilot.Agent.Waitpool.{
  Agent, wait_for_all, sort_by, by_size, by_processes, has_env, with_resources, split_by, Check,
  Bisect, Step, schedule_waitpool, Incoming, settle_incoming, place_incoming, schedule_incoming,
  release_all, unschedule_completed, schedule_tasks,
}

place-uid :
    (mode : CvdIdMode) (task task' : Task) (s s' : State) (slots : Slots) (b : Bool)
    → place mode task s slots ≡ ok (b, task', s')
    → task'.uid ≡ task.uid
unfolding place
place-uid mode task task' s s' slots b h =
    let (p, e, h') = >>=-eq-ok (change_slot_states slots.nodes busy (pool s)) _ h in
    let (cuda, f, h'') = >>=-eq-ok (handle_cuda mode task.cuda_visible_devices slots.nodes) _ h' in
    ground arith

place_found-uid :
    (mode : CvdIdMode) (task : Task) (found : Option Slots × State) (res : Bool × Task × State)
    → place_found mode task found ≡ ok res
    → res.1.uid ≡ task.uid
unfolding place_found
place_found-uid mode task (none, s) (b, task', s') h = ground arith
place_found-uid mode task (some slots, s) (b, task', s') h =
    place-uid mode task task' s s' slots b h

-- A check that leaves the uid of the task.
abbrev pub KeepsUid : Check → Type 0
KeepsUid check =
    (t : Task) (s : State) (res : Bool × Task × State) → check t s ≡ ok res → res.1.uid ≡ t.uid

try_allocation-KeepsUid : (cfg : Config) (mode : CvdIdMode) → KeepsUid (try_allocation cfg mode)
unfolding try_allocation
try_allocation-KeepsUid cfg mode t s res h =
    let (found, e, h') = >>=-eq-ok (schedule_task cfg t.description s) (place_found mode t) h in
    place_found-uid mode t found res h'

-- Each task that `ru.lazy_bisect` is given is among those placed or among the others.
abbrev pub KeepsTasks : Bisect → Type 0
KeepsTasks bisect =
    (check : Check) (ts : List Task) (s s' : State) (placed others : List Task)
    → KeepsUid check
    → bisect check ts s ≡ ok (placed, others, s')
    → (u : ℕ) → count_uid u placed + count_uid u others ≡ count_uid u ts

-- The task is in the pool or advanced.
abbrev pub in_agent : ℕ → Agent → ℕ
in_agent u a = count_uid u a.waitpool + count_uid u a.executing

schedule_waitpool-in_agent :
    (exists : String → Bool) (bisect : Bisect) (cfg : Config) (mode : CvdIdMode) (u : ℕ) (a : Agent)
    (res : Step)
    → KeepsTasks bisect
    → schedule_waitpool exists bisect cfg mode a ≡ ok res
    → 1 ≤ in_agent u a
    → 1 ≤ in_agent u res.2
unfolding schedule_waitpool
schedule_waitpool-in_agent exists bisect cfg mode u a res keeps h k =
    let split = split_by (has_env exists) a.waitpool in
    let ((placed, others, s), e, h') =
      >>=-eq-ok (bisect (try_allocation cfg mode) (sort_by by_size split.0) a.state) _ h in
    let waiting : wait_for_all (others ++ split.1) [] ≡ res.2.waitpool = cc in
    let executing : a.executing ++ map with_resources placed ≡ res.2.executing = cc in
    let sum =
      keeps (try_allocation cfg mode) (sort_by by_size split.0) a.state s placed others
        (try_allocation-KeepsUid cfg mode) e u in
    let parts = split_by-count (has_env exists) u a.waitpool in
    let sorted = sort_by-count by_size u split.0 in
    let ready = count_uid-append u a.executing (map with_resources placed) in
    let given = map-count u placed in
    let rest = count_uid-append u others split.1 in
    rw (← waiting) (
      rw (← executing) (elim (dec_le 1 (count_uid u others + count_uid u split.1)) [
        | yes f ↦
            let pool = wait_for_all-count u (others ++ split.1) [] (omega (arith, rest, f)) in
            omega (arith, pool)
        | no f ↦ omega (arith, f, sum, parts, sorted, ready, given, k)
      ]))

-- The task is in the lists of the loop.
abbrev in_loop : ℕ → Incoming → ℕ
in_loop u l = count_uid u l.to_wait + count_uid u l.executing

settle_incoming-in_loop :
    (u : ℕ) (t : Task) (l : Incoming) (r : Bool × Task × State)
    → r.1.uid ≡ t.uid
    → in_loop u (settle_incoming l r) ≡ in_loop u l + count_uid u (t ∷ [])
unfolding settle_incoming
settle_incoming-in_loop u t l (true, t', s) h =
    let one : count_uid u (with_resources t' ∷ []) ≡ count_uid u (t ∷ []) = rw h refl in
    omega (arith, one, count_uid-append u l.executing (with_resources t' ∷ []))
settle_incoming-in_loop u t l (false, t', s) h =
    let one : count_uid u (t' ∷ []) ≡ count_uid u (t ∷ []) = rw h refl in
    omega (arith, one, count_uid-append u l.to_wait (t' ∷ []))

place_incoming-in_loop :
    (exists : String → Bool) (cfg : Config) (mode : CvdIdMode) (u : ℕ) (ts : List Task)
    (l l' : Incoming)
    → place_incoming exists cfg mode ts l ≡ ok l'
    → in_loop u l' ≡ in_loop u l + count_uid u ts
unfolding place_incoming
place_incoming-in_loop exists cfg mode u [] l l' h =
    let same : l ≡ l' = cc in rw (← same) (omega arith)
place_incoming-in_loop exists cfg mode u (t ∷ ts) l l' h = elim (Bool-cases (has_env exists t)) [
  | inl e ↦
      let (r, tried, h') = >>=-eq-ok (try_allocation cfg mode t l.state) _ (rw e at h) in
      let uid = try_allocation-KeepsUid cfg mode t l.state r tried in
      omega (
        arith,
        settle_incoming-in_loop u t l r uid,
        place_incoming-in_loop exists cfg mode u ts (settle_incoming l r) l' h',
      )
  | inr e ↦
      let wait : Incoming = record l { to_wait = l.to_wait ++ t ∷ [] } in
      let step = place_incoming-in_loop exists cfg mode u ts wait l' (rw e at h) in
      omega (arith, step, count_uid-append u l.to_wait (t ∷ []))
]

schedule_incoming-in_agent :
    (exists : String → Bool) (cfg : Config) (mode : CvdIdMode) (u : ℕ) (ts : List Task) (a : Agent)
    (res : Step)
    → schedule_incoming exists cfg mode ts a ≡ ok res
    → 1 ≤ in_agent u a + count_uid u ts
    → 1 ≤ in_agent u res.2
unfolding schedule_incoming
schedule_incoming-in_agent exists cfg mode u [] a res h k =
    let same : a ≡ res.2 = cc in rw (← same) (omega (arith, k))
schedule_incoming-in_agent exists cfg mode u (t ∷ ts) a res h k =
    let start : Incoming = record { state = a.state; executing = a.executing; to_wait = [] } in
    let sorted = sort_by by_processes (t ∷ ts) in
    let (l, placed, h') = >>=-eq-ok (place_incoming exists cfg mode sorted start) _ h in
    let waiting : wait_for_all l.to_wait a.waitpool ≡ res.2.waitpool = cc in
    let executing : l.executing ≡ res.2.executing = cc in
    let sum = place_incoming-in_loop exists cfg mode u sorted start l placed in
    let count = sort_by-count by_processes u (t ∷ ts) in
    rw (← waiting) (
      rw (← executing) (elim (dec_le 1 (count_uid u l.to_wait + count_uid u a.waitpool)) [
        | yes f ↦ let pool = wait_for_all-count u l.to_wait a.waitpool f in omega (arith, pool)
        | no f ↦ omega (arith, f, sum, count, k)
      ]))

unschedule_completed-in_agent :
    (u : ℕ) (queue : List Task) (a : Agent) (res : List Task × Step)
    → unschedule_completed queue a ≡ ok res
    → in_agent u res.1.2 ≡ in_agent u a
unfolding unschedule_completed
unschedule_completed-in_agent u queue a res h =
    let (s, e, h') = >>=-eq-ok (release_all (take 129 queue) a.state) _ h in
    let waiting : res.1.2.waitpool ≡ a.waitpool = cc in
    let executing : res.1.2.executing ≡ a.executing = cc in rw (waiting) (rw (executing) refl)

first_step-in_agent :
    (exists : String → Bool) (bisect : Bisect) (cfg : Config) (mode : CvdIdMode) (u : ℕ) (a : Agent)
    (resources : Bool) (res : Step)
    → KeepsTasks bisect
    → (if resources then schedule_waitpool exists bisect cfg mode a else ok (some false, false, a))
      ≡ ok res
    → count_uid u a.waitpool + count_uid u a.executing ≤ 0 ⊎ 1 ≤ in_agent u res.2
first_step-in_agent exists bisect cfg mode u a true res keeps h = elim (dec_le 1 (in_agent u a)) [
  | yes k ↦ inr (schedule_waitpool-in_agent exists bisect cfg mode u a res keeps h k)
  | no k ↦ inl (omega (arith, k))
]
first_step-in_agent exists bisect cfg mode u a false res keeps h =
    let same : a ≡ res.2 = cc in
    elim (dec_le 1 (in_agent u a)) [ yes k ↦ inr (rw (← same) k) | no k ↦ inl (omega (arith, k)) ]

-- In a round that raises nothing no task is lost, when `ru.lazy_bisect` loses none: a task that was
-- in the wait pool or advanced, or that came in, is in the wait pool or advanced afterwards.
pub schedule_tasks-in_agent :
    (exists : String → Bool) (bisect : Bisect) (cfg : Config) (mode : CvdIdMode) (u : ℕ)
    (incoming completed : List Task) (resources : Bool) (a : Agent) (res : List Task × Bool × Agent)
    → KeepsTasks bisect
    → schedule_tasks exists bisect cfg mode incoming completed resources a ≡ ok res
    → 1 ≤ in_agent u a + count_uid u incoming
    → 1 ≤ in_agent u res.2
unfolding schedule_tasks
schedule_tasks-in_agent exists bisect cfg mode u incoming completed resources a res keeps h k =
    let ((r_wait, active, a1), e, h1) =
      >>=-eq-ok
        (if resources
          then schedule_waitpool exists bisect cfg mode a
          else ok (some false, false, a))
        _ h in
    let ((r_inc, active', a2), f, h2) =
      >>=-eq-ok (schedule_incoming exists cfg mode incoming a1) _ h1 in
    let ((queue, (r, active'', a3)), g, h3) = >>=-eq-ok (unschedule_completed completed a2) _ h2 in
    let last : a3 ≡ res.2 = cc in
    let third = unschedule_completed-in_agent u completed a2 (queue, (r, active'', a3)) g in
    let first =
      first_step-in_agent exists bisect cfg mode u a resources (r_wait, active, a1) keeps e in
    let now : 1 ≤ in_agent u a1 + count_uid u incoming = ground (arith, first, k) in
    let second =
      schedule_incoming-in_agent exists cfg mode u incoming a1 (r_inc, active', a2) f now in
    rw (← last) (omega (arith, third, second))
