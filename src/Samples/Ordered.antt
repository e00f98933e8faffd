-- ===== src/Samples/Ordered.antt =====
-- A round of src/radical/pilot/agent/scheduler/continuous_ordered.py.
use radical_pilot.Prelude.{
  ℕ, zero, suc, Bool, true, false, ◌≡◌, refl, List, [], ◌∷◌, none, some, Result, ok, find, put,
}
use radical_pilot.Agent.Ordered.{
  Order, Space, Ordered, Task, last_order, seek_at, mark_order, seek, place_all, place_order,
  place_found, schedule_space, schedule_spaces, try_schedule, registered, register, register_all,
  schedule_tasks, note_order, note_space, note_done, note_all, reschedule, state_cb,
}
use radical_pilot.Agent.Ordered.Rounds.{IsInOrder, schedule_space-IsInOrder}

-- A pool that counts its free places.
abbrev place_task : ℕ → ℕ → Result (ℕ × Bool)
place_task zero u = ok (zero, false)
place_task (suc n) u = ok (n, true)

abbrev first : Order
first = record { size = 1; uids = []; done = 10 ∷ []; current = none }

abbrev second : Order
second = record { size = 2; uids = 11 ∷ 12 ∷ []; done = []; current = none }

abbrev stages : Space
stages = record { current = 0; orders = (0, first) ∷ (1, second) ∷ [] }

-- One place_task is free: task 11 is scheduled, and task 12 is kept. The counter is written into the order.
abbrev stages_after : Space
stages_after = record {
  current = 0;
  orders = (0, record first { current = some 1 }) ∷ (1, record second { uids = 12 ∷ [] }) ∷ [];
}

stages_run : schedule_space place_task (λ u. true) 1 stages ≡ ok (0, stages_after, 11 ∷ [])
unfolding schedule_space seek seek_at mark_order last_order find put place_found place_order
    place_all
stages_run = refl

schedule_space-IsInOrder_example : IsInOrder stages stages_after (11 ∷ []) 12
schedule_space-IsInOrder_example =
    schedule_space-IsInOrder place_task (λ u. true) 1 0 stages stages_after (11 ∷ []) 12 stages_run

-- The scheduler from its first task on: a task of order 1 waits until the one of order 0 is done.
abbrev tagged : ℕ → ℕ → Task
tagged u n = record { uid = u; tag = some (record { ns = 3; order = n; size = 1 }) }

abbrev start : Ordered ℕ
start = record { pool = 5; unordered = []; tasks = []; spaces = [] }

abbrev scheduled_of : Result (Ordered ℕ × List ℕ) → List ℕ
scheduled_of (ok (s, us)) = us
scheduled_of _ = []

abbrev state_of : Result (Ordered ℕ × List ℕ) → Ordered ℕ
state_of (ok (s, us)) = s
state_of _ = start

abbrev arrived : Result (Ordered ℕ × List ℕ)
arrived = schedule_tasks place_task start (tagged 20 1 ∷ tagged 21 0 ∷ [])

first_only : scheduled_of arrived ≡ 21 ∷ []
unfolding schedule_tasks register_all register registered try_schedule schedule_spaces
    schedule_space seek seek_at mark_order last_order find put place_found place_order place_all
first_only = refl

then_second :
    scheduled_of (state_cb place_task (state_of arrived) ((tagged 21 0, true) ∷ [])) ≡ 20 ∷ []
unfolding state_cb note_all note_done note_space note_order reschedule schedule_tasks register_all
    register registered try_schedule schedule_spaces schedule_space seek seek_at mark_order
    last_order find put place_found place_order place_all
then_second = refl
