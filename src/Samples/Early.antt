-- ===== src/Samples/Early.antt =====
-- A run of `work` of src/radical/pilot/tmgr/scheduler/base.py, and of a request to cancel tasks.
use radical_pilot.Prelude.{ℕ, ◌+◌, ◌≡◌, refl, List, [], ◌∷◌, All, none, some, ok, find}
use radical_pilot.States.Pilot.{pmgr_active}
use radical_pilot.Tmgr.Base.{added, Pilot, Task, Base, Sandboxes, append_to, assign_pilot}
use radical_pilot.Tmgr.Counts.{count_uid}
use radical_pilot.Tmgr.Early.{
  Incoming, known_pilot, take_bound, take_task, take_tasks, filter_bound, handles, handled_by,
  cancel_requests, count_early, filter_bound-placed,
}

abbrev in_tmp : Sandboxes
in_tmp = λ pilot task. ok ("/tmp" ∷ [])

abbrev one_core : ℕ → Task
one_core u = record { uid = u; pilot = none; cpu_processes = 1; cpu_threads = 1; sandboxes = none }

abbrev known : Pilot
known = record { uid = 1; cores = 2; state = pmgr_active }

abbrev base : Base
base = record {
  early = [];
  pilots =
      (1, record { role = some added; state = some pmgr_active; pilot = some known; info = none })
      ∷ [];
  tasks = [];
}

-- A task for a known pilot, one for an unknown pilot, and a free one.
abbrev arriving : List Task
arriving =
    record (one_core 5) { pilot = some 1 }
    ∷ record (one_core 6) { pilot = some 9 }
    ∷ one_core 7
    ∷ []

abbrev sorted : Incoming
sorted = record {
  base = record base {
    early = (9, record (one_core 6) { pilot = some 9 } ∷ []) ∷ [];
    tasks = (1, 5 ∷ []) ∷ [];
  };
  scheduling = arriving;
  advanced = record (one_core 5) { pilot = some 1; sandboxes = some ("/tmp" ∷ []) } ∷ [];
  to_schedule = one_core 7 ∷ [];
}

arriving-sorted : filter_bound in_tmp arriving base ≡ ok sorted
unfolding filter_bound take_tasks take_task take_bound known_pilot find assign_pilot append_to
arriving-sorted = refl

filter_bound-placed_example :
    (count_uid 6 sorted.advanced + count_uid 6 sorted.to_schedule + count_early 6 sorted.base.early
      ≡ count_uid 6 arriving + count_early 6 [])
    × All (λ (x : Task). x.pilot ≡ none) sorted.to_schedule
filter_bound-placed_example = filter_bound-placed in_tmp 6 arriving base sorted arriving-sorted

-- The request goes to the pilots that handle tasks of it.
two_asked : cancel_requests (5 ∷ 8 ∷ []) ((1, 5 ∷ 6 ∷ []) ∷ (2, 7 ∷ []) ∷ []) ≡ (1, 5 ∷ []) ∷ []
unfolding cancel_requests handled_by handles
two_asked = refl
