-- ===== src/Samples/Raptor.antt =====
-- Runs of a raptor worker (src/radical/pilot/raptor/worker.py).
use radical_pilot.Prelude.{
  times, ℕ, zero, suc, pos, ◌+◌, true, false, ◌≡◌, refl, [], ◌∷◌, length, none, some, ok, raise,
  key_error,
}
use radical_pilot.Raptor.{
  Worker, Resources, Request, count_free, mark, alloc, alloc_task, dealloc, request,
}
use radical_pilot.Raptor.Marks.{busy}
use radical_pilot.Raptor.Held.{
  Running, granted, Reach, stay, next, IsHeld, Reach-dealloc, alloc_task-length,
}
use radical_pilot.Raptor.Requests.{request-misfit}

abbrev idle : Worker
idle = record { cores = false ∷ false ∷ false ∷ []; gpus = false ∷ [] }

abbrev two_cores : Request
two_cores = record { cores = pos 2; gpus = pos 0; resources = none }

abbrev one_each : Request
one_each = record { cores = pos 1; gpus = pos 1; resources = none }

abbrev part_busy : Worker
part_busy = record { cores = true ∷ true ∷ false ∷ []; gpus = false ∷ [] }

abbrev full : Worker
full = record { cores = true ∷ true ∷ true ∷ []; gpus = true ∷ [] }

abbrev first : Resources
first = record { cores = 0 ∷ 1 ∷ []; gpus = [] }

abbrev second : Resources
second = record { cores = 2 ∷ []; gpus = 0 ∷ [] }

two_cores_granted : alloc_task idle two_cores ≡ ok (some (part_busy, first))
unfolding alloc_task alloc mark count_free
two_cores_granted = refl

one_each_granted : alloc_task part_busy one_each ≡ ok (some (full, second))
unfolding alloc_task alloc mark count_free
one_each_granted = refl

abbrev start : Running
start = record { worker = idle; held = [] }

abbrev after_first : Running
after_first = record { worker = part_busy; held = first ∷ [] }

abbrev both : Running
both = record { worker = full; held = second ∷ first ∷ [] }

both_run : Reach start both
both_run = next start after_first both (granted start two_cores part_busy first two_cores_granted) (
    next after_first both both (granted after_first one_each full second one_each_granted)
      (stay both))

idle-busy : (n : ℕ) → times n [] ≡ busy n idle.cores
unfolding times busy
idle-busy zero = refl
idle-busy (suc zero) = refl
idle-busy (suc (suc zero)) = refl
idle-busy (suc (suc (suc n))) = refl

idle-busy_gpus : (n : ℕ) → times n [] ≡ busy n idle.gpus
unfolding times busy
idle-busy_gpus zero = refl
idle-busy_gpus (suc n) = refl

start-IsHeld : IsHeld start
start-IsHeld = record { cores_held = idle-busy; gpus_held = idle-busy_gpus }

-- The first task gives its cores back while the second one runs.
Reach-dealloc_example :
    (w : Worker) × (dealloc full first ≡ ok w) × IsHeld (record { worker = w; held = second ∷ [] })
Reach-dealloc_example = Reach-dealloc start both (second ∷ []) [] first start-IsHeld both_run refl

alloc_task-length_example :
    (length first.cores ≡ 2)
    × (length first.gpus ≡ 0)
    × ((n : ℕ) → times n first.cores + busy n idle.cores ≡ busy n part_busy.cores)
    × ((n : ℕ) → times n first.gpus + busy n idle.gpus ≡ busy n part_busy.gpus)
alloc_task-length_example =
    alloc_task-length idle part_busy two_cores first 2 0 refl refl two_cores_granted

abbrev four_cores : Request
four_cores = record { cores = pos 4; gpus = pos 0; resources = none }

request-misfit_example : request idle four_cores true ≡ raise key_error
request-misfit_example = request-misfit idle four_cores true refl refl
