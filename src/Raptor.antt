-- ===== src/Raptor.antt =====
-- The resources of a raptor worker: `_alloc_task`, `_dealloc_task` and `_request_cb` of
-- src/radical/pilot/raptor/worker.py. The counts `_n_cores` and `_n_gpus` are the lengths of the lists that
-- `__init__` makes with them; an entry is true where the source has 1.
pub mod Marks
pub mod Held
pub mod Requests
use radical_pilot.Prelude.{
  ℕ, ℤ, pos, negsuc, leb_ℤ, ltb_ℤ, zero, suc, ◌+◌, Bool, true, false, if◌then◌else◌, List, [], ◌∷◌,
  length, get_elem?, Option, none, some, Result, ok, raise, assertion_error, index_error, key_error,
  guard, ◌>>=◌, ◌>>◌,
}

pub record Worker : Type 0 where
  pub cores : List Bool
  pub gpus : List Bool

pub record Resources : Type 0 where
  pub cores : List ℕ
  pub gpus : List ℕ

-- What is read of a task; the counts are those of `task.get` with its defaults.
pub record Request : Type 0 where
  pub cores : ℤ
  pub gpus : ℤ
  pub resources : Option Resources

-- `….count(0)`
unfoldable pub count_free : List Bool → ℕ
count_free [] = 0
count_free (true ∷ xs) = count_free xs
count_free (false ∷ xs) = suc (count_free xs)

-- The loop over `range(…)` from an index on, which stops once it has found so many.
unfoldable pub mark : ℕ → ℕ → List Bool → List Bool × List ℕ
mark zero i xs = (xs, [])
mark (suc k) i [] = ([], [])
mark (suc k) i (true ∷ xs) = let rest = mark (suc k) (suc i) xs in (true ∷ rest.0, rest.1)
mark (suc k) i (false ∷ xs) = let rest = mark k (suc i) xs in (true ∷ rest.0, i ∷ rest.1)

-- `if cores:` and the loop; below zero the loop never stops early.
unfoldable pub alloc : ℤ → List Bool → List Bool × List ℕ
alloc (pos k) xs = mark k 0 xs
alloc (negsuc k) xs = mark (count_free xs) 0 xs

-- `_alloc_task`: nothing where resources are missing.
unfoldable pub alloc_task : Worker → Request → Result (Option (Worker × Resources))
alloc_task w t = do
  guard (leb_ℤ (pos 1) t.cores) assertion_error
  guard (leb_ℤ t.cores (pos (length w.cores))) assertion_error
  guard (leb_ℤ t.gpus (pos (length w.gpus))) assertion_error
  let cores = alloc t.cores w.cores
  let gpus = alloc t.gpus w.gpus
  ok (
      if ltb_ℤ (pos (count_free w.cores)) t.cores
      then none
      else if ltb_ℤ (pos (count_free w.gpus)) t.gpus
      then none
      else some
          (record { cores = cores.0; gpus = gpus.0 }, record { cores = cores.1; gpus = gpus.1 }))

-- `assert(….[n])` and `….[n] = 0`
unfoldable pub free_one : ℕ → List Bool → Result (List Bool)
free_one n [] = raise index_error
free_one zero (true ∷ xs) = ok (false ∷ xs)
free_one zero (false ∷ xs) = raise assertion_error
free_one (suc n) (x ∷ xs) = do ys ← free_one n xs; ok (x ∷ ys)

unfoldable pub free_all : List ℕ → List Bool → Result (List Bool)
free_all [] xs = ok xs
free_all (n ∷ ns) xs = do ys ← free_one n xs; free_all ns ys

-- `_dealloc_task`; `raise` is a `KeyError` where the task has no resources.
unfoldable pub dealloc : Worker → Resources → Result Worker
dealloc w res = do
  cores ← free_all res.cores w.cores
  gpus ← free_all res.gpus w.gpus
  ok (record { cores = cores; gpus = gpus })

unfoldable pub dealloc_task : Worker → Option Resources → Result Worker
dealloc_task w none = raise key_error
dealloc_task w (some res) = dealloc w res

-- What a try of `_request_cb` comes to: it waits, the task runs, or an error is sent back.
pub data Outcome : Type 0 where
  waits : Outcome
  runs : Worker → Resources → Outcome
  replies : Worker → Outcome

-- Whether the process of the task starts is given.
unfoldable pub start_task : Bool → Option (Worker × Resources) → Result Outcome
start_task starts none = ok waits
start_task true (some (w, res)) = ok (runs w res)
start_task false (some (w, res)) = do w' ← dealloc_task w (some res); ok (replies w')

-- The handler of exceptions frees the resources of the task, here those that it came with.
unfoldable pub try_request :
    Worker → Request → Bool → Result (Option (Worker × Resources)) → Result Outcome
try_request w t starts (raise e) = do w' ← dealloc_task w t.resources; ok (replies w')
try_request w t starts (ok found) = start_task starts found

-- One try of `_request_cb`
unfoldable pub request : Worker → Request → Bool → Result Outcome
request w t starts = try_request w t starts (alloc_task w t)
