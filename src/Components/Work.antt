-- ===== src/Components/Work.antt =====
-- `Component.work_cb` of src/radical/pilot/utils/component.py, and the commands that cancel. The queues,
-- and the workers, which belong to the classes derived from `Component`, are parameters: what a queue
-- returns is given, and a worker says whether it returned and how it left its things. The lists of
-- states and the workers of an input are as `register_input` left them.
use radical_pilot.Prelude.{
  same, ℕ, Bool, true, false, ◌==◌, if◌then◌else◌, List, [], ◌∷◌, ◌++◌, Option, none, some, Result,
  ok, raise, assertion_error, guard, ◌>>=◌, ◌>>◌,
}
use radical_pilot.Components.Buckets.{sort_into}
use radical_pilot.Components.Advance.{Thing, Advanced, Routes, advance}

-- `uid in self._cancel_list`
unfoldable pub listed : ℕ → List ℕ → Bool
listed u [] = false
listed u (v ∷ vs) = let rest = listed u vs in if v == u then true else rest

-- `self._cancel_list.remove(uid)`: the first entry goes.
unfoldable pub remove : ℕ → List ℕ → List ℕ
remove u [] = []
remove u (v ∷ vs) = let rest = remove u vs in if v == u then vs else v ∷ rest

-- `_cancel_monitor_cb` on the command `cancel_tasks`
unfoldable pub cancel_monitor : List ℕ → List ℕ → List ℕ
cancel_monitor uids cancel_list = cancel_list ++ uids

-- `state in states`
module _ {S : Type 0} (dec : Discrete S) where
  unfoldable pub has : S → List S → Bool
  has s [] = false
  has s (t ∷ ts) = let rest = has s ts in if same dec t s then true else rest

module _ {S : Type 0} where
  -- The things of a bucket, each with whether it is to be canceled, and the list that is left.
  unfoldable pub mark_canceled : List ℕ → List (Thing S) → List ℕ × List (Thing S × Bool)
  mark_canceled cancel_list [] = (cancel_list, [])
  mark_canceled cancel_list (x ∷ xs) =
      let found = listed x.uid cancel_list in
      let rest = mark_canceled (if found then remove x.uid cancel_list else cancel_list) xs in
      (rest.0, (x, found) ∷ rest.1)

  unfoldable pub to_cancel : List (Thing S × Bool) → List (Thing S)
  to_cancel [] = []
  to_cancel ((x, true) ∷ xs) = x ∷ to_cancel xs
  to_cancel ((x, false) ∷ xs) = to_cancel xs

  -- The list of the bucket after the things to be canceled, objects in it, were advanced.
  unfoldable pub put_back : List (Thing S × Bool) → List (Thing S) → List (Thing S)
  put_back [] ys = []
  put_back ((x, false) ∷ xs) ys = x ∷ put_back xs ys
  put_back ((x, true) ∷ xs) [] = x ∷ put_back xs []
  put_back ((x, true) ∷ xs) (y ∷ ys) = y ∷ put_back xs ys

-- What a component does: it advances canceled things, hands things to a worker, and advances the
-- things of a worker that raised.
pub data Event (S W : Type 0) : Type 0 where
  canceled_things failed_things : Advanced S → Event S W
  handed_over : W → List (Thing S) → Event S W

-- The states that the code names: those in `FINAL`, those that are not `None`, and two of them.
pub record Names (S : Type 0) : Type 0 where
  pub final : S → Bool
  pub named : S → Bool
  pub failed : S
  pub canceled : S

module _ {S W : Type 0} (dec : Discrete S) (names : Names S) (r : Routes S)
    (run : W → List (Thing S) → Bool × List (Thing S)) where
  -- `except Exception`
  unfoldable pub fail_things : S → List (Thing S) → Result (List (Event S W))
  fail_things s things =
      if names.named s
      then (advance names.final dec r things (some names.failed) true false >>= λ a.
          ok (failed_things a ∷ []))
      else ok []

  unfoldable pub finish : S → W → List (Thing S) → Bool × List (Thing S) → Result (List (Event S W))
  finish s w things (true, after) = ok (handed_over w things ∷ [])
  finish s w things (false, after) =
      fail_things s after >>= λ failures. ok (handed_over w things ∷ failures)

  -- `self._workers[state](things)`, and what follows where it raises
  unfoldable pub hand_over : S → W → List (Thing S) → Result (List (Event S W))
  hand_over s w things = finish s w things (run w things)

  -- The worker is not called where the advance of the canceled things raised.
  unfoldable pub after_cancel :
      S
      → W
      → List (Thing S)
      → List (Thing S × Bool)
      → Result (Advanced S)
      → Result (List (Event S W))
  after_cancel s w things marked (raise e) = fail_things s things
  after_cancel s w things marked (ok a) = do
    events ← hand_over s w (put_back marked a.things)
    ok (canceled_things a ∷ events)

  unfoldable pub cancel_first :
      S → W → List (Thing S) → List (Thing S × Bool) → List (Thing S) → Result (List (Event S W))
  cancel_first s w things marked [] = hand_over s w things
  cancel_first s w things marked (x ∷ xs) =
      if names.named s
      then after_cancel s w things marked
          (advance names.final dec r (x ∷ xs) (some names.canceled) true false)
      else hand_over s w things

  unfoldable pub work_bucket :
      Option W → S → List (Thing S) → List ℕ → Result (List ℕ × List (Event S W))
  work_bucket none s things cancel_list = raise assertion_error
  work_bucket (some w) s things cancel_list = do
    let marked = mark_canceled cancel_list things
    events ← cancel_first s w things marked.1 (to_cancel marked.1)
    ok (marked.0, events)

  -- `for state,things in buckets.items()`
  unfoldable pub work_buckets :
      List S
      → (S → Option W)
      → List (S × List (Thing S))
      → List ℕ
      → Result (List ℕ × List (Event S W))
  work_buckets states workers [] cancel_list = ok (cancel_list, [])
  work_buckets states workers ((s, things) ∷ buckets) cancel_list = do
    guard (has dec s states) assertion_error
    one ← work_bucket (workers s) s things cancel_list
    rest ← work_buckets states workers buckets one.0
    ok (rest.0, one.1 ++ rest.1)

  -- `work_cb`: each input with its states and what its queue returns; the first that is empty ends the
  -- round.
  unfoldable pub work_cb :
      (S → Option W) → List (List S × List (Thing S)) → List ℕ → Result (List ℕ × List (Event S W))
  work_cb workers [] cancel_list = ok (cancel_list, [])
  work_cb workers ((states, []) ∷ inputs) cancel_list = ok (cancel_list, [])
  work_cb workers ((states, x ∷ xs) ∷ inputs) cancel_list = do
    one ← work_buckets states workers (sort_into dec (λ t. t.state) (x ∷ xs) []) cancel_list
    rest ← work_cb workers inputs one.0
    ok (rest.0, one.1 ++ rest.1)
