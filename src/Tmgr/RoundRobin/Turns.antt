-- ===== src/Tmgr/RoundRobin/Turns.antt =====
-- The turns of the pilots in `_schedule_tasks` of src/radical/pilot/tmgr/scheduler/round_robin.py.
use radical_pilot.Prelude.{
  ℕ, zero, suc, ◌%◌, ◌≤◌, ◌<◌, ◌≡◌, refl, sym, ◌∙◌, ap, ap₂, subst, ltb, leb, true, if◌then◌else◌,
  Bool-cases, inl, inr, String, List, [], ◌∷◌, ◌++◌, map, map-append, append-nil, length, get_elem?,
  All, Option, some, ok, find, arith,
}
use native.Mathlib.Nat.{mod_self, mod-eq_of_lt, mod-lt, suc-mod, zero-mod}
use radical_pilot.Tmgr.Base.{Pilot, Entry, Task, Sandboxes, assign_pilot, assign_known}
use radical_pilot.Tmgr.RoundRobin.{
  Loop, settle_task, assign_to, next_idx, entry_at, assign_next, assign_all,
}

-- The pilot is known.
abbrev pub IsKnown : List (ℕ × Entry) → ℕ → Type 0
IsKnown ps pid =
    (e : Entry) × (p : Pilot) × (find pid ps ≡ some e) × (e.pilot ≡ some p) × (p.uid ≡ pid)

-- The session has sandboxes for each pilot and task.
abbrev pub GivesAll : Sandboxes → Type 0
GivesAll sandboxes = (p : Pilot) (t : Task) → (boxes : List String) × (sandboxes p t ≡ ok boxes)

-- Each task with its pilot, where the turn of the first task has number `start`.
unfoldable pub turns : List ℕ → ℕ → List Task → List (ℕ × Option ℕ)
turns pids start [] = []
turns pids start (t ∷ ts) =
    (t.uid, get_elem? pids (start % length pids)) ∷ turns pids (suc start) ts

-- The number of the first turn: an index beyond the pilots starts again at the first of them.
abbrev pub first_turn : List ℕ → ℕ → ℕ
first_turn pids idx = if ltb idx (length pids) then idx else 0

next_idx-mod :
    (pids : List ℕ) (idx : ℕ)
    → 0 < length pids
    → idx ≤ length pids
    → next_idx pids idx ≡ idx % length pids
next_idx-mod pids idx some_pid le = elim (Bool-cases (leb (length pids) idx)) [
  | inl e ↦
      let same : idx ≡ length pids = ground (arith, e, le) in
      rw e (sym (ap (λ i. i % length pids) same ∙ mod_self (length pids)))
  | inr e ↦ let small : idx < length pids = ground (arith, e) in rw e (sym (mod-eq_of_lt small))
]

get_elem?-IsKnown :
    (ps : List (ℕ × Entry)) (pids : List ℕ) (i : ℕ)
    → All (IsKnown ps) pids
    → i < length pids
    → (pid : ℕ) × (get_elem? pids i ≡ some pid) × IsKnown ps pid
get_elem?-IsKnown ps [] i h lt = absurd (omega (arith, lt))
get_elem?-IsKnown ps (pid ∷ pids) zero h lt = (pid, refl, h.0)
get_elem?-IsKnown ps (pid ∷ pids) (suc i) h lt = get_elem?-IsKnown ps pids i h.1 (omega (arith, lt))

-- What one turn does.
record Turn (ps : List (ℕ × Entry)) (pid : ℕ) (idx : ℕ) (given : Task) (l l' : Loop) : Type 0 where
  task : Task
  of_task : task.uid ≡ given.uid
  of_pilot : task.pilot ≡ some pid
  tasks_ok : l'.tasks_ok ≡ l.tasks_ok ++ task ∷ []
  tasks_fail : l'.tasks_fail ≡ l.tasks_fail
  next : l'.idx ≡ suc idx
  pilots : l'.base.pilots ≡ ps

assign_to-Turn :
    (sandboxes : Sandboxes) (idx pid : ℕ) (task : Task) (l : Loop)
    → GivesAll sandboxes
    → IsKnown l.base.pilots pid
    → Turn l.base.pilots pid idx task l (assign_to sandboxes idx (find pid l.base.pilots) task l)
unfolding assign_to settle_task assign_known assign_pilot
assign_to-Turn sandboxes idx pid task l gives (e, p, found, pilot, uid) =
    let (boxes, given) = gives p (record task { pilot = some p.uid }) in
    rw (found) (
      rw (pilot) (
        rw (given) (record {
          task = record task { pilot = some p.uid; sandboxes = some boxes };
          of_task = refl;
          of_pilot = ap some uid;
          tasks_ok = refl;
          tasks_fail = refl;
          next = refl;
          pilots = refl;
        })))

-- The tasks with the pilots that they have.
abbrev pub pilots_of : List Task → List (ℕ × Option ℕ)
pilots_of tasks = map (λ (t : Task). (t.uid, t.pilot)) tasks

-- What the loop adds to a state: no failed task, and the tasks given with their pilots.
abbrev IsAdded : List ℕ → ℕ → List Task → Loop → Loop → Type 0
IsAdded pids start tasks l l' =
    (pilots_of l'.tasks_ok ≡ pilots_of l.tasks_ok ++ turns pids start tasks)
    × (l'.tasks_fail ≡ l.tasks_fail)

next_turn : (n start idx : ℕ) → idx ≡ start % n → suc idx % n ≡ suc start % n
next_turn n start idx same = rw same (sym (suc-mod start n))

shift :
    (xs rest : List (ℕ × Option ℕ)) {x y : ℕ × Option ℕ}
    → y ≡ x
    → (xs ++ x ∷ []) ++ rest ≡ xs ++ y ∷ rest
shift [] rest e = ap (λ z. z ∷ rest) (sym e)
shift (w ∷ xs) rest e = ap (λ l. w ∷ l) (shift xs rest e)

Turn-IsAdded :
    {ps : List (ℕ × Entry)} {pid idx : ℕ} (pids : List ℕ) (start : ℕ) (task : Task)
    (tasks : List Task) (l l' end : Loop)
    → Turn ps pid idx task l l'
    → get_elem? pids (start % length pids) ≡ some pid
    → IsAdded pids (suc start) tasks l' end
    → IsAdded pids start (task ∷ tasks) l end
unfolding turns
Turn-IsAdded pids start task tasks l l' end turn here (placed, failed) =
    let rest = turns pids (suc start) tasks in
    let first =
      ap pilots_of turn.tasks_ok
      ∙ map-append (λ (t : Task). (t.uid, t.pilot)) l.tasks_ok (turn.task ∷ []) in
    let head : (task.uid, get_elem? pids (start % length pids)) ≡ (turn.task.uid, turn.task.pilot) =
      ap₂ (λ u p. (u, p)) (sym turn.of_task) (here ∙ sym turn.of_pilot) in
    (
      placed ∙ ap (λ xs. xs ++ rest) first ∙ shift (pilots_of l.tasks_ok) rest head,
      failed ∙ turn.tasks_fail,
    )

assign_all-IsAdded :
    (sandboxes : Sandboxes) (pids : List ℕ) (tasks : List Task) (start : ℕ) (l : Loop)
    → GivesAll sandboxes
    → 0 < length pids
    → All (IsKnown l.base.pilots) pids
    → next_idx pids l.idx ≡ start % length pids
    → IsAdded pids start tasks l (assign_all sandboxes pids tasks l)
unfolding assign_all assign_next turns
assign_all-IsAdded sandboxes pids [] start l gives some_pid known same =
    (sym (append-nil (pilots_of l.tasks_ok)), refl)
assign_all-IsAdded sandboxes pids (task ∷ tasks) start l gives some_pid known same =
    let idx = next_idx pids l.idx in
    let small : idx < length pids = rw same (mod-lt start some_pid) in
    let (pid, here, is_known) = get_elem?-IsKnown l.base.pilots pids idx known small in
    let l' = assign_to sandboxes idx (find pid l.base.pilots) task l in
    let turn = assign_to-Turn sandboxes idx pid task l gives is_known in
    let within : l'.idx ≤ length pids = omega (arith, turn.next, small) in
    let next =
      next_idx-mod pids l'.idx some_pid within
      ∙ ap (λ i. i % length pids) turn.next
      ∙ next_turn (length pids) start idx same in
    let later =
      assign_all-IsAdded sandboxes pids tasks (suc start) l' gives some_pid (rw (turn.pilots) known)
        next in
    let step : assign_next sandboxes pids task l ≡ l' =
      ap (λ o. assign_to sandboxes idx (entry_at o l.base.pilots) task l) here in
    subst (λ x. IsAdded pids start (task ∷ tasks) l (assign_all sandboxes pids tasks x)) (sym step)
      (Turn-IsAdded pids start task tasks l l' (assign_all sandboxes pids tasks l') turn
        (ap (get_elem? pids) (sym same) ∙ here) later)

next_idx-first_turn :
    (pids : List ℕ) (idx : ℕ)
    → 0 < length pids
    → next_idx pids idx ≡ first_turn pids idx % length pids
next_idx-first_turn pids idx some_pid = elim (Bool-cases (ltb idx (length pids))) [
  | inl e ↦
      let small : idx < length pids = ground (arith, e) in
      rw e (next_idx-mod pids idx some_pid (omega (arith, small)))
  | inr e ↦
      let large : leb (length pids) idx ≡ true = ground (arith, e) in
      rw (e, large) (sym (zero-mod (length pids)))
]

-- Where there are pilots, all known, and the session gives all sandboxes, no task fails, and each task is
-- assigned to the next pilot in turn, the first task to the pilot at the index, or to the first pilot where
-- the index is not below the number of pilots.
pub assign_all-turns :
    (sandboxes : Sandboxes) (pids : List ℕ) (tasks : List Task) (l : Loop)
    → GivesAll sandboxes
    → 0 < length pids
    → All (IsKnown l.base.pilots) pids
    → (pilots_of (assign_all sandboxes pids tasks l).tasks_ok
        ≡ pilots_of l.tasks_ok ++ turns pids (first_turn pids l.idx) tasks)
      × ((assign_all sandboxes pids tasks l).tasks_fail ≡ l.tasks_fail)
assign_all-turns sandboxes pids tasks l gives some_pid known =
    assign_all-IsAdded sandboxes pids tasks (first_turn pids l.idx) l gives some_pid known
      (next_idx-first_turn pids l.idx some_pid)
