-- ===== src/Agent/Ordered.antt =====
-- The scheduler that keeps the order of tasks, src/radical/pilot/agent/scheduler/continuous_ordered.py. The
-- placement of a task, `_try_allocation` of the base classes, is a parameter over its own state, and
-- what is advanced is returned; the first advance of incoming tasks to `AGENT_SCHEDULING` is left out.
-- Name spaces, orders and tasks are numbered.
pub mod InOrder
pub mod Rounds
use radical_pilot.Prelude.{
  ℕ, zero, suc, ◌+◌, Bool, true, false, not, ◌||◌, ◌==◌, ltb, if◌then◌else◌, List, [], ◌∷◌, ◌++◌,
  length, Option, none, some, Result, ok, raise, key_error, assertion_error, guard, ◌>>=◌, ◌>>◌,
  find, put,
}

pub record Tag : Type 0 where
  pub ns : ℕ
  pub order : ℕ
  pub size : ℕ

pub record Task : Type 0 where
  pub uid : ℕ
  pub tag : Option Tag

-- `_order_init`; `current` is the entry that the loop writes here.
pub record Order : Type 0 where
  pub size : ℕ
  pub uids : List ℕ
  pub done : List ℕ
  pub current : Option ℕ

pub record Space : Type 0 where
  pub current : ℕ
  pub orders : List (ℕ × Order)

pub record Ordered (P : Type 0) : Type 0 where
  pub pool : P
  pub unordered : List ℕ
  pub tasks : List ℕ
  pub spaces : List (ℕ × Space)

-- `uid in self._tasks`
unfoldable pub registered : ℕ → List ℕ → Bool
registered u [] = false
registered u (v ∷ vs) = let rest = registered u vs in if v == u then true else rest

pub record Placed (P : Type 0) : Type 0 where
  pub pool : P
  pub scheduled : List ℕ
  pub kept : List ℕ

abbrev pub complete : Order → Bool
complete o = o.size == length o.done

-- The largest number of an order
unfoldable pub last_order : List (ℕ × Order) → ℕ
last_order [] = 0
last_order ((k, o) ∷ orders) = let rest = last_order orders in if ltb rest k then k else rest

-- An order as the loop finds it: there is none, or it is complete, and the loop goes on, or it is not.
unfoldable pub seek_at :
    ℕ → List (ℕ × Order) → Option Order → List (ℕ × Order) × Option ℕ → List (ℕ × Order) × Option ℕ
seek_at current orders none later = (orders, none)
seek_at current orders (some o) later = if complete o then later else (orders, some current)

-- `order['current'] = current`
unfoldable pub mark_order : ℕ → Option Order → List (ℕ × Order) → List (ℕ × Order)
mark_order current none orders = orders
mark_order current (some o) orders = put current (record o { current = some (suc current) }) orders

-- `while True`: the orders, and the number of the first that is not complete, if there is one.
unfoldable pub seek : ℕ → ℕ → List (ℕ × Order) → List (ℕ × Order) × Option ℕ
seek zero current orders = (orders, none)
seek (suc fuel) current orders =
    let later = seek fuel (suc current) (mark_order current (find current orders) orders) in
    seek_at current orders (find current orders) later

module _ {P : Type 0} (allocate : P → ℕ → Result (P × Bool)) where
  -- A loop that tries to place each task; those of an order are looked up first.
  unfoldable pub place_all : (ℕ → Bool) → P → List ℕ → Result (Placed P)
  place_all known p [] = ok (record { pool = p; scheduled = []; kept = [] })
  place_all known p (u ∷ us) = do
    guard (known u) key_error
    one ← allocate p u
    rest ← place_all known one.0 us
    ok (record {
      pool = rest.pool;
      scheduled = if one.1 then u ∷ rest.scheduled else rest.scheduled;
      kept = if one.1 then rest.kept else u ∷ rest.kept;
    })

  -- The tasks of the order found are tried.
  unfoldable pub place_order :
      (ℕ → Bool) → P → Space → ℕ → List (ℕ × Order) → Option Order → Result (P × Space × List ℕ)
  place_order known p space k orders none = raise key_error
  place_order known p space k orders (some o) = do
    placed ← place_all known p o.uids
    ok (
      placed.pool,
      record space { orders = put k (record o { uids = placed.kept }) orders },
      placed.scheduled,
    )

  unfoldable pub place_found :
      (ℕ → Bool) → P → Space → List (ℕ × Order) × Option ℕ → Result (P × Space × List ℕ)
  place_found known p space (orders, none) = ok (p, record space { orders = orders }, [])
  place_found known p space (orders, some k) = place_order known p space k orders (find k orders)

  -- One name space; the fuel is more than the orders that can follow each other.
  unfoldable pub schedule_space : (ℕ → Bool) → P → Space → Result (P × Space × List ℕ)
  schedule_space known p space =
      place_found known p space (seek (suc (last_order space.orders)) space.current space.orders)

  unfoldable pub schedule_spaces :
      (ℕ → Bool) → P → List (ℕ × Space) → Result (P × List (ℕ × Space) × List ℕ)
  schedule_spaces known p [] = ok (p, [], [])
  schedule_spaces known p ((ns, space) ∷ spaces) = do
    one ← schedule_space known p space
    rest ← schedule_spaces known one.0 spaces
    ok (rest.0, (ns, one.1) ∷ rest.1, one.2 ++ rest.2)

  -- `_try_schedule`: the state, and the tasks that are advanced.
  unfoldable pub try_schedule : Ordered P → Result (Ordered P × List ℕ)
  try_schedule s = do
    placed ← place_all (λ u. true) s.pool s.unordered
    found ← schedule_spaces (λ u. registered u s.tasks) placed.pool s.spaces
    ok (
      record s { pool = found.0; unordered = placed.kept; spaces = found.1 },
      placed.scheduled ++ found.2,
    )

  abbrev space_or_new : Option Space → Space
  space_or_new none = record { current = 0; orders = [] }
  space_or_new (some space) = space

  abbrev order_or_new : ℕ → Option Order → Order
  order_or_new size none = record { size = size; uids = []; done = []; current = none }
  order_or_new size (some o) = o

  -- A new task of `_schedule_tasks`
  unfoldable pub register : Ordered P → ℕ → Option Tag → Result (Ordered P)
  register s u none = ok (record s { unordered = s.unordered ++ u ∷ [] })
  register s u (some tag) = do
    guard (not (registered u s.tasks)) assertion_error
    let space = space_or_new (find tag.ns s.spaces)
    let o = order_or_new tag.size (find tag.order space.orders)
    guard (tag.size == o.size) assertion_error
    let orders = put tag.order (record o { uids = o.uids ++ u ∷ [] }) space.orders
    ok (record s {
      tasks = u ∷ s.tasks;
      spaces = put tag.ns (record space { orders = orders }) s.spaces;
    })

  unfoldable pub register_all : Ordered P → List Task → Result (Ordered P)
  register_all s [] = ok s
  register_all s (t ∷ ts) = do s' ← register s t.uid t.tag; register_all s' ts

  -- `_schedule_tasks`
  unfoldable pub schedule_tasks : Ordered P → List Task → Result (Ordered P × List ℕ)
  schedule_tasks s ts = do s' ← register_all s ts; try_schedule s'

  abbrev with_done : ℕ → Order → Order
  with_done u o = record o { done = o.done ++ u ∷ [] }

  unfoldable pub note_order : Space → Tag → ℕ → Option Order → Result Space
  note_order space tag u none = raise key_error
  note_order space tag u (some o) =
      ok (record space { orders = put tag.order (with_done u o) space.orders })

  unfoldable pub note_space : Ordered P → Tag → ℕ → Option Space → Result (Ordered P)
  note_space s tag u none = raise key_error
  note_space s tag u (some space) = do
    space' ← note_order space tag u (find tag.order space.orders)
    ok (record s { spaces = put tag.ns space' s.spaces })

  -- A task of an update that reached the trigger state; `raise` for a tag is a `KeyError`.
  unfoldable pub note_done : Ordered P → ℕ → Option Tag → Result (Ordered P)
  note_done s u none = raise key_error
  note_done s u (some tag) = note_space s tag u (find tag.ns s.spaces)

  -- The loop of `_state_cb` over updates: whether each is of a task in the trigger state is given.
  unfoldable pub note_all : Ordered P → List (Task × Bool) → Result (Ordered P × Bool)
  note_all s [] = ok (s, false)
  note_all s ((t, triggers) ∷ things) =
      let counts = if triggers then registered t.uid s.tasks else false in
      (if counts then note_done s t.uid t.tag else ok s) >>= λ s'.
      note_all s' things >>= λ rest. ok (rest.0, counts || rest.1)

  unfoldable pub reschedule : Ordered P × Bool → Result (Ordered P × List ℕ)
  reschedule (s, false) = ok (s, [])
  reschedule (s, true) = try_schedule s

  -- `_state_cb`
  unfoldable pub state_cb : Ordered P → List (Task × Bool) → Result (Ordered P × List ℕ)
  state_cb s things = note_all s things >>= λ noted. reschedule noted
