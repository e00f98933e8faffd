-- ===== src/Api/Released.antt =====
-- The query and the update of the database by `TaskManager._pilot_state_cb` of
-- src/radical/pilot/task_manager.py, for one pilot.
use radical_pilot.Prelude.{
  ℕ, ◌+◌, Bool, true, false, ◌&&◌, ◌||◌, ◌==◌, ==_refl, Bool-cases, if◌then◌else◌, List, [], ◌∷◌,
  map, All, All-imp, times, Option, ◌≡◌, refl, sym, ap, ap₂, subst, ◌∙◌, inl, inr, arith,
}
use radical_pilot.States.Pilot.{PilotState, is_final as is_final_pilot}
use radical_pilot.Components.Buckets.{keep}
use radical_pilot.Components.Work.{listed}
use radical_pilot.Api.Pull.{
  Doc, doc_uids, tmgr, with_agent, bound_to, found_by, find_tasks, set_control, update_tasks,
}

-- The pilot of a task is listed with a final state.
abbrev pub has_ended : List (ℕ × Option PilotState) → Option ℕ → Bool
has_ended [] q = false
has_ended ((p, s) ∷ pilots) q = (bound_to p q && is_final_pilot s) || has_ended pilots q

-- An agent has the task, and its pilot has ended.
abbrev pub is_lost : List (ℕ × Option PilotState) → Doc → Bool
is_lost pilots d = has_ended pilots d.pilot && with_agent d.control

-- No two documents have one uid.
abbrev pub IsUnique : List Doc → Type 0
IsUnique [] = Unit
IsUnique (d ∷ ds) = All (λ e. (d.thing.uid == e.thing.uid) ≡ false) ds × IsUnique ds

-- The lost tasks are the manager's, the others stay as they are.
abbrev pub given_back : List (ℕ × Option PilotState) → Doc → Doc
given_back pilots d = if is_lost pilots d then record d { control = tmgr } else d

swap_== : (m n : ℕ) → (m == n) ≡ (n == m)
swap_== m n = ground arith

All-both :
    {P Q R : Doc → Type 0}
    → ((d : Doc) → P d → Q d → R d)
    → (ds : List Doc) → All P ds
    → All Q ds
    → All R ds
All-both f [] h k = tt
All-both f (d ∷ ds) h k = (f d h.0 k.0, All-both f ds h.1 k.1)

not_listed :
    (p : Doc → Bool) (u : ℕ) (db : List Doc)
    → All (λ e. (u == e.thing.uid) ≡ false) db
    → listed u (doc_uids (keep p db)) ≡ false
unfolding listed keep
not_listed p u [] h = refl
not_listed p u (x ∷ db) h = elim (Bool-cases (p x)) [
  | inl e ↦
      let apart : (x.thing.uid == u) ≡ false = swap_== x.thing.uid u ∙ h.0 in
      rw (e, apart) (not_listed p u db h.1)
  | inr e ↦ rw e (not_listed p u db h.1)
]

-- Of the documents, those that pass a test are the ones whose uids are listed for it.
listed-IsUnique :
    (p : Doc → Bool) (db : List Doc)
    → IsUnique db
    → All (λ d. listed d.thing.uid (doc_uids (keep p db)) ≡ p d) db
unfolding listed keep
listed-IsUnique p [] h = tt
listed-IsUnique p (x ∷ db) h = elim (Bool-cases (p x)) [
  | inl e ↦
      let kept : x ∷ keep p db ≡ keep p (x ∷ db) = rw e refl in
      let here : listed x.thing.uid (x.thing.uid ∷ doc_uids (keep p db)) ≡ p x =
        rw (e, ==_refl x.thing.uid) refl in
      let rest =
        All-both {P = λ d. (x.thing.uid == d.thing.uid) ≡ false}
          {Q = λ d. listed d.thing.uid (doc_uids (keep p db)) ≡ p d}
          {R = λ d. listed d.thing.uid (x.thing.uid ∷ doc_uids (keep p db)) ≡ p d} (λ d a b. rw a b)
          db h.0 (listed-IsUnique p db h.1) in
      subst (λ ds. All (λ d. listed d.thing.uid (doc_uids ds) ≡ p d) (x ∷ db)) kept (here, rest)
  | inr e ↦
      let kept : keep p db ≡ keep p (x ∷ db) = rw e refl in
      let here : listed x.thing.uid (doc_uids (keep p db)) ≡ p x =
        not_listed p x.thing.uid db h.0 ∙ sym e in
      subst (λ ds. All (λ d. listed d.thing.uid (doc_uids ds) ≡ p d) (x ∷ db)) kept
        (here, listed-IsUnique p db h.1)
]

-- What the update for one pilot does to a document.
abbrev pub released : ℕ → Doc → Doc
released p d = if found_by p d then record d { control = tmgr } else d

pub map-All : (f g : Doc → Doc) (ds : List Doc) → All (λ d. f d ≡ g d) ds → map f ds ≡ map g ds
map-All f g [] h = refl
map-All f g (d ∷ ds) h = ap₂ (λ x xs. x ∷ xs) h.0 (map-All f g ds h.1)

pub update_tasks-released :
    (p : ℕ) (db : List Doc)
    → IsUnique db
    → update_tasks (doc_uids (find_tasks p db)) db ≡ map (released p) db
unfolding update_tasks find_tasks set_control
update_tasks-released p db h =
    map-All (set_control (doc_uids (keep (found_by p) db))) (released p) db
      (All-imp (λ d e. rw e refl) db (listed-IsUnique (found_by p) db h))

released-uid : (p : ℕ) (d : Doc) → (released p d).thing.uid ≡ d.thing.uid
released-uid p d = elim (Bool-cases (found_by p d)) [ inl e ↦ rw e refl | inr e ↦ rw e refl ]

released-apart :
    (p u : ℕ) (db : List Doc)
    → All (λ e. (u == e.thing.uid) ≡ false) db
    → All (λ e. (u == e.thing.uid) ≡ false) (map (released p) db)
released-apart p u [] h = tt
released-apart p u (d ∷ db) h = (rw (released-uid p d) (h.0), released-apart p u db h.1)

pub released-IsUnique : (p : ℕ) (db : List Doc) → IsUnique db → IsUnique (map (released p) db)
released-IsUnique p [] h = tt
released-IsUnique p (d ∷ db) h = (
  released-apart p (released p d).thing.uid db (rw (released-uid p d) (h.0)),
  released-IsUnique p db h.1,
)

-- A document counts for a uid if it passes both tests.
abbrev weight : ℕ → (Doc → Bool) → (Doc → Bool) → Doc → ℕ
weight u q p d = if p d && q d then (if d.thing.uid == u then 1 else 0) else 0

times-keep :
    (u : ℕ) (q p : Doc → Bool) (d : Doc) (ds : List Doc)
    → times u (doc_uids (keep q (keep p (d ∷ ds))))
      ≡ weight u q p d + times u (doc_uids (keep q (keep p ds)))
unfolding times keep
times-keep u q p d ds = elim (Bool-cases (p d)) [
  | inr e ↦ rw e (omega arith)
  | inl e ↦ elim (Bool-cases (q d)) [ inl f ↦ rw (e, f) refl | inr f ↦ rw (e, f) (omega arith) ]
]

module _ (p : ℕ) (s : Option PilotState) (pilots : List (ℕ × Option PilotState))
    (ended : is_final_pilot s ≡ true) where
  -- What is lost by a pilot that has ended is given back, and is not lost again.
  pub released-given_back :
      (d : Doc) → given_back pilots (released p d) ≡ given_back ((p, s) ∷ pilots) d
  unfolding with_agent
  released-given_back d = elim (Bool-cases (bound_to p d.pilot)) [
    | inr a ↦ rw a refl
    | inl a ↦ elim (Bool-cases (has_ended pilots d.pilot)) [
      | inl g ↦ elim (Bool-cases (with_agent d.control)) [
        | inl c ↦ rw (a, c, ended, g) refl
        | inr c ↦ rw (a, c, g, c, ended) refl
      ]
      | inr g ↦ elim (Bool-cases (with_agent d.control)) [
        | inl c ↦ rw (a, c, ended, g) refl
        | inr c ↦ rw (a, c, g, ended) refl
      ]
    ]
  ]

  weight-released :
      (u : ℕ) (q : Doc → Bool) (d : Doc)
      → weight u q (is_lost ((p, s) ∷ pilots)) d
        ≡ weight u q (found_by p) d + weight u q (is_lost pilots) (released p d)
  unfolding with_agent
  weight-released u q d = ground (arith, ended)

  pub times-released :
      (u : ℕ) (q : Doc → Bool) (db : List Doc)
      → times u (doc_uids (keep q (keep (is_lost ((p, s) ∷ pilots)) db)))
        ≡ times u (doc_uids (keep q (find_tasks p db)))
          + times u (doc_uids (keep q (keep (is_lost pilots) (map (released p) db))))
  unfolding find_tasks
  times-released u q [] = unfold keep times in refl
  times-released u q (d ∷ db) = omega (
    arith,
    times-keep u q (is_lost ((p, s) ∷ pilots)) d db,
    times-keep u q (found_by p) d db,
    times-keep u q (is_lost pilots) (released p d) (map (released p) db),
    weight-released u q d,
    times-released u q db,
  )

pub keep_all : (ds : List Doc) → keep (λ d. true) ds ≡ ds
unfolding keep
keep_all [] = refl
keep_all (d ∷ ds) = ap (λ es. d ∷ es) (keep_all ds)
