-- ===== src/Api/Tasks/Named.antt =====
-- Tasks kept by their uids, and what a log tells of one of them (src/radical/pilot/task_manager.py).
use radical_pilot.Prelude.{
  ℕ, false, ◌==◌, ==_refl, ==_iff, Bool-cases, List, [], ◌∷◌, ◌++◌, map, All, Option, some, ◌≡◌,
  inl, inr, refl, sym, ap, ◌∙◌, if◌then◌else◌, find, put,
}
use radical_pilot.States.Task.{TaskState}
use radical_pilot.States.Replay.{last_or}
use radical_pilot.Api.Tasks.{Task, TaskLog}

-- Each task is kept by its uid.
abbrev pub Named : List (ℕ × Task) → Type 0
Named tasks = All (λ (x : ℕ × Task). x.1.uid ≡ x.0) tasks

pub find-Named :
    (u : ℕ) (tasks : List (ℕ × Task)) (t : Task) → Named tasks → find u tasks ≡ some t → t.uid ≡ u
unfolding find
find-Named u [] t h e = cc
find-Named u ((k, v) ∷ tasks) t h e = elim (Bool-cases (k == u)) [
  | inl f ↦
      let p : k ≡ u = (==_iff k u).0 f in
      let q : some v ≡ some t = (rw f at e) in let r : v ≡ t = cc in rw (sym r) (h.0 ∙ p)
  | inr f ↦ find-Named u tasks t h.1 (rw f at e)
]

pub put-Named :
    (u : ℕ) (tasks : List (ℕ × Task)) (t : Task) → Named tasks → t.uid ≡ u → Named (put u t tasks)
unfolding put
put-Named u [] t h e = (e, tt)
put-Named u ((k, v) ∷ tasks) t h e = elim (Bool-cases (k == u)) [
  | inl f ↦ rw f (e ∙ sym ((==_iff k u).0 f), h.1)
  | inr f ↦ rw f (h.0, put-Named u tasks t h.1 e)
]

-- What the application is told of one task.
unfoldable pub log_of : ℕ → TaskLog → List (Option TaskState)
log_of u [] = []
log_of u ((v, s) ∷ log) = let rest = log_of u log in if v == u then s ∷ rest else rest

pub log_of-append : (u : ℕ) (xs ys : TaskLog) → log_of u (xs ++ ys) ≡ log_of u xs ++ log_of u ys
unfolding log_of
log_of-append u [] ys = refl
log_of-append u ((v, s) ∷ xs) ys = elim (Bool-cases (v == u)) [
  | inl e ↦ rw (e, log_of-append u xs ys) refl
  | inr e ↦ rw (e, log_of-append u xs ys) refl
]

pub log_of_same : (u : ℕ) (xs : List (Option TaskState)) → log_of u (map (λ s. (u, s)) xs) ≡ xs
unfolding log_of
log_of_same u [] = refl
log_of_same u (x ∷ xs) = rw (==_refl u) (ap (λ ys. x ∷ ys) (log_of_same u xs))

pub log_of_other :
    (u v : ℕ) (xs : List (Option TaskState))
    → (v == u) ≡ false
    → log_of u (map (λ s. (v, s)) xs) ≡ []
unfolding log_of
log_of_other u v [] h = refl
log_of_other u v (x ∷ xs) h = rw h (log_of_other u v xs h)

pub last_or-append :
    (s : Option TaskState) (xs ys : List (Option TaskState))
    → last_or s (xs ++ ys) ≡ last_or (last_or s xs) ys
unfolding last_or
last_or-append s [] ys = refl
last_or-append s (x ∷ xs) ys = last_or-append x xs ys
