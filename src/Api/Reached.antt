-- ===== src/Api/Reached.antt =====
-- The test of the loop in `TaskManager.wait_tasks` (src/radical/pilot/task_manager.py).
use radical_pilot.Prelude.{
  ℤ, pos, ◌≤ℤ◌, true, false, List, [], ◌∷◌, Any, Option, some, ◌≡◌, ◌↔◌, ◌⊎◌, refl, inl, inr, arith,
}
use radical_pilot.States.Task.{TaskState, done, failed, canceled, task_state_value, is_final}
use radical_pilot.Api.Wait.{states_or, min_ℤ, earliest, check_value, again}

abbrev pub IsEnd : Option TaskState → Type 0
IsEnd (some done) = Unit
IsEnd (some failed) = Unit
IsEnd (some canceled) = Unit
IsEnd _ = ⊥

-- A task is done, failed or canceled, or no earlier than one of the states.
abbrev pub Reached : List TaskState → Option TaskState → Type 0
Reached states s = IsEnd s ⊎ Any (λ t. task_state_value (some t) ≤ℤ task_state_value s) states

-- The three final states, and the others, which come before them.
pub data Phase (s : Option TaskState) : Type 0 where
  ended : is_final s ≡ true → IsEnd s → Phase s
  running : is_final s ≡ false → (IsEnd s → ⊥) → task_state_value s ≤ℤ pos 14 → Phase s

pub phase_of : (s : Option TaskState) → Phase s
unfolding task_state_value
phase_of (some done) = ended refl tt
phase_of (some failed) = ended refl tt
phase_of (some canceled) = ended refl tt
phase_of _ = running refl (λ h. h) (omega arith)

-- One of the states has a value of at most this.
abbrev Within : ℤ → List TaskState → Type 0
Within w states = Any (λ t. task_state_value (some t) ≤ℤ w) states

min_ℤ-≤ℤ : (a b w : ℤ) → (min_ℤ a b ≤ℤ w) ↔ ((a ≤ℤ w) ⊎ (b ≤ℤ w))
min_ℤ-≤ℤ a b w = ground arith

earliest-Within :
    (states : List TaskState) (v w : ℤ) → (earliest v states ≤ℤ w) ↔ ((v ≤ℤ w) ⊎ Within w states)
unfolding earliest
earliest-Within [] v w = (λ h. inl h, λ h. elim h [ inl k ↦ k | inr k ↦ absurd k ])
earliest-Within (s ∷ states) v w =
    let x = task_state_value (some s) in
    let rest = earliest-Within states (min_ℤ v x) w in
    let both = min_ℤ-≤ℤ v x w in
    (
      λ h. elim (rest.0 h) [
        | inr k ↦ inr (inr k)
        | inl k ↦ elim (both.0 k) [ inl m ↦ inl m | inr m ↦ inr (inl m) ]
      ],
      λ h. elim h [
        | inl k ↦ rest.1 (inl (both.1 (inl k)))
        | inr (inl k) ↦ rest.1 (inl (both.1 (inr k)))
        | inr (inr k) ↦ rest.1 (inr k)
      ],
    )

-- Of the final states none is within reach of a state that is not final.
check_value-Within :
    (states : List TaskState) (w : ℤ) → w ≤ℤ pos 14 → (check_value states ≤ℤ w) ↔ Within w states
unfolding check_value states_or task_state_value
check_value-Within [] w le =
    let all = earliest-Within (done ∷ failed ∷ canceled ∷ []) (pos 15) w in
    (
      λ h. elim (all.0 h) [
        | inl k ↦ absurd (omega (arith, k, le))
        | inr (inl k) ↦ absurd (omega (arith, k, le))
        | inr (inr (inl k)) ↦ absurd (omega (arith, k, le))
        | inr (inr (inr (inl k))) ↦ absurd (omega (arith, k, le))
        | inr (inr (inr (inr k))) ↦ absurd k
      ],
      λ h. absurd h,
    )
check_value-Within (s ∷ ss) w le =
    let all = earliest-Within (s ∷ ss) (pos 15) w in
    (λ h. elim (all.0 h) [ inl k ↦ absurd (omega (arith, k, le)) | inr k ↦ k ], λ h. all.1 (inr h))

pub again-Reached :
    (states : List TaskState) (s : Option TaskState)
    → again (check_value states) s ≡ false
    → Reached states s
unfolding again
again-Reached states s e = elim (phase_of s) [
  | ended f k ↦ inl k
  | running f k le ↦
      let late : check_value states ≤ℤ task_state_value s = (let m = rw f at e in ground arith) in
      inr ((check_value-Within states (task_state_value s) le).0 late)
]

pub again-missed :
    (states : List TaskState) (s : Option TaskState)
    → again (check_value states) s ≡ true
    → Reached states s
    → ⊥
unfolding again
again-missed states s e h = elim (phase_of s) [
  | ended f k ↦ let m = rw f at e in cc
  | running f k le ↦ elim h [
    | inl m ↦ k m
    | inr m ↦
        let late : check_value states ≤ℤ task_state_value s =
          (check_value-Within states (task_state_value s) le).1 m in
        let early = rw f at e in ground arith
  ]
]
