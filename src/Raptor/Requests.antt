-- ===== src/Raptor/Requests.antt =====
-- Requests that `_request_cb` of src/radical/pilot/raptor/worker.py cannot serve.
use radical_pilot.Prelude.{
  ℤ, pos, leb_ℤ, ltb_ℤ, Bool, true, false, Bool-cases, length, none, raise, assertion_error,
  key_error, ◌||◌, ◌≡◌, inl, inr, refl, arith,
}
use radical_pilot.Raptor.{Worker, Request, alloc_task, try_request, dealloc_task, request}

-- The count is below one, or the worker does not have so many cores or GPUs.
abbrev pub misfit : Worker → Request → Bool
misfit w t =
    ltb_ℤ t.cores (pos 1)
    || ltb_ℤ (pos (length w.cores)) t.cores
    || ltb_ℤ (pos (length w.gpus)) t.gpus

not_over : (a b : ℤ) → leb_ℤ a b ≡ true → ltb_ℤ b a ≡ false
not_over a b h = ground arith

none_over : (a b c : Bool) → a ≡ false → b ≡ false → c ≡ false → (a || b || c) ≡ false
none_over a b c p q r = rw (p, q, r) refl

alloc_task-misfit :
    (w : Worker) (t : Request) → misfit w t ≡ true → alloc_task w t ≡ raise assertion_error
unfolding alloc_task
alloc_task-misfit w t h = elim (Bool-cases (leb_ℤ (pos 1) t.cores)) [
  | inr e ↦ rw e refl
  | inl e ↦ elim (Bool-cases (leb_ℤ t.cores (pos (length w.cores)))) [
    | inr f ↦ rw (e, f) refl
    | inl f ↦ elim (Bool-cases (leb_ℤ t.gpus (pos (length w.gpus)))) [
      | inr g ↦ rw (e, f, g) refl
      | inl g ↦
          let fits : misfit w t ≡ false =
            none_over _ _ _ (not_over (pos 1) t.cores e) (not_over t.cores (pos (length w.cores)) f)
              (not_over t.gpus (pos (length w.gpus)) g) in
          cc
    ]
  ]
]

-- Such a request gets no reply where it has no resources yet: the handler of the failed assertion raises a
-- `KeyError`.
pub request-misfit :
    (w : Worker) (t : Request) (starts : Bool)
    → misfit w t ≡ true
    → t.resources ≡ none
    → request w t starts ≡ raise key_error
unfolding request try_request dealloc_task
request-misfit w t starts h e = rw (alloc_task-misfit w t h, e) refl
