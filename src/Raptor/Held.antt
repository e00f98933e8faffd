-- ===== src/Raptor/Held.antt =====
-- Requests and results of a raptor worker (src/radical/pilot/raptor/worker.py) in any order: the
-- resources that are held are those marked, and each can be given back.
use radical_pilot.Prelude.{
  times, times-append, ℕ, ℤ, pos, negsuc, leb_ℤ, ltb_ℤ, ◌+◌, Bool, true, false, Bool-cases, List,
  [], ◌∷◌, ◌++◌, length, some, ok, assertion_error, guard, >>=-eq-ok, guard-eq-ok, ◌≡◌, inl, inr,
  refl, sym, ap, ◌∙◌, arith,
}
use radical_pilot.Raptor.{Worker, Resources, Request, count_free, mark, alloc, alloc_task, dealloc}
use radical_pilot.Raptor.Marks.{busy, mark-busy, length-mark, free_all-busy}

-- A worker, and the resources of the tasks that run on it.
pub record Running : Type 0 where
  pub worker : Worker
  pub held : List Resources

abbrev pub held_cores : List Resources → List ℕ
held_cores [] = []
held_cores (r ∷ rs) = r.cores ++ held_cores rs

abbrev pub held_gpus : List Resources → List ℕ
held_gpus [] = []
held_gpus (r ∷ rs) = r.gpus ++ held_gpus rs

-- What happens to a worker: a request is granted, or the result of a task comes in.
pub data Step : Running → Running → Type 0 where
  granted :
      (s : Running) (t : Request) (w : Worker) (r : Resources)
      → alloc_task s.worker t ≡ ok (some (w, r))
      → Step s (record { worker = w; held = r ∷ s.held })
  result :
      (w w' : Worker) (before after : List Resources) (r : Resources)
      → dealloc w r ≡ ok w'
      → Step
          (record { worker = w; held = before ++ r ∷ after })
          (record { worker = w'; held = before ++ after })

pub data Reach : Running → Running → Type 0 where
  stay : (s : Running) → Reach s s
  next : (s s' s'' : Running) → Step s s' → Reach s' s'' → Reach s s''

-- Each index is held by as many tasks as it is marked, so by none or by one.
pub record IsHeld (s : Running) : Type 0 where
  pub cores_held : (n : ℕ) → times n (held_cores s.held) ≡ busy n s.worker.cores
  pub gpus_held : (n : ℕ) → times n (held_gpus s.held) ≡ busy n s.worker.gpus

alloc-busy :
    (k : ℤ) (n : ℕ) (xs : List Bool) → times n (alloc k xs).1 + busy n xs ≡ busy n (alloc k xs).0
unfolding alloc
alloc-busy (pos k) n xs =
    let same : n ≡ 0 + n = omega arith in
    ap (λ m. times m (mark k 0 xs).1 + busy n xs) same ∙ mark-busy k 0 n xs
alloc-busy (negsuc k) n xs =
    let same : n ≡ 0 + n = omega arith in
    ap (λ m. times m (mark (count_free xs) 0 xs).1 + busy n xs) same
    ∙ mark-busy (count_free xs) 0 n xs

alloc_task-some :
    (w w' : Worker) (t : Request) (r : Resources)
    → alloc_task w t ≡ ok (some (w', r))
    → (leb_ℤ (pos 1) t.cores ≡ true)
      × (ltb_ℤ (pos (count_free w.cores)) t.cores ≡ false)
      × (ltb_ℤ (pos (count_free w.gpus)) t.gpus ≡ false)
      × (w' ≡ record { cores = (alloc t.cores w.cores).0; gpus = (alloc t.gpus w.gpus).0 })
      × (r ≡ record { cores = (alloc t.cores w.cores).1; gpus = (alloc t.gpus w.gpus).1 })
unfolding alloc_task
alloc_task-some w w' t r h =
    let (u1, e1, h1) = >>=-eq-ok (guard (leb_ℤ (pos 1) t.cores) assertion_error) _ h in
    let (u2, e2, h2) =
      >>=-eq-ok (guard (leb_ℤ t.cores (pos (length w.cores))) assertion_error) _ h1 in
    let (u3, e3, h3) =
      >>=-eq-ok (guard (leb_ℤ t.gpus (pos (length w.gpus))) assertion_error) _ h2 in
    elim (Bool-cases (ltb_ℤ (pos (count_free w.cores)) t.cores)) [
      | inl f ↦ let k = rw f at h3 in cc
      | inr f ↦ elim (Bool-cases (ltb_ℤ (pos (count_free w.gpus)) t.gpus)) [
        | inl g ↦ let k = rw (f, g) at h3 in cc
        | inr g ↦ let k = rw (f, g) at h3 in (guard-eq-ok _ assertion_error e1, f, g, cc, cc)
      ]
    ]

granted-IsHeld :
    (s : Running) (t : Request) (w : Worker) (r : Resources)
    → alloc_task s.worker t ≡ ok (some (w, r))
    → IsHeld s
    → IsHeld (record { worker = w; held = r ∷ s.held })
granted-IsHeld s t w r h k =
    let (e, f, g, p, q) = alloc_task-some s.worker w t r h in
    rw (p, q)
      (record {
        cores_held = λ n.
            let a = alloc-busy t.cores n s.worker.cores in
            let b = k.cores_held n in
            let c = times-append n (alloc t.cores s.worker.cores).1 (held_cores s.held) in
            omega arith;
        gpus_held = λ n.
            let a = alloc-busy t.gpus n s.worker.gpus in
            let b = k.gpus_held n in
            let c = times-append n (alloc t.gpus s.worker.gpus).1 (held_gpus s.held) in omega arith;
      })

times-held_cores :
    (n : ℕ) (xs ys : List Resources)
    → times n (held_cores (xs ++ ys)) ≡ times n (held_cores xs) + times n (held_cores ys)
times-held_cores n [] ys = unfold times in omega arith
times-held_cores n (r ∷ xs) ys =
    let a = times-append n r.cores (held_cores (xs ++ ys)) in
    let b = times-append n r.cores (held_cores xs) in
    let c = times-held_cores n xs ys in omega arith

times-held_gpus :
    (n : ℕ) (xs ys : List Resources)
    → times n (held_gpus (xs ++ ys)) ≡ times n (held_gpus xs) + times n (held_gpus ys)
times-held_gpus n [] ys = unfold times in omega arith
times-held_gpus n (r ∷ xs) ys =
    let a = times-append n r.gpus (held_gpus (xs ++ ys)) in
    let b = times-append n r.gpus (held_gpus xs) in let c = times-held_gpus n xs ys in omega arith

-- Resources that are held can be given back, whatever else is held.
dealloc-IsHeld :
    (w : Worker) (before after : List Resources) (r : Resources)
    → IsHeld (record { worker = w; held = before ++ r ∷ after })
    → (w' : Worker) × (dealloc w r ≡ ok w')
      × IsHeld (record { worker = w'; held = before ++ after })
unfolding dealloc
dealloc-IsHeld w before after r h =
    let (cores, e, f) = free_all-busy r.cores w.cores (λ n.
      let a = h.cores_held n in
      let b = times-held_cores n before (r ∷ after) in
      let c = times-append n r.cores (held_cores after) in omega arith) in
    let (gpus, g, k) = free_all-busy r.gpus w.gpus (λ n.
      let a = h.gpus_held n in
      let b = times-held_gpus n before (r ∷ after) in
      let c = times-append n r.gpus (held_gpus after) in omega arith) in
    (
      record { cores = cores; gpus = gpus },
      rw (e, g) refl,
      record {
        cores_held = λ n.
            let a = h.cores_held n in
            let b = times-held_cores n before (r ∷ after) in
            let c = times-append n r.cores (held_cores after) in
            let d = times-held_cores n before after in let u = f n in omega arith;
        gpus_held = λ n.
            let a = h.gpus_held n in
            let b = times-held_gpus n before (r ∷ after) in
            let c = times-append n r.gpus (held_gpus after) in
            let d = times-held_gpus n before after in let u = k n in omega arith;
      },
    )

step-IsHeld : (s s' : Running) → Step s s' → IsHeld s → IsHeld s'
step-IsHeld _ _ (granted s t w r e) h = granted-IsHeld s t w r e h
step-IsHeld _ _ (result w w' before after r e) h =
    let (w1, f, k) = dealloc-IsHeld w before after r h in let same : w1 ≡ w' = cc in rw (sym same) k

Reach-IsHeld : (s s' : Running) → Reach s s' → IsHeld s → IsHeld s'
Reach-IsHeld _ _ (stay s) h = h
Reach-IsHeld _ _ (next s s1 s' step rest) h = Reach-IsHeld s1 s' rest (step-IsHeld s s1 step h)

-- After any row of requests and results, the resources that a task holds can be given back: no assertion
-- of `_dealloc_task` fails, and no index is out of range.
pub Reach-dealloc :
    (s s' : Running) (before after : List Resources) (r : Resources)
    → IsHeld s
    → Reach s s'
    → s'.held ≡ before ++ r ∷ after
    → (w : Worker) × (dealloc s'.worker r ≡ ok w)
      × IsHeld (record { worker = w; held = before ++ after })
Reach-dealloc s s' before after r h reach e =
    let k = Reach-IsHeld s s' reach h in
    dealloc-IsHeld s'.worker before after r (record {
      cores_held = λ n. rw (sym e) (k.cores_held n);
      gpus_held = λ n. rw (sym e) (k.gpus_held n);
    })

-- A request is granted with as many free cores and GPUs as it asks for, if it asks for no negative count.
pub alloc_task-length :
    (w w' : Worker) (t : Request) (r : Resources) (c g : ℕ)
    → t.cores ≡ pos c
    → t.gpus ≡ pos g
    → alloc_task w t ≡ ok (some (w', r))
    → (length r.cores ≡ c)
      × (length r.gpus ≡ g)
      × ((n : ℕ) → times n r.cores + busy n w.cores ≡ busy n w'.cores)
      × ((n : ℕ) → times n r.gpus + busy n w.gpus ≡ busy n w'.gpus)
unfolding alloc
alloc_task-length w w' t r c g p q h =
    let (e, f, k, a, b) = alloc_task-some w w' t r h in
    rw (a, b)
      (
        rw p (
            length-mark c 0 w.cores (
              let f' : ltb_ℤ (pos (count_free w.cores)) (pos c) ≡ false = rw (sym p) f in
              ground arith)),
        rw q (
            length-mark g 0 w.gpus (
              let k' : ltb_ℤ (pos (count_free w.gpus)) (pos g) ≡ false = rw (sym q) k in
              ground arith)),
        λ n. alloc-busy t.cores n w.cores,
        λ n. alloc-busy t.gpus n w.gpus,
      )
