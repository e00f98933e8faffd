-- ===== src/Agent/Continuous/Picks.antt =====
-- The two `while` loops of `_find_resources` in src/radical/pilot/agent/scheduler/continuous.py.
use radical_pilot.Prelude.{
  ℕ, zero, suc, ◌+◌, ◌-◌, ◌*◌, ◌≤◌, ◌≡◌, refl, ap, ap₂, ◌∙◌, List, [], ◌∷◌, ◌++◌, append-nil,
  concat, map, length, take, drop, All, Option, String, ok, arith,
}
use radical_pilot.Agent.Nodes.{Mark, free, busy, down, Node, Slot}
use radical_pilot.Agent.Continuous.Find.{PerSlot, count_free, pick, slot_at, build_slots}

-- The indices of the free marks, counted from `idx`.
unfoldable pub free_from : ℕ → List Mark → List ℕ
free_from idx [] = []
free_from idx (free ∷ ms) = idx ∷ free_from (suc idx) ms
free_from idx (busy ∷ ms) = free_from (suc idx) ms
free_from idx (down ∷ ms) = free_from (suc idx) ms

pub length-free_from : (idx : ℕ) (ms : List Mark) → length (free_from idx ms) ≡ count_free ms
unfolding free_from count_free
length-free_from idx [] = refl
length-free_from idx (free ∷ ms) = ap suc (length-free_from (suc idx) ms)
length-free_from idx (busy ∷ ms) = length-free_from (suc idx) ms
length-free_from idx (down ∷ ms) = length-free_from (suc idx) ms

-- What a call of `pick` returns where enough marks are free.
pub record Picked (want idx : ℕ) (ms : List Mark) : Type 0 where
  pub next : ℕ
  pub rest : List Mark
  pub picks : pick want idx ms ≡ ok (take want (free_from idx ms), next, rest)
  pub goes_on : free_from next rest ≡ drop want (free_from idx ms)

pub pick-Picked :
    (want idx : ℕ) (ms : List Mark) → want ≤ length (free_from idx ms) → Picked want idx ms
unfolding pick free_from
pick-Picked zero idx ms h = record { next = idx; rest = ms; picks = refl; goes_on = refl }
pick-Picked (suc want) idx [] h = absurd (omega arith)
pick-Picked (suc want) idx (free ∷ ms) h =
    let p = pick-Picked want (suc idx) ms (omega arith) in
    record { next = p.next; rest = p.rest; picks = rw (p.picks) refl; goes_on = p.goes_on }
pick-Picked (suc want) idx (busy ∷ ms) h =
    let p = pick-Picked (suc want) (suc idx) ms h in
    record { next = p.next; rest = p.rest; picks = p.picks; goes_on = p.goes_on }
pick-Picked (suc want) idx (down ∷ ms) h =
    let p = pick-Picked (suc want) (suc idx) ms h in
    record { next = p.next; rest = p.rest; picks = p.picks; goes_on = p.goes_on }

module _ {ℓ} {A : Type ℓ} where
  pub length-drop : (n : ℕ) (xs : List A) → length (drop n xs) ≡ length xs - n
  length-drop zero xs = omega arith
  length-drop (suc n) [] = omega arith
  length-drop (suc n) (x ∷ xs) = omega (arith, length-drop n xs)

  pub length-take_le : (n : ℕ) (xs : List A) → n ≤ length xs → length (take n xs) ≡ n
  length-take_le zero xs h = refl
  length-take_le (suc n) [] h = absurd (omega arith)
  length-take_le (suc n) (x ∷ xs) h = omega (arith, length-take_le n xs (omega arith))

  pub take-add : (m n : ℕ) (xs : List A) → take m xs ++ take n (drop m xs) ≡ take (m + n) xs
  take-add zero n xs = ap (λ (k : ℕ). take k xs) (omega arith)
  take-add (suc m) zero [] = let e : suc m + 0 ≡ suc m = omega arith in rw e
  take-add (suc m) (suc n) [] = let e : suc m + suc n ≡ suc (m + suc n) = omega arith in rw e
  take-add (suc m) n (x ∷ xs) =
      let e : suc m + n ≡ suc (m + n) = omega arith in rw (e, take-add m n xs)

pub concat_singles : (xs : List ℕ) → concat (map (λ (x : ℕ). x ∷ []) xs) ≡ xs
concat_singles [] = refl
concat_singles (x ∷ xs) = ap (λ l. x ∷ l) (concat_singles xs)

first_then_rest :
    (k n : ℕ) (xs : List ℕ) → take k xs ++ take (n * k) (drop k xs) ≡ take (suc n * k) xs
first_then_rest k n xs = take-add k (n * k) xs ∙ ap (λ (m : ℕ). take m xs) (omega arith)

-- All cores, and all GPUs, of a list of slots.
abbrev pub all_cores : List Slot → List ℕ
all_cores [] = []
all_cores (slot ∷ slots) = concat slot.core_map ++ all_cores slots

abbrev pub all_gpus : List Slot → List ℕ
all_gpus [] = []
all_gpus (slot ∷ slots) = concat slot.gpu_map ++ all_gpus slots

-- The slot has the name and uid of the node, and the amounts asked for.
pub record IsSlotOf (path : Option String) (node : Node) (per : PerSlot) (slot : Slot)
    : Type 0 where
  pub uid : slot.uid ≡ node.uid
  pub cores : length (concat slot.core_map) ≡ per.cores
  pub gpus : length (concat slot.gpu_map) ≡ per.gpus
  pub lfs : slot.lfs_size ≡ per.lfs
  pub mem : slot.mem ≡ per.mem
  pub path_of : slot.lfs_path ≡ path

module _ (path : Option String) (node : Node) (per : PerSlot) where
  -- What `build_slots` returns where enough marks are free.
  pub record Built (n ci : ℕ) (cs : List Mark) (gi : ℕ) (gs : List Mark) : Type 0 where
    pub slots : List Slot
    pub builds : build_slots path node per n ci cs gi gs ≡ ok slots
    pub count : length slots ≡ n
    pub cores : all_cores slots ≡ take (n * per.cores) (free_from ci cs)
    pub gpus : all_gpus slots ≡ take (n * per.gpus) (free_from gi gs)
    pub of_node : All (IsSlotOf path node per) slots

  pub build_slots-Built :
      (n ci : ℕ) (cs : List Mark) (gi : ℕ) (gs : List Mark)
      → n * per.cores ≤ length (free_from ci cs)
      → n * per.gpus ≤ length (free_from gi gs)
      → Built n ci cs gi gs
  unfolding build_slots
  build_slots-Built zero ci cs gi gs h k =
      let z : (m : ℕ) → 0 * m ≡ 0 = λ m. omega arith in
      record {
        slots = [];
        builds = refl;
        count = refl;
        cores = rw (z per.cores);
        gpus = rw (z per.gpus);
        of_node = tt;
      }
  build_slots-Built (suc n) ci cs gi gs h k =
      let c = pick-Picked per.cores ci cs (grind arith) in
      let g = pick-Picked per.gpus gi gs (grind arith) in
      let b =
        build_slots-Built n c.next c.rest g.next g.rest (rw (c.goes_on, length-drop) (grind arith))
          (rw (g.goes_on, length-drop) (grind arith)) in
      let cores = take per.cores (free_from ci cs) in
      let gpus = take per.gpus (free_from gi gs) in
      record {
        slots = slot_at path node per cores gpus ∷ b.slots;
        builds = rw (c.picks) (rw (g.picks) (rw (b.builds)));
        count = omega (arith, b.count);
        cores =
            ap₂ ◌++◌ (append-nil cores) (b.cores ∙ ap (take (n * per.cores)) (c.goes_on))
            ∙ first_then_rest per.cores n (free_from ci cs);
        gpus =
            ap₂ ◌++◌ (concat_singles gpus) (b.gpus ∙ ap (take (n * per.gpus)) (g.goes_on))
            ∙ first_then_rest per.gpus n (free_from gi gs);
        of_node = (
          record {
            uid = refl;
            cores =
                ap length (append-nil cores)
                ∙ length-take_le per.cores (free_from ci cs) (grind arith);
            gpus =
                ap length (concat_singles gpus)
                ∙ length-take_le per.gpus (free_from gi gs) (grind arith);
            lfs = refl;
            mem = refl;
            path_of = refl;
          },
          b.of_node,
        );
      }
