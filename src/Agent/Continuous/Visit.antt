-- ===== src/Agent/Continuous/Visit.antt =====
-- The loop body of `schedule_task` (continuous.py) on one node, case by case.
use radical_pilot.Prelude.{
  ◌-◌, min, ◌≡◌, ◌≢◌, refl, ◌⊎◌, inl, inr, pos, ◌≤ℤ◌, Bool, false, ◌==◌, Bool-cases, Option-cases,
  List, [], ◌∷◌, ◌++◌, length, Option, none, some, String, ok, arith,
}
use radical_pilot.Agent.Nodes.{Node, Slot}
use radical_pilot.Agent.Continuous.Task.{Config, State}
use radical_pilot.Agent.Continuous.Found.{Found, find_resources-Found}
use radical_pilot.Agent.Continuous.Search.{
  Request, Progress, tag_excludes, node_partition, settle, visit, is_last_now, partial_now,
}

pub record Kept (p : Progress) (res : Progress × Bool) : Type 0 where
  pub slots : res.0.alc_slots ≡ p.alc_slots
  pub rem : res.0.rem_slots ≡ p.rem_slots
  pub goes_on : res.1 ≡ false

pub record Restarted (r : Request) (res : Progress × Bool) : Type 0 where
  pub slots : res.0.alc_slots ≡ []
  pub rem : res.0.rem_slots ≡ r.req_slots
  pub goes_on : res.1 ≡ false

pub record Added (cfg : Config) (s : State) (r : Request) (node : Node) (p : Progress)
    (res : Progress × Bool) : Type 0 where
  pub new : List Slot
  pub some_new : length new ≢ 0
  pub found :
      Found cfg.lfs_path node s.lfs
        (min p.rem_slots r.slots_per_node)
        r.per
        (partial_now cfg r p)
        new
  pub tag_allows : tag_excludes s r node.uid ≡ false
  pub slots : res.0.alc_slots ≡ p.alc_slots ++ new
  pub rem : res.0.rem_slots ≡ p.rem_slots - length new
  pub ends : res.1 ≡ (res.0.rem_slots == 0)

module _ (cfg : Config) (s : State) (r : Request) (node : Node) (p : Progress) where
  abbrev Outcome : Progress × Bool → Type 0
  Outcome res = Kept p res ⊎ Restarted r res ⊎ Added cfg s r node p res

  settle-none : (o : Option String) → Outcome (settle cfg r o (is_last_now r p) p none)
  unfolding settle
  settle-none o = elim (Bool-cases cfg.scattered) [
    | inl e ↦ inl (rw e (record { slots = refl; rem = refl; goes_on = refl }))
    | inr e ↦ inr (inl (rw e (record { slots = refl; rem = refl; goes_on = refl })))
  ]

  settle-some :
      (o : Option String) (slots : List Slot)
      → Found cfg.lfs_path node s.lfs
          (min p.rem_slots r.slots_per_node)
          r.per
          (partial_now cfg r p)
          slots
      → tag_excludes s r node.uid ≡ false
      → Outcome (settle cfg r o (is_last_now r p) p (some slots))
  unfolding settle
  settle-some o [] f t = elim (Bool-cases cfg.scattered) [
    | inl e ↦ inl (rw e (record { slots = refl; rem = refl; goes_on = refl }))
    | inr e ↦ inr (inl (rw e (record { slots = refl; rem = refl; goes_on = refl })))
  ]
  settle-some o (slot ∷ slots) f t = inr (
      inr (record {
        new = slot ∷ slots;
        some_new = λ e. omega arith;
        found = f;
        tag_allows = t;
        slots = refl;
        rem = refl;
        ends = refl;
      }))

  pub visit_cases :
      pos 0 ≤ℤ s.lfs
      → pos 0 ≤ℤ node.mem
      → (res : Progress × Bool) × (visit cfg s r node p ≡ ok res) × Outcome res
  unfolding visit
  visit_cases h k = elim (Bool-cases (tag_excludes s r node.uid)) [
    | inl e ↦ ((p, false), rw e, inl (record { slots = refl; rem = refl; goes_on = refl }))
    | inr e ↦ elim (Option-cases (node_partition cfg p.task_partition_id node.uid)) [
      | inl f ↦ ((p, false), rw (e, f), inl (record { slots = refl; rem = refl; goes_on = refl }))
      | inr (o, f) ↦
          let find =
            find_resources-Found cfg.lfs_path node s.lfs (min p.rem_slots r.slots_per_node) r.per
              (partial_now cfg r p) h k in
          elim find [
            | inl g ↦ (settle cfg r o (is_last_now r p) p none, rw (e, f) (rw g), settle-none o)
            | inr (slots, g, found) ↦ (
              settle cfg r o (is_last_now r p) p (some slots),
              rw (e, f) (rw g),
              settle-some o slots found e,
            )
          ]
    ]
  ]
