-- ===== src/Agent/Continuous/Allocated.antt =====
-- `_try_allocation` (base.py) and `unschedule_task` (continuous.py), one after the other.
use radical_pilot.Prelude.{
  ℕ, ◌≡◌, ◌≢◌, refl, sym, subst, ◌∙◌, ◌⊎◌, inl, inr, Bool, true, false, List, Option, none, some,
  Option-cases, All, Any, Result, ok, raise, assertion_error, value_error, ◌>>=◌, >>=-eq-ok, arith,
  ap, if◌then◌else◌,
}
use radical_pilot.Agent.Nodes.{free, busy, Slot, Pool, change_slot_states}
use radical_pilot.Agent.Nodes.Release.{change_slot_states-release}
use radical_pilot.Agent.Continuous.Task.{TaskDescription, Slots, Task, Config, State}
use radical_pilot.Agent.Continuous.Schedule.{schedule_task, unschedule_task, pool, with_pool}
use radical_pilot.Agent.Continuous.Placement.{IsReady, IsPlacement, Outcome}
use radical_pilot.Agent.Continuous.Scheduled.{schedule_task-Outcome}
use radical_pilot.Agent.Continuous.Allocate.{
  CvdIdMode, handle_cuda, place, place_found, try_allocation,
}

-- `schedule_task` returned this.
schedule_task-ok :
    (cfg : Config) (td : TaskDescription) (s : State) (res : Option Slots × State)
    → IsReady s
    → schedule_task cfg td s ≡ ok res
    → Outcome cfg s td res
schedule_task-ok cfg td s res ready h = elim (schedule_task-Outcome cfg td s ready) [
  | inl e ↦ absurd (differ (sym e ∙ h))
  | inr (inl e) ↦ absurd (differ (sym e ∙ h))
  | inr (inr (res', e, o)) ↦ let same : res' ≡ res = cc in rw same at o
]
  where
    differ : {e : radical_pilot.Prelude.Error} → raise e ≡ ok res → ⊥
    differ e = cc

place_slots :
    (mode : CvdIdMode) (task task' : Task) (s s' : State) (slots : Slots)
    → place mode task s slots ≡ ok (true, task', s')
    → (p : Pool) × (change_slot_states slots.nodes busy (pool s) ≡ ok p)
      × (task'.slots ≡ some slots)
      × (s' ≡ with_pool s p)
unfolding place
place_slots mode task task' s s' slots h =
    let (p, e, h') = >>=-eq-ok (change_slot_states slots.nodes busy (pool s)) _ h in
    let (cuda, f, h'') = >>=-eq-ok (handle_cuda mode task.cuda_visible_devices slots.nodes) _ h' in
    (p, e, ground arith, ground arith)

place_found-true :
    (mode : CvdIdMode) (task task' : Task) (s' : State) (found : Option Slots × State)
    → place_found mode task found ≡ ok (true, task', s')
    → (slots : Slots) × (found.0 ≡ some slots)
      × (place mode task found.1 slots ≡ ok (true, task', s'))
unfolding place_found
place_found-true mode task task' s' (none, t) h = cc
place_found-true mode task task' s' (some slots, t) h = (slots, refl, h)

unschedule_freed :
    (slots : List Slot) (s' t : State) (p : Pool)
    → s' ≡ with_pool t p
    → change_slot_states slots free p ≡ ok (pool t)
    → unschedule_task slots s' ≡ ok (with_pool s' (pool t))
unfolding unschedule_task
unschedule_freed slots s' t p state back = rw state (rw back refl)

-- A task that is placed is given a placement on free cores and GPUs; and when the task is done,
-- `unschedule_task` with its slots succeeds and brings back all nodes and the local storage.
pub try_allocation-unschedule_task :
    (cfg : Config) (mode : CvdIdMode) (task task' : Task) (s s' : State)
    → IsReady s
    → try_allocation cfg mode task s ≡ ok (true, task', s')
    → (slots : Slots) × (r : State) × (task'.slots ≡ some slots)
      × IsPlacement cfg s task.description slots.nodes
      × (unschedule_task slots.nodes s' ≡ ok r)
      × (r.nodes ≡ s.nodes)
      × (r.lfs ≡ s.lfs)
unfolding try_allocation
try_allocation-unschedule_task cfg mode task task' s s' ready h =
    let (found, e, h') =
      >>=-eq-ok (schedule_task cfg task.description s) (place_found mode task) h in
    let (slots, z, h'') = place_found-true mode task task' s' found h' in
    let t = found.1 in
    let out = schedule_task-ok cfg task.description s found ready e in
    let fit = out.placed slots z in
    let (p, taken, given, state) = place_slots mode task task' t s' slots h'' in
    let (q, there, back) =
      change_slot_states-release slots.nodes (pool t) (rw (out.same_nodes) (ready.distinct))
        (rw (out.same_nodes) (fit.offered)) in
    let same : q ≡ p = cc in
    (
      slots,
      with_pool s' (pool t),
      given,
      fit,
      unschedule_freed slots.nodes s' t p state
          (subst (λ x. change_slot_states slots.nodes free x ≡ ok (pool t)) same back),
      out.same_nodes,
      out.same_lfs,
    )
