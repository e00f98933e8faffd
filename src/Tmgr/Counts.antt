-- ===== src/Tmgr/Counts.antt =====
-- How often a task stands in the lists of the schedulers, by its uid (`_assign_pilot` of
-- src/radical/pilot/tmgr/scheduler/base.py leaves it).
use radical_pilot.Prelude.{
  ℕ, ◌+◌, ◌≡◌, if◌then◌else◌, ◌==◌, List, [], ◌∷◌, ◌++◌, Option, none, some, ok, >>=-eq-ok, arith,
}
use radical_pilot.Tmgr.Base.{Pilot, Task, Base, Sandboxes, assign_pilot, assign_known}

-- How often a task stands in a list.
abbrev pub count_uid : ℕ → List Task → ℕ
count_uid u [] = 0
count_uid u (t ∷ ts) = (if t.uid == u then 1 else 0) + count_uid u ts

pub count_uid-append :
    (u : ℕ) (xs ys : List Task) → count_uid u (xs ++ ys) ≡ count_uid u xs + count_uid u ys
count_uid-append u [] ys = omega arith
count_uid-append u (x ∷ xs) ys = omega (arith, count_uid-append u xs ys)

pub assign_pilot-uid :
    (sandboxes : Sandboxes) (pilot : Pilot) (task task' : Task) (b b' : Base)
    → assign_pilot sandboxes pilot task b ≡ ok (task', b')
    → task'.uid ≡ task.uid
unfolding assign_pilot
assign_pilot-uid sandboxes pilot task task' b b' h =
    let (boxes, e, h') = >>=-eq-ok (sandboxes pilot (record task { pilot = some pilot.uid })) _ h in
    cc

pub assign_known-uid :
    (sandboxes : Sandboxes) (pilot : Option Pilot) (task task' : Task) (b b' : Base)
    → assign_known sandboxes pilot task b ≡ ok (task', b')
    → task'.uid ≡ task.uid
unfolding assign_known
assign_known-uid sandboxes none task task' b b' h = cc
assign_known-uid sandboxes (some pilot) task task' b b' h =
    assign_pilot-uid sandboxes pilot task task' b b' h
