-- ===== src/Tests/Tasks.antt =====
-- The numbers of tasks, four processors with some tasks each, and a task at 180 whose children are the
-- two nodes of the list at 100.
use lun_os.Prelude.{ℕ, ◌≡◌, arith, some, [], ◌∷◌, ◌==◌, if◌then◌else◌}
use lun_os.Ds.{Nodes}
use lun_os.Tasks.{task_orphan_children, children}
use lun_os.Tasks.Orphans.{IsEmptied, task_orphan_children-IsEmptied}
use lun_os.Tests.Sched.{queue, queue-AreRings, queue-IsList}

abbrev load : ℕ → ℕ
load c = if c == 2 then 1 else 3

task_orphan_children_example :
    (n' : Nodes) × (task_orphan_children 3 180 queue ≡ some n')
    × IsEmptied queue 100 (1 ∷ 2 ∷ []) n'
unfolding children
task_orphan_children_example =
    task_orphan_children-IsEmptied 180 (1 ∷ 2 ∷ []) queue queue-AreRings
      (omega arith, (omega arith, tt)) ((omega arith, tt), (tt, tt)) queue-IsList
