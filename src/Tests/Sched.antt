-- ===== src/Tests/Sched.antt =====
-- A run queue at 100 with the tasks 1 and 2, of which the first one runs, and a task 3 in no queue.
use lun_os.Prelude.{refl, arith, [], ◌∷◌, ◌==◌, if◌then◌else◌}
use lun_os.Ds.{Nodes}
use lun_os.Ds.Rings.{AreRings}
use lun_os.Ds.Order.{Chain, IsList}
use lun_os.Sched.{Sched}

abbrev pub queue : Nodes
queue = record {
  next = λ a. if a == 100 then 1 else if a == 1 then 2 else if a == 2 then 100 else a;
  prev = λ a. if a == 100 then 2 else if a == 1 then 100 else if a == 2 then 1 else a;
}

pub queue-AreRings : AreRings queue
queue-AreRings = record { back = λ a. ground arith; forth = λ a. ground arith }

pub queue-IsList : IsList queue 100 (1 ∷ 2 ∷ [])
unfolding Chain
queue-IsList = (refl, (refl, refl))

abbrev pub running : Sched
running = record { nodes = queue; runqueue = λ cpu. 100; current = λ cpu. 1; cpu_id = λ task. 0 }
