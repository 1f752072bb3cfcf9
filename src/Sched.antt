-- ===== src/Sched.antt =====
-- kernel/kernel/scheduler/scheduler.c. A task is named by its `tasks_runnable` node, from which
-- container_of gives it back; 0 is NULL. The lock of a run queue is left out, and the switch to a
-- context is what schedule returns here.
pub mod Robin
pub mod Fair
pub mod Start
use lun_os.Prelude.{ℕ, zero, suc, ◌≡◌, Bool, Option, none, some, ◌==◌, ◌&&◌, not, if◌then◌else◌}
use lun_os.Ds.{Nodes, list_add_tail, list_del, list_empty, list_init}

-- The nodes, the address of each processor's run queue, its current task, and each task's processor.
pub record Sched : Type 0 where
  pub nodes : Nodes
  pub runqueue : ℕ → ℕ
  pub current : ℕ → ℕ
  pub cpu_id : ℕ → ℕ

abbrev pub max_cores : ℕ
max_cores = 4

-- The loop of scheduler_init over the processors from 0 on.
init_cores : ℕ → Sched → Sched
init_cores zero s = s
init_cores (suc i) s =
    let before = init_cores i s in
    record before {
      nodes = list_init (before.runqueue i) before.nodes;
      current = λ c. if c == i then 0 else before.current c;
    }

pub scheduler_init : ℕ → Sched → Sched
unfolding init_cores
scheduler_init all_tasks s = init_cores max_cores record s { nodes = list_init all_tasks s.nodes }

pub sched_task : ℕ → ℕ → Sched → Sched
sched_task task cpu s =
    if task == 0 then s else record s { nodes = list_add_tail task (s.runqueue cpu) s.nodes }

pub sched_remove_task : ℕ → Sched → Sched
sched_remove_task task s = if task == 0 then s else record s { nodes = list_del task s.nodes }

unfoldable pub get_current_task : ℕ → Sched → ℕ
get_current_task cpu s = s.current cpu

-- The first part of schedule: the next task, or NULL.
pub pick_next : Nodes → ℕ → ℕ → ℕ
pick_next nodes runqueue current =
    let next_node = nodes.next current in
    let wrapped = if next_node == runqueue then nodes.next runqueue else next_node in
    let first = if list_empty runqueue nodes then 0 else nodes.next runqueue in
    let following = if wrapped == runqueue then 0 else wrapped in
    if current == 0 then first else following

-- The task whose context is loaded, which without a next one is the current one, and the state. With
-- no current task and an empty queue the code reads a context through NULL, here task 0.
unfoldable pub schedule : ℕ → Sched → ℕ × Sched
unfolding pick_next
schedule cpu s =
    let current = s.current cpu in
    let next = pick_next s.nodes (s.runqueue cpu) current in
    if not (next == 0) && not (next == current)
    then (next, record s { current = λ c. if c == cpu then next else s.current c })
    else (current, s)
