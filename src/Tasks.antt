-- ===== src/Tasks.antt =====
-- Tasks: kernel/arch/x86_64/tasks/tasks.c and task_manager.c. A task is named by its `tasks_runnable`
-- node, as in Sched, and its other nodes by where they stand before that one. What kmalloc answers is an
-- argument; what is given back to it, and the locks, are left out.
pub mod Pids
pub mod Busy
pub mod Orphans
use lun_os.Prelude.{
  ℕ, zero, suc, ◌+◌, ◌-◌, ◌*◌, ◌%◌, ◌^◌, Bool, true, false, ◌&&◌, not, Option, none, some, ltb,
  ◌==◌, if◌then◌else◌,
}
use lun_os.Ds.{Nodes, list_init, list_add_tail, list_del}
use lun_os.Sched.{Sched, max_cores, sched_task, sched_remove_task, schedule}

abbrev pub pid_max : ℕ
pid_max = 1111111111

abbrev pub task_running : ℕ
task_running = 0

abbrev pub task_sleeping_interruptible : ℕ
task_sleeping_interruptible = 1

abbrev pub task_zombie : ℕ
task_zombie = 6

-- struct task_context but for the registers that are zero at the start; struct task but for its nodes,
-- and for its processor, which is a field of Sched.
pub record Task : Type 0 where
  pub stack_ptr : ℕ
  pub rip : ℕ
  pub rflags : ℕ
  pub cs : ℕ
  pub ss : ℕ
  pub pid : ℕ
  pub tgid : ℕ
  pub priority : ℕ
  pub state : ℕ
  pub md : Option ℕ
  pub kernel_stack_base : Option ℕ
  pub parent : Option ℕ
  pub exit_code : ℕ
  pub exit_signal : ℕ

-- The nodes of a task, of 16 bytes each.
unfoldable pub children : ℕ → ℕ
children task = task - 80

pub siblings : ℕ → ℕ
siblings task = task - 64

pub zombie_children : ℕ → ℕ
zombie_children task = task - 48

pub zombie_siblings : ℕ → ℕ
zombie_siblings task = task - 32

pub tasks : ℕ → ℕ
tasks task = task - 16

-- The scheduler with the nodes of all lists, the tasks, the head of the list of all tasks, the next pid,
-- and how many tasks each processor has.
pub record Kernel : Type 0 where
  pub sched : Sched
  pub task : ℕ → Task
  pub all_tasks : ℕ
  pub pid_counter : ℕ
  pub task_counter : ℕ → ℕ

pub on_nodes : (Nodes → Nodes) → Kernel → Kernel
on_nodes f k = record k { sched = record (k.sched) { nodes = f k.sched.nodes } }

pub set_task : ℕ → Task → Kernel → Kernel
set_task task t k = record k { task = λ a. if a == task then t else k.task a }

-- incr_pid_ctr, with the counter.
pub incr_pid_ctr : ℕ → ℕ × ℕ
incr_pid_ctr pid_counter =
    let next = (pid_counter + 1) % 2 ^ 32 in (pid_counter, if ltb pid_max next then 2 else next)

-- create_task at the address that kmalloc gave. The base of the stack is not written.
pub create_task : ℕ → Kernel → Kernel
create_task task k =
    let t : Task = record (k.task task) {
      stack_ptr = 0;
      rip = 0;
      rflags = 0;
      cs = 0;
      ss = 0;
      pid = 0;
      tgid = 0;
      priority = 99;
      state = task_running;
      md = none;
      parent = none;
      exit_code = 0;
      exit_signal = 0;
    } in
    on_nodes
      (λ n. list_init (zombie_children task) (
        list_init (zombie_siblings task) (list_init (children task) (list_init (siblings task) n))))
      (set_task task t k)

-- The end of both kinds of creation.
pub enlist : ℕ → Kernel → Kernel
enlist task k = on_nodes (λ n. list_add_tail (tasks task) k.all_tasks (list_init task n)) k

-- What kmalloc answers for the task and for its stack.
pub create_kernel_task : Option ℕ → Option ℕ → ℕ → Kernel → Option ℕ × Kernel
create_kernel_task none stack func k = (none, k)
create_kernel_task (some task) none func k = (none, create_task task k)
create_kernel_task (some task) (some stack) func k =
    let k1 = create_task task k in
    let t = record (k1.task task) {
      kernel_stack_base = some stack;
      stack_ptr = stack + 4 * 4096;
      rip = func;
      rflags = 0x202;
      cs = 0x08;
      ss = 0x10;
    } in
    (some task, enlist task (set_task task t k1))

-- What kmalloc answers for the task and for its memory descriptor.
pub create_user_task : Option ℕ → Option ℕ → Kernel → Option ℕ × Kernel
create_user_task none md k = (none, k)
create_user_task (some task) md k =
    let k1 = create_task task k in
    let (pid, next) = incr_pid_ctr k1.pid_counter in
    let t = record (k1.task task) { pid = pid; tgid = pid; md = md } in
    let k2 = record (set_task task t k1) { pid_counter = next } in
    elim md [ none ↦ (none, k2) | some _ ↦ (some task, enlist task k2) ]

pub task_destroy : ℕ → Kernel → Kernel
task_destroy task k = on_nodes (λ n. list_del (siblings task) (list_del (tasks task) n)) k

-- Whether the parent of `child` is `parent`.
pub is_parent : ℕ → ℕ → Kernel → Bool
is_parent parent child k = elim (k.task child).parent [ none ↦ false | some p ↦ p == parent ]

pub task_add_child : ℕ → ℕ → Kernel → Kernel
task_add_child parent child k =
    if is_parent parent child k
    then on_nodes (list_add_tail (siblings child) (children parent)) k
    else k

pub task_remove_child : ℕ → ℕ → Kernel → Kernel
task_remove_child parent child k =
    if is_parent parent child k then on_nodes (list_del (siblings child)) k else k

pub task_add_zombie : ℕ → ℕ → Kernel → Kernel
task_add_zombie parent zombie k =
    if is_parent parent zombie k
    then on_nodes
        (λ n.
          list_add_tail (zombie_siblings zombie) (zombie_children parent)
            (list_del (siblings zombie) n))
        k
    else k

pub task_remove_zombie : ℕ → ℕ → Kernel → Kernel
task_remove_zombie parent zombie k =
    if is_parent parent zombie k then on_nodes (list_del (zombie_siblings zombie)) k else k

-- The loop of task_orphan_children from `node` on, `fuel` turns of it; `none` if it goes on then.
pub orphan_loop : ℕ → ℕ → ℕ → Nodes → Option Nodes
orphan_loop zero head node n = none
orphan_loop (suc fuel) head node n =
    let rest = orphan_loop fuel head (n.next node) (list_del node n) in
    if node == head then some n else rest

pub task_orphan_children : ℕ → ℕ → Nodes → Option Nodes
task_orphan_children fuel dead_parent n =
    orphan_loop fuel (children dead_parent) (n.next (children dead_parent)) n

-- A 32-bit int moved up by 2 ^ 31, which puts the ints in the order of the naturals.
unfoldable pub biased : ℕ → ℕ
biased v = (v + 2 ^ 31) % 2 ^ 32

-- `for(int i = 0; i < cpu_count; i++)`, the last `n` turns of it.
pub clear_from : ℕ → ℕ → (ℕ → ℕ) → ℕ → ℕ
clear_from zero i ctr = ctr
clear_from (suc n) i ctr = clear_from n (i + 1) (λ c. if c == i then 0 else ctr c)

pub init_task_ctr : ℕ → Kernel → Kernel
init_task_ctr cpu_count k = record k { task_counter = clear_from cpu_count 0 k.task_counter }

-- The search over the processors, the last `n` turns of it: the processor with the least counter.
pub least_loop : ℕ → ℕ → ℕ → ℕ → (ℕ → ℕ) → ℕ
least_loop zero i min id ctr = id
least_loop (suc n) i min id ctr =
    let lower = least_loop n (i + 1) (ctr i) i ctr in
    let same = least_loop n (i + 1) min id ctr in
    if ltb (biased (ctr i)) (biased min) then lower else same

pub find_least_busy_cpu : (ℕ → ℕ) → ℕ × (ℕ → ℕ)
find_least_busy_cpu ctr =
    let id = least_loop (max_cores - 1) 1 (ctr 0) 0 ctr in
    (id, λ c. if c == id then (ctr c + 1) % 2 ^ 32 else ctr c)

-- A task is put on the run queue of the least busy processor.
pub place_task : ℕ → Kernel → Kernel
place_task task k =
    let (id, ctr) = find_least_busy_cpu k.task_counter in
    let here = record (k.sched) { cpu_id = λ t. if t == task then id else k.sched.cpu_id t } in
    record k { sched = sched_task task id here; task_counter = ctr }

-- The code does not test whether there is a task: where it could not be made, it writes through NULL;
-- that is `none`.
pub create_and_schedule_kernel_task : Option ℕ → Option ℕ → ℕ → Kernel → Option (ℕ × Kernel)
create_and_schedule_kernel_task mem stack func k =
    let (made, k') = create_kernel_task mem stack func k in
    elim made [ none ↦ none | some task ↦ some (task, place_task task k') ]

pub wake_up_task : ℕ → Kernel → Kernel
wake_up_task task k =
    place_task task (set_task task (record (k.task task) { state = task_running }) k)

-- The parent's part of task_exit.
pub tell_parent : ℕ → Kernel → Kernel
tell_parent current k = elim (k.task current).parent [
  | none ↦ k
  | some p ↦
      if (k.task p).state == task_sleeping_interruptible then task_add_zombie p current k else k
]

-- task_exit of the current task of processor `cpu`, with the fuel of task_orphan_children; what schedule
-- loads, and the state.
pub task_exit : ℕ → ℕ → ℕ → Kernel → Option (ℕ × Kernel)
task_exit fuel cpu exit_code k =
    let current = k.sched.current cpu in
    let t = record (k.task current) { exit_code = exit_code; state = task_zombie; md = none } in
    let home = k.sched.cpu_id current in
    let k1 = record (set_task current t k) {
      sched = sched_remove_task current k.sched;
      task_counter =
          λ c. if c == home then (k.task_counter c + 2 ^ 32 - 1) % 2 ^ 32 else k.task_counter c;
    } in
    let k2 = tell_parent current k1 in
    elim (task_orphan_children fuel current k2.sched.nodes) [
      | none ↦ none
      | some n ↦
          let (loaded, s) = schedule cpu (record (k2.sched) { nodes = n }) in
          some (loaded, record k2 { sched = s })
    ]
