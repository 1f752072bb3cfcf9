-- ===== src/Smp.antt =====
-- The start of the processors: kernel/arch/x86_64/smp/smp.c with kernel/include/kernel/smp.h. A
-- processor is named by its LAPIC id. The lock around the counter is left out: the ids are taken one
-- after the other, in any order of the processors. The messages are left out.
pub mod Ids
use lun_os.Prelude.{
  ℕ, zero, suc, ◌+◌, ◌%◌, ◌^◌, Bool, true, false, Option, none, some, List, [], ◌∷◌, ◌==◌, leb,
  length, if◌then◌else◌, Status, success, failure,
}
use lun_os.Descriptors.{Gdt, Idt, init_gdt, reload_idt}
use lun_os.Sched.{Sched, schedule, max_cores}
use lun_os.Tasks.{Kernel, init_task_ctr, create_and_schedule_kernel_task}
use lun_os.Apic.{Device, Apic, apic_timer_init_cpu, apic_timer_set_frequency, apic_timer_enable}
use lun_os.Interrupts.{Core, After, returns, resumes, halts}

-- The variables; the slot of percpu_processor_ids that each processor's GS register points to; and the
-- processors whose goto_address is ap_entry_point.
pub record Smp : Type 0 where
  pub percpu_processor_ids : ℕ → ℕ
  pub cpu_id_ctr : ℕ
  pub total_cpus : ℕ
  pub gs : ℕ → Option ℕ
  pub started : ℕ → Bool

-- On processor `who`.
pub init_percpu_data : ℕ → ℕ → Smp → Smp
init_percpu_data who processor_id s = if leb max_cores processor_id then s else record s {
  percpu_processor_ids = λ i. if i == processor_id then processor_id else s.percpu_processor_ids i;
  gs = λ w. if w == who then some processor_id else s.gs w;
}

-- Without a slot the code reads through a register that was not set; here that is no id.
pub get_current_core_id : ℕ → Smp → Option ℕ
get_current_core_id who s = elim (s.gs who) [
  | none ↦ none
  | some slot ↦ some (s.percpu_processor_ids slot)
]

-- `init_percpu_data(cpu_id_ctr++)`
pub take_cpu_id : ℕ → Smp → Smp
take_cpu_id who s =
    init_percpu_data who s.cpu_id_ctr (record s { cpu_id_ctr = (s.cpu_id_ctr + 1) % 2 ^ 32 })

pub boot_idle_task : Device → Apic → Apic
boot_idle_task device apic = apic_timer_enable device apic

pub record Processor : Type 0 where
  pub gdt : Gdt
  pub idt : Idt
  pub core : Core

-- schedule, by the id that the processor reads; nothing without one.
pub schedule_here : ℕ → Smp → Sched → Option ℕ × Sched
schedule_here who s sched = elim (get_current_core_id who s) [
  | none ↦ (none, sched)
  | some cpu ↦ let (task, sched') = schedule cpu sched in (some task, sched')
]

-- `gdt` and `tss` are the addresses that init_gdt takes. How it ends, where it is defined.
pub ap_entry_point : Device → ℕ → ℕ → ℕ → Smp → Processor → Option After × Smp × Processor
ap_entry_point device gdt tss who s p =
    let g = init_gdt gdt tss p.gdt in
    let i = reload_idt p.idt in
    let s' = take_cpu_id who s in
    let (result, apic) = apic_timer_init_cpu device p.core.apic in
    let apic' = apic_timer_set_frequency 100 apic in
    let (task, sched) = schedule_here who s' p.core.sched in
    let stopped : Core = record p.core { apic = apic } in
    let going : Core = record { sched = sched; apic = apic' } in
    elim result [
      | failure ↦ (some halts, s', record { gdt = g; idt = i; core = stopped })
      | success ↦ elim task [
        | none ↦ (none, s', record { gdt = g; idt = i; core = going })
        | some t ↦ (some (resumes t), s', record { gdt = g; idt = i; core = going })
      ]
    ]

-- The processors of the list take their ids, in this order.
pub take_cpu_ids : List ℕ → Smp → Smp
take_cpu_ids [] s = s
take_cpu_ids (who ∷ order) s = take_cpu_ids order (take_cpu_id who s)

-- The loop of smp_init over the processors. Those that were told to start run meanwhile: `early` says
-- which of them take their ids, and in which order, since the turn before that of each processor.
pub start_cpus : ℕ → (ℕ → List ℕ) → List ℕ → Smp → Smp
unfolding take_cpu_ids
start_cpus bsp early [] s = s
start_cpus bsp early (cpu ∷ cpus) s =
    let met = take_cpu_ids (early cpu) s in
    let told = record met { started = λ w. if w == cpu then true else met.started w } in
    start_cpus bsp early cpus (if cpu == bsp then take_cpu_id bsp met else told)

-- The first `n` idle tasks, with what kmalloc answers for each; `none` where one cannot be made.
idle_tasks : ℕ → ℕ → (ℕ → Option ℕ × Option ℕ) → Kernel → Option Kernel
idle_tasks func zero mem k = some k
idle_tasks func (suc n) mem k = elim (idle_tasks func n mem k) [
  | none ↦ none
  | some k' ↦ elim (create_and_schedule_kernel_task (mem n).0 (mem n).1 func k') [
    | none ↦ none
    | some (_, k'') ↦ some k''
  ]
]

pub record Boot : Type 0 where
  pub smp : Smp
  pub kernel : Kernel
  pub apic : Apic

-- The call of schedule at the end of smp_init.
pub schedule_boot : ℕ → Boot → Option After × Boot
unfolding schedule_here
schedule_boot bsp b =
    let (task, sched) = schedule_here bsp b.smp b.kernel.sched in
    let after = record b { kernel = record (b.kernel) { sched = sched } } in
    elim task [ none ↦ (none, after) | some t ↦ (some (resumes t), after) ]

-- `response` is the LAPIC id of the processor that boots and those of all, fewer than 2 ^ 31; `mem` is
-- what kmalloc answers for the five idle tasks, `func` the address of boot_idle_task, and `early` as in
-- start_cpus. `none` where an idle task cannot be made and the code writes through NULL.
pub smp_init :
    Device
    → Option (ℕ × List ℕ)
    → (ℕ → Option ℕ × Option ℕ)
    → ℕ
    → (ℕ → List ℕ)
    → Boot
    → Option (Option After × Boot)
unfolding idle_tasks
smp_init device none mem func early b = some (some returns, b)
smp_init device (some (bsp, cpus)) mem func early b =
    let apic = apic_timer_set_frequency 100 (apic_timer_init_cpu device b.apic).1 in
    let counted = record (b.smp) { total_cpus = length cpus } in
    elim (idle_tasks func 5 mem (init_task_ctr (length cpus) b.kernel)) [
      | none ↦ none
      | some made ↦ some (
          schedule_boot bsp
            record { smp = start_cpus bsp early cpus counted; kernel = made; apic = apic })
    ]
