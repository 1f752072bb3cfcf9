-- ===== src/Apic.antt =====
-- The local interrupt controller and its timer: kernel/arch/x86_64/interrupt_controllers/apic.c with
-- kernel/include/kernel/apic.h. The state is what one processor sees: the two variables, the writes to
-- the registers, the last one first, and the clock of Timer. The device is a parameter: what a register
-- shows at a read of the clock after some writes. The messages are left out.
pub mod Periodic
pub mod Calibrated
pub mod Vector
use lun_os.Prelude.{
  ℕ, ◌+◌, ◌-◌, ◌*◌, ◌/◌, ◌%◌, ◌^◌, Bool, true, false, Option, none, some, List, [], ◌∷◌, ◌==◌,
  if◌then◌else◌, bit_and, bit_or, Status, success, failure,
}
use lun_os.Vmm.{Memory, vmm_map_range, pte_present, pte_writable}
use lun_os.Timer.{Hardware, Timing, cpu_wait_10ms, ◌>>=◌}
use lun_os.Descriptors.{Idt, create_gate_entry, init_idt, reload_idt}

abbrev pub apic_base_addr : ℕ
apic_base_addr = 0xFEE0_0000

abbrev pub apic_eoi : ℕ
apic_eoi = 0xB0

abbrev pub apic_spurious_vector : ℕ
apic_spurious_vector = 0xF0

abbrev pub apic_error_status : ℕ
apic_error_status = 0x280

abbrev pub apic_lint0 : ℕ
apic_lint0 = 0x350

abbrev pub apic_lint1 : ℕ
apic_lint1 = 0x360

abbrev pub apic_error : ℕ
apic_error = 0x370

abbrev pub apic_timer_lvt : ℕ
apic_timer_lvt = 0x320

abbrev pub apic_timer_initial : ℕ
apic_timer_initial = 0x380

abbrev pub apic_timer_current : ℕ
apic_timer_current = 0x390

abbrev pub apic_timer_divide : ℕ
apic_timer_divide = 0x3E0

abbrev pub apic_timer_lvt_masked : ℕ
apic_timer_lvt_masked = 0x10000

abbrev pub apic_timer_periodic : ℕ
apic_timer_periodic = 0x20000

abbrev pub apic_timer_vector : ℕ
apic_timer_vector = 0x40

-- PTE_WRITETHROUGH and PTE_CACHE_DISABLE
abbrev pub pte_writethrough : ℕ
pte_writethrough = 8

abbrev pub pte_cache_disable : ℕ
pte_cache_disable = 16

-- The read of the clock, the writes to the device, and the number of the register.
abbrev pub Device : Type 0
Device = ℕ → List (ℕ × ℕ) → ℕ → ℕ

pub record Apic : Type 0 where
  pub apic_base : ℕ
  pub apic_timer_frequency : ℕ
  pub writes : List (ℕ × ℕ)
  pub timing : Timing

-- The macros of the header; a register is 32 bits wide and 16 bytes from the next.
unfoldable pub apic_read : Device → ℕ → Apic → ℕ
apic_read device reg s = if s.apic_base == 0 then 0 else device s.timing.time s.writes (reg / 4)

unfoldable pub apic_write : ℕ → ℕ → Apic → Apic
apic_write reg value s =
    if s.apic_base == 0 then s else record s { writes = (reg / 4, value) ∷ s.writes }

pub apic_timer_init_cpu : Device → Apic → Status × Apic
apic_timer_init_cpu device s =
    let spurious = apic_read device apic_spurious_vector s in
    let enabled = bit_or spurious 0x100 in
    let vector = bit_or (bit_and enabled (2 ^ 32 - 1 - 0xFF)) 0xFF in
    let s1 = apic_write apic_spurious_vector vector s in
    let spurious_check = apic_read device apic_spurious_vector s1 in
    let s2 = apic_write apic_timer_lvt 0x10000 s1 in
    let s3 = apic_write apic_lint0 0x10000 s2 in
    let s4 = apic_write apic_lint1 0x10000 s3 in
    let s5 = apic_write apic_error 0x10000 s4 in
    let s6 = apic_write apic_error_status 0 (apic_write apic_error_status 0 s5) in
    if s.apic_base == 0
    then (failure, s)
    else if bit_and spurious_check 0x100 == 0
    then (failure, s1)
    else (success, apic_write apic_eoi 0 s6)

-- `isr64` is the address of the stub.
pub apic_timer_register_handler : ℕ → Idt → Idt
apic_timer_register_handler isr64 t = create_gate_entry apic_timer_vector isr64 0x08 0x8E t

-- The calls of _start in kernel/kernel/kernel.c that make the interrupt table, `isr` being the stubs.
unfoldable pub start_idt : ℕ → (ℕ → ℕ) → Idt → Idt
unfolding apic_timer_register_handler
start_idt idt isr t = reload_idt (apic_timer_register_handler (isr 64) (init_idt idt isr t))

-- Without fuel enough for the wait there is no result.
pub apic_timer_calibrate : ℕ → Hardware → Device → Apic → Option Apic
apic_timer_calibrate fuel m device s =
    let s1 = apic_write apic_timer_lvt 0x10000 s in
    let s2 = apic_write apic_timer_divide 0x3 s1 in
    let s3 = apic_write apic_timer_initial 0xFFFF_FFFF s2 in
    cpu_wait_10ms fuel m s3.timing >>= λ timing.
    let s4 = record s3 { timing = timing } in
    let apic_current = apic_read device apic_timer_current s4 in
    let apic_ticks_in_10ms = (0xFFFF_FFFF + 2 ^ 32 - apic_current) % 2 ^ 32 in
    let s5 = record s4 { apic_timer_frequency = apic_ticks_in_10ms * 100 % 2 ^ 32 } in
    some (apic_write apic_timer_initial 0 (apic_write apic_timer_lvt 0x10000 s5))

-- `kernel_as` is what get_kernel_as returns.
pub apic_global_init : ℕ → Hardware → Device → ℕ → Memory → Apic → Option (Status × Memory × Apic)
apic_global_init fuel m device kernel_as mem s =
    let apic_vaddr : ℕ = 0xFFFF_FF80_0000_0000 in
    let mmio_flags =
      bit_or (bit_or (bit_or pte_present pte_writable) pte_cache_disable) pte_writethrough in
    let (result, mem') = vmm_map_range mem kernel_as apic_vaddr apic_base_addr 0x1000 mmio_flags in
    elim result [
      | failure ↦ some (failure, mem', s)
      | success ↦ apic_timer_calibrate fuel m device (record s { apic_base = apic_vaddr }) >>= λ s'.
          some (success, mem', s')
    ]

pub apic_timer_set_frequency : ℕ → Apic → Apic
apic_timer_set_frequency frequency s =
    let quotient = s.apic_timer_frequency / frequency in
    let initial_count = if quotient == 0 then 1 else quotient in
    let lvt = bit_or (bit_or apic_timer_periodic apic_timer_vector) apic_timer_lvt_masked in
    if s.apic_timer_frequency == 0
    then s
    else if frequency == 0
    then s
    else apic_write apic_timer_initial initial_count
        (apic_write apic_timer_lvt lvt (apic_write apic_timer_divide 0x3 s))

pub apic_timer_enable : Device → Apic → Apic
apic_timer_enable device s =
    let lvt = apic_read device apic_timer_lvt s in
    apic_write apic_timer_lvt (bit_and lvt (2 ^ 32 - 1 - 0x10000)) s

pub apic_timer_disable : Device → Apic → Apic
apic_timer_disable device s =
    let lvt = apic_read device apic_timer_lvt s in apic_write apic_timer_lvt (bit_or lvt 0x10000) s
