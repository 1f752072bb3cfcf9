-- ===== src/Interrupts.antt =====
-- The handler of interrupts and exceptions, kernel/arch/x86_64/interrupts/isr_handler.c, and the old
-- interrupt controllers, kernel/arch/x86_64/interrupt_controllers/pic.c with kernel/include/kernel/pic.h.
-- The handler's messages are values; how it ends is one too, since the processor may halt, go on with a
-- task, or return to the stub. The state is the scheduler's with the processor's APIC.
pub mod Dispatch
pub mod Turns
use lun_os.Prelude.{
  ℕ, Bool, true, false, List, [], ◌∷◌, ◌++◌, ◌==◌, ◌||◌, if◌then◌else◌, bit_and, bit_or, leb,
}
use lun_os.Sched.{Sched, schedule, get_current_task}
use lun_os.Apic.{Apic, apic_write, apic_eoi}

-- struct interrupt_frame
pub record InterruptFrame : Type 0 where
  pub cr2 : ℕ
  pub int_no : ℕ
  pub err_code : ℕ

pub data Message : Type 0 where
  divide_by_zero kernel_space reserved_by_intel : Message
  page_fault_at error_code general_protection isr_number : ℕ → Message
  protection_violation page_not_present by_write by_read user_mode supervisor_mode : Message
  reserved_bit instruction_fetch : Message

-- The handler returns, goes on where a task's context stands, or halts the processor.
pub data After : Type 0 where
  returns halts : After
  resumes : ℕ → After

pub record Core : Type 0 where
  pub sched : Sched
  pub apic : Apic

abbrev pub kernel_space_start : ℕ
kernel_space_start = 0xFFFF_8000_0000_0000

pub decode_page_fault_error : ℕ → List Message
decode_page_fault_error err_code =
    error_code err_code
      ∷ (if bit_and err_code 0x1 == 0 then page_not_present else protection_violation)
      ∷ (if bit_and err_code 0x2 == 0 then by_read else by_write)
      ∷ (if bit_and err_code 0x4 == 0 then supervisor_mode else user_mode)
      ∷ (if bit_and err_code 0x8 == 0 then [] else reserved_bit ∷ [])
    ++ (if bit_and err_code 0x10 == 0 then [] else instruction_fetch ∷ [])

pub isr0_divide_by_zero : ℕ → Core → List Message × After × Core
isr0_divide_by_zero cpu s = (divide_by_zero ∷ [], resumes (get_current_task cpu s.sched), s)

pub isr14_page_fault : ℕ → ℕ → Core → List Message × After × Core
isr14_page_fault cr2 err_code s =
    let told = page_fault_at cr2 ∷ decode_page_fault_error err_code in
    if leb kernel_space_start cr2 then (told ++ (kernel_space ∷ []), halts, s) else (told, halts, s)

pub apic_timer_handler : ℕ → Core → List Message × After × Core
apic_timer_handler cpu s =
    let (task, sched) = schedule cpu s.sched in
    ([], resumes task, record { sched = sched; apic = apic_write apic_eoi 0 s.apic })

-- The case labels that share isr_reserved.
is_reserved : ℕ → Bool
is_reserved n =
    (n == 15)
    || ((n == 22)
        || ((n == 23) || ((n == 24) || ((n == 25) || ((n == 26) || ((n == 27) || (n == 31)))))))

-- On processor `cpu`.
pub isr_dispatch : ℕ → InterruptFrame → Core → List Message × After × Core
unfolding is_reserved
isr_dispatch cpu fr s =
    if fr.int_no == 0
    then isr0_divide_by_zero cpu s
    else if fr.int_no == 14
    then isr14_page_fault fr.cr2 fr.err_code s
    else if is_reserved fr.int_no
    then (reserved_by_intel ∷ [], returns, s)
    else if fr.int_no == 13
    then (general_protection fr.err_code ∷ [], returns, s)
    else if fr.int_no == 33
    then ([], returns, s)
    else if fr.int_no == 64
    then apic_timer_handler cpu s
    else (isr_number fr.int_no ∷ [], halts, s)

abbrev pub pic1_command : ℕ
pic1_command = 0x20

abbrev pub pic1_data : ℕ
pic1_data = 0x21

abbrev pub pic2_command : ℕ
pic2_command = 0xA0

abbrev pub pic2_data : ℕ
pic2_data = 0xA1

abbrev pub icw1_icw4 : ℕ
icw1_icw4 = 0x01

abbrev pub icw1_init : ℕ
icw1_init = 0x10

abbrev pub icw4_8086 : ℕ
icw4_8086 = 0x01

-- A write to a port, and the one of io_wait.
pub data PortWrite : Type 0 where
  outb : ℕ → ℕ → PortWrite
  io_wait : PortWrite

pub pic_remap : ℕ → ℕ → List PortWrite
pic_remap offset1 offset2 =
    outb pic1_command (bit_or icw1_init icw1_icw4)
    ∷ io_wait
    ∷ outb pic2_command (bit_or icw1_init icw1_icw4)
    ∷ io_wait
    ∷ outb pic1_data offset1
    ∷ io_wait
    ∷ outb pic2_data offset2
    ∷ io_wait
    ∷ outb pic1_data 4
    ∷ io_wait
    ∷ outb pic2_data 2
    ∷ io_wait
    ∷ outb pic1_data icw4_8086
    ∷ io_wait
    ∷ outb pic2_data icw4_8086
    ∷ io_wait
    ∷ []

pub disable_pic : List PortWrite
disable_pic = outb pic1_data 0xFF ∷ outb pic2_data 0xFF ∷ []
