-- ===== src/Interrupts/Dispatch.antt =====
-- What the handler does with each interrupt, and what the messages of a page fault tell.
use lun_os.Prelude.{
  ℕ, ◌+◌, ◌*◌, ◌/◌, ◌%◌, ◌^◌, ◌≤◌, ◌≡◌, ◌≢◌, ◌∙◌, ◌⊎◌, arith, List, [], ◌∷◌, bit_and,
}
use lun_os.Prelude.Bits.{bit_and-pow}
use lun_os.Sched.{schedule, get_current_task}
use lun_os.Apic.{apic_write, apic_eoi}
use lun_os.Interrupts.{
  InterruptFrame, Message, protection_violation, by_write, user_mode, reserved_bit,
  instruction_fetch, returns, halts, resumes, Core, decode_page_fault_error, isr0_divide_by_zero,
  isr14_page_fault, apic_timer_handler, is_reserved, isr_dispatch,
}

-- The interrupts after which the handler returns.
abbrev pub Returning : ℕ → Type 0
Returning n = (n ≡ 13) ⊎ ((n ≡ 15) ⊎ (((22 ≤ n) × (n ≤ 27)) ⊎ ((n ≡ 31) ⊎ (n ≡ 33))))

-- How the handler leaves processor `cpu`, told by the interrupt's number alone.
pub record IsDispatched (cpu : ℕ) (fr : InterruptFrame) (s : Core) : Type 0 where
  pub back : (isr_dispatch cpu fr s).1 ≡ returns → Returning fr.int_no
  pub came_back : Returning fr.int_no → (isr_dispatch cpu fr s).1 ≡ returns
  pub division : fr.int_no ≡ 0 → (isr_dispatch cpu fr s).1 ≡ resumes (s.sched.current cpu)
  pub timer :
      fr.int_no ≡ 64
      → ((isr_dispatch cpu fr s).1 ≡ resumes (schedule cpu s.sched).0)
        × ((isr_dispatch cpu fr s).2.sched ≡ (schedule cpu s.sched).1)
        × ((isr_dispatch cpu fr s).2.apic ≡ apic_write apic_eoi 0 s.apic)
  pub others :
      fr.int_no ≢ 0
      → fr.int_no ≢ 64
      → ((isr_dispatch cpu fr s).2 ≡ s)
        × (((isr_dispatch cpu fr s).1 ≡ returns) ⊎ ((isr_dispatch cpu fr s).1 ≡ halts))

-- isr_dispatch returns exactly for the interrupts 13, 15, 22 to 27, 31 and 33; for 0 it goes on with the
-- current task, for 64 with the task that schedule gives, with schedule's state and the end of the
-- interrupt written to the APIC; for every other one it halts; and unless it is 64 it changes nothing.
pub isr_dispatch-IsDispatched : (cpu : ℕ) (fr : InterruptFrame) (s : Core) → IsDispatched cpu fr s
unfolding isr_dispatch isr0_divide_by_zero isr14_page_fault apic_timer_handler get_current_task
    is_reserved
isr_dispatch-IsDispatched cpu fr s = record {
  back = λ h. ground (arith, h);
  came_back = λ h. ground (arith, h);
  division = λ h. ground (arith, h);
  timer = λ h. ground (arith, h);
  others = λ h k. ground (arith, h, k);
}

-- The bit of the error code that a message stands for.
abbrev weight : Message → ℕ
weight protection_violation = 1
weight by_write = 2
weight user_mode = 4
weight reserved_bit = 8
weight instruction_fetch = 16
weight _ = 0

unfoldable pub read_back : List Message → ℕ
read_back [] = 0
read_back (m ∷ ms) = weight m + read_back ms

-- The messages on the five bits of a page fault's error code give back these bits.
pub read_back-decode_page_fault_error :
    (err_code : ℕ) → read_back (decode_page_fault_error err_code) ≡ err_code % 2 ^ 5
unfolding read_back decode_page_fault_error
read_back-decode_page_fault_error e =
    let b0 : bit_and e 1 ≡ e % 2 * 1 = bit_and-pow 0 e ∙ omega arith in
    let b1 : bit_and e 2 ≡ e / 2 % 2 * 2 = bit_and-pow 1 e in
    let b2 : bit_and e 4 ≡ e / 4 % 2 * 4 = bit_and-pow 2 e in
    let b3 : bit_and e 8 ≡ e / 8 % 2 * 8 = bit_and-pow 3 e in
    let b4 : bit_and e 16 ≡ e / 16 % 2 * 16 = bit_and-pow 4 e in ground (arith, b0, b1, b2, b3, b4)
