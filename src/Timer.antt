-- ===== src/Timer.antt =====
-- The calibration of the time stamp counter and the wait of 10 ms: kernel/arch/x86_64/timer/timer.c.
-- The machine is a parameter: what CPUID answers, and what the counter and the registers of the clock
-- show at each read. Reads are numbered; the state keeps the number of the next one. The messages are
-- left out.
pub mod Ends
pub mod Wait
use lun_os.Prelude.{
  ℕ, zero, suc, ◌+◌, ◌*◌, ◌/◌, ◌%◌, ◌^◌, ◌&&◌, ◌||◌, not, Option, none, some, ltb, ◌==◌,
  if◌then◌else◌, bit_and, add64, sub64,
}

infixl 20 ◌>>=◌
-- A step that may run out of fuel, and what follows it.
abbrev pub ◌>>=◌ {ℓ κ} : {A : Type ℓ} {B : Type κ} → Option A → (A → Option B) → Option B
none >>= f = none
some a >>= f = f a

-- CPUID's leaf 0x15 is in eax, ebx and ecx, its leaf 0x16 in eax.
pub record Hardware : Type 0 where
  pub eax_15 : ℕ
  pub ebx_15 : ℕ
  pub ecx_15 : ℕ
  pub eax_16 : ℕ
  pub tsc : ℕ → ℕ
  pub rtc : ℕ → ℕ → ℕ

pub record Timing : Type 0 where
  pub cpu_cycles_per_10ms : ℕ
  pub time : ℕ

unfoldable pub get_cpu_frequency_mhz : Hardware → ℕ
get_cpu_frequency_mhz m =
    if not (m.eax_15 == 0) && (not (m.ebx_15 == 0) && not (m.ecx_15 == 0))
    then m.ecx_15 * m.ebx_15 % 2 ^ 64 / m.eax_15 / 1000000
    else if not (m.eax_16 == 0)
    then m.eax_16
    else 0

abbrev pub rtc_seconds : ℕ
rtc_seconds = 0x00

abbrev pub rtc_register_a : ℕ
rtc_register_a = 0x0A

-- The loop over register A, from the read `t` on; it gives the number of the read after the last.
pub update_complete : ℕ → Hardware → ℕ → Option ℕ
update_complete zero m t = none
update_complete (suc fuel) m t =
    let rest = update_complete fuel m (t + 1) in
    if bit_and (m.rtc rtc_register_a t) 0x80 == 0 then some (t + 1) else rest

-- The loops over the seconds.
pub second_changed : ℕ → Hardware → ℕ → ℕ → ℕ → Option (ℕ × ℕ)
second_changed zero m start_second current_second t = none
second_changed (suc fuel) m start_second current_second t =
    let rest = second_changed fuel m start_second (m.rtc rtc_seconds t) (t + 1) in
    if current_second == start_second then rest else some (current_second, t)

pub calibrate_with_rtc : ℕ → Hardware → Timing → Option Timing
calibrate_with_rtc fuel m s = do
  t1 ← update_complete fuel m s.time
  let start_second = m.rtc rtc_seconds t1
  changed ← second_changed fuel m start_second start_second (t1 + 1)
  let start_cycles = m.tsc changed.1
  again ← second_changed fuel m changed.0 changed.0 (changed.1 + 1)
  let cycles_per_second = sub64 (m.tsc again.1) start_cycles
  some record { cpu_cycles_per_10ms = cycles_per_second / 100; time = again.1 + 1 }

pub calibrate_with_known_frequencies : Timing → Timing
calibrate_with_known_frequencies s = record s { cpu_cycles_per_10ms = 24000000 }

-- What calibrate_cpu_timing does after calibrate_with_rtc.
pub check_rtc : Timing → Timing
check_rtc s =
    let wrong = record s { cpu_cycles_per_10ms = 0 } in
    if ltb 0 s.cpu_cycles_per_10ms
    then if ltb s.cpu_cycles_per_10ms 1000000 || ltb 100000000 s.cpu_cycles_per_10ms
      then calibrate_with_known_frequencies wrong
      else s
    else calibrate_with_known_frequencies s

pub calibrate_cpu_timing : ℕ → Hardware → Timing → Option Timing
calibrate_cpu_timing fuel m s =
    let mhz = get_cpu_frequency_mhz m in
    if not (s.cpu_cycles_per_10ms == 0)
    then some s
    else if ltb 0 mhz
    then some record s { cpu_cycles_per_10ms = mhz * 10000 % 2 ^ 64 }
    else do measured ← calibrate_with_rtc fuel m s; some (check_rtc measured)

-- The loop of cpu_wait_10ms.
pub wait_until : ℕ → Hardware → ℕ → ℕ → Option ℕ
wait_until zero m target t = none
wait_until (suc fuel) m target t =
    let rest = wait_until fuel m target (t + 1) in
    if ltb (m.tsc t) target then rest else some (t + 1)

pub cpu_wait_10ms : ℕ → Hardware → Timing → Option Timing
cpu_wait_10ms fuel m s = do
  ready ← if s.cpu_cycles_per_10ms == 0 then calibrate_cpu_timing fuel m s else some s
  let target = add64 (m.tsc ready.time) ready.cpu_cycles_per_10ms
  t ← wait_until fuel m target (ready.time + 1)
  some record ready { time = t }
