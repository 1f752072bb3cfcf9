-- ===== src/Tasks/Pids.antt =====
-- The process numbers that incr_pid_ctr gives out.
use lun_os.Prelude.{
  ℕ, zero, suc, ◌+◌, ◌-◌, ◌%◌, ◌≤◌, ◌<◌, ◌≡◌, ◌≢◌, refl, sym, ap, ◌∙◌, arith, ltb, if◌then◌else◌,
}
use lun_os.Tasks.{pid_max, incr_pid_ctr}

-- The counter after `n` calls, which starts at 1; it is the number that the next call returns.
unfoldable pub counter_after : ℕ → ℕ
counter_after zero = 1
counter_after (suc n) = (incr_pid_ctr (counter_after n)).1

cycle : ℕ → ℕ
cycle n = if ltb n pid_max then n + 1 else 2 + (n - pid_max) % (pid_max - 1)

cycle_next : (n : ℕ) → (incr_pid_ctr (cycle n)).1 ≡ cycle (suc n)
unfolding cycle incr_pid_ctr
cycle_next n = ground arith

counter_after-cycle : (n : ℕ) → counter_after n ≡ cycle n
unfolding counter_after cycle
counter_after-cycle zero = refl
counter_after-cycle (suc n) =
    ap (λ (z : ℕ). (incr_pid_ctr z).1) (counter_after-cycle n) ∙ cycle_next n

cycle_apart : (i j : ℕ) → i < j → j < i + (pid_max - 1) → cycle i ≢ cycle j
unfolding cycle
cycle_apart i j lo hi e = ground (arith, lo, hi, e)

cycle_bounds : (n : ℕ) → 0 < n → (1 < cycle n) × (cycle n ≤ pid_max)
unfolding cycle
cycle_bounds n h = (ground (arith, h), ground (arith, h))

-- Of any calls of incr_pid_ctr in a row, fewer than PID_MAX - 1 apart, no two return the same number;
-- and 1 is returned by the first call alone.
pub counter_after_lem :
    (i j : ℕ)
    → i < j
    → j < i + (pid_max - 1)
    → ((incr_pid_ctr (counter_after i)).0 ≢ (incr_pid_ctr (counter_after j)).0)
      × (1 < (incr_pid_ctr (counter_after j)).0)
      × ((incr_pid_ctr (counter_after j)).0 ≤ pid_max)
unfolding incr_pid_ctr
counter_after_lem i j lo hi = (
  λ e. cycle_apart i j lo hi (sym (counter_after-cycle i) ∙ e ∙ counter_after-cycle j),
  omega (arith, counter_after-cycle j, cycle_bounds j (omega (arith, lo))),
  omega (arith, counter_after-cycle j, cycle_bounds j (omega (arith, lo))),
)
