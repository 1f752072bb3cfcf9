-- ===== src/Interrupts/Turns.antt =====
-- The interrupts of a processor's timer, one after the other.
use lun_os.Prelude.{
  ℕ, zero, suc, ◌<◌, ◌≡◌, refl, sym, ap, ◌∙◌, arith, List, [], ◌∷◌, ◌++◌, length, All,
}
use lun_os.Ds.Order.{IsList}
use lun_os.Sched.{Sched, schedule}
use lun_os.Sched.Robin.{IsTask, loads_current}
use lun_os.Sched.Fair.{run, Within, schedule-fair}
use lun_os.Interrupts.{InterruptFrame, resumes, Core, isr_dispatch}
use lun_os.Interrupts.Dispatch.{isr_dispatch-IsDispatched}

-- `n` interrupts with the same frame.
unfoldable pub interrupts : ℕ → InterruptFrame → ℕ → Core → Core
interrupts cpu fr zero s = s
interrupts cpu fr (suc n) s = (isr_dispatch cpu fr (interrupts cpu fr n s)).2

-- The task is the one that the handler goes on with in one of the next `n` interrupts.
abbrev pub Resumed : ℕ → InterruptFrame → Core → ℕ → ℕ → Type 0
Resumed cpu fr s n x =
    (k : ℕ) × (k < n) × ((isr_dispatch cpu fr (interrupts cpu fr k s)).1 ≡ resumes x)

run_last : (cpu k : ℕ) (s : Sched) → run cpu (suc k) s ≡ (schedule cpu (run cpu k s)).1
unfolding run
run_last cpu zero s = refl
run_last cpu (suc k) s = run_last cpu k (schedule cpu s).1

module _ (cpu : ℕ) (fr : InterruptFrame) (timer : fr.int_no ≡ 64) (s : Core) where
  interrupts-sched : (k : ℕ) → (interrupts cpu fr k s).sched ≡ run cpu k s.sched
  unfolding interrupts run
  interrupts-sched zero = refl
  interrupts-sched (suc k) =
      ((isr_dispatch-IsDispatched cpu fr (interrupts cpu fr k s)).timer timer).1
      ∙ ap (λ (t : Sched). (schedule cpu t).1) (interrupts-sched k)
      ∙ sym (run_last cpu k s.sched)

  Within-Resumed : (n x : ℕ) → Within cpu s.sched n x → Resumed cpu fr s n x
  Within-Resumed n x (zero, pos, le, e) = absurd (omega (arith, pos))
  Within-Resumed n x (suc k, pos, le, e) =
      let now = (isr_dispatch-IsDispatched cpu fr (interrupts cpu fr k s)).timer timer in
      let loaded : (schedule cpu (interrupts cpu fr k s).sched).0 ≡ x =
        ap (λ (t : Sched). (schedule cpu t).0) (interrupts-sched k)
        ∙ loads_current cpu (run cpu k s.sched)
        ∙ ap (λ (t : Sched). t.current cpu) (sym (run_last cpu k s.sched))
        ∙ e in
      (k, omega (arith, le), now.0 ∙ ap (λ (t : ℕ). resumes t) loaded)

  each_Resumed : (n : ℕ) (xs : List ℕ) → All (Within cpu s.sched n) xs → All (Resumed cpu fr s n) xs
  each_Resumed n [] h = tt
  each_Resumed n (x ∷ xs) (h, hs) = (Within-Resumed n x h, each_Resumed n xs hs)

-- Where the run queue of a processor is the ring of the tasks `before`, the current task and the tasks
-- `after`, all of them other than NULL and the queue's head: each of the n tasks of the queue is what
-- the handler goes on with in one of the next n interrupts of the timer.
pub interrupts-fair :
    (cpu : ℕ) (fr : InterruptFrame) (s : Core) (before after : List ℕ)
    → fr.int_no ≡ 64
    → IsList s.sched.nodes (s.sched.runqueue cpu) (before ++ (s.sched.current cpu ∷ after))
    → All (IsTask cpu s.sched) before
    → IsTask cpu s.sched (s.sched.current cpu)
    → All (IsTask cpu s.sched) after
    → All
        (Resumed cpu fr s (length (before ++ (s.sched.current cpu ∷ after))))
        (before ++ (s.sched.current cpu ∷ after))
interrupts-fair cpu fr s before after timer l b c a =
    each_Resumed cpu fr timer s _ _ (schedule-fair cpu s.sched before after l b c a)
