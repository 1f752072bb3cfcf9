-- ===== src/Smp/Ids.antt =====
-- The numbers that the processors take.
use lun_os.Prelude.{
  ℕ, ◌+◌, ◌%◌, ◌^◌, ◌<◌, ◌≡◌, ◌≢◌, refl, sym, subst, ◌∙◌, arith, Option, none, some, List, [], ◌∷◌,
  ltb, length, All, if◌then◌else◌, dec_lt,
}
use lun_os.Sched.{max_cores}
use lun_os.Smp.{Smp, init_percpu_data, get_current_core_id, take_cpu_id, take_cpu_ids}

abbrev pub Distinct : List ℕ → Type 0
Distinct [] = Unit
Distinct (x ∷ xs) = All (λ (y : ℕ). y ≢ x) xs × Distinct xs

-- The processors have the numbers from `i` on that are below MAX_CORES, in this order; the others none.
pub Numbered : ℕ → List ℕ → Smp → Type 0
Numbered i [] s = Unit
Numbered i (x ∷ xs) s =
    (get_current_core_id x s ≡ (if ltb i max_cores then some i else none)) × Numbered (i + 1) xs s

-- The slot of a processor, if it has one, holds its number.
abbrev pub Holds : ℕ → Option ℕ → Smp → Type 0
Holds x none s = s.gs x ≡ none
Holds x (some j) s = (s.gs x ≡ some j) × (s.percpu_processor_ids j ≡ j)

Holds-take_cpu_id :
    (x y : ℕ) (v : Option ℕ) (s : Smp) → y ≢ x → Holds x v s → Holds x v (take_cpu_id y s)
unfolding take_cpu_id init_percpu_data
Holds-take_cpu_id x y none s ne h = ground (arith, ne, h)
Holds-take_cpu_id x y (some j) s ne (h, k) = (ground (arith, ne, h), ground (arith, k))

Holds-take_cpu_ids :
    (xs : List ℕ) (x : ℕ) (v : Option ℕ) (s : Smp)
    → All (λ (y : ℕ). y ≢ x) xs
    → Holds x v s
    → Holds x v (take_cpu_ids xs s)
unfolding take_cpu_ids
Holds-take_cpu_ids [] x v s a h = h
Holds-take_cpu_ids (y ∷ xs) x v s (ne, a) h =
    Holds-take_cpu_ids xs x v (take_cpu_id y s) a (Holds-take_cpu_id x y v s ne h)

-- What the processor that takes its number finds.
taken :
    (x : ℕ) (s : Smp)
    → s.gs x ≡ none
    → Holds x (if ltb s.cpu_id_ctr max_cores then some s.cpu_id_ctr else none) (take_cpu_id x s)
unfolding take_cpu_id init_percpu_data
taken x s h = elim (dec_lt s.cpu_id_ctr max_cores) [
  | yes lt ↦ ground (arith, h, lt)
  | no ge ↦ ground (arith, h, ge)
]

unset :
    (xs : List ℕ) (x : ℕ) (s : Smp)
    → All (λ (y : ℕ). y ≢ x) xs
    → All (λ (y : ℕ). s.gs y ≡ none) xs
    → All (λ (y : ℕ). (take_cpu_id x s).gs y ≡ none) xs
unset [] x s a h = tt
unset (y ∷ xs) x s (ne, a) (h, hs) =
    (Holds-take_cpu_id y x none s (λ e. ne (sym e)) h, unset xs x s a hs)

pub Holds-get_current_core_id :
    (x : ℕ) (v : Option ℕ) (s : Smp) → Holds x v s → get_current_core_id x s ≡ v
unfolding get_current_core_id
Holds-get_current_core_id x none s h = rw (get_current_core_id, h) refl
Holds-get_current_core_id x (some j) s (h, k) = rw (get_current_core_id, h, k) refl

counted : (x : ℕ) (s : Smp) → (take_cpu_id x s).cpu_id_ctr ≡ (s.cpu_id_ctr + 1) % 2 ^ 32
unfolding take_cpu_id init_percpu_data
counted x s = ground arith

-- Whatever the order in which different processors take their ids, the k-th of them, from 0 on, then
-- reads the number cpu_id_ctr + k where that is below MAX_CORES, and has no number otherwise; none of
-- them had one before, and the counter stays below 2 ^ 32.
pub take_cpu_ids-Numbered :
    (xs : List ℕ) (s : Smp)
    → Distinct xs
    → All (λ (y : ℕ). s.gs y ≡ none) xs
    → s.cpu_id_ctr + length xs < 2 ^ 32
    → Numbered s.cpu_id_ctr xs (take_cpu_ids xs s)
unfolding take_cpu_ids Numbered
take_cpu_ids-Numbered [] s d n b = tt
take_cpu_ids-Numbered (x ∷ xs) s (ne, d) (h, n) b =
    let v = if ltb s.cpu_id_ctr max_cores then some s.cpu_id_ctr else none in
    let s1 = take_cpu_id x s in
    let ctr : s1.cpu_id_ctr ≡ s.cpu_id_ctr + 1 = counted x s ∙ omega (arith, b) in
    (
      Holds-get_current_core_id x v (take_cpu_ids xs s1)
          (Holds-take_cpu_ids xs x v s1 ne (taken x s h)),
      subst (λ (i : ℕ). Numbered i xs (take_cpu_ids xs s1)) ctr
          (take_cpu_ids-Numbered xs s1 d (unset xs x s ne n) (omega (arith, b, ctr))),
    )
