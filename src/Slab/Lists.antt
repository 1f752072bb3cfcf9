-- ===== src/Slab/Lists.antt =====
-- Occurrences and sums over the lists of slabs, and what unlinking does to them.
use lun_os.Prelude.{
  ℕ, suc, ◌+◌, ◌-◌, ◌≤◌, ◌<◌, ◌≡◌, ◌≢◌, refl, ap, arith, List, [], ◌∷◌, length, ◌==◌, if◌then◌else◌,
  ℕ_discrete,
}
use lun_os.Slab.{occurs, unlink}

unfoldable pub sum : (ℕ → ℕ) → List ℕ → ℕ
sum f [] = 0
sum f (x ∷ xs) = f x + sum f xs

pub occurs-unlink :
    (a s : ℕ) (xs : List ℕ) → occurs a (unlink s xs) ≡ occurs a xs - (if a == s then 1 else 0)
unfolding occurs unlink
occurs-unlink a s [] = ground arith
occurs-unlink a s (x ∷ xs) = ground (arith, occurs-unlink a s xs)

pub unlink_absent : (s : ℕ) (xs : List ℕ) → occurs s xs ≡ 0 → unlink s xs ≡ xs
unfolding occurs unlink
unlink_absent s [] h = refl
unlink_absent s (x ∷ xs) h = ground (arith, unlink_absent s xs)

pub length-unlink : (s : ℕ) (xs : List ℕ) → length xs ≤ suc (length (unlink s xs))
unfolding unlink
length-unlink s [] = omega arith
length-unlink s (x ∷ xs) = ground (arith, length-unlink s xs)

pub length-unlink_present :
    (s : ℕ) (xs : List ℕ) → 0 < occurs s xs → length xs ≡ suc (length (unlink s xs))
unfolding occurs unlink
length-unlink_present s [] h = absurd (omega arith)
length-unlink_present s (x ∷ xs) h = ground (arith, length-unlink_present s xs)

pub sum-unlink :
    (f : ℕ → ℕ) (s : ℕ) (xs : List ℕ) → 0 < occurs s xs → sum f xs ≡ f s + sum f (unlink s xs)
unfolding sum occurs unlink
sum-unlink f s [] h = absurd (omega arith)
sum-unlink f s (x ∷ xs) h = elim (ℕ_discrete x s) [
  | yes e ↦ ground (arith, e, ap f e)
  | no ne ↦ ground (arith, ne, sum-unlink f s xs)
]

pub sum_agree :
    (f g : ℕ → ℕ) (s : ℕ) (xs : List ℕ)
    → ((a : ℕ) → a ≢ s → g a ≡ f a)
    → occurs s xs ≡ 0
    → sum g xs ≡ sum f xs
unfolding sum occurs
sum_agree f g s [] h absent = refl
sum_agree f g s (x ∷ xs) h absent = ground (arith, h x, sum_agree f g s xs h)

pub sum_update :
    (f g : ℕ → ℕ) (s : ℕ) (xs : List ℕ)
    → ((a : ℕ) → a ≢ s → g a ≡ f a)
    → occurs s xs ≡ 1
    → sum g xs + f s ≡ sum f xs + g s
unfolding sum occurs
sum_update f g s [] h once = absurd (omega arith)
sum_update f g s (x ∷ xs) h once = elim (ℕ_discrete x s) [
  | yes e ↦ ground (arith, e, ap f e, ap g e, sum_agree f g s xs h)
  | no ne ↦ ground (arith, ne, h x, sum_update f g s xs h)
]

pub sum_one : (f : ℕ → ℕ) (s : ℕ) (xs : List ℕ) → 0 < occurs s xs → f s ≤ sum f xs
unfolding sum occurs
sum_one f s [] h = absurd (omega arith)
sum_one f s (x ∷ xs) h = elim (ℕ_discrete x s) [
  | yes e ↦ ground (arith, e, ap f e)
  | no ne ↦ ground (arith, ne, sum_one f s xs)
]
