-- ===== src/Sync/Threads.antt =====
-- Threads that share one word: a list of program points, one of which moves at a time.
use lun_os.Prelude.{ℕ, zero, suc, ◌+◌, ◌≤◌, ◌≡◌, refl, ap, List, [], ◌∷◌, length, All, arith}

-- The list on the right has `y` at one place where that on the left has `x`.
pub data Replaced {ℓ} {A : Type ℓ} (x y : A) : List A → List A → Type ℓ where
  here : {xs : List A} → Replaced x y (x ∷ xs) (y ∷ xs)
  there : {z : A} {xs ys : List A} → Replaced x y xs ys → Replaced x y (z ∷ xs) (z ∷ ys)

unfoldable pub total {ℓ} : {A : Type ℓ} → (A → ℕ) → List A → ℕ
total f [] = 0
total f (x ∷ xs) = f x + total f xs

unfoldable pub replicate {ℓ} : {A : Type ℓ} → ℕ → A → List A
replicate zero x = []
replicate (suc n) x = x ∷ replicate n x

pub total-replicate {ℓ} :
    {A : Type ℓ} (f : A → ℕ) (n : ℕ) (x : A) → f x ≡ 0 → total f (replicate n x) ≡ 0
unfolding total replicate
total-replicate f zero x h = refl
total-replicate f (suc n) x h = omega (arith, h, total-replicate f n x h)

pub length-replicate {ℓ} : {A : Type ℓ} (n : ℕ) (x : A) → length (replicate n x) ≡ n
unfolding replicate
length-replicate zero x = refl
length-replicate (suc n) x = ap suc (length-replicate n x)

module _ {ℓ} {A : Type ℓ} {x y : A} where
  -- A move changes a total by what it changes at its own place.
  pub total-Replaced :
      (f : A → ℕ) {xs ys : List A}
      → Replaced x y xs ys
      → (k : ℕ) × (total f xs ≡ f x + k) × (total f ys ≡ f y + k)
  unfolding total
  total-Replaced f (here {xs}) = (total f xs, refl, refl)
  total-Replaced f (there {z} r) =
      let (k, e, g) = total-Replaced f r in (f z + k, omega (arith, e), omega (arith, g))

  pub length-Replaced : {xs ys : List A} → Replaced x y xs ys → length ys ≡ length xs
  length-Replaced here = refl
  length-Replaced (there r) = ap suc (length-Replaced r)

  pub All-Replaced {κ} :
      (P : A → Type κ) {xs ys : List A} → Replaced x y xs ys → All P xs → P x × (P y → All P ys)
  All-Replaced P here (h, rest) = (h, λ g. (g, rest))
  All-Replaced P (there r) (h, rest) =
      let (p, back) = All-Replaced P r rest in (p, λ g. (h, back g))

pub All-replicate {ℓ κ} :
    {A : Type ℓ} (P : A → Type κ) (n : ℕ) (x : A) → P x → All P (replicate n x)
unfolding replicate
All-replicate P zero x h = tt
All-replicate P (suc n) x h = (h, All-replicate P n x h)

-- A quantity of at most one at each place is at most the length.
pub total_bound {ℓ} :
    {A : Type ℓ} (f g : A → ℕ)
    → ((x : A) → f x + g x ≤ 1)
    → (xs : List A) → total f xs + total g xs ≤ length xs
unfolding total
total_bound f g h [] = omega arith
total_bound f g h (x ∷ xs) = omega (arith, h x, total_bound f g h xs)
