-- ===== src/Klib/Copy.antt =====
-- Copying blocks of memory, overlapping ones too.
use lun_os.Prelude.{
  ℕ, zero, suc, ◌+◌, ◌-◌, ◌%◌, ◌≤◌, ◌<◌, ◌≡◌, ◌⊎◌, ◌↔◌, ◌≢◌, inl, inr, refl, sym, ap, ◌∙◌, arith,
  ltb, Bool-cases, ltb→lt, ltb-false→le, dec_lt, ℕ_discrete,
}
use lun_os.Klib.{Bytes, store, copy_up, copy_down, memcpy, memmove, memset, memcmp, Order}

pub store_at : (m : Bytes) (at b a : ℕ) → a ≡ at → store m at b a ≡ b
unfolding store
store_at m at b a h = ground arith

pub store_off : (m : Bytes) (at b a : ℕ) → (a < at) ⊎ (at < a) → store m at b a ≡ m a
unfolding store
store_off m at b a h = ground arith

pub up_out :
    (n : ℕ) (m : Bytes) (dst src a : ℕ) → (a < dst) ⊎ (dst + n ≤ a) → copy_up n m dst src a ≡ m a
unfolding copy_up
up_out zero m dst src a h = refl
up_out (suc n) m dst src a h =
    up_out n (store m dst (m src)) (dst + 1) (src + 1) a (ground arith)
    ∙ store_off m dst (m src) a (ground arith)

pub up_in :
    (n : ℕ) (m : Bytes) (dst src a : ℕ)
    → (dst < src) ⊎ (src + n ≤ dst)
    → dst ≤ a
    → a < dst + n
    → copy_up n m dst src a ≡ m (src + (a - dst))
unfolding copy_up
up_in zero m dst src a apart low high = absurd (omega arith)
up_in (suc n) m dst src a apart low high = elim (ℕ_discrete a dst) [
  | yes e ↦
      up_out n (store m dst (m src)) (dst + 1) (src + 1) a (inl (omega arith))
      ∙ store_at m dst (m src) a e
      ∙ ap m (omega arith)
  | no ne ↦
      up_in n (store m dst (m src)) (dst + 1) (src + 1) a (ground arith) (omega arith) (omega arith)
      ∙ store_off m dst (m src) (src + 1 + (a - (dst + 1))) (ground arith)
      ∙ ap m (omega arith)
]

down_out :
    (n : ℕ) (m : Bytes) (dst src a : ℕ) → (a < dst) ⊎ (dst + n ≤ a) → copy_down n m dst src a ≡ m a
unfolding copy_down
down_out zero m dst src a h = refl
down_out (suc n) m dst src a h =
    down_out n (store m (dst + n) (m (src + n))) dst src a (ground arith)
    ∙ store_off m (dst + n) (m (src + n)) a (ground arith)

down_in :
    (n : ℕ) (m : Bytes) (dst src a : ℕ)
    → src ≤ dst
    → dst ≤ a
    → a < dst + n
    → copy_down n m dst src a ≡ m (src + (a - dst))
unfolding copy_down
down_in zero m dst src a le low high = absurd (omega arith)
down_in (suc n) m dst src a le low high = elim (ℕ_discrete a (dst + n)) [
  | yes e ↦
      down_out n (store m (dst + n) (m (src + n))) dst src a (inr (omega arith))
      ∙ store_at m (dst + n) (m (src + n)) a e
      ∙ ap m (omega arith)
  | no ne ↦
      down_in n (store m (dst + n) (m (src + n))) dst src a le low (omega arith)
      ∙ store_off m (dst + n) (m (src + n)) (src + (a - dst)) (inl (omega arith))
]

-- memmove puts the bytes that stood at the source at the destination, however the two blocks
-- overlap, and leaves every other byte as it was.
pub memmove_lem :
    (m : Bytes) (dst src size : ℕ)
    → ((a : ℕ) → dst ≤ a → a < dst + size → memmove m dst src size a ≡ m (src + (a - dst)))
      × ((a : ℕ) → (a < dst) ⊎ (dst + size ≤ a) → memmove m dst src size a ≡ m a)
unfolding memmove
memmove_lem m dst src size = elim (Bool-cases (ltb dst src)) [
  | inl t ↦ rw t (
    λ a low high. up_in size m dst src a (inl (ltb→lt dst src t)) low high,
    λ a h. up_out size m dst src a h,
  )
  | inr f ↦ rw f (
    λ a low high. down_in size m dst src a (ltb-false→le dst src f) low high,
    λ a h. down_out size m dst src a h,
  )
]

-- On blocks of at least one byte that do not overlap memcpy does what memmove does.
pub memcpy-memmove :
    (m : Bytes) (dst src size a : ℕ)
    → (dst + size ≤ src) ⊎ (src + size ≤ dst)
    → 0 < size
    → memcpy m dst src size a ≡ memmove m dst src size a
unfolding memcpy
memcpy-memmove m dst src size a apart p =
    let (moved, kept) = memmove_lem m dst src size in
    elim (dec_lt a dst) [
      | yes l ↦ up_out size m dst src a (inl l) ∙ sym (kept a (inl l))
      | no nl ↦ elim (dec_lt a (dst + size)) [
        | yes g ↦
            up_in size m dst src a (ground arith) (omega arith) g ∙ sym (moved a (omega arith) g)
        | no ng ↦ up_out size m dst src a (inr (omega arith)) ∙ sym (kept a (inr (omega arith)))
      ]
    ]

set_out :
    (n : ℕ) (m : Bytes) (buf value a : ℕ) → (a < buf) ⊎ (buf + n ≤ a) → memset m buf value n a ≡ m a
unfolding memset
set_out zero m buf value a h = refl
set_out (suc n) m buf value a h =
    set_out n (store m buf (value % 256)) (buf + 1) value a (ground arith)
    ∙ store_off m buf (value % 256) a (ground arith)

set_in :
    (n : ℕ) (m : Bytes) (buf value a : ℕ)
    → buf ≤ a
    → a < buf + n
    → memset m buf value n a ≡ value % 256
unfolding memset
set_in zero m buf value a low high = absurd (omega arith)
set_in (suc n) m buf value a low high = elim (ℕ_discrete a buf) [
  | yes e ↦
      set_out n (store m buf (value % 256)) (buf + 1) value a (inl (omega arith))
      ∙ store_at m buf (value % 256) a e
  | no ne ↦ set_in n (store m buf (value % 256)) (buf + 1) value a (omega arith) (omega arith)
]

-- memset writes the value's low byte to each byte of the block and to no other.
pub memset_lem :
    (m : Bytes) (buf value size : ℕ)
    → ((a : ℕ) → buf ≤ a → a < buf + size → memset m buf value size a ≡ value % 256)
      × ((a : ℕ) → (a < buf) ⊎ (buf + size ≤ a) → memset m buf value size a ≡ m a)
memset_lem m buf value size = (set_in size m buf value, set_out size m buf value)

cmp_equal : (m : Bytes) (a b n : ℕ) → m a ≡ m b → memcmp m a b (suc n) ≡ memcmp m (a + 1) (b + 1) n
unfolding memcmp
cmp_equal m a b n e = ground (arith, e)

cmp_differs : (m : Bytes) (a b n : ℕ) → m a ≢ m b → memcmp m a b (suc n) ≢ Order.same
unfolding memcmp
cmp_differs m a b n e = ground (arith, e)

shift_all :
    (m : Bytes) (a b n : ℕ)
    → m a ≡ m b
    → ((k : ℕ) → k < n → m (a + 1 + k) ≡ m (b + 1 + k))
    → (k : ℕ) → k < suc n
    → m (a + k) ≡ m (b + k)
shift_all m a b n e h zero g = ap m (omega arith) ∙ e ∙ ap m (omega arith)
shift_all m a b n e h (suc k) g = ap m (omega arith) ∙ h k (omega arith) ∙ ap m (omega arith)

-- memcmp returns 0 just for blocks that are equal byte by byte.
pub memcmp_lem :
    (m : Bytes) (a b size : ℕ)
    → (memcmp m a b size ≡ Order.same) ↔ ((k : ℕ) → k < size → m (a + k) ≡ m (b + k))
unfolding memcmp
memcmp_lem m a b zero = (λ e k h. absurd (omega arith), λ h. refl)
memcmp_lem m a b (suc n) =
    let (only, all) = memcmp_lem m (a + 1) (b + 1) n in
    elim (ℕ_discrete (m a) (m b)) [
      | yes e ↦ (
        λ same. shift_all m a b n e (only (sym (cmp_equal m a b n e) ∙ same)),
        λ h.
            cmp_equal m a b n e
            ∙ all (λ k g. ap m (omega arith) ∙ h (suc k) (omega arith) ∙ ap m (omega arith)),
      )
      | no ne ↦ (
        λ same. absurd (cmp_differs m a b n ne same),
        λ h. absurd (ne (ap m (omega arith) ∙ h 0 (omega arith) ∙ ap m (omega arith))),
      )
    ]
