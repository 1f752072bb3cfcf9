-- ===== src/Klib.antt =====
-- kernel/klib: string.c, utils.c and stdio.c over memory that is read and written by bytes.
pub mod Copy
pub mod Strings
pub mod Numbers
pub mod Tokens
use lun_os.Prelude.{
  ℕ, zero, suc, ◌+◌, ◌-◌, ◌*◌, ◌/◌, ◌%◌, ◌^◌, Bool, true, false, ◌&&◌, not, Option, none, some, ltb,
  ◌==◌, if◌then◌else◌, sub64,
}

-- Bytes by address. Addresses in the buffers that a call is given do not wrap.
abbrev pub Bytes : Type 0
Bytes = ℕ → ℕ

unfoldable pub store : Bytes → ℕ → ℕ → Bytes
store m at b = λ a. if a == at then b else m a

-- The loop of memcpy, and of memmove from below.
unfoldable pub copy_up : ℕ → Bytes → ℕ → ℕ → Bytes
copy_up zero m dst src = m
copy_up (suc n) m dst src = copy_up n (store m dst (m src)) (dst + 1) (src + 1)

-- The loop of memmove from above.
pub copy_down : ℕ → Bytes → ℕ → ℕ → Bytes
copy_down zero m dst src = m
copy_down (suc n) m dst src = copy_down n (store m (dst + n) (m (src + n))) dst src

pub memcpy : Bytes → ℕ → ℕ → ℕ → Bytes
memcpy m dst src size = copy_up size m dst src

pub memmove : Bytes → ℕ → ℕ → ℕ → Bytes
memmove m dst src size = if ltb dst src then copy_up size m dst src else copy_down size m dst src

-- `(unsigned char) value`
pub memset : Bytes → ℕ → ℕ → ℕ → Bytes
memset m buf value zero = m
memset m buf value (suc n) = memset (store m buf (value % 256)) (buf + 1) value n

-- What memcmp returns: -1, 1 or 0.
pub data Order : Type 0 where
  below : Order
  above : Order
  same : Order

pub memcmp : Bytes → ℕ → ℕ → ℕ → Order
memcmp m a b zero = same
memcmp m a b (suc n) =
    let rest = memcmp m (a + 1) (b + 1) n in
    if ltb (m a) (m b) then below else if ltb (m b) (m a) then above else rest

-- The loops over strings stop at a 0 byte: fuel bounds how far they look, and `none` is fuel spent.
unfoldable pub strlen : ℕ → Bytes → ℕ → Option ℕ
strlen zero m str = none
strlen (suc f) m str =
    let rest : Option ℕ = elim (strlen f m (str + 1)) [ none ↦ none | some n ↦ some (suc n) ] in
    if m str == 0 then some 0 else rest

-- The difference of the two bytes, as a 32-bit int.
pub strcmp : ℕ → Bytes → ℕ → ℕ → Option ℕ
strcmp zero m s1 s2 = none
strcmp (suc f) m s1 s2 =
    let rest = strcmp f m (s1 + 1) (s2 + 1) in
    if (m s1 == m s2) && not (m s1 == 0) then rest else some ((m s1 + 2 ^ 32 - m s2) % 2 ^ 32)

-- The inner option is the pointer or NULL.
unfoldable pub strchr : ℕ → Bytes → ℕ → ℕ → Option (Option ℕ)
strchr zero m str chr = none
strchr (suc f) m str chr =
    let rest = strchr f m (str + 1) chr in
    if m str == chr % 256 then some (some str) else if m str == 0 then some none else rest

-- The loop of reverse_str, on fuel.
unfoldable pub swap_loop : ℕ → Bytes → ℕ → ℕ → Bytes
swap_loop zero m start end = m
swap_loop (suc f) m start end =
    let rest = swap_loop f (store (store m start (m end)) end (m start)) (start + 1) (end - 1) in
    if ltb start end then rest else m

-- reverse_str of a string of `n` bytes, `n` being what strlen returns.
unfoldable pub reverse_bytes : Bytes → ℕ → ℕ → Bytes
reverse_bytes m str n = swap_loop n m str (str + sub64 n 1)

unfoldable pub reverse_str : ℕ → Bytes → ℕ → Option Bytes
reverse_str fuel m str = elim (strlen fuel m str) [
  | none ↦ none
  | some n ↦ some (reverse_bytes m str n)
]
