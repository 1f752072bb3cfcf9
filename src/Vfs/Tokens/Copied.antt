-- ===== src/Vfs/Tokens/Copied.antt =====
-- The copy of a path that path_walk cuts into tokens.
use lun_os.Prelude.{
  ℕ, zero, suc, ◌+◌, ◌≤◌, ◌<◌, ◌≡◌, ◌≢◌, refl, sym, ap, ◌∙◌, ◌⊎◌, inl, arith, false, Option, some,
  List, [], ◌∷◌, length, ◌==◌,
}
use lun_os.Klib.{Bytes, store, copy_up}
use lun_os.Klib.Copy.{store_at, store_off, up_in, up_out}
use lun_os.Klib.Tokens.{dup_loop, kstrndup, kstrtok_r}
use lun_os.Vfs.{tokens}
use lun_os.Vfs.Tokens.{Starts, Spells}
use lun_os.Vfs.Tokens.Calls.{Tokenized, kstrtok_r-Tokenized}

-- The loop copies, whatever stands in the string behind its first byte.
dup_loop_copy :
    (n i j dst src : ℕ) (m : Bytes) (tmp str : ℕ)
    → i + n ≡ j
    → tmp + i ≡ dst
    → str + i ≡ src
    → m str ≢ 0
    → (str < tmp) ⊎ (tmp + j ≤ str)
    → dup_loop n i m tmp str ≡ (j, copy_up n m dst src)
unfolding dup_loop copy_up
dup_loop_copy zero i j dst src m tmp str at_j at_dst at_src nz apart =
    ap (λ (z : ℕ). (z, m)) (omega (arith, at_j))
dup_loop_copy (suc n) i j dst src m tmp str at_j at_dst at_src nz apart =
    let q : (m str == 0) ≡ false = ground (arith, nz) in
    let m1 = store m (tmp + i) (m (str + i)) in
    let kept : m1 str ≡ m str =
      store_off m (tmp + i) (m (str + i)) str (ground (arith, apart, at_j)) in
    let rest =
      dup_loop_copy n (i + 1) j (dst + 1) (src + 1) m1 tmp str (omega (arith, at_j))
        (omega (arith, at_dst)) (omega (arith, at_src)) (λ h. nz (sym kept ∙ h)) apart in
    rw q (
      rest
      ∙ ap (λ (z : ℕ). (j, copy_up n (store m z (m (str + i))) (dst + 1) (src + 1))) at_dst
      ∙ ap (λ (z : ℕ). (j, copy_up n (store m dst (m z)) (dst + 1) (src + 1))) at_src)

Starts-same :
    (m m' : Bytes) (s t : ℕ) (xs : List ℕ)
    → ((k : ℕ) → k < length xs → m' (t + k) ≡ m (s + k))
    → Starts m s xs
    → Starts m' t xs
Starts-same m m' s t [] same c = tt
Starts-same m m' s t (x ∷ xs) same (e, nz, byte, c) = (
  ap m' (omega arith) ∙ same 0 (omega arith) ∙ ap m (omega arith) ∙ e,
  nz,
  byte,
  Starts-same m m' (s + 1) (t + 1) xs
      (λ k l. ap m' (omega arith) ∙ same (suc k) (omega (arith, l)) ∙ ap m (omega arith)) c,
)

-- kstrndup of a string of `n` bytes with its length, in a block clear of it.
record IsCopied (m m' : Bytes) (tmp str : ℕ) (xs : List ℕ) : Type 0 where
  ran : kstrndup (some tmp) m str (length xs) ≡ (some tmp, m')
  copy : Spells m' tmp xs
  others : (a : ℕ) → (a < tmp) ⊎ (tmp + length xs < a) → m' a ≡ m a

dup_loop_all :
    (m : Bytes) (tmp str : ℕ) (xs : List ℕ)
    → Starts m str xs
    → (str < tmp) ⊎ (tmp + length xs ≤ str)
    → dup_loop (length xs) 0 m tmp str ≡ (length xs, copy_up (length xs) m tmp str)
unfolding dup_loop copy_up
dup_loop_all m tmp str [] c apart = refl
dup_loop_all m tmp str (x ∷ xs) (e, nz, byte, c) apart =
    dup_loop_copy (length (x ∷ xs)) 0 (length (x ∷ xs)) tmp str m tmp str (omega arith)
      (omega arith) (omega arith) (λ h. nz (sym e ∙ h)) apart

kstrndup-IsCopied :
    (m : Bytes) (tmp str : ℕ) (xs : List ℕ)
    → str ≢ 0
    → Spells m str xs
    → (str + length xs < tmp) ⊎ (tmp + length xs < str)
    → IsCopied m (store (copy_up (length xs) m tmp str) (tmp + length xs) 0) tmp str xs
unfolding kstrndup
kstrndup-IsCopied m tmp str xs here (c, z) apart =
    let n = length xs in
    let q : (str == 0) ≡ false = ground (arith, here) in
    let copied = copy_up n m tmp str in
    let run = dup_loop_all m tmp str xs c (ground (arith, apart)) in
    record {
      ran = rw (q, run) refl;
      copy = (
        Starts-same m (store copied (tmp + n) 0) str tmp xs
            (λ k l.
              store_off copied (tmp + n) 0 (tmp + k) (inl (omega (arith, l)))
              ∙ up_in n m tmp str (tmp + k) (ground (arith, apart)) (omega arith) (omega (arith, l))
              ∙ ap m (omega arith))
            c,
        store_at copied (tmp + n) 0 (tmp + n) refl,
      );
      others = λ a o.
          store_off copied (tmp + n) 0 a (ground (arith, o))
          ∙ up_out n m tmp str a (ground (arith, o));
    }

-- Where the bytes of a path, none of them 0, stand at `str`, which is not NULL, with a 0 behind them,
-- kmalloc answers `tmp`, a block of one byte more than they are, the string "/" stands at `delim`, no
-- two of the three overlap, and the fuel is more than the bytes: kstrndup of the path with its length
-- and the calls of kstrtok_r on the copy give the tokens that the walk takes, each as a string in
-- memory, `*saveptr` being at a 0 after the last one and only then, and then NULL; and the path still
-- stands at `str` when the first call is made.
pub kstrndup-Tokenized :
    (f delim tmp str : ℕ) (m : Bytes) (path : List ℕ) (saveptr : Option ℕ)
    → str ≢ 0
    → Spells m str path
    → m delim ≡ 47
    → m (delim + 1) ≡ 0
    → (str + length path < tmp) ⊎ (tmp + length path < str)
    → (delim + 1 < tmp) ⊎ (tmp + length path < delim)
    → length path < f
    → (m' : Bytes) × (kstrndup (some tmp) m str (length path) ≡ (some tmp, m'))
      × Tokenized f 2 delim
          (kstrtok_r f 2 m' (some tmp) delim saveptr)
          (tokens (suc (length path)) path)
      × Spells m' str path
kstrndup-Tokenized f delim tmp str m path saveptr here h slash ended apart clear l =
    let c = kstrndup-IsCopied m tmp str path here h apart in
    let m' = store (copy_up (length path) m tmp str) (tmp + length path) 0 in
    (
      m',
      c.ran,
      kstrtok_r-Tokenized f delim tmp m' path saveptr
          (c.others delim (ground (arith, clear)) ∙ slash)
          (c.others (delim + 1) (ground (arith, clear)) ∙ ended) clear c.copy l,
      (
        Starts-same m m' str str path (λ k b. c.others (str + k) (ground (arith, apart, b))) h.0,
        c.others (str + length path) (ground (arith, apart)) ∙ h.1,
      ),
    )
