-- ===== src/Log/Text.antt =====
-- Strings that are read, and text that has been written to the buffer.
use lun_os.Prelude.{
  ℕ, zero, suc, ◌+◌, ◌-◌, ◌≤◌, ◌<◌, ◌≡◌, ◌≢◌, ◌⊎◌, inl, refl, ap, ◌∙◌, arith, true, false, Option,
  none, some, List, [], ◌∷◌, ◌++◌, length, ltb, ◌==◌,
}
use lun_os.Klib.{Bytes, store}
use lun_os.Klib.Strings.{HasLength}
use lun_os.Log.{kprintf_buf_size, Out, append, write_ch, char_at, str_loop, write_str}

-- The text stands in memory from `a` on.
abbrev pub Holds : Bytes → ℕ → List ℕ → Type 0
Holds m a [] = Unit
Holds m a (c ∷ cs) = (m a ≡ c) × Holds m (a + 1) cs

-- What is in an array of the function, or outside the buffer.
abbrev pub Clear : ℕ → Option Bytes → ℕ → Type 0
Clear buf none a = (a < buf) ⊎ (buf + kprintf_buf_size ≤ a)
Clear buf (some local) a = Unit

-- The bytes of a string, none of them 0, with a 0 behind them, all of them clear of the buffer.
abbrev pub Reads : ℕ → Option Bytes → ℕ → List ℕ → Out → Type 0
Reads buf local s [] o = Clear buf local s × (char_at local s o ≡ 0)
Reads buf local s (c ∷ cs) o =
    Clear buf local s × (char_at local s o ≡ c) × (0 < c) × Reads buf local (s + 1) cs o

-- The text has been written behind what was there, and nothing else has changed.
pub record Shows (buf : ℕ) (o o' : Out) (text : List ℕ) : Type 0 where
  pub counted : o'.len ≡ o.len + length text
  pub there : Holds o'.mem (buf + o.len) text
  pub kept : (a : ℕ) → (a < buf + o.len) ⊎ (buf + o'.len ≤ a) → o'.mem a ≡ o.mem a

pub length-append : (xs ys : List ℕ) → length (xs ++ ys) ≡ length xs + length ys
length-append [] ys = omega arith
length-append (x ∷ xs) ys = omega (arith, length-append xs ys)

bytes_kept :
    (m m' : Bytes) (a : ℕ) (text : List ℕ)
    → ((b : ℕ) → a ≤ b → b < a + length text → m' b ≡ m b)
    → Holds m a text
    → Holds m' a text
bytes_kept m m' a [] same h = tt
bytes_kept m m' a (c ∷ cs) same (e, h) = (
  same a (omega arith) (omega arith) ∙ e,
  bytes_kept m m' (a + 1) cs (λ b lo hi. same b (omega (arith, lo)) (omega (arith, hi))) h,
)

bytes_at : (m : Bytes) (a b : ℕ) (text : List ℕ) → a ≡ b → Holds m a text → Holds m b text
bytes_at m a b text e h = rw e at h

Holds-append :
    (m : Bytes) (a : ℕ) (s t : List ℕ) → Holds m a s → Holds m (a + length s) t → Holds m a (s ++ t)
Holds-append m a [] t h k = bytes_at m (a + 0) a t (omega arith) k
Holds-append m a (c ∷ cs) t (e, h) k =
    (e, Holds-append m (a + 1) cs t h (bytes_at m _ _ t (omega arith) k))

module _ (buf : ℕ) where
  pub nothing : (o : Out) → Shows buf o o []
  nothing o = record { counted = omega arith; there = tt; kept = λ a out. refl }

  pub append-Shows : (ch c : ℕ) (o : Out) → ch ≡ c → Shows buf o (append buf ch o) (c ∷ [])
  unfolding append store
  append-Shows ch c o e = record {
    counted = omega arith;
    there = (ground (arith, e), tt);
    kept = λ a out. ground (arith, out);
  }

  pub both :
      (o o' o'' : Out) (s t : List ℕ)
      → Shows buf o o' s
      → Shows buf o' o'' t
      → Shows buf o o'' (s ++ t)
  both o o' o'' s t g k = record {
    counted = omega (arith, g.counted, k.counted, length-append s t);
    there =
        Holds-append o''.mem (buf + o.len) s t
          (bytes_kept o'.mem o''.mem (buf + o.len) s
            (λ b lo hi. k.kept b (inl (omega (arith, hi, g.counted)))) g.there)
          (bytes_at o''.mem _ _ t (omega (arith, g.counted)) k.there);
    kept = λ a out.
        k.kept a (ground (arith, out, g.counted, k.counted))
        ∙ g.kept a (ground (arith, out, g.counted, k.counted));
  }

  -- A string is as it was when only the buffer has changed.
  char_kept :
      (o o' : Out) (text : List ℕ) (local : Option Bytes) (s : ℕ)
      → Shows buf o o' text
      → o'.len ≤ kprintf_buf_size
      → Clear buf local s
      → char_at local s o' ≡ char_at local s o
  unfolding char_at
  char_kept o o' text none s g h clear = g.kept s (ground (arith, clear, h, g.counted))
  char_kept o o' text (some local) s g h clear = refl

  pub reading_kept :
      (o o' : Out) (text : List ℕ) (local : Option Bytes) (s : ℕ) (cs : List ℕ)
      → Shows buf o o' text
      → o'.len ≤ kprintf_buf_size
      → Reads buf local s cs o
      → Reads buf local s cs o'
  reading_kept o o' text local s [] g h (clear, e) =
      (clear, char_kept o o' text local s g h clear ∙ e)
  reading_kept o o' text local s (c ∷ cs) g h (clear, e, nz, r) = (
    clear,
    char_kept o o' text local s g h clear ∙ e,
    nz,
    reading_kept o o' text local (s + 1) cs g h r,
  )

  pub write_ch-Shows :
      (ch : ℕ) (o : Out) → o.len < kprintf_buf_size → write_ch buf ch o ≡ (true, append buf ch o)
  unfolding write_ch
  write_ch-Shows ch o h = let q : ltb o.len kprintf_buf_size ≡ true = ground (arith, h) in rw q refl

  -- A string that fits is written whole.
  pub str_loop-Shows :
      (cs : List ℕ) (n : ℕ) (local : Option Bytes) (s : ℕ) (o : Out)
      → Reads buf local s cs o
      → length cs ≤ n
      → o.len + n < kprintf_buf_size
      → (o' : Out) × (str_loop n local s buf o ≡ (true, o')) × Shows buf o o' cs
  unfolding str_loop
  str_loop-Shows [] zero local s o (clear, e) fits room =
      let q : (char_at local s o == 0) ≡ true = ground (arith, e) in (o, rw q refl, nothing o)
  str_loop-Shows [] (suc n) local s o (clear, e) fits room =
      let q : (char_at local s o == 0) ≡ true = ground (arith, e) in (o, rw q refl, nothing o)
  str_loop-Shows (c ∷ cs) zero local s o r fits room = absurd (omega (arith, fits))
  str_loop-Shows (c ∷ cs) (suc n) local s o (clear, e, nz, r) fits room =
      let q : (char_at local s o == 0) ≡ false = ground (arith, e, nz) in
      let o1 = append buf (char_at local s o) o in
      let one = append-Shows (char_at local s o) c o e in
      let (o', f, g) =
        str_loop-Shows cs n local (s + 1) o1
          (reading_kept o o1 _ local (s + 1) cs one (omega (arith, one.counted, room)) r)
          (omega (arith, fits)) (omega (arith, one.counted, room)) in
      (o', rw q f, both o o1 o' (c ∷ []) cs one g)

  pub write_str-Shows :
      (cs : List ℕ) (local : Option Bytes) (s : ℕ) (o : Out)
      → Reads buf local s cs o
      → o.len + length cs < kprintf_buf_size
      → (o' : Out) × (write_str local s buf o ≡ (true, o')) × Shows buf o o' cs
  unfolding write_str
  write_str-Shows cs local s o r fits =
      str_loop-Shows cs (kprintf_buf_size - 1 - o.len) local s o r (omega (arith, fits))
        (omega (arith, fits))

-- The bytes of an array up to its 0.
unfoldable pub bytes_of : ℕ → ℕ → Bytes → List ℕ
bytes_of zero i local = []
bytes_of (suc n) i local = local i ∷ bytes_of n (i + 1) local

pub length-bytes_of : (n i : ℕ) (local : Bytes) → length (bytes_of n i local) ≡ n
unfolding bytes_of
length-bytes_of zero i local = refl
length-bytes_of (suc n) i local = ap suc (length-bytes_of n (i + 1) local)

pub HasLength-Reads :
    (buf n i : ℕ) (local : Bytes) (o : Out)
    → HasLength local i n
    → Reads buf (some local) i (bytes_of n i local) o
unfolding bytes_of char_at
HasLength-Reads buf zero i local o h = (tt, ap local (omega arith) ∙ h.ended)
HasLength-Reads buf (suc n) i local o h =
    let first : local i ≢ 0 = λ e. h.filled 0 (omega arith) (ap local (omega arith) ∙ e) in
    let rest : HasLength local (i + 1) n = record {
      filled = λ k g e. h.filled (suc k) (omega (arith, g)) (ap local (omega arith) ∙ e);
      ended = ap local (omega arith) ∙ h.ended;
    } in
    (tt, refl, omega (arith, first), HasLength-Reads buf n (i + 1) local o rest)
