-- ===== src/Log.antt =====
-- The kernel log: kernel/kernel/console/logging/klogging.c with kernel/include/kernel/bufferutils.h. The
-- terminal is output: what is sent to it is a list of calls.
pub mod Bounds
pub mod Text
pub mod Pieces
pub mod Render
use lun_os.Prelude.{
  ℕ, zero, suc, ◌+◌, ◌-◌, ◌%◌, ◌^◌, Bool, true, false, ◌||◌, not, Option, none, some, List, [], ◌∷◌,
  ltb, ◌==◌, if◌then◌else◌,
}
use lun_os.Klib.{Bytes, store}
use lun_os.Klib.Numbers.{ui64_to_hex_str, ul_to_str, itoa}

abbrev pub kprintf_buf_size : ℕ
kprintf_buf_size = 1024

-- Memory, and `len`, the bytes of the buffer that are written.
pub record Out : Type 0 where
  pub mem : Bytes
  pub len : ℕ

unfoldable pub append : ℕ → ℕ → Out → Out
append buf ch o = record { mem = store o.mem (buf + o.len) ch; len = o.len + 1 }

-- BUFFER_SAFE_WRITE_CH: whether there was room.
pub write_ch : ℕ → ℕ → Out → Bool × Out
write_ch buf ch o = if ltb o.len kprintf_buf_size then (true, append buf ch o) else (false, o)

-- A byte of a string in memory or, with `local`, in an array of the function.
unfoldable pub char_at : Option Bytes → ℕ → Out → ℕ
char_at none s o = o.mem s
char_at (some local) s o = local s

-- `while(*s && len < max - 1)`, where `n` more bytes may be written, and the test behind it.
pub str_loop : ℕ → Option Bytes → ℕ → ℕ → Out → Bool × Out
str_loop zero local s buf o = (char_at local s o == 0, o)
str_loop (suc n) local s buf o =
    let rest = str_loop n local (s + 1) buf (append buf (char_at local s o) o) in
    if char_at local s o == 0 then (true, o) else rest

-- BUFFER_SAFE_WRITE_STR
pub write_str : Option Bytes → ℕ → ℕ → Out → Bool × Out
write_str local s buf o = str_loop (kprintf_buf_size - 1 - o.len) local s buf o

-- `for(int i = 0; i < int_str_len; i++)`, the last `n` turns of it.
pub digits_out : ℕ → ℕ → Bytes → ℕ → Out → Bool × Out
digits_out zero i local buf o = (true, o)
digits_out (suc n) i local buf o =
    let (room, o') = write_ch buf (local i) o in
    let rest = digits_out n (i + 1) local buf o' in if room then rest else (false, o')

-- A string literal.
unfoldable pub literal : List ℕ → Bytes
literal [] a = 0
literal (c ∷ cs) zero = c
literal (c ∷ cs) (suc a) = literal cs a

-- A turn of the loop over the format: it goes on at the place in the format with the arguments that are
-- left; or the format has ended; or the buffer is full; or an argument is missing.
pub data Turn : Type 0 where
  going : ℕ → List ℕ → Out → Turn
  ended : Out → Turn
  full : Out → Turn
  missing : Turn

pub proceed : ℕ → List ℕ → Bool × Out → Turn
proceed f args (true, o) = going f args o
proceed f args (false, o) = full o

-- A number that was printed into an array of the function.
pub numeral : ℕ → ℕ → List ℕ → Out → Option (ℕ × Bytes) → Turn
numeral buf f args o none = missing
numeral buf f args o (some (n, local)) = proceed f args (write_str (some local) 0 buf o)

-- The memory of an array before it is written.
abbrev pub blank_array : Bytes
blank_array = λ _. 0

-- The same for an int, whose bytes are written one at a time.
pub int_numeral : ℕ → ℕ → List ℕ → Out → Option (ℕ × Bytes) → Turn
int_numeral buf f args o none = missing
int_numeral buf f args o (some (n, local)) = proceed f args (digits_out n 0 local buf o)

pub put_int : ℕ → ℕ → ℕ → List ℕ → Out → Turn
put_int buf f v args o = int_numeral buf f args o (itoa blank_array (v % 2 ^ 32) 0)

pub put_pointer : ℕ → ℕ → ℕ → List ℕ → Out → Turn
put_pointer buf f v args o =
    let null = proceed f args (write_str (some (literal (48 ∷ 120 ∷ 48 ∷ []))) 0 buf o) in
    let hex = numeral buf f args o (ui64_to_hex_str blank_array v 0) in if v == 0 then null else hex

-- Both halves of a specifier that is not known, the second one only if there was room for the first.
pub put_unknown : ℕ → ℕ → ℕ → List ℕ → Bool × Out → Turn
put_unknown buf f ch args (true, o) = proceed f args (write_ch buf ch o)
put_unknown buf f ch args (false, o) = full o

-- What the specifier `c` does with the first argument; the place `f` in the format is behind it.
pub convert : ℕ → ℕ → ℕ → ℕ → List ℕ → Out → Turn
convert buf c f v args o =
    if c == 100
    then put_int buf f v args o
    else if c == 115
    then proceed f args (write_str none v buf o)
    else if c == 99
    then proceed f args (write_ch buf (v % 256) o)
    else if c == 112
    then put_pointer buf f v args o
    else if c == 120
    then numeral buf f args o (ui64_to_hex_str blank_array (v % 2 ^ 32) 0)
    else numeral buf f args o (ul_to_str blank_array (v % 2 ^ 32) 0)

-- `l` and what follows it.
pub convert_long : ℕ → ℕ → ℕ → ℕ → List ℕ → Out → Turn
convert_long buf c f v args o =
    if c == 117
    then numeral buf f args o (ul_to_str blank_array v 0)
    else numeral buf f args o (ui64_to_hex_str blank_array v 0)

unfoldable pub takes_argument : ℕ → Bool
takes_argument c = c == 100 || (c == 115 || (c == 99 || (c == 112 || (c == 120 || c == 117))))

-- The argument is taken by va_arg.
pub with_argument : (ℕ → List ℕ → Turn) → List ℕ → Turn
with_argument k [] = missing
with_argument k (v ∷ args) = k v args

-- The `switch` over the character `c`, whose successor in the format is at `f`.
pub specifier : ℕ → ℕ → ℕ → List ℕ → Out → Turn
specifier buf c f args o =
    let next = o.mem f in
    let known = with_argument (λ v rest. convert buf c f v rest o) args in
    let long = with_argument (λ v rest. convert_long buf next (f + 1) v rest o) args in
    let no_long =
      put_unknown buf (f + 1) next args (write_str (some (literal (37 ∷ 108 ∷ []))) 0 buf o) in
    if takes_argument c
    then known
    else if c == 108
    then (if (next == 117) || (next == 120) then long else no_long)
    else put_unknown buf f c args (write_ch buf 37 o)

-- The body of the loop, at the place `f` in the format.
pub turn : ℕ → ℕ → List ℕ → Out → Turn
turn buf f args o =
    let c = o.mem f in
    let plain = proceed (f + 1) args (write_ch buf c o) in
    let percent = proceed (f + 2) args (write_ch buf c o) in
    let other = specifier buf (o.mem (f + 1)) (f + 2) args o in
    if c == 0
    then ended o
    else if c == 37
    then (if o.mem (f + 1) == 37 then percent else other)
    else plain

-- What kvsprintf leaves: the length, -EOVERFLOW, or no result where an argument is missing or the fuel
-- is spent.
pub data Outcome : Type 0 where
  wrote : Out → Outcome
  overflow : Out → Outcome
  undefined : Outcome

-- `while(*format)`, `n` turns of it.
pub format_loop : ℕ → ℕ → ℕ → List ℕ → Out → Outcome
format_loop zero buf f args o = undefined
format_loop (suc n) buf f args o = elim (turn buf f args o) [
  | going f' args' o' ↦ format_loop n buf f' args' o'
  | ended o' ↦ wrote o'
  | full o' ↦ overflow o'
  | missing ↦ undefined
]

pub kvsprintf : ℕ → Bytes → ℕ → ℕ → List ℕ → Outcome
kvsprintf fuel m buf format args = format_loop fuel buf format args (record { mem = m; len = 0 })

-- The calls of the terminal; a string literal is told by its first bytes.
pub data TerminalCall : Type 0 where
  call_write : ℕ → ℕ → TerminalCall
  call_writestring : List ℕ → TerminalCall
  call_setcolor : ℕ → ℕ → TerminalCall
  overflow_message : TerminalCall

-- kprintf, with what kvsprintf left in the buffer.
pub kprintf : ℕ → Outcome → List TerminalCall
kprintf buf (wrote o) = call_write buf o.len ∷ []
kprintf buf (overflow o) = overflow_message ∷ []
kprintf buf undefined = []

-- The message behind a word in brackets, which has a colour.
pub tagged : ℕ → List ℕ → ℕ → Outcome → List TerminalCall
tagged colour word buf (wrote o) =
    call_writestring (91 ∷ [])
    ∷ call_setcolor colour 0x000035
    ∷ call_writestring word
    ∷ call_setcolor 0xFFFFFF 0x000035
    ∷ call_writestring (93 ∷ 32 ∷ [])
    ∷ call_write buf o.len
    ∷ []
tagged colour word buf (overflow o) = overflow_message ∷ []
tagged colour word buf undefined = []

pub ksuccess : ℕ → Outcome → List TerminalCall
ksuccess = tagged 0x00FF00 (79 ∷ 75 ∷ [])

pub kwarn : ℕ → Outcome → List TerminalCall
kwarn = tagged 0xFFFF00 (87 ∷ 65 ∷ 82 ∷ 78 ∷ 73 ∷ 78 ∷ 71 ∷ [])

pub kerror : ℕ → Outcome → List TerminalCall
kerror = tagged 0xFF0000 (69 ∷ 82 ∷ 82 ∷ 79 ∷ 82 ∷ [])
