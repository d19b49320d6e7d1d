-- ===== src/Console/Defs.antt =====
-- kernel/console.rs: the console's input ring, its interrupt handler, and `read` and `write`.
-- The indices are `Wrapping<usize>`, so they are numbers below 2^64 that wrap. What a call does to
-- the world outside the ring is a list of events, oldest first.
use octox.Base.{
  ℕ, zero, suc, ◌+◌, ◌-◌, ◌%◌, ◌^◌, Bool, not, ◌&&◌, ◌||◌, List, [], ◌∷◌, ◌++◌, ◌==◌, ltb,
  if◌then◌else◌, get_or, set, Option, none, some,
}
use Prim.Native.Nat.{bit_or}

abbrev pub word : ℕ
word = 2 ^ 64

abbrev pub add64 : ℕ → ℕ → ℕ
add64 a b = (a + b) % word

abbrev pub sub64 : ℕ → ℕ → ℕ
sub64 a b = (a + word - b) % word

abbrev pub input_buf_size : ℕ
input_buf_size = 128

-- const fn ctrl: only applied to letters, so that the subtraction does not go below zero.
abbrev pub ctrl : ℕ → ℕ
ctrl x = x - b'@'

abbrev pub newline : ℕ
newline = 10

abbrev pub bs : ℕ
bs = 0x08

pub record Cons : Type 0 where
  pub buf : List ℕ
  pub r : ℕ
  pub w : ℕ
  pub e : ℕ

-- A byte for the uart, a print of the process list, a wakeup of the sleepers on `r`.
pub data Event : Type 0 where
  put : ℕ → Event
  dump : Event
  wake : Event

unfoldable pub putc : ℕ → List Event
putc c = if c == ctrl b'H' then put bs ∷ put b' ' ∷ put bs ∷ [] else put c ∷ []

pub record Step : Type 0 where
  pub cons : Cons
  pub events : List Event

abbrev pub step : Cons → List Event → Step
step c es = record { cons = c; events = es }

abbrev pub byte_at : Cons → ℕ → ℕ
byte_at c i = get_or c.buf (i % input_buf_size) 0

-- The loop of control-U. Its fuel is the length of the line, which bounds the rounds.
unfoldable pub kill_line : ℕ → Cons → List Event → Step
kill_line zero c es = step c es
kill_line (suc k) c es =
    let rest = kill_line k (record c { e = sub64 c.e 1 }) (es ++ putc (ctrl b'H')) in
    if not (c.e == c.w) && not (byte_at c (sub64 c.e 1) == newline) then rest else step c es

unfoldable pub backspace : Cons → Step
backspace c =
    if c.e == c.w then step c [] else step (record c { e = sub64 c.e 1 }) (putc (ctrl b'H'))

-- The last arm of `intr`, for the character after the translation of '\r'.
unfoldable pub store : Cons → ℕ → Step
store c x =
    let e' = add64 c.e 1 in
    let buf' = set c.buf (c.e % input_buf_size) x in
    if (x == newline) || ((x == ctrl b'D') || (sub64 e' c.r == input_buf_size))
    then step (record c { buf = buf'; e = e'; w = e' }) (putc x ++ (wake ∷ []))
    else step (record c { buf = buf'; e = e' }) (putc x)

unfoldable pub intr : Cons → ℕ → Step
intr c x =
    if x == ctrl b'P'
    then step c (dump ∷ [])
    else (if x == ctrl b'U'
        then kill_line (sub64 c.e c.w) c []
        else (if x == bit_or (ctrl b'H') 0x7f
            then backspace c
            else (if not (x == 0) && ltb (sub64 c.e c.r) input_buf_size
                then store c (if x == 13 then newline else x)
                else step c [])))

-- What a call of `read` comes to: it returns, having copied the bytes out; it sleeps, with so many
-- bytes still wanted; or it fails, since the process was killed. A byte that `either_copyout` does
-- not accept is consumed.
pub data Read : Type 0 where
  returns : Cons → List ℕ → Read
  sleeps : Cons → (wanted : ℕ) → List ℕ → Read
  fails : Cons → Read

-- The loop of `read`: `n` bytes are still wanted of `target`, those of `got` have been copied, and
-- `accepts` says whether the copy of the byte after so many succeeds.
unfoldable pub read_loop :
    (killed : Bool) (accepts : ℕ → Bool) (target n : ℕ) → List ℕ → Cons → Read
read_loop killed accepts target zero got c = returns c got
read_loop killed accepts target (suc n) got c =
    let x = byte_at c c.r in
    let c' = record c { r = add64 c.r 1 } in
    let rest = read_loop killed accepts target n (got ++ (x ∷ [])) c' in
    if c.r == c.w
    then (if killed then fails c else sleeps c (suc n) got)
    else (if x == ctrl b'D'
        then (if ltb (suc n) target
            then returns (record c' { r = sub64 c'.r 1 }) got
            else returns c' got)
        else (if not (accepts (target - suc n))
            then returns c' got
            else (if x == newline then returns c' (got ++ (x ∷ [])) else rest)))

unfoldable pub read : (killed : Bool) (accepts : ℕ → Bool) (n : ℕ) → Cons → Read
read killed accepts n c = read_loop killed accepts n n [] c

-- `write`: each round copies in the byte at `src`, which the loop does not advance. `copyin` is
-- `either_copyin` of a byte, `none` if it fails.
unfoldable pub write_loop : (copyin : ℕ → Option ℕ) (src rounds i : ℕ) → List Event → ℕ × List Event
write_loop copyin src zero i es = (i, es)
write_loop copyin src (suc k) i es = elim (copyin src) [
  | none ↦ (i, es)
  | some x ↦ write_loop copyin src k (suc i) (es ++ putc x)
]

unfoldable pub write : (copyin : ℕ → Option ℕ) (src n : ℕ) → ℕ × List Event
write copyin src n = write_loop copyin src n 0 []
