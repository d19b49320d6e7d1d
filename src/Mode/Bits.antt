-- ===== src/Mode/Bits.antt =====
-- The flags of `open` and the modes that they stand for.
use octox.Base.{
  ℕ, ◌+◌, ◌*◌, ◌/◌, ◌%◌, ◌≡◌, ◌∙◌, ap, refl, Bool, true, false, not, ◌||◌, ◌==◌, arith,
}
use octox.Mode.Defs.{OMode, wronly, rdwr, create_bit, trunc_bit, has, from_usize, is_rdonly}

-- How a file is to be used.
data Access : Type 0 where
  reads : Access
  writes : Access
  both : Access

abbrev flag_of : Access → ℕ
flag_of reads = 0
flag_of writes = wronly
flag_of both = rdwr

abbrev can_read : Access → Bool
can_read reads = true
can_read writes = false
can_read both = true

abbrev can_write : Access → Bool
can_write reads = false
can_write writes = true
can_write both = true

abbrev bit : Bool → ℕ
bit true = 1
bit false = 0

-- The flags, with other bits from 2048 on.
abbrev flags : Access → (create trunc : Bool) → ℕ → ℕ
flags a create trunc high =
    flag_of a + create_bit * bit create + trunc_bit * bit trunc + 2048 * high

bit_test : (x : ℕ) (b : Bool) → x ≡ bit b → (x == 1) ≡ b
bit_test x true e = ground (arith, e)
bit_test x false e = ground (arith, e)

abbrev only_writes : Access → Bool
only_writes writes = true
only_writes a = false

abbrev does_both : Access → Bool
does_both both = true
does_both a = false

-- The mode that the four bits make.
abbrev mode_of : (w rw c t : Bool) → OMode
mode_of w rw c t = record { read = not w; write = w || rw; truncate = t; create = c }

mode_of-access :
    (a : Access) (c t : Bool)
    → (mode_of (only_writes a) (does_both a) c t
        ≡ record { read = can_read a; write = can_write a; truncate = t; create = c })
      × (is_rdonly (mode_of (only_writes a) (does_both a) c t) ≡ not (can_write a))
unfolding is_rdonly
mode_of-access reads c t = (refl, refl)
mode_of-access writes c t = (refl, refl)
mode_of-access both c t = (refl, refl)

from_usize-mode_of :
    (bits : ℕ) (w b c t : Bool)
    → (bits / 1024) % 2 ≡ bit t
    → (bits / 512) % 2 ≡ bit c
    → (bits / 1) % 2 ≡ bit w
    → (bits / 2) % 2 ≡ bit b
    → from_usize bits ≡ mode_of w b c t
unfolding from_usize has
from_usize-mode_of bits w b c t p q r s =
    rw (bit_test _ t p, bit_test _ c q, bit_test _ w r, bit_test _ b s) refl

modes :
    (a : Access) (create trunc : Bool) (bits : ℕ)
    → (bits / 1024) % 2 ≡ bit trunc
    → (bits / 512) % 2 ≡ bit create
    → (bits / 1) % 2 ≡ bit (only_writes a)
    → (bits / 2) % 2 ≡ bit (does_both a)
    → (from_usize bits
        ≡ record { read = can_read a; write = can_write a; truncate = trunc; create = create })
      × (is_rdonly (from_usize bits) ≡ not (can_write a))
modes a create trunc bits p q r s =
    let e = from_usize-mode_of bits (only_writes a) (does_both a) create trunc p q r s in
    let (m, ro) = mode_of-access a create trunc in (e ∙ m, ap is_rdonly e ∙ ro)

-- The flags of `open` are read back as they were meant, whatever the bits above them: what the file
-- may be used for, whether it is created and whether it is emptied, and the mode is one for
-- reading only exactly when the file is to be read only.
from_usize-flags :
    (a : Access) (create trunc : Bool) (high : ℕ)
    → (from_usize (flags a create trunc high)
        ≡ record { read = can_read a; write = can_write a; truncate = trunc; create = create })
      × (is_rdonly (from_usize (flags a create trunc high)) ≡ not (can_write a))
from_usize-flags reads true true high =
    modes reads true true (flags reads true true high) (omega arith) (omega arith) (omega arith)
      (omega arith)
from_usize-flags reads true false high =
    modes reads true false (flags reads true false high) (omega arith) (omega arith) (omega arith)
      (omega arith)
from_usize-flags reads false true high =
    modes reads false true (flags reads false true high) (omega arith) (omega arith) (omega arith)
      (omega arith)
from_usize-flags reads false false high =
    modes reads false false (flags reads false false high) (omega arith) (omega arith) (omega arith)
      (omega arith)
from_usize-flags writes true true high =
    modes writes true true (flags writes true true high) (omega arith) (omega arith) (omega arith)
      (omega arith)
from_usize-flags writes true false high =
    modes writes true false (flags writes true false high) (omega arith) (omega arith) (omega arith)
      (omega arith)
from_usize-flags writes false true high =
    modes writes false true (flags writes false true high) (omega arith) (omega arith) (omega arith)
      (omega arith)
from_usize-flags writes false false high =
    modes writes false false (flags writes false false high) (omega arith) (omega arith)
      (omega arith) (omega arith)
from_usize-flags both true true high =
    modes both true true (flags both true true high) (omega arith) (omega arith) (omega arith)
      (omega arith)
from_usize-flags both true false high =
    modes both true false (flags both true false high) (omega arith) (omega arith) (omega arith)
      (omega arith)
from_usize-flags both false true high =
    modes both false true (flags both false true high) (omega arith) (omega arith) (omega arith)
      (omega arith)
from_usize-flags both false false high =
    modes both false false (flags both false false high) (omega arith) (omega arith) (omega arith)
      (omega arith)
