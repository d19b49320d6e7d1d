-- ===== src/Uart/Defs.antt =====
-- kernel/uart.rs: the transmit buffer. `idle` is what the line status register says at each look, in
-- order, busy where the list ends, and `wire` is what has been written to the transmit register. A
-- process that finds the buffer full sleeps, and tries again later; the wakeup for it is not part
-- of the state.
use octox.Base.{
  ℕ, ◌+◌, ◌%◌, ◌^◌, Bool, true, false, List, [], ◌∷◌, ◌++◌, ◌==◌, if◌then◌else◌, Option, none, some,
  get_or, set,
}

abbrev pub word : ℕ
word = 2 ^ 64

-- Addition of `Wrapping<usize>`.
abbrev pub add64 : ℕ → ℕ → ℕ
add64 a b = (a + b) % word

abbrev pub uart_tx_buf_size : ℕ
uart_tx_buf_size = 32

-- struct Uart
pub record Uart : Type 0 where
  pub tx_buf : List ℕ
  pub tx_w : ℕ
  pub tx_r : ℕ
  pub wire : List ℕ

-- One byte goes out.
unfoldable pub send_one : Uart → Uart
send_one u = record u {
  tx_r = add64 u.tx_r 1;
  wire = u.wire ++ (get_or u.tx_buf (u.tx_r % uart_tx_buf_size) 0 ∷ []);
}

-- Uart::start; each round takes one look at the register, and the loop ends at the first that says
-- busy, after which the list of looks is not read.
unfoldable pub start : List Bool → Uart → Uart
start [] u = u
start (false ∷ idle) u = u
start (true ∷ idle) u = let rest = start idle (send_one u) in if u.tx_w == u.tx_r then u else rest

-- Mutex<Uart>::putc up to `start`; nothing where the buffer is full and the caller sleeps.
unfoldable pub store : ℕ → Uart → Option Uart
store c u =
    if u.tx_w == add64 u.tx_r uart_tx_buf_size
    then none
    else some
        (record u { tx_buf = set u.tx_buf (u.tx_w % uart_tx_buf_size) c; tx_w = add64 u.tx_w 1 })

-- One pass of Mutex<Uart>::putc: after a panic of the kernel it loops for ever; else it returns, or the
-- process sleeps for room.
pub data Putc : Type 0 where
  spins : Putc
  returns : Uart → Putc
  sleeps : Putc

unfoldable pub putc : (panicking : Bool) → List Bool → ℕ → Uart → Putc
putc true idle c u = spins
putc false idle c u = elim (store c u) [ some v ↦ returns (start idle v) | none ↦ sleeps ]
