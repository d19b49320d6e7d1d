-- ===== src/Uart/Order.antt =====
-- What is on the wire and in the buffer is what was put, in order.
use octox.Base.{
  ℕ, zero, suc, ◌+◌, ◌-◌, subst, ◌%◌, ◌≤◌, ◌<◌, ◌≡◌, ◌≢◌, refl, sym, ap, ◌∙◌, Bool, true, false,
  List, [], ◌∷◌, ◌++◌, ◌==◌, arith, inl, inr, Bool-cases, get_or, set, length, length-set,
}
use octox.Uart.Defs.{
  word, add64, uart_tx_buf_size, Uart, send_one, start, store, Putc, spins, returns, sleeps, putc,
}

unfoldable pub bytes : List ℕ → ℕ → ℕ → List ℕ
bytes buf i zero = []
bytes buf i (suc k) = get_or buf (i % uart_tx_buf_size) 0 ∷ bytes buf (add64 i 1) k

-- `k` bytes of the buffer wait to be sent.
pub record IsRing (k : ℕ) (u : Uart) : Type 0 where
  pub sized : length u.tx_buf ≡ uart_tx_buf_size
  pub reads : u.tx_r < word
  pub writes : u.tx_w ≡ add64 u.tx_r k
  pub fits : k ≤ uart_tx_buf_size

-- What has been put so far.
abbrev pub put : ℕ → Uart → List ℕ
put k u = u.wire ++ bytes u.tx_buf u.tx_r k

append_assoc : (xs ys zs : List ℕ) → (xs ++ ys) ++ zs ≡ xs ++ (ys ++ zs)
append_assoc [] ys zs = refl
append_assoc (x ∷ xs) ys zs = ap (λ r. x ∷ r) (append_assoc xs ys zs)

send_one-IsRing :
    (k : ℕ) (u : Uart)
    → IsRing (suc k) u
    → IsRing k (send_one u) × (put k (send_one u) ≡ put (suc k) u)
unfolding send_one bytes
send_one-IsRing k u h = (
  record {
    sized = h.sized;
    reads = omega arith;
    writes = omega (arith, h.writes);
    fits = omega (arith, h.fits);
  },
  append_assoc u.wire (get_or u.tx_buf (u.tx_r % uart_tx_buf_size) 0 ∷ [])
      (bytes u.tx_buf (add64 u.tx_r 1) k),
)

-- How often the register says idle before it first says busy: no more bytes can go out.
abbrev pub looks : List Bool → ℕ
looks [] = 0
looks (false ∷ idle) = 0
looks (true ∷ idle) = suc (looks idle)

abbrev pub Sent : (k n : ℕ) → Uart → Uart → Type 0
Sent k n u v = IsRing n v × (put n v ≡ put k u)

none-Sent : (k : ℕ) (u : Uart) → IsRing k u → Sent k (k - 0) u u
none-Sent k u h =
    let left : k - 0 ≡ k = omega arith in subst (λ n. Sent k n u u) (sym left) (h, refl)

start-Sent :
    (idle : List Bool) (k : ℕ) (u : Uart) → IsRing k u → Sent k (k - looks idle) u (start idle u)
unfolding start
start-Sent [] k u h = none-Sent k u h
start-Sent (false ∷ idle) k u h = none-Sent k u h
start-Sent (true ∷ idle) zero u h =
    let empty : (u.tx_w == u.tx_r) ≡ true = ground (arith, h.writes, h.reads) in
    let left : 0 - suc (looks idle) ≡ 0 = omega arith in
    rw empty (subst (λ n. Sent 0 n u u) (sym left) (h, refl))
start-Sent (true ∷ idle) (suc k) u h =
    let more : (u.tx_w == u.tx_r) ≡ false = ground (arith, h.writes, h.reads, h.fits) in
    let (r, same) = send_one-IsRing k u h in
    let (r', same') = start-Sent idle k (send_one u) r in
    let left : suc k - suc (looks idle) ≡ k - looks idle = omega arith in
    rw more (subst (λ n. Sent (suc k) n u (start idle (send_one u))) (sym left) (r', same' ∙ same))

get_or-set_self : (xs : List ℕ) (i v : ℕ) → i < length xs → get_or (set xs i v) i 0 ≡ v
get_or-set_self [] i v h = absurd (omega arith)
get_or-set_self (x ∷ xs) zero v h = refl
get_or-set_self (x ∷ xs) (suc i) v h = get_or-set_self xs i v (omega arith)

get_or-set_ne : (xs : List ℕ) (i j v : ℕ) → i ≢ j → get_or (set xs i v) j 0 ≡ get_or xs j 0
get_or-set_ne [] i j v h = refl
get_or-set_ne (x ∷ xs) zero zero v h = absurd (h refl)
get_or-set_ne (x ∷ xs) zero (suc j) v h = refl
get_or-set_ne (x ∷ xs) (suc i) zero v h = refl
get_or-set_ne (x ∷ xs) (suc i) (suc j) v h = get_or-set_ne xs i j v (λ e. h (ap suc e))

-- A byte stored behind `k` others comes last.
bytes-set :
    (buf : List ℕ) (i k j c : ℕ)
    → i < word
    → j ≡ (i + k) % uart_tx_buf_size
    → k < uart_tx_buf_size
    → length buf ≡ uart_tx_buf_size
    → bytes (set buf j c) i (suc k) ≡ bytes buf i k ++ (c ∷ [])
unfolding bytes
bytes-set buf i zero j c w e lt s =
    let here : j ≡ i % uart_tx_buf_size = omega (arith, e) in
    ap (λ x. x ∷ [])
      (ap (λ m. get_or (set buf j c) m 0) (sym here)
        ∙ get_or-set_self buf j c (omega (arith, s, e)))
bytes-set buf i (suc k) j c w e lt s =
    let apart : j ≢ i % uart_tx_buf_size = (λ q. omega (arith, e, q, lt)) in
    rw (get_or-set_ne buf j (i % uart_tx_buf_size) c apart) (
      ap (λ t. get_or buf (i % uart_tx_buf_size) 0 ∷ t)
        (bytes-set buf (add64 i 1) k j c (omega arith) (omega (arith, e, w)) (omega (arith, lt)) s))

abbrev stored : ℕ → Uart → Uart
stored c u = record u { tx_buf = set u.tx_buf (u.tx_w % uart_tx_buf_size) c; tx_w = add64 u.tx_w 1 }

stored-IsRing :
    (k c : ℕ) (u : Uart)
    → IsRing k u
    → k < uart_tx_buf_size
    → IsRing (suc k) (stored c u) × (put (suc k) (stored c u) ≡ put k u ++ (c ∷ []))
stored-IsRing k c u h lt = (
  record {
    sized = length-set u.tx_buf (u.tx_w % uart_tx_buf_size) c ∙ h.sized;
    reads = h.reads;
    writes = omega (arith, h.writes);
    fits = omega (arith, lt);
  },
  ap (λ r. u.wire ++ r)
        (bytes-set u.tx_buf u.tx_r k (u.tx_w % uart_tx_buf_size) c h.reads
          (omega (arith, h.writes, h.reads)) lt h.sized)
      ∙ sym (append_assoc u.wire (bytes u.tx_buf u.tx_r k) (c ∷ [])),
)

-- What `putc` of a byte comes to when `k` bytes wait.
abbrev pub PutPost : (panicking : Bool) (looks k c : ℕ) → Uart → Putc → Type 0
PutPost panicking l k c u (returns v) =
    (panicking ≡ false)
    × (k < uart_tx_buf_size)
    × IsRing (suc k - l) v
    × (put (suc k - l) v ≡ put k u ++ (c ∷ []))
PutPost panicking l k c u sleeps = (panicking ≡ false) × (k ≡ uart_tx_buf_size)
PutPost panicking l k c u spins = panicking ≡ true

-- With `k` bytes waiting in the buffer, and the register idle at the first `looks idle` looks and busy at the
-- next: one pass of `putc` loops for ever exactly after a panic of the kernel. Else, where the buffer
-- is full, the process sleeps; and where it is not, `putc` stores the byte and sends as many of the
-- bytes that wait as there were idle looks, or all of them, and no more. What is on the wire and
-- what waits are then, in order, what they were before and the byte behind them.
pub putc-post :
    (panicking : Bool) (idle : List Bool) (k c : ℕ) (u : Uart)
    → IsRing k u
    → PutPost panicking (looks idle) k c u (putc panicking idle c u)
unfolding putc store
putc-post true idle k c u h = refl
putc-post false idle k c u h = elim (Bool-cases (u.tx_w == add64 u.tx_r uart_tx_buf_size)) [
  | inl t ↦ rw (t, PutPost) (refl, ground (arith, t, h.writes, h.reads, h.fits))
  | inr t ↦
      let lt : k < uart_tx_buf_size = ground (arith, t, h.writes, h.fits) in
      let (r, same) = stored-IsRing k c u h lt in
      let (r', same') = start-Sent idle (suc k) (stored c u) r in
      rw (t, PutPost) (refl, lt, r', same' ∙ same)
]
