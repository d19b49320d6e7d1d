-- ===== src/Fs/Read.antt =====
-- kernel/fs.rs: IData::read. `copy` is either_copyout of kernel/proc.rs: it puts bytes at an address of memory,
-- or fails.
use octox.Base.{
  ℕ, zero, suc, ◌+◌, ◌-◌, ◌/◌, ◌%◌, ◌^◌, ◌<◌, ◌≤◌, ◌≡◌, ◌≢◌, refl, ap, ◌∙◌, Bool, true, false, List,
  min, ltb, leb, if◌then◌else◌, arith, Option, none, some, Outcome, done, panicked,
}
use octox.Vm.Copy.{bytes_at}
use octox.Fs.Defs.{SuperBlock, Disk, Addrs, bsize, direct, indirect, bmap}
use octox.Fs.Bmap.{slot, index}

abbrev pub Mem : Type 0
Mem = ℕ → ℕ

-- How a read ends: with the number of bytes and what it leaves, or with an error.
pub data ReadEnd : Type 0 where
  read_done : ℕ → Mem → Addrs → Disk → ReadEnd
  read_error : ReadEnd
  read_panics : ReadEnd
  out_of_fuel : ReadEnd

-- What follows a copy.
abbrev pub read_on : Outcome (Option Mem) → (Mem → ReadEnd) → ReadEnd
read_on panicked f = read_panics
read_on (done none) f = read_error
read_on (done (some mem)) f = f mem

module _ (copy : Mem → ℕ → List ℕ → Option Mem) where
  -- The slice `bp[start..end]` of a block, copied to `dst`.
  abbrev pub copy_slice : (start end : ℕ) → (ℕ → ℕ) → ℕ → Mem → Outcome (Option Mem)
  copy_slice start end block dst mem =
      if leb start end then done (copy mem dst (bytes_at block start (end - start))) else panicked

  unfoldable pub read_loop : ℕ → SuperBlock → (tot n off dst : ℕ) → Mem → Addrs → Disk → ReadEnd
  read_loop zero sb tot n off dst mem addrs d =
      if ltb tot n then out_of_fuel else read_done tot mem addrs d
  read_loop (suc k) sb tot n off dst mem addrs d =
      let m = min (n - tot) (bsize - off % bsize) in
      if ltb tot n
      then elim (bmap sb addrs d (off / bsize)) [
        | panicked ↦ read_panics
        | done none ↦ read_error
        | done (some (a, addrs', d')) ↦
            read_on (copy_slice (off % bsize) m (d' a) dst mem)
              (λ mem'. read_loop k sb (tot + m) n (off + m) (dst + m) mem' addrs' d')
      ]
      else read_done tot mem addrs d

  -- How much of the request lies within the file, where `off + n` does not overflow.
  abbrev pub clamped : (size off n : ℕ) → ℕ
  clamped size off n = if ltb size (off + n) then size - off else n

  unfoldable pub read : SuperBlock → (size off n dst : ℕ) → Mem → Addrs → Disk → ReadEnd
  read sb size off n dst mem addrs d =
      if ltb size off
      then read_error
      else (if leb (2 ^ 64) (off + n)
          then read_panics
          else read_loop (clamped size off n) sb 0 (clamped size off n) off dst mem addrs d)

  -- A block that is there is given as it is.
  pub bmap-filled :
      (sb : SuperBlock) (addrs : Addrs) (d : Disk) (bn : ℕ)
      → bn < 268
      → slot addrs d (index bn) ≢ 0
      → bmap sb addrs d bn ≡ done (some (slot addrs d (index bn), addrs, d))
  unfolding bmap direct indirect
  bmap-filled sb addrs d bn lt ne = ground (arith, lt, ne)

  pub read_loop-end :
      (k : ℕ) (sb : SuperBlock) (tot n off dst : ℕ) (mem : Mem) (addrs : Addrs) (d : Disk)
      → n ≤ tot
      → read_loop k sb tot n off dst mem addrs d ≡ read_done tot mem addrs d
  unfolding read_loop
  read_loop-end zero sb tot n off dst mem addrs d le =
      let over : ltb tot n ≡ false = ground (arith, le) in rw over refl
  read_loop-end (suc k) sb tot n off dst mem addrs d le =
      let over : ltb tot n ≡ false = ground (arith, le) in rw over refl

  pub read_on-ext :
      (o : Outcome (Option Mem)) (f g : Mem → ReadEnd)
      → ((mem : Mem) → f mem ≡ g mem)
      → read_on o f ≡ read_on o g
  read_on-ext panicked f g e = refl
  read_on-ext (done none) f g e = refl
  read_on-ext (done (some mem)) f g e = e mem

  read_loop-one_block :
      (k : ℕ) (sb : SuperBlock) (n off dst : ℕ) (mem : Mem) (addrs : Addrs) (d : Disk)
      → 0 < n
      → off % bsize + n ≤ bsize
      → off / bsize < 268
      → slot addrs d (index (off / bsize)) ≢ 0
      → read_loop (suc k) sb 0 n off dst mem addrs d
        ≡ read_on
            (copy_slice (off % bsize) n (d (slot addrs d (index (off / bsize)))) dst mem)
            (λ mem'. read_done n mem' addrs d)
  unfolding read_loop
  read_loop-one_block k sb n off dst mem addrs d pos fits lt ne =
      let more : ltb 0 n ≡ true = ground (arith, pos) in
      let whole : min (n - 0) (bsize - off % bsize) ≡ n = omega (arith, fits) in
      let zero_n : 0 + n ≡ n = omega arith in
      rw (more, bmap-filled sb addrs d (off / bsize) lt ne, whole)
        (read_on-ext _ _ _ (λ mem'.
          read_loop-end k sb (0 + n) n (off + n) (dst + n) mem' addrs d (omega arith)
          ∙ ap (λ (t : ℕ). read_done t mem' addrs d) zero_n))

  -- A read of one byte at least that stays within one block which the inode has, of a request whose end is below 2^64: it reports all the bytes
  -- asked for that lie in the file, but copies from the block only those from the offset in the
  -- block up to that number, taken as a place in the block; it panics where that number is below
  -- the offset.
  read-one_block :
      (sb : SuperBlock) (size off n dst : ℕ) (mem : Mem) (addrs : Addrs) (d : Disk)
      → off ≤ size
      → off + n < 2 ^ 64
      → 0 < clamped size off n
      → off % bsize + clamped size off n ≤ bsize
      → off / bsize < 268
      → slot addrs d (index (off / bsize)) ≢ 0
      → read sb size off n dst mem addrs d ≡ (
          if leb (off % bsize) (clamped size off n)
          then read_on
              (done (
                copy mem dst (
                  bytes_at
                    (d (slot addrs d (index (off / bsize))))
                    (off % bsize)
                    (clamped size off n - off % bsize))))
              (λ mem'. read_done (clamped size off n) mem' addrs d)
          else read_panics)
  unfolding read
  read-one_block sb size off n dst mem addrs d inside range pos fits lt ne =
      let start : ltb size off ≡ false = ground (arith, inside) in
      let no_overflow : leb (2 ^ 64) (off + n) ≡ false = ground (arith, range) in
      let one_more : clamped size off n ≡ suc (clamped size off n - 1) = omega (arith, pos) in
      rw (start, no_overflow)
        (ap (λ k. read_loop k sb 0 (clamped size off n) off dst mem addrs d) one_more
          ∙ (read_loop-one_block (clamped size off n - 1) sb (clamped size off n) off dst mem addrs
                d pos fits lt ne
              ∙ by_slice (leb (off % bsize) (clamped size off n)) _))
    where
      by_slice :
          (b : Bool) (o : Outcome (Option Mem))
          → read_on
              (if b then o else panicked)
              (λ mem'. read_done (clamped size off n) mem' addrs d)
            ≡ (if b
                then read_on o (λ mem'. read_done (clamped size off n) mem' addrs d)
                else read_panics)
      by_slice true o = refl
      by_slice false o = refl
