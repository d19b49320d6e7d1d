-- ===== src/Fs/Balloc.antt =====
-- kernel/fs.rs: balloc and bfree, on a file system whose bitmap is one block.
use octox.Base.{
  ℕ, zero, suc, ◌+◌, ◌/◌, ◌%◌, ◌^◌, ◌<◌, ◌≤◌, ◌≡◌, ◌≢◌, refl, sym, ap, subst, ◌∙◌, Bool, true,
  false, ◌==◌, ltb, leb, arith, Option, none, some, inl, inr, update, Bool-cases, Outcome, done,
  panicked,
}
use octox.Fs.Defs.{
  SuperBlock, Disk, bpb, bsize, bblock, bit_clear, scan, marked, taken, balloc_from, balloc, bfree,
}
use octox.Fs.Bits.{bit_clear-zero, bit_clear-set_self, bit_clear-set_else}

-- The bit of a block in the bitmap is clear.
abbrev pub free : SuperBlock → Disk → ℕ → Bool
free sb d n = bit_clear (d (bblock sb 0) (n / 8)) (n % 8)

abbrev free_bit : (ℕ → ℕ) → ℕ → Bool
free_bit bits n = bit_clear (bits (n / 8)) (n % 8)

-- The first clear bit after `bi`, or none up to where the loop ends.
abbrev Scanned : (size k bi : ℕ) → (ℕ → ℕ) → Outcome (Option ℕ) → Type 0
Scanned size k bi bits panicked = ⊥
Scanned size k bi bits (done none) =
    (m : ℕ) → bi < m → m ≤ size → m ≤ bi + k → free_bit bits m ≡ false
Scanned size k bi bits (done (some n)) = (bi < n) × (n ≤ size) × (free_bit bits n ≡ true)

scan-Scanned :
    (k size bi : ℕ) (bits : ℕ → ℕ) → size < 8192 → Scanned size k bi bits (scan k size 0 bi bits)
unfolding scan
scan-Scanned zero size bi bits h = λ m a b c. absurd (omega arith)
scan-Scanned (suc k) size bi bits h = elim (Bool-cases (ltb (0 + bi) size)) [
  | inl q ↦
      let inside : leb bsize (suc bi / 8) ≡ false = ground (arith, q, h) in
      elim (Bool-cases (free_bit bits (suc bi))) [
        | inl f ↦ rw (q, inside, f, Scanned) (omega arith, ground (arith, q), f)
        | inr f ↦
            rw (q, inside, f, Scanned)
              (later f (scan k size 0 (suc bi) bits) (scan-Scanned k size (suc bi) bits h))
      ]
  | inr q ↦ rw (q, Scanned) (λ m a b c. absurd (ground (arith, q, a, b)))
]
  where
    later :
        free_bit bits (suc bi) ≡ false
        → (o : Outcome (Option ℕ)) → Scanned size k (suc bi) bits o
        → Scanned size (suc k) bi bits o
    later f panicked p = p
    later f (done none) p = λ m a b c. elim (Bool-cases (m == suc bi)) [
      | inl q ↦ let e : m ≡ suc bi = ground (arith, q) in ap (free_bit bits) e ∙ f
      | inr q ↦ p m (ground (arith, q, a)) b (omega arith)
    ]
    later f (done (some n)) (a, b, c) = (omega arith, b, c)

-- The block that `balloc` gives was free and is not any more; it is zeroed, and nothing else changes.
-- It runs out of blocks when none is free.
abbrev pub Alloced : SuperBlock → Disk → Outcome (ℕ × Disk) → Type 0
Alloced sb d panicked = (m : ℕ) → 0 < m → m ≤ sb.size → free sb d m ≡ false
Alloced sb d (done (n, d')) =
    (0 < n)
    × (n ≤ sb.size)
    × (free sb d n ≡ true)
    × (free sb d' n ≡ false)
    × ((m : ℕ) → m ≢ n → m < 8192 → free sb d' m ≡ free sb d m)
    × (d' n ≡ (λ i. 0))
    × ((b : ℕ) → b ≢ n → b ≢ bblock sb 0 → d' b ≡ d b)

module _ (sb : SuperBlock) (d : Disk) (n : ℕ) (h : sb.size < 8192) (pos : 0 < n)
    (le : n ≤ sb.size) where
  away : n ≢ bblock sb 0
  unfolding bblock
  away e = omega (arith, e, h, le)

  byte : ℕ
  byte = d (bblock sb 0) (n / 8) + 2 ^ (n % 8)

  marked-bitmap : marked sb d 0 n (bblock sb 0) ≡ update (d (bblock sb 0)) (n / 8) byte
  unfolding byte
  marked-bitmap =
      let other : (0 + n == bblock sb 0) ≡ false = ground (arith, away) in
      let same : (bblock sb 0 == bblock sb 0) ≡ true = ground arith in rw (other, same) refl

  marked_self : free sb d n ≡ true → free sb (marked sb d 0 n) n ≡ false
  unfolding byte
  marked_self f =
      let same : (n / 8 == n / 8) ≡ true = ground arith in
      ap (λ (b : ℕ → ℕ). free_bit b n) marked-bitmap
      ∙ rw same (bit_clear-set_self (d (bblock sb 0) (n / 8)) (n % 8) (omega arith) f)

  marked_else :
      free sb d n ≡ true → (m : ℕ) → m ≢ n → m < 8192 → free sb (marked sb d 0 n) m ≡ free sb d m
  unfolding byte
  marked_else f m ne l =
      ap (λ (b : ℕ → ℕ). free_bit b m) marked-bitmap ∙ elim (Bool-cases (n / 8 == m / 8)) [
        | inl q ↦
            let e : n / 8 ≡ m / 8 = ground (arith, q) in
            rw q (
              bit_clear-set_else (d (bblock sb 0) (n / 8)) (n % 8) (m % 8) (omega arith)
                (omega arith) (λ r. ne (omega (arith, e, r))) f
              ∙ ap (λ i. bit_clear (d (bblock sb 0) i) (m % 8)) e)
        | inr q ↦ rw q refl
      ]

  marked-Alloced : free sb d n ≡ true → Alloced sb d (done (n, marked sb d 0 n))
  marked-Alloced f =
      let self : (0 + n == n) ≡ true = ground arith in
      (
        pos,
        le,
        f,
        marked_self f,
        marked_else f,
        rw self refl,
        λ b nb nm.
            let a : (0 + n == b) ≡ false = ground (arith, nb) in
            let c : (bblock sb 0 == b) ≡ false = ground (arith, nm) in rw (a, c) refl,
      )

taken-Alloced :
    (sb : SuperBlock) (d : Disk)
    → sb.size < 8192
    → (o : Outcome (Option ℕ)) → Scanned sb.size bpb 0 (d (bblock sb 0)) o
    → Alloced sb d (taken sb d 0 panicked o)
taken-Alloced sb d h panicked p = elim p [ ]
taken-Alloced sb d h (done none) p = λ m a b. p m a b (omega arith)
taken-Alloced sb d h (done (some n)) (a, b, c) =
    let z : 0 + n ≡ n = omega arith in
    subst (λ m. Alloced sb d (done (m, marked sb d 0 n))) (sym z) (marked-Alloced sb d n h a b c)

-- "Free" is said of the bit that `balloc` reads, in the block `bblock`, which lies past the bitmap. On a file
-- system of fewer than 8192 blocks, `balloc` gives a block that was free, from 1 up to the size
-- itself, which it marks and zeroes; every other bit and every other block but the bitmap stay
-- as they were. Where LOG.write and the reads return, it panics only when no such
-- block is free.
pub balloc-Alloced : (sb : SuperBlock) (d : Disk) → sb.size < 8192 → Alloced sb d (balloc sb d)
unfolding balloc balloc_from
balloc-Alloced sb d h =
    let one : sb.size / bpb ≡ 0 = omega (arith, h) in
    elim (Bool-cases (ltb 0 sb.size)) [
      | inl q ↦
          rw (one, balloc_from, q, Alloced)
            (taken-Alloced sb d h _ (scan-Scanned bpb sb.size 0 (d (bblock sb 0)) h))
      | inr q ↦ rw (one, balloc_from, q, Alloced) (λ m a b. absurd (ground (arith, q, a, b)))
    ]

-- A disk with zeros past the blocks of the file system, but for the one block that is read as the bitmap.
abbrev pub BlankPast : SuperBlock → Disk → Type 0
BlankPast sb d = (b i : ℕ) → sb.size < b → b ≢ bblock sb 0 → d b i ≡ 0

abbrev pub FreePanics : SuperBlock → Outcome (ℕ × Disk) → Type 0
FreePanics sb panicked = Unit
FreePanics sb (done (n, d')) = bfree sb d' n ≡ panicked

pub size-bblock : (sb : SuperBlock) (n : ℕ) → sb.size < 8192 → sb.size < bblock sb n
unfolding bblock
size-bblock sb n h = omega (arith, h)

bblock-apart : (sb : SuperBlock) (n : ℕ) → 0 < n → bblock sb n ≢ bblock sb 0
unfolding bblock
bblock-apart sb n pos e = omega (arith, e, pos)

bfree-blank :
    (sb : SuperBlock) (d : Disk) (n : ℕ)
    → ((i : ℕ) → d (bblock sb n) i ≡ 0)
    → bfree sb d n ≡ panicked
unfolding bfree
bfree-blank sb d n blank =
    let clear : bit_clear (d (bblock sb n) ((n % bpb) / 8)) ((n % bpb) % 8) ≡ true =
      ap (λ x. bit_clear x ((n % bpb) % 8)) (blank ((n % bpb) / 8))
      ∙ bit_clear-zero ((n % bpb) % 8) (omega arith) in
    rw clear refl

-- On a file system of fewer than 8192 blocks, with a disk that has zeros past the blocks of the file
-- system, `bfree` of the block that `balloc` has just given panics, since it looks for the bit in
-- another block.
pub bfree-balloc_panicked :
    (sb : SuperBlock) (d : Disk) → sb.size < 8192 → BlankPast sb d → FreePanics sb (balloc sb d)
bfree-balloc_panicked sb d h blank = by_alloc (balloc sb d) (balloc-Alloced sb d h)
  where
    past : (n : ℕ) → sb.size < bblock sb n
    past n = size-bblock sb n h

    apart : (n : ℕ) → 0 < n → bblock sb n ≢ bblock sb 0
    apart n pos = bblock-apart sb n pos

    by_alloc : (o : Outcome (ℕ × Disk)) → Alloced sb d o → FreePanics sb o
    by_alloc panicked p = tt
    by_alloc (done (n, d')) (pos, le, was, is, others, zeroed, rest) =
        let far : sb.size < bblock sb n = past n in
        let other : bblock sb n ≢ bblock sb 0 = apart n pos in
        let away : bblock sb n ≢ n = λ e. omega (arith, e, far, le) in
        let nothing : (i : ℕ) → d' (bblock sb n) i ≡ 0 = λ i.
          ap (λ (f : ℕ → ℕ). f i) (rest (bblock sb n) away other)
          ∙ blank (bblock sb n) i far other in
        bfree-blank sb d' n nothing
