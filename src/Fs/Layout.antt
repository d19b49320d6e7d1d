-- ===== src/Fs/Layout.antt =====
-- kernel/fs.rs: what is written of an inode is what is read of it, and no other inode changes.
use octox.Base.{
  ℕ, suc, ◌+◌, ◌-◌, ◌*◌, ◌/◌, ◌%◌, ◌<◌, ◌≡◌, ◌≢◌, refl, sym, subst, ◌∙◌, true, false, ◌&&◌, ◌==◌,
  ltb, leb, arith, inl, inr, Bool-cases,
}
use octox.Fs.Defs.{SuperBlock, Disk, get32}
use octox.Fs.Inode.{
  DInode, iblock, byte, bytes_of, get16, get_dinode, set_dinode, read_inode, write_inode,
}

-- The fields fit their machine words.
pub record Fits (n : DInode) : Type 0 where
  pub itype : n.itype < 65536
  pub major : n.major < 65536
  pub minor : n.minor < 65536
  pub nlink : n.nlink < 65536
  pub size : n.size < 4294967296
  pub addrs : (j : ℕ) → n.addrs j < 4294967296

-- Two inodes with the same fields and the same 13 blocks.
pub record Same (m n : DInode) : Type 0 where
  pub itype : m.itype ≡ n.itype
  pub major : m.major ≡ n.major
  pub minor : m.minor ≡ n.minor
  pub nlink : m.nlink ≡ n.nlink
  pub size : m.size ≡ n.size
  pub addrs : (j : ℕ) → j < 13 → m.addrs j ≡ n.addrs j

two_bytes : (v : ℕ) → v < 65536 → byte v 0 + 256 * byte v 1 ≡ v
two_bytes v l = omega (arith, l)

four_bytes :
    (v : ℕ)
    → v < 4294967296
    → byte v 0 + 256 * byte v 1 + 65536 * byte v 2 + 16777216 * byte v 3 ≡ v
four_bytes v l = omega (arith, l)

-- A byte of the entry that was written.
set_dinode-here :
    (f : ℕ → ℕ) (k : ℕ) (n : DInode) (p q : ℕ)
    → p ≡ 64 * k + q
    → q < 64
    → set_dinode f k n p ≡ bytes_of n q
unfolding set_dinode
set_dinode-here f k n p q e l =
    let low : (leb (64 * k) p && ltb p (64 * k + 64)) ≡ true = ground (arith, e, l) in
    let back : p - 64 * k ≡ q = omega (arith, e) in rw (low, back) refl

addr-byte : (n : DInode) (j c : ℕ) → c < 4 → bytes_of n (12 + 4 * j + c) ≡ byte (n.addrs j) c
addr-byte n j c l =
    let a : ltb (12 + 4 * j + c) 2 ≡ false = ground arith in
    let b : ltb (12 + 4 * j + c) 4 ≡ false = ground arith in
    let d : ltb (12 + 4 * j + c) 6 ≡ false = ground arith in
    let e : ltb (12 + 4 * j + c) 8 ≡ false = ground arith in
    let g : ltb (12 + 4 * j + c) 12 ≡ false = ground arith in
    let place : (12 + 4 * j + c - 12) / 4 ≡ j = omega (arith, l) in
    let off : (12 + 4 * j + c - 12) % 4 ≡ c = omega (arith, l) in
    rw (a, b, d, e, g, place, off) refl

get-set_addr :
    (f : ℕ → ℕ) (k : ℕ) (n : DInode) (j : ℕ)
    → Fits n
    → j < 13
    → get32 (set_dinode f k n) (16 * k + 3 + j) ≡ n.addrs j
get-set_addr f k n j h l =
    let at = λ (c p : ℕ) (e : p ≡ 64 * k + (12 + 4 * j + c)) (b : c < 4).
      set_dinode-here f k n p (12 + 4 * j + c) e (omega (arith, l, b)) ∙ addr-byte n j c b in
    let b0 = at 0 (4 * (16 * k + 3 + j)) (omega arith) (omega arith) in
    let b1 = at 1 (4 * (16 * k + 3 + j) + 1) (omega arith) (omega arith) in
    let b2 = at 2 (4 * (16 * k + 3 + j) + 2) (omega arith) (omega arith) in
    let b3 = at 3 (4 * (16 * k + 3 + j) + 3) (omega arith) (omega arith) in
    let all = four_bytes (n.addrs j) (h.addrs j) in rw (b0, b1, b2, b3) all

get-set_self : (f : ℕ → ℕ) (k : ℕ) (n : DInode) → Fits n → Same (get_dinode (set_dinode f k n) k) n
unfolding get_dinode
get-set_self f k n h =
    let at = λ (q p : ℕ) (e : p ≡ 64 * k + q) (b : q < 64). set_dinode-here f k n p q e b in
    record {
      itype =
          let b0 = at 0 (64 * k) (omega arith) (omega arith) in
          let b1 = at 1 (64 * k + 1) (omega arith) (omega arith) in
          let all = two_bytes n.itype h.itype in rw (b0, b1) all;
      major =
          let b0 = at 2 (64 * k + 2) (omega arith) (omega arith) in
          let b1 = at 3 (64 * k + 2 + 1) (omega arith) (omega arith) in
          let all = two_bytes n.major h.major in rw (b0, b1) all;
      minor =
          let b0 = at 4 (64 * k + 4) (omega arith) (omega arith) in
          let b1 = at 5 (64 * k + 4 + 1) (omega arith) (omega arith) in
          let all = two_bytes n.minor h.minor in rw (b0, b1) all;
      nlink =
          let b0 = at 6 (64 * k + 6) (omega arith) (omega arith) in
          let b1 = at 7 (64 * k + 6 + 1) (omega arith) (omega arith) in
          let all = two_bytes n.nlink h.nlink in rw (b0, b1) all;
      size =
          let b0 = at 8 (4 * (16 * k + 2)) (omega arith) (omega arith) in
          let b1 = at 9 (4 * (16 * k + 2) + 1) (omega arith) (omega arith) in
          let b2 = at 10 (4 * (16 * k + 2) + 2) (omega arith) (omega arith) in
          let b3 = at 11 (4 * (16 * k + 2) + 3) (omega arith) (omega arith) in
          let all = four_bytes n.size h.size in rw (b0, b1, b2, b3) all;
      addrs = λ j l. get-set_addr f k n j h l;
    }

-- A byte of another entry.
set_dinode-else :
    (f : ℕ → ℕ) (k m : ℕ) (n : DInode) (p q : ℕ)
    → k ≢ m
    → p ≡ 64 * m + q
    → q < 64
    → set_dinode f k n p ≡ f p
unfolding set_dinode
set_dinode-else f k m n p q ne e l =
    let out : (leb (64 * k) p && ltb p (64 * k + 64)) ≡ false = ground (arith, e, l, ne) in
    rw out refl

get-set_else :
    (f : ℕ → ℕ) (k m : ℕ) (n : DInode)
    → k ≢ m
    → Same (get_dinode (set_dinode f k n) m) (get_dinode f m)
unfolding get_dinode
get-set_else f k m n ne =
    let at = λ (q p : ℕ) (e : p ≡ 64 * m + q) (b : q < 64). set_dinode-else f k m n p q ne e b in
    let half = λ (q p : ℕ) (e : p ≡ 64 * m + q) (b : q < 63).
      halves (at q p e (omega (arith, b)))
        (at (suc q) (p + 1) (omega (arith, e)) (omega (arith, b))) in
    let word = λ (q i : ℕ) (e : 4 * i ≡ 64 * m + q) (b : q < 61).
      words i (at q (4 * i) e (omega (arith, b)))
        (at (q + 1) (4 * i + 1) (omega (arith, e)) (omega (arith, b)))
        (at (q + 2) (4 * i + 2) (omega (arith, e)) (omega (arith, b)))
        (at (q + 3) (4 * i + 3) (omega (arith, e)) (omega (arith, b))) in
    record {
      itype = half 0 (64 * m) (omega arith) (omega arith);
      major = half 2 (64 * m + 2) (omega arith) (omega arith);
      minor = half 4 (64 * m + 4) (omega arith) (omega arith);
      nlink = half 6 (64 * m + 6) (omega arith) (omega arith);
      size = word 8 (16 * m + 2) (omega arith) (omega arith);
      addrs = λ j l. word (12 + 4 * j) (16 * m + 3 + j) (omega arith) (omega (arith, l));
    }
  where
    halves :
        {p : ℕ}
        → set_dinode f k n p ≡ f p
        → set_dinode f k n (p + 1) ≡ f (p + 1)
        → get16 (set_dinode f k n) p ≡ get16 f p
    halves a b = rw (a, b) refl

    words :
        (i : ℕ)
        → set_dinode f k n (4 * i) ≡ f (4 * i)
        → set_dinode f k n (4 * i + 1) ≡ f (4 * i + 1)
        → set_dinode f k n (4 * i + 2) ≡ f (4 * i + 2)
        → set_dinode f k n (4 * i + 3) ≡ f (4 * i + 3)
        → get32 (set_dinode f k n) i ≡ get32 f i
    words i a b c d = rw (a, b, c, d) refl

Same-refl : (n : DInode) → Same n n
Same-refl n = record {
  itype = refl;
  major = refl;
  minor = refl;
  nlink = refl;
  size = refl;
  addrs = λ j l. refl;
}

-- An inode on the disk is changed, and no other.
pub record Written (sb : SuperBlock) (d e : Disk) (i : ℕ) (n : DInode) : Type 0 where
  pub here : Same (read_inode sb e i) n
  pub others : (j : ℕ) → j ≢ i → Same (read_inode sb e j) (read_inode sb d j)
  pub blocks : (b : ℕ) → b ≢ iblock sb i → e b ≡ d b

pub write_inode-Written :
    (sb : SuperBlock) (d : Disk) (i : ℕ) (n : DInode)
    → Fits n
    → Written sb d (write_inode sb d i n) i n
unfolding write_inode iblock
write_inode-Written sb d i n h = record {
  here =
      let self : (i / 16 + sb.inodestart == i / 16 + sb.inodestart) ≡ true = ground arith in
      rw self (get-set_self (d (i / 16 + sb.inodestart)) (i % 16) n h);
  others = λ j ne. elim (Bool-cases (i / 16 + sb.inodestart == j / 16 + sb.inodestart)) [
    | inl e ↦
        let block : i / 16 + sb.inodestart ≡ j / 16 + sb.inodestart = ground (arith, e) in
        let apart : i % 16 ≢ j % 16 = (λ z. ne (omega (arith, block, z))) in
        rw e (
          subst
            (λ b.
              Same (get_dinode (set_dinode (d b) (i % 16) n) (j % 16))
                (get_dinode (d (j / 16 + sb.inodestart)) (j % 16)))
            (sym block) (get-set_else (d (j / 16 + sb.inodestart)) (i % 16) (j % 16) n apart))
    | inr e ↦ rw e (Same-refl _)
  ];
  blocks = λ b ne.
      let other : (i / 16 + sb.inodestart == b) ≡ false = ground (arith, ne) in rw other refl;
}
