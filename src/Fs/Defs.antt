-- ===== src/Fs/Defs.antt =====
-- kernel/fs.rs: the bitmap of blocks and the blocks of an inode. A block is 1024 bytes, by its number; a
-- change is what the log will write, so that later reads see it. Numbers of blocks are below 2^32.
use octox.Base.{
  ℕ, zero, suc, ◌+◌, ◌-◌, ◌*◌, ◌/◌, ◌%◌, ◌^◌, Bool, ◌==◌, ltb, leb, if◌then◌else◌, Option, none,
  some, update, Outcome, done, panicked, ◌>>=◌,
}

abbrev pub bsize : ℕ
bsize = 1024

abbrev pub bpb : ℕ
bpb = 8192

abbrev pub ndirect : ℕ
ndirect = 12

abbrev pub nindirect : ℕ
nindirect = 256

-- struct SuperBlock, the fields that are read here.
pub record SuperBlock : Type 0 where
  pub size : ℕ
  pub ninodes : ℕ
  pub inodestart : ℕ
  pub bmapstart : ℕ

-- SuperBlock::bblock
unfoldable pub bblock : SuperBlock → ℕ → ℕ
bblock sb b = b + bpb + sb.bmapstart

abbrev pub Disk : Type 0
Disk = ℕ → ℕ → ℕ

-- A write of one byte of a block.
abbrev pub poke : Disk → (b i x : ℕ) → Disk
poke d b i x = update d b (update (d b) i x)

-- bzero
abbrev pub bzero : Disk → ℕ → Disk
bzero d b = update d b (λ i. 0)

-- The test of a byte with `1 << k`, and the byte with that bit set and cleared.
abbrev pub bit_clear : (x k : ℕ) → Bool
bit_clear x k = ((x / 2 ^ k) % 2) == 0

-- The loop of `balloc` over the bits of one block of the bitmap, from the bit `bi`.
unfoldable pub scan : ℕ → (size b bi : ℕ) → (ℕ → ℕ) → Outcome (Option ℕ)
scan zero size b bi bits = done none
scan (suc k) size b bi bits =
    let rest = scan k size b (suc bi) bits in
    if ltb (b + bi) size
    then if leb bsize ((suc bi) / 8)
      then panicked
      else if bit_clear (bits ((suc bi) / 8)) ((suc bi) % 8)
      then done (some (suc bi))
      else rest
    else done none

-- The block is marked and zeroed.
abbrev pub marked : SuperBlock → Disk → (b bi : ℕ) → Disk
marked sb d b bi =
    bzero (poke d (bblock sb b) (bi / 8) (d (bblock sb b) (bi / 8) + 2 ^ (bi % 8))) (b + bi)

-- balloc, with the blocks of the bitmap left.
abbrev pub taken :
    SuperBlock → Disk → ℕ → Outcome (ℕ × Disk) → Outcome (Option ℕ) → Outcome (ℕ × Disk)
taken sb d b rest panicked = panicked
taken sb d b rest (done none) = rest
taken sb d b rest (done (some bi)) = done (b + bi, marked sb d b bi)

unfoldable pub balloc_from : ℕ → SuperBlock → Disk → ℕ → Outcome (ℕ × Disk)
balloc_from zero sb d b = panicked
balloc_from (suc k) sb d b =
    let rest = balloc_from k sb d (b + bpb) in
    if ltb b sb.size then taken sb d b rest (scan bpb sb.size b 0 (d (bblock sb b))) else panicked

-- balloc. LOG.write (kernel/log.rs), which panics on a full log or outside an operation, is taken to return; when it
-- does is said by `write` of Log.Defs. A read past the disk's end, which the driver refuses, is taken
-- to give the bytes that the map of blocks has there.
unfoldable pub balloc : SuperBlock → Disk → Outcome (ℕ × Disk)
balloc sb d = balloc_from (suc (sb.size / bpb)) sb d 0

-- bfree; LOG.write and reads as in balloc.
unfoldable pub bfree : SuperBlock → Disk → ℕ → Outcome Disk
bfree sb d b =
    let bi = b % bpb in
    let x = d (bblock sb b) (bi / 8) in
    if bit_clear x (bi % 8)
    then panicked
    else done (poke d (bblock sb b) (bi / 8) (x - 2 ^ (bi % 8)))

-- A block seen as 32-bit words, the low byte first.
abbrev pub get32 : (ℕ → ℕ) → ℕ → ℕ
get32 f i = f (4 * i) + 256 * f (4 * i + 1) + 65536 * f (4 * i + 2) + 16777216 * f (4 * i + 3)

abbrev pub set32 : (ℕ → ℕ) → (i v : ℕ) → (ℕ → ℕ)
set32 f i v =
    update
      (update (update (update f (4 * i) (v % 256)) (4 * i + 1) ((v / 256) % 256)) (4 * i + 2)
        ((v / 65536) % 256))
      (4 * i + 3) (v / 16777216)

-- The block numbers of an inode: `addrs` of IData.
abbrev pub Addrs : Type 0
Addrs = ℕ → ℕ

-- The two halves of IData::bmap: a block of `addrs`, and a word of the indirect block `b`.
abbrev pub in_addrs : Addrs → ℕ → Outcome (ℕ × Disk) → Outcome (ℕ × Addrs × Disk)
in_addrs addrs i panicked = panicked
in_addrs addrs i (done (a, d)) = done (a, update addrs i a, d)

unfoldable pub direct : SuperBlock → Addrs → Disk → ℕ → Outcome (ℕ × Addrs × Disk)
direct sb addrs d i =
    if addrs i == 0 then in_addrs addrs i (balloc sb d) else done (addrs i, addrs, d)

abbrev pub in_block : Addrs → (b j : ℕ) → Outcome (ℕ × Disk) → Outcome (ℕ × Addrs × Disk)
in_block addrs b j panicked = panicked
in_block addrs b j (done (a, d)) = done (a, addrs, update d b (set32 (d b) j a))

unfoldable pub indirect : SuperBlock → (j : ℕ) → ℕ × Addrs × Disk → Outcome (ℕ × Addrs × Disk)
indirect sb j (b, addrs, d) =
    if get32 (d b) j == 0 then in_block addrs b j (balloc sb d) else done (get32 (d b) j, addrs, d)

abbrev pub some_block : Outcome (ℕ × Addrs × Disk) → Outcome (Option (ℕ × Addrs × Disk))
some_block panicked = panicked
some_block (done r) = done (some r)

-- IData::bmap; none is the error. LOG.write and reads as in balloc.
unfoldable pub bmap : SuperBlock → Addrs → Disk → ℕ → Outcome (Option (ℕ × Addrs × Disk))
bmap sb addrs d bn =
    if ltb bn ndirect
    then some_block (direct sb addrs d bn)
    else if ltb (bn - ndirect) nindirect
    then some_block (direct sb addrs d ndirect >>= indirect sb (bn - ndirect))
    else done none
