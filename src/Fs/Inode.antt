-- ===== src/Fs/Inode.antt =====
-- kernel/fs.rs: inodes on the disk and in memory. An inode on the disk is 64 bytes of its block, the low byte of
-- a field first; the type and the major number are their discriminants.
use octox.Base.{
  ℕ, zero, suc, ◌+◌, ◌-◌, ◌*◌, ◌/◌, ◌%◌, ◌^◌, Bool, true, ◌&&◌, ◌==◌, ltb, leb, if◌then◌else◌,
  Option, none, some, update, Outcome, done, panicked,
}
use octox.Fs.Defs.{SuperBlock, Disk, Addrs, get32}

abbrev pub ipb : ℕ
ipb = 16

-- struct DInode
pub record DInode : Type 0 where
  pub itype : ℕ
  pub major : ℕ
  pub minor : ℕ
  pub nlink : ℕ
  pub size : ℕ
  pub addrs : Addrs

-- struct IData, the fields beside those of a DInode.
pub record IData : Type 0 where
  pub valid : Bool
  pub node : DInode

-- The Default of DInode.
abbrev pub blank : DInode
blank = record { itype = 0; major = 0; minor = 0; nlink = 0; size = 0; addrs = λ j. 0 }

-- SuperBlock::iblock
unfoldable pub iblock : SuperBlock → ℕ → ℕ
iblock sb i = i / ipb + sb.inodestart

-- The bytes of a DInode in memory.
abbrev pub byte : (v c : ℕ) → ℕ
byte v c = (v / 256 ^ c) % 256

abbrev pub bytes_of : DInode → ℕ → ℕ
bytes_of n q =
    if ltb q 2
    then byte n.itype q
    else if ltb q 4
    then byte n.major (q - 2)
    else if ltb q 6
    then byte n.minor (q - 4)
    else if ltb q 8
    then byte n.nlink (q - 6)
    else if ltb q 12
    then byte n.size (q - 8)
    else byte (n.addrs ((q - 12) / 4)) ((q - 12) % 4)

-- align_to of a block to DInodes: the entry `k` read, and written.
abbrev pub get16 : (ℕ → ℕ) → ℕ → ℕ
get16 f p = f p + 256 * f (p + 1)

unfoldable pub get_dinode : (ℕ → ℕ) → ℕ → DInode
get_dinode f k = record {
  itype = get16 f (64 * k);
  major = get16 f (64 * k + 2);
  minor = get16 f (64 * k + 4);
  nlink = get16 f (64 * k + 6);
  size = get32 f (16 * k + 2);
  addrs = λ j. get32 f (16 * k + 3 + j);
}

unfoldable pub set_dinode : (ℕ → ℕ) → ℕ → DInode → (ℕ → ℕ)
set_dinode f k n p = if leb (64 * k) p && ltb p (64 * k + 64) then bytes_of n (p - 64 * k) else f p

-- The inode `i` on the disk.
abbrev pub read_inode : SuperBlock → Disk → ℕ → DInode
read_inode sb d i = get_dinode (d (iblock sb i)) (i % ipb)

-- IData::update of the inode `i`. Its LOG.write (kernel/log.rs) is taken to return: when it panics is said by
-- `write` of Log.Defs.
unfoldable pub write_inode : SuperBlock → Disk → ℕ → DInode → Disk
write_inode sb d i n = update d (iblock sb i) (set_dinode (d (iblock sb i)) (i % ipb) n)

-- MInode::lock
unfoldable pub lock : SuperBlock → Disk → ℕ → IData → Outcome IData
lock sb d i guard =
    let n = read_inode sb d i in
    if guard.valid
    then done guard
    else if n.itype == 0
    then panicked
    else done (record { valid = true; node = n })

-- The scan of ITable::alloc for a free inode, with `n` numbers left.
unfoldable pub free_inode : (n inum : ℕ) → SuperBlock → Disk → Option ℕ
free_inode zero inum sb d = none
free_inode (suc n) inum sb d =
    let rest = free_inode n (suc inum) sb d in
    if (read_inode sb d inum).itype == 0 then some inum else rest

-- ITable::alloc, up to the reference to the inode.
abbrev pub claimed : SuperBlock → Disk → (itype : ℕ) → Option ℕ → Option (ℕ × Disk)
claimed sb d itype none = none
claimed sb d itype (some i) = some (i, write_inode sb d i (record blank { itype = itype }))

unfoldable pub alloc : SuperBlock → Disk → (itype : ℕ) → Option (ℕ × Disk)
alloc sb d itype = claimed sb d itype (free_inode (sb.ninodes - 1) 1 sb d)
