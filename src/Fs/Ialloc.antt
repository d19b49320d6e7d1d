-- ===== src/Fs/Ialloc.antt =====
-- kernel/fs.rs: MInode::lock and ITable::alloc, on the inodes of the disk.
use octox.Base.{
  ℕ, zero, suc, ◌+◌, ◌-◌, ◌<◌, ◌≤◌, ◌≡◌, ◌≢◌, refl, subst, true, false, ◌==◌, arith, Option, none,
  some, inl, inr, Bool-cases, Outcome, done, panicked,
}
use octox.Fs.Defs.{SuperBlock, Disk}
use octox.Fs.Inode.{DInode, IData, blank, read_inode, write_inode, lock, free_inode, claimed, alloc}
use octox.Fs.Layout.{Fits, Same, Written, write_inode-Written}

abbrev pub LockedAs : DInode → Outcome IData → Type 0
LockedAs n panicked = ⊥
LockedAs n (done guard) = (guard.valid ≡ true) × Same guard.node n

-- An inode in memory whose fields fit their words and whose type is not none is written to the disk; who then
-- locks the inode for the first time finds its type, device, links, size and 13 blocks as they were, and
-- every other inode and every other block of the disk is untouched.
pub lock-write_inode :
    (sb : SuperBlock) (d : Disk) (i : ℕ) (n old : DInode)
    → Fits n
    → 0 < n.itype
    → LockedAs n (lock sb (write_inode sb d i n) i (record { valid = false; node = old }))
      × Written sb d (write_inode sb d i n) i n
unfolding lock
lock-write_inode sb d i n old h pos =
    let w = write_inode-Written sb d i n h in
    let kept = w.here.itype in
    let some_type : ((read_inode sb (write_inode sb d i n) i).itype == 0) ≡ false =
      ground (arith, kept, pos) in
    (rw (some_type, LockedAs) (refl, w.here), w)

abbrev Searched : SuperBlock → Disk → (k inum : ℕ) → Option ℕ → Type 0
Searched sb d k inum none = (m : ℕ) → inum ≤ m → m < inum + k → (read_inode sb d m).itype ≢ 0
Searched sb d k inum (some i) =
    (inum ≤ i)
    × (i < inum + k)
    × ((read_inode sb d i).itype ≡ 0)
    × ((m : ℕ) → inum ≤ m → m < i → (read_inode sb d m).itype ≢ 0)

free_inode-Searched :
    (sb : SuperBlock) (d : Disk) (k inum : ℕ) → Searched sb d k inum (free_inode k inum sb d)
unfolding free_inode
free_inode-Searched sb d zero inum = λ m l r. absurd (omega (arith, l, r))
free_inode-Searched sb d (suc k) inum = elim (Bool-cases ((read_inode sb d inum).itype == 0)) [
  | inl e ↦
      rw (e, Searched)
        (omega arith, omega arith, ground (arith, e), λ m l r. absurd (omega (arith, l, r)))
  | inr e ↦ rw e (
      later (ground (arith, e)) (free_inode k (suc inum) sb d)
        (free_inode-Searched sb d k (suc inum)))
]
  where
    past :
        (b : ℕ)
        → (read_inode sb d inum).itype ≢ 0
        → ((m : ℕ) → suc inum ≤ m → m < b → (read_inode sb d m).itype ≢ 0)
        → (m : ℕ) → inum ≤ m
        → m < b
        → (read_inode sb d m).itype ≢ 0
    past b ne f m l r = elim (Bool-cases (inum == m)) [
      | inl e ↦ subst (λ x. (read_inode sb d x).itype ≢ 0) (ground (arith, e)) ne
      | inr e ↦ f m (ground (arith, e, l)) r
    ]

    later :
        (read_inode sb d inum).itype ≢ 0
        → (o : Option ℕ) → Searched sb d k (suc inum) o
        → Searched sb d (suc k) inum o
    later ne none f = λ m l r. past (suc inum + k) ne f m l (omega (arith, r))
    later ne (some i) (a, b, c, f) = (omega (arith, a), omega (arith, b), c, past i ne f)

-- What the allocation of an inode of the type `t` comes to.
abbrev pub Allocated : SuperBlock → Disk → (t : ℕ) → Option (ℕ × Disk) → Type 0
Allocated sb d t none = (m : ℕ) → 1 ≤ m → m < sb.ninodes → (read_inode sb d m).itype ≢ 0
Allocated sb d t (some (i, e)) =
    (1 ≤ i)
    × (i < sb.ninodes)
    × ((read_inode sb d i).itype ≡ 0)
    × ((m : ℕ) → 1 ≤ m → m < i → (read_inode sb d m).itype ≢ 0)
    × Written sb d e i (record blank { itype = t })

-- On a disk with at least one inode number, the allocation of an inode takes the lowest number from 1 on whose
-- inode is free, writes there an inode of the type asked for with no links, no size and no blocks, and
-- changes no other inode and no other block; it gives nothing only when every number below
-- `ninodes` is taken.
pub alloc-Allocated :
    (sb : SuperBlock) (d : Disk) (t : ℕ)
    → 0 < sb.ninodes
    → t < 65536
    → Allocated sb d t (alloc sb d t)
unfolding alloc
alloc-Allocated sb d t pos l =
    by_search (free_inode (sb.ninodes - 1) 1 sb d) (free_inode-Searched sb d (sb.ninodes - 1) 1)
  where
    fresh : Fits (record blank { itype = t })
    fresh = record {
      itype = l;
      major = omega arith;
      minor = omega arith;
      nlink = omega arith;
      size = omega arith;
      addrs = λ j. omega arith;
    }

    by_search :
        (o : Option ℕ) → Searched sb d (sb.ninodes - 1) 1 o → Allocated sb d t (claimed sb d t o)
    by_search none f = λ m a b. f m a (omega (arith, b, pos))
    by_search (some i) (a, b, c, f) = (
      a,
      omega (arith, b, pos),
      c,
      f,
      write_inode-Written sb d i (record blank { itype = t }) fresh,
    )
