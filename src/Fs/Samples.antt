-- ===== src/Fs/Samples.antt =====
-- Inodes and path names on concrete values.
use octox.Base.{
  ℕ, ◌≡◌, refl, Bool, false, ◌&&◌, List, [], ◌∷◌, ◌==◌, leb, if◌then◌else◌, arith, Option, none,
  some,
}
use octox.Fs.Defs.{SuperBlock, Disk}
use octox.Fs.Inode.{DInode, blank, write_inode, lock, alloc}
use octox.Fs.Layout.{Fits, Written}
use octox.Fs.Ialloc.{LockedAs, lock-write_inode, Allocated, alloc-Allocated}
use octox.Base.{done, Outcome, ◌+◌, true}
use octox.Fs.Table.{ITable, get, put_check, put_end}
use octox.Fs.Named.{IsSound}
use octox.Fs.Shared.{Twice, with_two, overlap-Twice}

-- Two directories, the root and one below it, and a file.
abbrev two_dirs : ℕ → Outcome Bool
two_dirs i = done (leb i 2)

abbrev entries : ℕ → List ℕ → Outcome (Option ℕ)
entries i [] = done none
entries i (x ∷ xs) =
    done (if (i == 1) && (x == 97) then some 2 else if (i == 2) && (x == 98) then some 5 else none)

abbrev image : SuperBlock
image = record { size = 100; ninodes = 32; inodestart = 32; bmapstart = 45 }

abbrev zeros : Disk
zeros b i = 0

-- A file with one link.
abbrev file : DInode
file = record { itype = 2; major = 0; minor = 0; nlink = 1; size = 700; addrs = λ j. 0 }

file-Fits : Fits file
file-Fits = record {
  itype = omega arith;
  major = omega arith;
  minor = omega arith;
  nlink = omega arith;
  size = omega arith;
  addrs = λ j. omega arith;
}

lock-write_inode_example :
    LockedAs file
      (lock image (write_inode image zeros 17 file) 17 (record { valid = false; node = blank }))
    × Written image zeros (write_inode image zeros 17 file) 17 file
lock-write_inode_example = lock-write_inode image zeros 17 file blank file-Fits (omega arith)

alloc-Allocated_example :
    Allocated image
      (write_inode image zeros 1 file)
      2
      (alloc image (write_inode image zeros 1 file) 2)
alloc-Allocated_example =
    alloc-Allocated image (write_inode image zeros 1 file) 2 (omega arith) (omega arith)

-- Three places, of which the second has the inode 7 of the device 1, with one user.
abbrev one_inode : ITable
one_inode = record {
  slots = none ∷ some 0 ∷ none ∷ [];
  dev = λ ip. 1;
  inum = λ ip. 7 + ip;
  count = λ ip. if ip == 0 then 2 else 0;
  next = 1;
}

one_inode-IsSound : IsSound one_inode
one_inode-IsSound = record { made = λ ip w. ground (arith, w); once = λ dev inum. ground arith }

overlap-Twice_example :
    (put_check 0 one_inode ≡ (true, one_inode))
    × (get 1 7 one_inode ≡ done (0, with_two 0 one_inode))
    × Twice 1 7 0 (get 1 7 (put_end 0 (with_two 0 one_inode)))
overlap-Twice_example = overlap-Twice one_inode 1 7 0 one_inode-IsSound refl refl
