-- ===== src/Buddy/Give.antt =====
-- BuddyAllocator::alloc as a whole.
use octox.Base.{ℕ, suc, ◌<◌, ◌≤◌, ◌≡◌, refl, true, false, ltb, arith, Option, Outcome, panicked}
use octox.Buddy.Defs.{Buddy, max_align, blk_size, firstk, alloc}
use octox.Buddy.Nodes.{Nodes}
use octox.Buddy.Alloc.{Given}
use octox.Buddy.Sizes.{firstk-small}

-- What a request for `n` bytes comes to.
abbrev pub Served : Nodes → Buddy → (n : ℕ) → Outcome (Option ℕ × Buddy) → Type 0
Served node s n o = (n ≤ blk_size (firstk n)) × Given node s (firstk n) o

-- With fewer than 64 sizes of blocks, a request of 8 bytes at most panics.
pub alloc-small_panicked :
    (s : Buddy) (n align : ℕ) → s.top < 63 → n ≤ 8 → align ≤ 4096 → alloc n align s ≡ panicked
unfolding alloc
alloc-small_panicked s n align few small al =
    let low : ltb max_align align ≡ false = ground (arith, al) in
    let size = firstk-small n small in
    let past : ltb (suc s.top) (firstk n) ≡ true = ground (arith, size, few) in rw (low, past) refl
