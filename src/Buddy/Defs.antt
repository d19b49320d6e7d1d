-- ===== src/Buddy/Defs.antt =====
-- kernel/buddy.rs: the buddy allocator after its initialisation. A free list is the sequence of the addresses
-- in it, which Ring shows that the links implement. A bit vector is its bits, one by one, with the
-- length in bytes that `init` gives it.
use octox.Base.{
  ℕ, zero, suc, ◌+◌, ◌-◌, ◌*◌, ◌/◌, ◌%◌, ◌^◌, Bool, true, false, List, [], ◌∷◌, ◌==◌, ltb, leb,
  if◌then◌else◌, Option, none, some, update, Outcome, done, panicked, ◌>>=◌,
}

abbrev pub leaf_size : ℕ
leaf_size = 16

abbrev pub max_align : ℕ
max_align = 4096

-- round_up
abbrev pub round_up : (n sz : ℕ) → ℕ
round_up n sz = ((n - 1) / sz + 1) * sz

-- BuddyAllocator with its SzInfo for each size; `top` is max_size, one less than nsize.
pub record Buddy : Type 0 where
  pub base : ℕ
  pub top : ℕ
  pub free : ℕ → List ℕ
  pub alloc : ℕ → ℕ → Bool
  pub split : ℕ → ℕ → Bool

-- BuddyAllocator::blk_size, nblk, blk_index and addr
unfoldable pub blk_size : ℕ → ℕ
blk_size k = 2 ^ k * leaf_size

unfoldable pub nblk : (top k : ℕ) → ℕ
nblk top k = 2 ^ (top - k)

unfoldable pub blk_index : (base k p : ℕ) → ℕ
blk_index base k p = (p - base) / blk_size k

unfoldable pub addr : (base k bi : ℕ) → ℕ
addr base k bi = base + bi * blk_size k

-- The bytes of a bit vector for the size `k`.
unfoldable pub nbytes : (top k : ℕ) → ℕ
nbytes top k = round_up (nblk top k) 8 / 8

abbrev pub put_bit : (ℕ → Bool) → ℕ → Bool → (ℕ → Bool)
put_bit f i b j = if i == j then b else f j

-- Array::bit_set of the vectors of the size `k`; there is no split vector for the size 0.
unfoldable pub set_alloc : (k i : ℕ) → Bool → Buddy → Outcome Buddy
set_alloc k i b s =
    if ltb (i / 8) (nbytes s.top k)
    then done (record s { alloc = update s.alloc k (put_bit (s.alloc k) i b) })
    else panicked

unfoldable pub set_split : (k i : ℕ) → Bool → Buddy → Outcome Buddy
set_split zero i b s = done s
set_split (suc k) i b s =
    if ltb (i / 8) (nbytes s.top (suc k))
    then done (record s { split = update s.split (suc k) (put_bit (s.split (suc k)) i b) })
    else panicked

-- Array::bit_isset
unfoldable pub is_alloc : Buddy → (k i : ℕ) → Bool
is_alloc s k i = if ltb (i / 8) (nbytes s.top k) then s.alloc k i else false

unfoldable pub is_split : Buddy → (k i : ℕ) → Bool
is_split s k i = if ltb (i / 8) (nbytes s.top k) then s.split k i else false

-- The least j with n ≤ 2 ^ j, for a number of 64 bits: usize::next_power_of_two.
unfoldable pub log2_up : (fuel j n : ℕ) → ℕ
log2_up zero j n = j
log2_up (suc f) j n = let rest = log2_up f (suc j) n in if leb n (2 ^ j) then j else rest

-- BuddyAllocator::firstk; trailing_zeros of 0 is 64.
unfoldable pub firstk : ℕ → ℕ
firstk n = let j = log2_up 64 0 n in if leb 4 j then j - 4 else 64

-- List::push and List::pop on the list of the size `k`.
abbrev pub push : (k p : ℕ) → Buddy → Buddy
push k p s = record s { free = update s.free k (p ∷ s.free k) }

abbrev pub set_free : ℕ → List ℕ → Buddy → Buddy
set_free k xs s = record s { free = update s.free k xs }

-- The search for a size with a free block; `n` sizes are left.
unfoldable pub first_free : (n k : ℕ) → Buddy → Option ℕ
first_free zero k s = none
first_free (suc n) k s = elim (s.free k) [ [] ↦ first_free n (suc k) s | p ∷ ps ↦ some k ]

-- One round of the loop that splits a block of the size `suc k`.
unfoldable pub split_once : (k p : ℕ) → Buddy → Outcome Buddy
split_once k p s = set_split (suc k) (blk_index s.base (suc k) p) true s >>= λ t.
    set_alloc k (blk_index s.base k p) true t >>= λ u. done (push k (p + blk_size k) u)

-- The loop from the size `fk + n` down to `fk`.
unfoldable pub split_down : (n fk p : ℕ) → Buddy → Outcome Buddy
split_down zero fk p s = done s
split_down (suc n) fk p s = split_once (fk + n) p s >>= split_down n fk p

-- A block of the size `k` is popped, marked and split.
abbrev pub take_block : (fk k : ℕ) → List ℕ → Buddy → Outcome (Option ℕ × Buddy)
take_block fk k [] s = done (none, s)
take_block fk k (p ∷ ps) s = set_alloc k (blk_index s.base k p) true (set_free k ps s) >>= λ t.
    split_down (k - fk) fk p t >>= λ u. done (some p, u)

abbrev pub alloc_from : ℕ → Option ℕ → Buddy → Outcome (Option ℕ × Buddy)
alloc_from fk none s = done (none, s)
alloc_from fk (some k) s = take_block fk k (s.free k) s

-- BuddyAllocator::alloc; a slice that starts past its end panics. The heap does not start at the address 0.
unfoldable pub alloc : (size align : ℕ) → Buddy → Outcome (Option ℕ × Buddy)
alloc size align s =
    if ltb max_align align
    then done (none, s)
    else if ltb (suc s.top) (firstk size)
    then panicked
    else alloc_from (firstk size) (first_free (suc s.top - firstk size) (firstk size) s) s

-- BuddyAllocator::size; `n` sizes are left.
unfoldable pub size_from : (n k p : ℕ) → Buddy → ℕ
size_from zero k p s = 0
size_from (suc n) k p s =
    let rest = size_from n (suc k) p s in
    if is_split s (suc k) (blk_index s.base (suc k) p) then k else rest

unfoldable pub size : ℕ → Buddy → ℕ
size p s = size_from s.top 0 p s

unfoldable pub buddy_of : ℕ → ℕ
buddy_of bi = if (bi % 2) == 0 then bi + 1 else bi - 1

-- List::remove of an address in a list; what is in no list has no links to follow.
unfoldable pub remove : ℕ → List ℕ → Option (List ℕ)
remove q [] = none
remove q (p ∷ ps) =
    if q == p then some ps else elim (remove q ps) [ none ↦ none | some qs ↦ some (p ∷ qs) ]

abbrev pub unlink : (k q : ℕ) → Buddy → Outcome Buddy
unlink k q s = elim (remove q (s.free k)) [ none ↦ panicked | some xs ↦ done (set_free k xs s) ]

-- Where the merged pair starts.
abbrev pub lower : (buddy p q : ℕ) → ℕ
lower buddy p q = if (buddy % 2) == 0 then q else p

-- The loop of `dealloc`, with the sizes left: the size and the address in the end.
unfoldable pub merge_up : (n k p : ℕ) → Buddy → Outcome (ℕ × ℕ × Buddy)
merge_up zero k p s = done (k, p, s)
merge_up (suc n) k p s =
    let bi = blk_index s.base k p in
    let b = buddy_of bi in
    let p' = lower b p (addr s.base k b) in
    set_alloc k bi false s >>= λ t.
    if is_alloc t k b
    then done (k, p, t)
    else (unlink k (addr s.base k b) t >>= λ u.
        set_split (suc k) (blk_index s.base (suc k) p') false u >>= λ v. merge_up n (suc k) p' v)

-- BuddyAllocator::dealloc
unfoldable pub dealloc : ℕ → Buddy → Outcome Buddy
dealloc p s = merge_up (s.top - size p s) (size p s) p s >>= λ (k, q, t). done (push k q t)
