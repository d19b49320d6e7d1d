-- ===== src/Buddy/Tests.antt =====
-- Witnesses: a heap of 64 bytes with two blocks in use.
use octox.Base.{
  ℕ, zero, suc, ◌*◌, ◌<◌, ◌≤◌, ◌≡◌, refl, true, false, ◌&&◌, List, [], ◌∷◌, ◌==◌, if◌then◌else◌,
  arith, update, Option, none, some, panicked, All,
}
use octox.Buddy.Defs.{Buddy, remove, addr, nblk, blk_size, alloc, dealloc, buddy_of}
use octox.Buddy.Nodes.{
  dead, vacant, used, cut, is_live, is_busy, is_cut, is_used, listed, Nodes, Agrees, occ, IsAt,
}
use octox.Buddy.Give.{alloc-small_panicked}
use octox.Buddy.Pairs.{Merged}
use octox.Buddy.Free.{Freed, dealloc-Freed}
use octox.Buddy.Apart.{Disjoint, used-Disjoint}
use octox.Buddy.Links.{Links}
use octox.Buddy.Calls.{Rings, Call, put, take, drop, calls, seq_calls}
use octox.Buddy.Lists.{calls-Rings}

-- The whole is cut, its first half is in use, the second is cut into a block in use and a free one.
abbrev node : Nodes
node k i =
    if (k == 2) && (i == 0)
    then cut
    else if (k == 1) && (i == 0)
    then used
    else if (k == 1) && (i == 1)
    then cut
    else if (k == 0) && (i == 2)
    then used
    else if (k == 0) && (i == 3)
    then vacant
    else dead

abbrev heap : Buddy
heap = record {
  base = 4096;
  top = 2;
  free = λ k. if k == 0 then 4144 ∷ [] else [];
  alloc = λ k i. is_busy (node k i);
  split = λ k i. is_cut (node k i);
}

unit_size : blk_size 0 ≡ 16
unfolding blk_size
unit_size = refl

heap-counted : (k i : ℕ) → occ (addr 4096 k i) (heap.free k) ≡ listed (node k i)
unfolding addr
heap-counted zero i = let unit : blk_size 0 ≡ 16 = unit_size in ground (arith, unit)
heap-counted (suc k) i = ground arith

heap-inside : (k i : ℕ) → is_live (node k i) ≡ true → (k ≤ 2) × (i < nblk 2 k)
unfolding nblk
heap-inside zero i l = ground (arith, l)
heap-inside (suc zero) i l = ground (arith, l)
heap-inside (suc (suc zero)) i l = ground (arith, l)
heap-inside (suc (suc (suc k))) i l = absurd (ground (arith, l))

heap-placed : (k : ℕ) → All (IsAt 4096 k) (heap.free k)
unfolding addr blk_size
heap-placed zero = ((3, refl), tt)
heap-placed (suc k) = let no : (suc k == 0) ≡ false = ground arith in rw no tt

heap-Agrees : Agrees node heap
heap-Agrees = record {
  inside = heap-inside;
  halves = λ k i lt. ground (arith, lt);
  leaves = λ i. ground arith;
  whole = refl;
  allocated = λ k i lt. refl;
  parted = λ k i lt. refl;
  placed = heap-placed;
  counted = heap-counted;
}

heap-Merged : Merged 2 node
unfolding buddy_of
heap-Merged k i lt v w = ground (arith, v, w)

dealloc-Freed_example :
    Freed
      (λ a b. if (a == 0) && (b == 2) then false else is_used (node a b))
      heap
      (dealloc (addr 4096 0 2) heap)
dealloc-Freed_example = dealloc-Freed node heap 0 2 heap-Agrees refl (omega arith) heap-Merged

used-Disjoint_example : Disjoint (addr 4096 1 0) (blk_size 1) (addr 4096 0 2) (blk_size 0)
used-Disjoint_example = used-Disjoint node heap heap-Agrees 1 0 0 2 refl refl refl

alloc-small_panicked_example : alloc 8 8 heap ≡ panicked
alloc-small_panicked_example =
    alloc-small_panicked heap 8 8 (omega arith) (omega arith) (omega arith)

-- Two empty circles, at 10 and at 20.
abbrev two_heads : ℕ → ℕ
two_heads k = 10 * suc k

abbrev empty_links : Links
empty_links = record { next = λ p. p; prev = λ p. p }

empty-Rings : Rings 2 two_heads (λ _. []) empty_links
empty-Rings = record {
  ring = λ k l. ((refl, refl), λ p. ground arith);
  apart = λ j k p lj lk ne. ground (arith, ne);
}

abbrev some_calls : List Call
some_calls = put 0 100 ∷ put 1 200 ∷ put 0 300 ∷ drop 0 100 ∷ take 1 ∷ take 1 ∷ take 0 ∷ []

abbrev results : List (Option ℕ)
results = none ∷ none ∷ none ∷ none ∷ some 200 ∷ none ∷ some 300 ∷ []

abbrev after_calls : ℕ → List ℕ
after_calls =
    let both = update (update (λ _. []) 0 (100 ∷ [])) 1 (200 ∷ []) in
    update (update (update (update both 0 (300 ∷ 100 ∷ [])) 0 (300 ∷ [])) 1 []) 0 []

runs : seq_calls 2 two_heads some_calls (λ _. []) ≡ some (results, after_calls)
unfolding remove
runs = refl

calls-Rings_example :
    ((calls two_heads some_calls empty_links).0 ≡ results)
    × Rings 2 two_heads after_calls (calls two_heads some_calls empty_links).1
calls-Rings_example =
    calls-Rings 2 two_heads some_calls (λ _. []) empty_links results after_calls empty-Rings runs
