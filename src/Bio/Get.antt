-- ===== src/Bio/Get.antt =====
-- `get` on a well-formed list: a block is cached in at most one buffer.
use octox.Base.{ℕ, ◌+◌, ◌≡◌, ◌≢◌, Bool, true, false, List}
use octox.Bio.Defs.{Lru, Walk, Got, guard, no_buffers, hangs, sleeps_held, caches, unused}
use octox.Bio.Chain.{has, IsChain}

-- No two buffers of the list cache the same block of a device.
abbrev pub Unique : Lru → List ℕ → Type 0
Unique s xs =
    (dev blockno i j : ℕ)
    → dev ≢ 0
    → has i xs ≡ true
    → has j xs ≡ true
    → caches dev blockno s i ≡ true
    → caches dev blockno s j ≡ true
    → i ≡ j

-- What a caller of `get` may rely on.
abbrev pub GetPost : (ℕ → Bool) → Lru → List ℕ → ℕ → ℕ → Got → Type 0
GetPost locked s xs dev blockno (guard i s') =
    (locked i ≡ false)
    × IsChain s' xs
    × Unique s' xs
    × (has i xs ≡ true)
    × (caches dev blockno s' i ≡ true)
    × (s'.count i ≡ s.count i + 1)
GetPost locked s xs dev blockno (sleeps_held i s') =
    (locked i ≡ true) × (has i xs ≡ true) × (caches dev blockno s' i ≡ true)
GetPost locked s xs dev blockno no_buffers =
    (j : ℕ) → has j xs ≡ true → (caches dev blockno s j ≡ false) × (unused s j ≡ false)
GetPost locked s xs dev blockno hangs = ⊥
