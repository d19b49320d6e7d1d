-- ===== src/Bio/Tests.antt =====
-- Runs of the buffer cache on four buffers, and the theorems at such inputs.
use octox.Base.{ℕ, Bool, ◌≡◌, refl, false, [], ◌∷◌, none, some}
use octox.Bio.Defs.{Lru, found, add, add_all, relse, walk_back, caches, unused}
use octox.Bio.Chain.{IsChain}
use octox.Bio.Release.{relse-middle}

abbrev empty : Lru
empty = record {
  head = none;
  tail = none;
  n = 0;
  node = λ i. record { dev = 0; blockno = 0; next = none; prev = none };
  count = λ i. 0;
  buf = λ i. record { bytes = []; disk = false; blockno = 0; dev = 0; valid = false };
}

-- What init makes of four buffers.
abbrev four : Lru
four = add_all (0 ∷ 1 ∷ 2 ∷ 3 ∷ []) empty

four-IsChain : IsChain four (0 ∷ 1 ∷ 2 ∷ 3 ∷ [])
unfolding add_all add
four-IsChain = record {
  from = refl;
  to = refl;
  links = (refl, refl, (refl, refl, (refl, refl, (refl, refl, tt))));
  distinct = (refl, (refl, (refl, (refl, tt))));
}

count_one : (four.count 2 ≡ 1) × (four.count 0 ≡ 1) × (four.count 3 ≡ 1) × (four.head ≡ some 0)
unfolding add_all add
count_one = (refl, refl, refl, refl)

cold : (caches 1 7 four 0 ≡ false) × (caches 1 7 four 3 ≡ false)
unfolding add_all add
cold = (refl, refl)

-- The least recently used buffer is taken.
first_get : (walk_back 9 (unused four) four four.tail) ≡ found 3
unfolding add_all add walk_back
first_get = refl

-- No lock is taken.
abbrev nobody : ℕ → Bool
nobody i = false

relse-middle_example : IsChain (relse 2 four) (2 ∷ 0 ∷ 1 ∷ 3 ∷ [])
relse-middle_example = relse-middle four 0 (1 ∷ []) 2 3 [] four-IsChain count_one.0
