-- ===== src/Log/Blocks.antt =====
-- The log's region of the disk, and the header's round trip through a block.
use octox.Base.{
  ℕ, zero, suc, ◌+◌, ◌≤◌, ◌<◌, ◌≡◌, refl, ap, ◌⊎◌, Bool, true, false, List, [], ◌∷◌, ◌++◌, ◌==◌,
  ◌||◌, arith, take, drop, length, update,
}
use octox.Log.Defs.{Block, Disk, LogHeader, log_size, decode, encode}

take-append {ℓ} : {A : Type ℓ} (xs ys : List A) → take (length xs) (xs ++ ys) ≡ xs
take-append [] ys = refl
take-append (x ∷ xs) ys = ap (λ t. x ∷ t) (take-append xs ys)

pub decode-encode :
    (h : LogHeader) (w : Block) → length h.block ≡ log_size → decode (encode h w) ≡ h
unfolding decode encode
decode-encode h w e = ground (arith, take-append h.block (drop (log_size + 1) w), e)

-- A block outside the log's region.
abbrev pub Home : ℕ → ℕ → Type 0
Home start b = (b < start) ⊎ (start + log_size < b)

-- Whether `b` is among the first `k` blocks of the list.
abbrev pub listed : ℕ → ℕ → List ℕ → Bool
listed b zero bs = false
listed b (suc k) [] = false
listed b (suc k) (x ∷ bs) = (x == b) || listed b k bs

-- The list has `k` elements, and `Q` holds of the first `k`.
abbrev pub Firsts : (ℕ → Type 0) → ℕ → List ℕ → Type 0
Firsts Q zero bs = Unit
Firsts Q (suc k) [] = ⊥
Firsts Q (suc k) (b ∷ bs) = Q b × Firsts Q k bs

pub Firsts-map :
    (Q R : ℕ → Type 0)
    → ((b : ℕ) → Q b → R b)
    → (k : ℕ) (bs : List ℕ) → Firsts Q k bs
    → Firsts R k bs
Firsts-map Q R f zero bs h = tt
Firsts-map Q R f (suc k) [] h = h
Firsts-map Q R f (suc k) (b ∷ bs) h = (f b h.0, Firsts-map Q R f k bs h.1)

or-true : (x : Bool) → (x || true) ≡ true
or-true true = refl
or-true false = refl

-- Each of the first `k` blocks is listed.
pub Firsts-listed :
    (Q : ℕ → Type 0) (k : ℕ) (bs : List ℕ)
    → Firsts Q k bs
    → Firsts (λ b. Q b × (listed b k bs ≡ true)) k bs
Firsts-listed Q zero bs h = tt
Firsts-listed Q (suc k) [] h = h
Firsts-listed Q (suc k) (b ∷ bs) h = (
  (h.0, ground arith),
  Firsts-map _ _ (λ c q. (q.0, rw (q.1) (or-true (b == c)))) k bs (Firsts-listed Q k bs h.1),
)

-- The log's entries from `tail` on hold what `T` says of the first `k` blocks.
abbrev pub Holds : Disk → Disk → ℕ → (tail k : ℕ) → List ℕ → Type 0
Holds T f start tail zero bs = Unit
Holds T f start tail (suc k) [] = ⊥
Holds T f start tail (suc k) (b ∷ bs) =
    (f (start + tail + 1) ≡ T b) × Holds T f start (suc tail) k bs

-- A change outside the log's region leaves the entries as they are.
pub Holds-Home :
    (T f : Disk) (start c : ℕ) (w : Block)
    → Home start c
    → (tail k : ℕ) (bs : List ℕ) → tail + k ≤ log_size
    → Holds T f start tail k bs
    → Holds T (update f c w) start tail k bs
Holds-Home T f start c w out tail zero bs fits h = tt
Holds-Home T f start c w out tail (suc k) [] fits h = h
Holds-Home T f start c w out tail (suc k) (b ∷ bs) fits h =
    (ground arith, Holds-Home T f start c w out (suc tail) k bs (omega arith) h.1)

-- The same for a change of the header block.
pub Holds-head :
    (T f : Disk) (start : ℕ) (w : Block) (tail k : ℕ) (bs : List ℕ)
    → Holds T f start tail k bs
    → Holds T (update f start w) start tail k bs
Holds-head T f start w tail zero bs h = tt
Holds-head T f start w tail (suc k) [] h = h
Holds-head T f start w tail (suc k) (b ∷ bs) h =
    (ground arith, Holds-head T f start w (suc tail) k bs h.1)

-- A disk with no committed transaction, whose home blocks are those of `T`.
pub record Clear (start : ℕ) (T d : Disk) : Type 0 where
  pub head : (decode (d start)).n ≡ 0
  pub home : (b : ℕ) → Home start b → d b ≡ T b

-- A disk with a committed transaction that may be installed in part: installed in full, it is `T`.
pub record Committed (start : ℕ) (lh : LogHeader) (T d : Disk) : Type 0 where
  pub head : decode (d start) ≡ lh
  pub entries : Holds T d start 0 lh.n lh.block
  pub rest : (b : ℕ) → Home start b → listed b lh.n lh.block ≡ false → d b ≡ T b
