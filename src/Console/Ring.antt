-- ===== src/Console/Ring.antt =====
-- The bytes of the input ring as lists: what `read` may take, and the line being edited.
use octox.Base.{
  ℕ, zero, suc, ◌+◌, ◌-◌, ◌%◌, ◌≤◌, ◌<◌, ◌≡◌, ◌≢◌, refl, ap, List, [], ◌∷◌, ◌++◌, arith, get_or,
  set, length,
}
use octox.Console.Defs.{Cons, word, add64, sub64, input_buf_size}

unfoldable pub bytes : List ℕ → ℕ → ℕ → List ℕ
bytes buf i zero = []
bytes buf i (suc k) = get_or buf (i % input_buf_size) 0 ∷ bytes buf (add64 i 1) k

pub bytes-append :
    (buf : List ℕ) (i a b : ℕ)
    → i < word
    → bytes buf i (a + b) ≡ bytes buf i a ++ bytes buf (add64 i a) b
unfolding bytes
bytes-append buf i zero b h =
    let e : 0 + b ≡ b = omega arith in let f : add64 i 0 ≡ i = omega arith in rw (e, f)
bytes-append buf i (suc a) b h =
    let e : suc a + b ≡ suc (a + b) = omega arith in
    let f : add64 (add64 i 1) a ≡ add64 i (suc a) = omega arith in
    rw e (
      ap (λ t. get_or buf (i % input_buf_size) 0 ∷ t)
        (rw (← f) (bytes-append buf (add64 i 1) a b (omega arith))))

pub bytes-snoc :
    (buf : List ℕ) (i k : ℕ)
    → i < word
    → bytes buf i (k + 1) ≡ bytes buf i k ++ (get_or buf (add64 i k % input_buf_size) 0 ∷ [])
unfolding bytes
bytes-snoc buf i k h = bytes-append buf i k 1 h

pub get_or-set_self : (xs : List ℕ) (i v : ℕ) → i < length xs → get_or (set xs i v) i 0 ≡ v
get_or-set_self [] i v h = absurd (omega arith)
get_or-set_self (x ∷ xs) zero v h = refl
get_or-set_self (x ∷ xs) (suc i) v h = get_or-set_self xs i v (omega arith)

get_or-set_ne : (xs : List ℕ) (i j v : ℕ) → i ≢ j → get_or (set xs i v) j 0 ≡ get_or xs j 0
get_or-set_ne [] i j v h = refl
get_or-set_ne (x ∷ xs) zero zero v h = absurd (h refl)
get_or-set_ne (x ∷ xs) zero (suc j) v h = refl
get_or-set_ne (x ∷ xs) (suc i) zero v h = refl
get_or-set_ne (x ∷ xs) (suc i) (suc j) v h = get_or-set_ne xs i j v (λ e. h (ap suc e))

-- A write behind the bytes leaves them alone.
pub bytes-set :
    (buf : List ℕ) (i k m j v : ℕ)
    → j ≡ (i + m) % input_buf_size
    → k ≤ m
    → m < input_buf_size
    → bytes (set buf j v) i k ≡ bytes buf i k
unfolding bytes
bytes-set buf i zero m j v e a b = refl
bytes-set buf i (suc k) m j v e a b =
    rw (get_or-set_ne buf j (i % input_buf_size) v (omega arith)) (
      ap (λ t. get_or buf (i % input_buf_size) 0 ∷ t)
        (bytes-set buf (add64 i 1) k (m - 1) j v (omega arith) (omega arith) (omega arith)))

pub length-bytes : (buf : List ℕ) (i k : ℕ) → length (bytes buf i k) ≡ k
unfolding bytes
length-bytes buf i zero = refl
length-bytes buf i (suc k) = ap suc (length-bytes buf (add64 i 1) k)

-- The indices stay in order within one turn of the ring.
pub record IsValid (c : Cons) : Type 0 where
  pub sized : length c.buf ≡ input_buf_size
  pub words : (c.r < word) × (c.w < word) × (c.e < word)
  pub order : sub64 c.w c.r ≤ sub64 c.e c.r
  pub fits : sub64 c.e c.r ≤ input_buf_size

-- What `read` may take, and the line that is still being edited.
unfoldable pub ready : Cons → List ℕ
ready c = bytes c.buf c.r (sub64 c.w c.r)

unfoldable pub line : Cons → List ℕ
line c = bytes c.buf c.w (sub64 c.e c.w)
