-- ===== src/Buddy/Index.antt =====
-- Arithmetic of blocks: the block of an address, halves, and places in the bit vectors.
use octox.Base.{
  ℕ, zero, suc, ◌+◌, ◌-◌, ◌*◌, ◌/◌, ◌^◌, ◌<◌, ◌≡◌, ◌≢◌, refl, sym, ap, ◌∙◌, true, ltb, arith,
}
use native.Mathlib.Nat.{div-div-eq-div-mul, div-eq_of_eq-mul_left}
use octox.Buddy.Defs.{blk_size, nblk, blk_index, addr, nbytes, buddy_of}

pub blk_size-suc : (k : ℕ) → blk_size (suc k) ≡ 2 * blk_size k
unfolding blk_size
blk_size-suc k = omega arith

pow_pos : (k : ℕ) → 0 < 2 ^ k
pow_pos zero = omega arith
pow_pos (suc k) = let h = pow_pos k in omega (arith, h)

pub blk_size-pos : (k : ℕ) → 0 < blk_size k
unfolding blk_size
blk_size-pos k = let h = pow_pos k in omega (arith, h)

pub blk_index-addr : (base k i : ℕ) → blk_index base k (addr base k i) ≡ i
unfolding blk_index addr
blk_index-addr base k i =
    let off : base + i * blk_size k - base ≡ i * blk_size k = omega arith in
    ap (λ x. x / blk_size k) off ∙ div-eq_of_eq-mul_left (blk_size-pos k) refl

pub blk_index-suc : (base k p : ℕ) → blk_index base (suc k) p ≡ blk_index base k p / 2
unfolding blk_index
blk_index-suc base k p =
    let twice : blk_size (suc k) ≡ blk_size k * 2 = (let e = blk_size-suc k in omega (arith, e)) in
    ap (λ x. (p - base) / x) twice ∙ sym (div-div-eq-div-mul (p - base) (blk_size k) 2)

pub addr-left : (base k i : ℕ) → addr base (suc k) i ≡ addr base k (2 * i)
unfolding addr
addr-left base k i = ap (λ b. base + i * b) (blk_size-suc k) ∙ omega arith

pub addr-right : (base k i : ℕ) → addr base (suc k) i + blk_size k ≡ addr base k (2 * i + 1)
unfolding addr
addr-right base k i = ap (λ b. base + i * b + blk_size k) (blk_size-suc k) ∙ omega arith

pub addr-inj : (base k i j : ℕ) → addr base k i ≡ addr base k j → i ≡ j
addr-inj base k i j e =
    sym (blk_index-addr base k i) ∙ (ap (blk_index base k) e ∙ blk_index-addr base k j)

pub nblk-suc : (top k : ℕ) → k < top → nblk top k ≡ 2 * nblk top (suc k)
unfolding nblk
nblk-suc top k lt =
    let e : top - k ≡ suc (top - suc k) = omega (arith, lt) in ap (λ x. 2 ^ x) e ∙ omega arith

pub nblk-top : (top : ℕ) → nblk top top ≡ 1
unfolding nblk
nblk-top top = let e : top - top ≡ 0 = omega arith in ap (λ x. 2 ^ x) e

-- A block of the heap has its bit in the vector.
pub fits : (top k i : ℕ) → i < nblk top k → ltb (i / 8) (nbytes top k) ≡ true
unfolding nbytes
fits top k i lt = ground (arith, lt)

pub buddy_of-half : (i : ℕ) → buddy_of i / 2 ≡ i / 2
unfolding buddy_of
buddy_of-half i = ground arith

pub buddy_of-ne : (i : ℕ) → buddy_of i ≢ i
unfolding buddy_of
buddy_of-ne i e = ground (arith, e)

-- The other block of a pair.
pub buddy_of-eq : (i j : ℕ) → j / 2 ≡ i / 2 → j ≢ i → j ≡ buddy_of i
unfolding buddy_of
buddy_of-eq i j e ne = ground (arith, e, ne)
