-- ===== src/Fs/Bits.antt =====
-- Bits of bytes, and 32-bit words of blocks.
use octox.Base.{
  ℕ, zero, suc, ◌+◌, ◌*◌, ◌/◌, ◌%◌, ◌^◌, ◌<◌, ◌≡◌, ◌≢◌, refl, sym, ap, ◌∙◌, true, false, ◌==◌,
  arith,
}
use octox.Fs.Defs.{bit_clear, get32, set32}

-- The bits of a byte whose clear bit `k` is set.
pub bit_clear-set_self : (x k : ℕ) → k < 8 → bit_clear x k ≡ true → bit_clear (x + 2 ^ k) k ≡ false
bit_clear-set_self x zero l e = ground (arith, e)
bit_clear-set_self x (suc zero) l e = ground (arith, e)
bit_clear-set_self x (suc (suc zero)) l e = ground (arith, e)
bit_clear-set_self x (suc (suc (suc zero))) l e = ground (arith, e)
bit_clear-set_self x (suc (suc (suc (suc zero)))) l e = ground (arith, e)
bit_clear-set_self x (suc (suc (suc (suc (suc zero))))) l e = ground (arith, e)
bit_clear-set_self x (suc (suc (suc (suc (suc (suc zero)))))) l e = ground (arith, e)
bit_clear-set_self x (suc (suc (suc (suc (suc (suc (suc zero))))))) l e = ground (arith, e)
bit_clear-set_self x (suc (suc (suc (suc (suc (suc (suc (suc k)))))))) l e = absurd (omega arith)

pub get32-zero : (j : ℕ) → get32 (λ i. 0) j ≡ 0
get32-zero j = omega arith

pub get32-set32_self : (f : ℕ → ℕ) (i v : ℕ) → get32 (set32 f i v) i ≡ v
get32-set32_self f i v = ground arith

pub get32-set32_else : (f : ℕ → ℕ) (i j v : ℕ) → i ≢ j → get32 (set32 f i v) j ≡ get32 f j
get32-set32_else f i j v ne = ground (arith, ne)

bit_clear-half : (x k : ℕ) → k < 7 → bit_clear x (suc k) ≡ bit_clear (x / 2) k
bit_clear-half x zero l = ground arith
bit_clear-half x (suc zero) l = ground arith
bit_clear-half x (suc (suc zero)) l = ground arith
bit_clear-half x (suc (suc (suc zero))) l = ground arith
bit_clear-half x (suc (suc (suc (suc zero)))) l = ground arith
bit_clear-half x (suc (suc (suc (suc (suc zero))))) l = ground arith
bit_clear-half x (suc (suc (suc (suc (suc (suc zero)))))) l = ground arith
bit_clear-half x (suc (suc (suc (suc (suc (suc (suc k))))))) l = absurd (omega arith)

double : (k : ℕ) → 2 ^ suc k ≡ 2 * 2 ^ k
double k = omega arith

-- Other bits stay.
pub bit_clear-set_else :
    (x k j : ℕ)
    → k < 8
    → j < 8
    → k ≢ j
    → bit_clear x k ≡ true
    → bit_clear (x + 2 ^ k) j ≡ bit_clear x j
bit_clear-set_else x zero zero lk lj ne e = absurd (ne refl)
bit_clear-set_else x zero (suc j) lk lj ne e =
    let half : (x + 1) / 2 ≡ x / 2 = ground (arith, e) in
    bit_clear-half (x + 1) j (omega arith)
    ∙ (ap (λ y. bit_clear y j) half ∙ sym (bit_clear-half x j (omega arith)))
bit_clear-set_else x (suc k) zero lk lj ne e =
    let d = double k in
    let even : ((x + 2 ^ suc k) / 1) % 2 ≡ (x / 1) % 2 = omega (arith, d) in ap (λ y. y == 0) even
bit_clear-set_else x (suc k) (suc j) lk lj ne e =
    let d = double k in
    let half : (x + 2 ^ suc k) / 2 ≡ x / 2 + 2 ^ k = omega (arith, d) in
    bit_clear-half (x + 2 ^ suc k) j (omega arith)
    ∙ (ap (λ y. bit_clear y j) half
        ∙ (bit_clear-set_else (x / 2) k j (omega arith) (omega arith) (λ q. ne (ap suc q))
              (sym (bit_clear-half x k (omega arith)) ∙ e)
            ∙ sym (bit_clear-half x j (omega arith))))

pub bit_clear-zero : (k : ℕ) → k < 8 → bit_clear 0 k ≡ true
bit_clear-zero zero l = refl
bit_clear-zero (suc k) l = bit_clear-half 0 k (omega arith) ∙ bit_clear-zero k (omega arith)
