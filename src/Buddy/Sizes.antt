-- ===== src/Buddy/Sizes.antt =====
-- BuddyAllocator::firstk: the smallest size of block that a request fits in.
use octox.Base.{
  ℕ, zero, suc, ◌+◌, ◌-◌, ◌*◌, ◌^◌, ◌<◌, ◌≤◌, ◌≡◌, ◌≢◌, refl, sym, ap, subst, ◌∙◌, true, false, leb,
  arith, inl, inr, Bool-cases,
}
use octox.Buddy.Defs.{log2_up, firstk, blk_size}

log2_up-le : (f j n m : ℕ) → j ≤ m → n ≤ 2 ^ m → log2_up f j n ≤ m
unfolding log2_up
log2_up-le zero j n m le h = le
log2_up-le (suc f) j n m le h = elim (Bool-cases (leb n (2 ^ j))) [
  | inl q ↦ rw q le
  | inr q ↦
      let more : j ≢ m =
        λ e. (let h' = subst (λ x. n ≤ 2 ^ x) (sym e) h in ground (arith, q, h')) in
      rw q (log2_up-le f (suc j) n m (omega (arith, le, more)) h)
]

le-log2_up : (f j n : ℕ) → n ≤ 2 ^ (j + f) → n ≤ 2 ^ log2_up f j n
unfolding log2_up
le-log2_up zero j n h = let same : j + 0 ≡ j = omega arith in subst (λ x. n ≤ 2 ^ x) same h
le-log2_up (suc f) j n h = elim (Bool-cases (leb n (2 ^ j))) [
  | inl q ↦ rw q (ground (arith, q))
  | inr q ↦
      let next : j + suc f ≡ suc j + f = omega arith in
      rw q (le-log2_up f (suc j) n (subst (λ x. n ≤ 2 ^ x) next h))
]

-- A power of 2 above 8.
four-le : (r : ℕ) → 8 < 2 ^ r → 4 ≤ r
four-le zero h = ground (arith, h)
four-le (suc zero) h = ground (arith, h)
four-le (suc (suc zero)) h = ground (arith, h)
four-le (suc (suc (suc zero))) h = ground (arith, h)
four-le (suc (suc (suc (suc r)))) h = omega arith

blk_size_log : (r : ℕ) → 4 ≤ r → blk_size (r - 4) ≡ 2 ^ r
unfolding blk_size
blk_size_log zero l = absurd (omega arith)
blk_size_log (suc zero) l = absurd (omega arith)
blk_size_log (suc (suc zero)) l = absurd (omega arith)
blk_size_log (suc (suc (suc zero))) l = absurd (omega arith)
blk_size_log (suc (suc (suc (suc r)))) l =
    let e : suc (suc (suc (suc r))) - 4 ≡ r = omega arith in ap (λ x. 2 ^ x * 16) e ∙ omega arith

module _ (n : ℕ) (big : 8 < n) (word : n ≤ 2 ^ 64) where
  log : 4 ≤ log2_up 64 0 n
  log = let up = le-log2_up 64 0 n (omega (arith, word)) in four-le _ (omega (arith, big, up))

  firstk-log : firstk n ≡ log2_up 64 0 n - 4
  unfolding firstk
  firstk-log = let l = log in let q : leb 4 (log2_up 64 0 n) ≡ true = ground (arith, l) in rw q refl

  pub le-firstk : n ≤ blk_size (firstk n)
  le-firstk =
      let up = le-log2_up 64 0 n (omega (arith, word)) in
      subst (λ x. n ≤ x) (sym (ap blk_size firstk-log ∙ blk_size_log (log2_up 64 0 n) log)) up

  pub firstk-le : (top : ℕ) → n ≤ blk_size top → firstk n ≤ top
  firstk-le top h =
      let l = log in
      let power : blk_size top ≡ 2 ^ (top + 4) =
        sym (ap blk_size (plus_minus top)) ∙ blk_size_log (top + 4) (omega arith) in
      let r = log2_up-le 64 0 n (top + 4) (omega arith) (subst (λ x. n ≤ x) power h) in
      let e = firstk-log in omega (arith, l, r, e)
    where
      plus_minus : (t : ℕ) → t + 4 - 4 ≡ t
      plus_minus t = omega arith

-- A request of 8 bytes at most gets the size 64.
pub firstk-small : (n : ℕ) → n ≤ 8 → firstk n ≡ 64
unfolding firstk
firstk-small n le =
    let r = log2_up-le 64 0 n 3 (omega arith) (omega (arith, le)) in
    let q : leb 4 (log2_up 64 0 n) ≡ false = ground (arith, r) in rw q refl
