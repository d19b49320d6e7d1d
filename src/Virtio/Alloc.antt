-- ===== src/Virtio/Alloc.antt =====
-- Allocation of three descriptors.
use octox.Base.{
  ℕ, zero, suc, ◌+◌, ◌≤◌, ◌<◌, ◌≡◌, ◌≢◌, sym, ap, ◌∙◌, Bool, true, false, ◌==◌, arith, Option, none,
  some, inl, inr, Bool-cases, Option-cases, done, ◌⊎◌,
}
use octox.Virtio.Defs.{Disk, num, first_free, alloc_desc, take_desc, alloc3_desc, ok}

pub first_free-some :
    (k i : ℕ) (f : ℕ → Bool) (j : ℕ)
    → first_free k i f ≡ some j
    → (i ≤ j) × (j < i + k) × (f j ≡ true)
unfolding first_free
first_free-some zero i f j e = absurd (ground arith)
first_free-some (suc k) i f j e = elim (Bool-cases (f i)) [
  | inl t ↦ here t (rw t at e)
  | inr t ↦
      let (a, b, c) = first_free-some k (suc i) f j (rw t at e) in (omega arith, omega arith, c)
]
  where
    here : f i ≡ true → Option.some i ≡ some j → (i ≤ j) × (j < i + suc k) × (f j ≡ true)
    here t q =
        let same : i ≡ j = ground arith in
        (omega (arith, same), omega (arith, same), ap f (sym same) ∙ t)

pub first_free-none :
    (k i : ℕ) (f : ℕ → Bool) → first_free k i f ≡ none → (j : ℕ) → i ≤ j → j < i + k → f j ≡ false
unfolding first_free
first_free-none zero i f e j lo hi = absurd (omega arith)
first_free-none (suc k) i f e j lo hi = elim (Bool-cases (f i)) [
  | inl t ↦ absurd (ground (arith, t))
  | inr t ↦ elim (Bool-cases (i == j)) [
    | inl q ↦ let same : i ≡ j = ground arith in ap f (sym same) ∙ t
    | inr q ↦ first_free-none k (suc i) f (rw t at e) j (ground arith) (omega arith)
  ]
]

-- One allocation: a free descriptor, or none is free.
pub alloc_desc-cases :
    (d : Disk)
    → ((i : ℕ) × (alloc_desc d ≡ some (i, take_desc i d)) × (i < num) × (d.free i ≡ true))
      ⊎ ((alloc_desc d ≡ none) × ((j : ℕ) → j < num → d.free j ≡ false))
unfolding alloc_desc
alloc_desc-cases d = elim (Option-cases (first_free num 0 d.free)) [
  | inl e ↦
      inr (rw (e, alloc_desc), λ j h. first_free-none num 0 d.free e j (omega arith) (omega arith))
  | inr (i, e) ↦
      let (a, b, c) = first_free-some num 0 d.free i e in
      inl (i, rw (e, alloc_desc), omega arith, c)
]

abbrev pub take3 : (i0 i1 i2 : ℕ) → Disk → Disk
take3 i0 i1 i2 d = take_desc i2 (take_desc i1 (take_desc i0 d))

-- Three different free descriptors.
pub record Three (d : Disk) (i0 i1 i2 : ℕ) : Type 0 where
  pub bounds : (i0 < num) × (i1 < num) × (i2 < num)
  pub were_free : (d.free i0 ≡ true) × (d.free i1 ≡ true) × (d.free i2 ≡ true)
  pub apart : (i0 ≢ i1) × (i0 ≢ i2) × (i1 ≢ i2)

module _ (d : Disk) where
  taken-free : (i j : ℕ) → (take_desc i d).free j ≡ true → (i ≢ j) × (d.free j ≡ true)
  taken-free i j h = (λ e. ground (arith, h, e), ground (arith, h))

  still_free : (i j : ℕ) → i ≢ j → d.free j ≡ true → (take_desc i d).free j ≡ true
  still_free i j n h = ground arith

-- Of three different numbers one is neither of two given ones.
third :
    (x y z i0 i1 : ℕ)
    → x ≢ y
    → x ≢ z
    → y ≢ z
    → ((i0 ≢ x) × (i1 ≢ x)) ⊎ (((i0 ≢ y) × (i1 ≢ y)) ⊎ ((i0 ≢ z) × (i1 ≢ z)))
third x y z i0 i1 a b c = ground arith

second : (x y i0 : ℕ) → x ≢ y → (i0 ≢ x) ⊎ (i0 ≢ y)
second x y i0 a = ground arith

module _ {d : Disk} (x y z : ℕ) (t : Three d x y z) where
  none_left :
      (f : ℕ → Bool) → ((j : ℕ) → j < num → f j ≡ false) → (w : ℕ) → w < num → f w ≡ true → ⊥
  none_left f h w b q = ground (arith, h w b, q)

  -- After one allocation, and after two, one of the three is left.
  one_left : (i0 : ℕ) → ((j : ℕ) → j < num → (take_desc i0 d).free j ≡ false) → ⊥
  one_left i0 h = elim (second x y i0 t.apart.0) [
    | inl n ↦ none_left (take_desc i0 d).free h x t.bounds.0 (still_free d i0 x n t.were_free.0)
    | inr n ↦ none_left (take_desc i0 d).free h y t.bounds.1 (still_free d i0 y n t.were_free.1)
  ]

  two_left : (i0 i1 : ℕ) → ((j : ℕ) → j < num → (take_desc i1 (take_desc i0 d)).free j ≡ false) → ⊥
  two_left i0 i1 h = elim (third x y z i0 i1 t.apart.0 t.apart.1 t.apart.2) [
    | inl (m, n) ↦ left x m n t.bounds.0 t.were_free.0
    | inr (inl (m, n)) ↦ left y m n t.bounds.1 t.were_free.1
    | inr (inr (m, n)) ↦ left z m n t.bounds.2 t.were_free.2
  ]
    where
      left : (w : ℕ) → i0 ≢ w → i1 ≢ w → w < num → d.free w ≡ true → ⊥
      left w m n b q =
          none_left (take_desc i1 (take_desc i0 d)).free h w b
            (still_free (take_desc i0 d) i1 w n (still_free d i0 w m q))

  Fetched : Type 0
  Fetched =
      (i0 : ℕ) × (i1 : ℕ) × (i2 : ℕ) × (alloc3_desc d ≡ done (ok i0 i1 i2, take3 i0 i1 i2 d))
      × Three d i0 i1 i2

  fetched :
      (i0 i1 i2 : ℕ)
      → alloc_desc d ≡ some (i0, take_desc i0 d)
      → alloc_desc (take_desc i0 d) ≡ some (i1, take_desc i1 (take_desc i0 d))
      → alloc_desc (take_desc i1 (take_desc i0 d)) ≡ some (i2, take3 i0 i1 i2 d)
      → Three d i0 i1 i2
      → Fetched
  unfolding Fetched alloc3_desc
  fetched i0 i1 i2 p q r h = (i0, i1, i2, rw (p, q, r, alloc3_desc), h)

  -- Whatever the search finds are three different free descriptors.
  found3 :
      (i0 i1 i2 : ℕ)
      → (i0 < num) × (d.free i0 ≡ true)
      → (i1 < num) × ((take_desc i0 d).free i1 ≡ true)
      → (i2 < num) × ((take_desc i1 (take_desc i0 d)).free i2 ≡ true)
      → Three d i0 i1 i2
  found3 i0 i1 i2 (b0, f0) (b1, f1) (b2, f2) =
      let (n01, g1) = taken-free d i0 i1 f1 in
      let (n12, h2) = taken-free (take_desc i0 d) i1 i2 f2 in
      let (n02, g2) = taken-free d i0 i2 h2 in
      record { bounds = (b0, b1, b2); were_free = (f0, g1, g2); apart = (n01, n02, n12) }

  fetch : Fetched
  fetch = elim (alloc_desc-cases d) [
    | inr (e, h) ↦ absurd (none_left d.free h x t.bounds.0 t.were_free.0)
    | inl (i0, e0, b0, f0) ↦ elim (alloc_desc-cases (take_desc i0 d)) [
      | inr (e, h) ↦ absurd (one_left i0 h)
      | inl (i1, e1, b1, f1) ↦ elim (alloc_desc-cases (take_desc i1 (take_desc i0 d))) [
        | inr (e, h) ↦ absurd (two_left i0 i1 h)
        | inl (i2, e2, b2, f2) ↦
            fetched i0 i1 i2 e0 e1 e2 (found3 i0 i1 i2 (b0, f0) (b1, f1) (b2, f2))
      ]
    ]
  ]

-- Where three different descriptors are free, `alloc3_desc` succeeds: it returns three different
-- descriptors that were free, and all it changes is that these three are taken.
alloc3-Three :
    (d : Disk) (x y z : ℕ)
    → Three d x y z
    → (i0 : ℕ) × (i1 : ℕ) × (i2 : ℕ) × (alloc3_desc d ≡ done (ok i0 i1 i2, take3 i0 i1 i2 d))
      × Three d i0 i1 i2
unfolding Fetched
alloc3-Three d x y z t = fetch x y z t
