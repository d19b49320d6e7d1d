-- ===== src/Buddy/Apart.antt =====
-- The memory of the blocks in use: the addresses that `addr` and `blk_size` give them.
use octox.Base.{
  ℕ, zero, suc, ◌+◌, ◌-◌, ◌*◌, ◌/◌, ◌%◌, ◌<◌, ◌≤◌, ◌≡◌, ◌≢◌, refl, sym, ap, subst, ◌∙◌, true, false,
  ◌&&◌, ◌==◌, ltb, leb, arith, ◌⊎◌, inl, inr, Bool-cases,
}
use octox.Buddy.Defs.{Buddy, blk_size, addr}
use octox.Buddy.Index.{blk_size-suc, addr-left, addr-right}
use octox.Buddy.Nodes.{used, is_live, is_cut, Nodes, Agrees}

-- One range of memory ends before the other starts.
abbrev pub Disjoint : (p m q n : ℕ) → Type 0
Disjoint p m q n = (p + m ≤ q) ⊎ (q + n ≤ p)

abbrev ancestor : (d i : ℕ) → ℕ
ancestor zero i = i
ancestor (suc d) i = ancestor d i / 2

-- The size `d` steps above `k`.
abbrev above : (d k : ℕ) → ℕ
above zero k = k
above (suc d) k = suc (above d k)

above-add : (d k : ℕ) → above d k ≡ k + d
above-add zero k = omega arith
above-add (suc d) k = let ih = above-add d k in omega (arith, ih)

-- A block lies within the block that it is half of.
within_parent :
    (base k i : ℕ)
    → (addr base (suc k) (i / 2) ≤ addr base k i)
      × (addr base k i + blk_size k ≤ addr base (suc k) (i / 2) + blk_size (suc k))
within_parent base k i =
    let twice = blk_size-suc k in
    let l = addr-left base k (i / 2) in
    let r = addr-right base k (i / 2) in
    elim (Bool-cases ((i % 2) == 0)) [
      | inl e ↦
          let half : i ≡ 2 * (i / 2) = ground (arith, e) in
          let me = ap (addr base k) half in
          (omega (arith, twice, l, me), omega (arith, twice, l, me))
      | inr e ↦
          let half : i ≡ 2 * (i / 2) + 1 = ground (arith, e) in
          let me = ap (addr base k) half in
          (omega (arith, twice, r, me), omega (arith, twice, r, me))
    ]

within_ancestor :
    (base k i d : ℕ)
    → (addr base (above d k) (ancestor d i) ≤ addr base k i)
      × (addr base k i + blk_size k ≤ addr base (above d k) (ancestor d i) + blk_size (above d k))
within_ancestor base k i zero = (omega arith, omega arith)
within_ancestor base k i (suc d) =
    let (a, b) = within_ancestor base k i d in
    let (c, e) = within_parent base (above d k) (ancestor d i) in
    (omega (arith, a, c), omega (arith, b, e))

ordered-Disjoint : (base k i j : ℕ) → i < j → addr base k i + blk_size k ≤ addr base k j
unfolding addr
ordered-Disjoint base k i j lt = mono (j - suc i) j (omega (arith, lt))
  where
    mono : (d x : ℕ) → suc i + d ≡ x → addr base k i + blk_size k ≤ addr base k x
    mono zero x e =
        subst (λ y. base + i * blk_size k + blk_size k ≤ base + y * blk_size k) e (omega arith)
    mono (suc d) x e =
        let ih = mono d (suc i + d) refl in
        subst (λ y. base + i * blk_size k + blk_size k ≤ base + y * blk_size k) e
          (omega (arith, ih))

module _ (node : Nodes) (s : Buddy) (h : Agrees node s) where
  ancestor-cut :
      (k i d : ℕ)
      → is_live (node k i) ≡ true
      → above d k < s.top
      → is_cut (node (above (suc d) k) (ancestor (suc d) i)) ≡ true
  ancestor-cut k i zero l lt = sym (h.halves k i lt) ∙ l
  ancestor-cut k i (suc d) l lt =
      let up = ancestor-cut k i d l (omega (arith, lt)) in
      let half = h.halves (above (suc d) k) (ancestor (suc d) i) lt in ground (arith, up, half)

  above-Disjoint :
      (k i d j : ℕ)
      → node k i ≡ used
      → node (above d k) j ≡ used
      → (ancestor d i ≢ j)
      → Disjoint (addr s.base k i) (blk_size k) (addr s.base (above d k) j) (blk_size (above d k))
  above-Disjoint k i d j u v ne =
      let (a, b) = within_ancestor s.base k i d in
      elim (Bool-cases (ltb (ancestor d i) j)) [
        | inl e ↦
            let o = ordered-Disjoint s.base (above d k) (ancestor d i) j (ground (arith, e)) in
            inl (omega (arith, o, b))
        | inr e ↦
            let o = ordered-Disjoint s.base (above d k) j (ancestor d i) (ground (arith, e, ne)) in
            inr (omega (arith, o, a))
      ]

  ancestor-ne :
      (k i d j : ℕ)
      → node k i ≡ used
      → node (above d k) j ≡ used
      → ((k == above d k) && (i == j)) ≡ false
      → ancestor d i ≢ j
  ancestor-ne k i zero j u v ne e = ground (arith, ne, e)
  ancestor-ne k i (suc d) j u v ne e =
      let inside = h.inside (above (suc d) k) j (ap is_live v) in
      let c = ancestor-cut k i d (ap is_live u) (omega (arith, inside.0)) in
      let same = ap (λ x. is_cut (node (above (suc d) k) x)) e in ground (arith, c, same, v)

  -- On bits and lists that agree with a tree of blocks, two different blocks in use, of any sizes, have no
  -- byte in common: one of them ends at or before the address where the other starts.
  pub used-Disjoint :
      (k i l j : ℕ)
      → node k i ≡ used
      → node l j ≡ used
      → ((k == l) && (i == j)) ≡ false
      → Disjoint (addr s.base k i) (blk_size k) (addr s.base l j) (blk_size l)
  used-Disjoint k i l j u v ne = elim (Bool-cases (leb k l)) [
    | inl e ↦
        let me : l ≡ above (l - k) k = (let a = above-add (l - k) k in ground (arith, e, a)) in
        subst (λ x. Disjoint (addr s.base k i) (blk_size k) (addr s.base x j) (blk_size x)) (sym me)
          (above-Disjoint k i (l - k) j u (v' me)
            (ancestor-ne k i (l - k) j u (v' me) (ground (arith, ne, me))))
    | inr e ↦
        let me : k ≡ above (k - l) l = (let a = above-add (k - l) l in ground (arith, e, a)) in
        subst (λ x. Disjoint (addr s.base x i) (blk_size x) (addr s.base l j) (blk_size l)) (sym me)
          (flip _ _ _ _ (
            above-Disjoint l j (k - l) i v (u' me)
              (ancestor-ne l j (k - l) i v (u' me) (ground (arith, ne, me)))))
  ]
    where
      v' : l ≡ above (l - k) k → node (above (l - k) k) j ≡ used
      v' me = subst (λ x. node x j ≡ used) me v

      u' : k ≡ above (k - l) l → node (above (k - l) l) i ≡ used
      u' me = subst (λ x. node x i ≡ used) me u

      flip : (p m q n : ℕ) → Disjoint p m q n → Disjoint q n p m
      flip p m q n (inl a) = inr a
      flip p m q n (inr a) = inl a
