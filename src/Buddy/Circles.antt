-- ===== src/Buddy/Circles.antt =====
-- One circle of links among others in the same memory.
use octox.Base.{
  ℕ, zero, suc, ◌<◌, ◌≡◌, ◌≢◌, sym, ap, subst, ◌∙◌, true, false, List, ◌∷◌, ◌==◌, arith, update,
  inl, inr, Bool-cases,
}
use octox.Buddy.Nodes.{occ}
use octox.Buddy.Links
use octox.Buddy.Links.{Links}
use octox.Buddy.Ring.{IsRing, Chain-same, prev-occ, next-occ, prev-ne, next-remove, prev-remove}
use octox.Buddy.Calls.{Rings, absent}

pub remove-elsewhere :
    (l k q : ℕ) (xs zs : List ℕ) (m : Links)
    → IsRing l xs m
    → IsRing k zs m
    → occ q xs ≢ 0
    → ((p : ℕ) → occ p (l ∷ xs) ≢ 0 → occ p (k ∷ zs) ≡ 0)
    → IsRing k zs (Links.remove q m)
remove-elsewhere l k q xs zs m (c, d) (c', d') o f =
    let back = f (m.prev q) (prev-occ m xs l l q c o) in
    let on = f (m.next q) (next-occ m xs l l q c (ground (arith, o))) in
    let ne = prev-ne m xs l l q c d o in
    (
      Chain-same m (Links.remove q m) zs k k
          (λ z w. let g = next-remove m q z in let here = same back w in ground (arith, g, here))
          (λ z w. let g = prev-remove m q z ne in let here = same on w in ground (arith, g, here))
          c',
      d',
    )
  where
    same : {p z : ℕ} → occ p (k ∷ zs) ≡ 0 → occ z (k ∷ zs) ≢ 0 → p ≢ z
    same o w e = w (ap (λ x. occ x (k ∷ zs)) (sym e) ∙ o)

pub push-elsewhere :
    (l k a : ℕ) (xs zs : List ℕ) (m : Links)
    → IsRing l xs m
    → IsRing k zs m
    → occ a (l ∷ xs) ≡ 0
    → occ a (k ∷ zs) ≡ 0
    → ((p : ℕ) → occ p (l ∷ xs) ≢ 0 → occ p (k ∷ zs) ≡ 0)
    → IsRing k zs (Links.push l a m)
unfolding Links.push
push-elsewhere l k a xs zs m (c, d) (c', d') o o' f =
    let first = f l (ground arith) in
    let on = f (m.next l) (next-occ m xs l l l c (ground arith)) in
    (
      Chain-same m (Links.push l a m) zs k k
          (λ z w. let here = same first w in let there = same o' w in ground (arith, here, there))
          (λ z w. let here = same on w in let there = same o' w in ground (arith, here, there, o))
          c',
      d',
    )
  where
    same : {p z : ℕ} → occ p (k ∷ zs) ≡ 0 → occ z (k ∷ zs) ≢ 0 → p ≢ z
    same o w e = w (ap (λ x. occ x (k ∷ zs)) (sym e) ∙ o)

-- One circle changes, and the others stay.
pub step-Rings :
    (n : ℕ) (head : ℕ → ℕ) (free : ℕ → List ℕ) (m t : Links) (k : ℕ) (ys : List ℕ)
    → Rings n head free m
    → k < n
    → IsRing (head k) ys t
    → ((j : ℕ) → j < n → j ≢ k → IsRing (head j) (free j) t)
    → ((j p : ℕ) → j < n → j ≢ k → occ p (head k ∷ ys) ≢ 0 → occ p (head j ∷ free j) ≡ 0)
    → Rings n head (update free k ys) t
step-Rings n head free m t k ys h lt mine others apart = record {
  ring = λ j l. elim (Bool-cases (k == j)) [
    | inl e ↦ rw e (subst (λ x. IsRing (head x) ys t) (ground (arith, e)) mine)
    | inr e ↦ rw e (others j l (ground (arith, e)))
  ];
  apart = λ j i p lj li ne. elim (Bool-cases (k == j)) [
    | inl e ↦
        let me : k ≡ j = ground (arith, e) in
        let other : (k == i) ≡ false = ground (arith, ne, me) in
        rw (e, other)
          (λ o.
            apart i p li (ground (arith, ne, me)) (subst (λ x. occ p (head x ∷ ys) ≢ 0) (sym me) o))
    | inr e ↦ elim (Bool-cases (k == i)) [
      | inl e' ↦
          let me : k ≡ i = ground (arith, e') in
          let f = apart j p lj (ground (arith, e)) in
          rw (e, e')
            (subst (λ x. occ p (head j ∷ free j) ≢ 0 → occ p (head x ∷ ys) ≡ 0) me
              (ground (arith, f)))
      | inr e' ↦ (let old = h.apart j i p lj li ne in rw (e, e') old)
    ]
  ];
}

pub absent-occ :
    (n : ℕ) (head : ℕ → ℕ) (free : ℕ → List ℕ) (p k : ℕ)
    → absent n head free p ≡ true
    → k < n
    → occ p (head k ∷ free k) ≡ 0
absent-occ zero head free p k a lt = absurd (omega (arith, lt))
absent-occ (suc n) head free p k a lt = elim (Bool-cases (k == n)) [
  | inl e ↦
      let me : k ≡ n = ground (arith, e) in
      subst (λ x. occ p (head x ∷ free x) ≡ 0) (sym me) (ground (arith, a))
  | inr e ↦ absent-occ n head free p k (ground (arith, a)) (ground (arith, e, lt))
]
