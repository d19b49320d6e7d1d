-- ===== src/Buddy/Ring.antt =====
-- The circles of kernel/list.rs and the sequences that they stand for.
use octox.Base.{
  ℕ, ◌≤◌, ◌≡◌, ◌≢◌, refl, sym, ap, subst, ◌∙◌, false, List, [], ◌∷◌, ◌==◌, if◌then◌else◌, arith,
  ◌⊎◌, inl, inr, Bool-cases, Option, none, some,
}
use octox.Buddy.Defs.{remove}
use octox.Buddy.Nodes.{occ}
use octox.Buddy.Links
use octox.Buddy.Links.{Links}

-- The links lead from `a` through the addresses in the list to `b`, and back.
abbrev pub Chain : Links → (a : ℕ) → List ℕ → (b : ℕ) → Type 0
Chain m a [] b = (m.next a ≡ b) × (m.prev b ≡ a)
Chain m a (x ∷ xs) b = (m.next a ≡ x) × (m.prev x ≡ a) × Chain m x xs b

-- No address twice.
abbrev pub Distinct : List ℕ → Type 0
Distinct xs = (p : ℕ) → occ p xs ≤ 1

-- The node at `l` heads a circle through the addresses in the list.
abbrev pub IsRing : (l : ℕ) → List ℕ → Links → Type 0
IsRing l xs m = Chain m l xs l × Distinct (l ∷ xs)

-- A chain depends on the links in it only.
pub Chain-same :
    (m t : Links) (xs : List ℕ) (a b : ℕ)
    → ((p : ℕ) → occ p (a ∷ xs) ≢ 0 → t.next p ≡ m.next p)
    → ((p : ℕ) → occ p (b ∷ xs) ≢ 0 → t.prev p ≡ m.prev p)
    → Chain m a xs b
    → Chain t a xs b
Chain-same m t [] a b f g (n, p) = (f a (ground arith) ∙ n, g b (ground arith) ∙ p)
Chain-same m t (x ∷ xs) a b f g (n, p, c) = (
  f a (ground arith) ∙ n,
  g x (ground arith) ∙ p,
  Chain-same m t xs x b (λ q o. f q (ground (arith, o))) (λ q o. g q (ground (arith, o))) c,
)

-- The neighbours of an address in a chain are in it.
pub prev-occ :
    (m : Links) (xs : List ℕ) (a b q : ℕ)
    → Chain m a xs b
    → occ q xs ≢ 0
    → occ (m.prev q) (a ∷ xs) ≢ 0
prev-occ m [] a b q c o = absurd (ground (arith, o))
prev-occ m (x ∷ xs) a b q (n, p, c) o = elim (Bool-cases (q == x)) [
  | inl e ↦
      let me : q ≡ x = ground (arith, e) in
      let back : m.prev q ≡ a = ap m.prev me ∙ p in ground (arith, back)
  | inr e ↦ let ih = prev-occ m xs x b q c (ground (arith, e, o)) in ground (arith, ih)
]

pub next-occ :
    (m : Links) (xs : List ℕ) (a b q : ℕ)
    → Chain m a xs b
    → occ q (a ∷ xs) ≢ 0
    → occ (m.next q) (b ∷ xs) ≢ 0
next-occ m [] a b q (n, p) o =
    let me : q ≡ a = ground (arith, o) in
    let on : m.next q ≡ b = ap m.next me ∙ n in ground (arith, on)
next-occ m (x ∷ xs) a b q (n, p, c) o = elim (Bool-cases (q == a)) [
  | inl e ↦
      let me : q ≡ a = ground (arith, e) in
      let on : m.next q ≡ x = ap m.next me ∙ n in ground (arith, on)
  | inr e ↦ let ih = next-occ m xs x b q c (ground (arith, e, o)) in ground (arith, ih)
]

-- What a removal from a sequence does.
remove-some :
    (q x : ℕ) (xs ys : List ℕ)
    → remove q (x ∷ xs) ≡ some ys
    → ((q ≡ x) × (xs ≡ ys)) ⊎ ((q ≢ x) × (zs : List ℕ) × (remove q xs ≡ some zs) × (ys ≡ x ∷ zs))
unfolding remove
remove-some q x xs ys = elim (Bool-cases (q == x)) [
  | inl e ↦ rw e (λ h. inl (ground (arith, e), grind (arith, h)))
  | inr e ↦
      rw e (λ h.
        let (zs, r, eq) = past (remove q xs) h in inr ((λ z. ground (arith, e, z)), zs, r, eq))
]
  where
    past :
        (o : Option (List ℕ))
        → elim o as (λ _. Option (List ℕ)) [ none ↦ none | some zs ↦ some (x ∷ zs) ] ≡ some ys
        → (zs : List ℕ) × (o ≡ some zs) × (ys ≡ x ∷ zs)
    past none h = absurd (grind (arith, h))
    past (some zs) h = (zs, refl, grind (arith, h))

pub remove-occ : (q : ℕ) (xs ys : List ℕ) → remove q xs ≡ some ys → occ q xs ≢ 0
unfolding remove
remove-occ q [] ys r = absurd (grind (arith, r))
remove-occ q (x ∷ xs) ys r = elim (remove-some q x xs ys r) [
  | inl (e, eq) ↦ ground (arith, e)
  | inr (e, zs, r', eq) ↦ (let ih = remove-occ q xs zs r' in ground (arith, ih))
]

-- The links that a removal changes.
pub next-remove :
    (m : Links) (q p : ℕ)
    → (Links.remove q m).next p ≡ (if m.prev q == p then m.next q else m.next p)
unfolding Links.remove
next-remove m q p = refl

pub prev-remove :
    (m : Links) (q p : ℕ)
    → m.prev q ≢ q
    → (Links.remove q m).prev p ≡ (if m.next q == p then m.prev q else m.prev p)
unfolding Links.remove
prev-remove m q p ne = let other : (m.prev q == q) ≡ false = ground (arith, ne) in rw other refl

remove-Chain :
    (m : Links) (q : ℕ) (xs ys : List ℕ) (a b : ℕ)
    → m.prev q ≢ q
    → Chain m a xs b
    → Distinct (a ∷ xs)
    → occ b xs ≡ 0
    → remove q xs ≡ some ys
    → Chain (Links.remove q m) a ys b
unfolding remove
remove-Chain m q [] ys a b ne c d o r = absurd (grind (arith, r))
remove-Chain m q (x ∷ xs) ys a b ne (n, p, c) d o r = elim (remove-some q x xs ys r) [
  | inl (e, eq) ↦ subst (λ zs. Chain (Links.remove q m) a zs b) eq (here e xs c d o)
  | inr (e, zs, r', eq) ↦
      subst (λ zs. Chain (Links.remove q m) a zs b) (sym eq)
        (let back = prev-occ m xs x b q c (remove-occ q xs zs r') in
          let on = next-occ m xs x b q c (let w = remove-occ q xs zs r' in ground (arith, w)) in
          let nx = next-remove m q a in
          let pv = prev-remove m q x ne in
          let once = d (m.prev q) in
          let here = d x in
          (
            ground (arith, nx, back, once, n),
            ground (arith, pv, on, here, o, p),
            remove-Chain m q xs zs x b ne c (λ z. let w = d z in ground (arith, w))
                (ground (arith, o)) r',
          ))
]
  where
    here :
        q ≡ x
        → (xs : List ℕ) → Chain m x xs b
        → Distinct (a ∷ x ∷ xs)
        → occ b (x ∷ xs) ≡ 0
        → Chain (Links.remove q m) a xs b
    here e [] (n', p') d o =
        let nx = next-remove m q a in
        let pv = prev-remove m q b ne in
        let back : m.prev q ≡ a = ap m.prev e ∙ p in
        let on : m.next q ≡ b = ap m.next e ∙ n' in
        (ground (arith, nx, back, on), ground (arith, pv, back, on))
    here e (y ∷ ys) (n', p', c') d o =
        let nx = next-remove m q a in
        let pv = prev-remove m q y ne in
        let back : m.prev q ≡ a = ap m.prev e ∙ p in
        let on : m.next q ≡ y = ap m.next e ∙ n' in
        (
          ground (arith, nx, back, on),
          ground (arith, pv, back, on),
          Chain-same m (Links.remove q m) ys y b
              (λ z w. let f = next-remove m q z in let g = d z in ground (arith, f, g, back, w))
              (λ z w. let f = prev-remove m q z ne in let g = d z in ground (arith, f, g, on, w, o))
              c',
        )

-- A removal leaves no more of any address.
pub remove-le : (q p : ℕ) (xs ys : List ℕ) → remove q xs ≡ some ys → occ p ys ≤ occ p xs
unfolding remove
remove-le q p [] ys r = absurd (grind (arith, r))
remove-le q p (x ∷ xs) ys r = elim (remove-some q x xs ys r) [
  | inl (e, eq) ↦ subst (λ zs. occ p zs ≤ occ p (x ∷ xs)) eq (ground arith)
  | inr (e, zs, r', eq) ↦
      let ih = remove-le q p xs zs r' in
      subst (λ ws. occ p ws ≤ occ p (x ∷ xs)) (sym eq) (ground (arith, ih))
]

pub prev-ne :
    (m : Links) (xs : List ℕ) (a b q : ℕ)
    → Chain m a xs b
    → Distinct (a ∷ xs)
    → occ q xs ≢ 0
    → m.prev q ≢ q
prev-ne m [] a b q c d o = absurd (ground (arith, o))
prev-ne m (x ∷ xs) a b q (n, p, c) d o = elim (Bool-cases (q == x)) [
  | inl e ↦ (λ z.
      let me : q ≡ x = ground (arith, e) in
      let back : m.prev q ≡ a = ap m.prev me ∙ p in
      let once = d a in ground (arith, z, back, me, once))
  | inr e ↦ prev-ne m xs x b q c (λ z. let w = d z in ground (arith, w)) (ground (arith, e, o))
]

pub remove-IsRing :
    (l q : ℕ) (xs ys : List ℕ) (m : Links)
    → IsRing l xs m
    → remove q xs ≡ some ys
    → IsRing l ys (Links.remove q m)
remove-IsRing l q xs ys m (c, d) r = (
  remove-Chain m q xs ys l l (prev-ne m xs l l q c d (remove-occ q xs ys r)) c d
      (let once = d l in ground (arith, once)) r,
  λ p. (let le = remove-le q p xs ys r in let once = d p in ground (arith, le, once)),
)

push-Chain :
    (l a : ℕ) (xs : List ℕ) (m : Links)
    → IsRing l xs m
    → occ a (l ∷ xs) ≡ 0
    → Chain (Links.push l a m) l (a ∷ xs) l
unfolding Links.push
push-Chain l a [] m ((n, p), d) o =
    let other : (a == l) ≡ false = ground (arith, o) in
    let other' : (l == a) ≡ false = ground (arith, o) in
    (
      ground arith,
      ground (arith, n, other, other'),
      (ground (arith, n, other, other'), ground (arith, n, other)),
    )
push-Chain l a (y ∷ ys) m ((n, p, c), d) o = (
  ground arith,
  ground (arith, n, o),
  (
    ground (arith, n, o),
    ground (arith, n, o),
    Chain-same m (Links.push l a m) ys y l (λ z w. let g = d z in ground (arith, g, n, o, w))
        (λ z w. let g = d z in ground (arith, g, n, o, w)) c,
  ),
)

pub push-IsRing :
    (l a : ℕ) (xs : List ℕ) (m : Links)
    → IsRing l xs m
    → occ a (l ∷ xs) ≡ 0
    → IsRing l (a ∷ xs) (Links.push l a m)
push-IsRing l a xs m h o =
    (push-Chain l a xs m h o, λ p. let once = h.1 p in ground (arith, once, o))
