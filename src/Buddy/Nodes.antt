-- ===== src/Buddy/Nodes.antt =====
-- What the blocks of the allocator are, and when its bits and lists say so.
use octox.Base.{
  ℕ, suc, ◌/◌, ◌<◌, ◌≤◌, ◌≡◌, refl, sym, ap, Bool, true, false, ◌&&◌, List, [], ◌∷◌, ◌==◌,
  if◌then◌else◌, arith, update, All, subst, Bool-cases, inl, inr,
}
use octox.Buddy.Defs.{Buddy, addr, nblk}
use octox.Buddy.Index.{addr-inj}

-- A block of a size is part of a larger one or cut up further (`dead`), on the free list, handed out, or
-- cut in two.
pub data Status : Type 0 where
  dead vacant used cut : Status

abbrev pub is_live : Status → Bool
is_live dead = false
is_live vacant = true
is_live used = true
is_live cut = true

abbrev pub is_busy : Status → Bool
is_busy dead = false
is_busy vacant = false
is_busy used = true
is_busy cut = true

abbrev pub is_cut : Status → Bool
is_cut dead = false
is_cut vacant = false
is_cut used = false
is_cut cut = true

abbrev pub is_used : Status → Bool
is_used dead = false
is_used vacant = false
is_used used = true
is_used cut = false

abbrev pub listed : Status → ℕ
listed dead = 0
listed vacant = 1
listed used = 0
listed cut = 0

-- The blocks by their size and index.
abbrev pub Nodes : Type 0
Nodes = ℕ → ℕ → Status

abbrev pub set_node : (k i : ℕ) → Status → Nodes → Nodes
set_node k i x node a b = if (a == k) && (b == i) then x else node a b

-- How often an address stands in a list.
abbrev pub occ : ℕ → List ℕ → ℕ
occ p [] = 0
occ p (q ∷ qs) = let rest = occ p qs in if p == q then suc rest else rest

-- A list holds addresses of blocks of the size `k`.
abbrev pub IsAt : (base k p : ℕ) → Type 0
IsAt base k p = (i : ℕ) × (p ≡ addr base k i)

-- The bits and the lists of the allocator are those of the blocks `node`, which form a tree: a block
-- exists exactly where the one it is half of is split.
pub record Agrees (node : Nodes) (s : Buddy) : Type 0 where
  pub inside : (k i : ℕ) → is_live (node k i) ≡ true → (k ≤ s.top) × (i < nblk s.top k)
  pub halves : (k i : ℕ) → k < s.top → is_live (node k i) ≡ is_cut (node (suc k) (i / 2))
  pub leaves : (i : ℕ) → is_cut (node 0 i) ≡ false
  pub whole : is_live (node s.top 0) ≡ true
  pub allocated : (k i : ℕ) → k < s.top → s.alloc k i ≡ is_busy (node k i)
  pub parted : (k i : ℕ) → suc k ≤ s.top → s.split (suc k) i ≡ is_cut (node (suc k) i)
  pub placed : (k : ℕ) → All (IsAt s.base k) (s.free k)
  pub counted : (k i : ℕ) → occ (addr s.base k i) (s.free k) ≡ listed (node k i)

-- A push on the list of a size.
pub occ-push :
    (base : ℕ) (f : ℕ → List ℕ) (k j a b : ℕ)
    → occ (addr base a b) (update f k (addr base k j ∷ f k) a) ≡ (
        if (a == k) && (b == j) then suc (occ (addr base a b) (f a)) else occ (addr base a b) (f a))
occ-push base f k j a b = elim (Bool-cases (a == k)) [
  | inl e ↦
      let me : a ≡ k = ground (arith, e) in
      let same : (k == k) ≡ true = ground arith in
      let inj = addr-inj base k b j in
      let eq = ap (addr base k) {x = b} {y = j} in
      subst
        (λ x. occ (addr base x b) (update f k (addr base k j ∷ f k) x) ≡ (
          if (x == k) && (b == j)
          then suc (occ (addr base x b) (f x))
          else occ (addr base x b) (f x)))
        (sym me) (rw same (ground (arith, inj, eq)))
  | inr e ↦ ground (arith, e)
]

pub placed-push :
    (base : ℕ) (f : ℕ → List ℕ) (k j a : ℕ)
    → ((x : ℕ) → All (IsAt base x) (f x))
    → All (IsAt base a) (update f k (addr base k j ∷ f k) a)
placed-push base f k j a h = elim (Bool-cases (k == a)) [
  | inl e ↦
      let me : k ≡ a = ground (arith, e) in
      rw e ((j, ap (λ x. addr base x j) me), subst (λ x. All (IsAt base a) (f x)) (sym me) (h a))
  | inr e ↦ rw e (h a)
]

-- A list of a size without one of its addresses.
abbrev pub Without : (base k i : ℕ) → (xs ys : List ℕ) → Type 0
Without base k i xs ys =
    (b : ℕ)
    → occ (addr base k b) xs
      ≡ (if b == i then suc (occ (addr base k b) ys) else occ (addr base k b) ys)

pub occ-Without :
    (base : ℕ) (f : ℕ → List ℕ) (k i : ℕ) (ys : List ℕ)
    → Without base k i (f k) ys
    → (a b : ℕ)
    → occ (addr base a b) (f a) ≡ (
        if (a == k) && (b == i)
        then suc (occ (addr base a b) (update f k ys a))
        else occ (addr base a b) (update f k ys a))
occ-Without base f k i ys w a b = elim (Bool-cases (a == k)) [
  | inl e ↦
      let me : a ≡ k = ground (arith, e) in
      let same : (k == k) ≡ true = ground arith in
      subst
        (λ x. occ (addr base x b) (f x) ≡ (
          if (x == k) && (b == i)
          then suc (occ (addr base x b) (update f k ys x))
          else occ (addr base x b) (update f k ys x)))
        (sym me) (rw same (w b))
  | inr e ↦ let other : (k == a) ≡ false = ground (arith, e) in rw (e, other) refl
]

pub placed-Without :
    (base : ℕ) (f : ℕ → List ℕ) (k a : ℕ) (ys : List ℕ)
    → ((x : ℕ) → All (IsAt base x) (f x))
    → All (IsAt base k) ys
    → All (IsAt base a) (update f k ys a)
placed-Without base f k a ys h q = elim (Bool-cases (k == a)) [
  | inl e ↦ let me : k ≡ a = ground (arith, e) in rw e (subst (λ x. All (IsAt base x) ys) me q)
  | inr e ↦ rw e (h a)
]
