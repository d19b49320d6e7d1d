-- ===== src/Buddy/Merge.antt =====
-- One round of the loop that merges a freed block with its buddy.
use octox.Base.{
  ℕ, suc, ◌+◌, ◌-◌, ◌*◌, ◌/◌, ◌%◌, ◌<◌, ◌≡◌, refl, sym, ap, ◌∙◌, true, false, List, [], ◌∷◌, ◌==◌,
  if◌then◌else◌, arith, update, All, inl, inr, Bool-cases, Option, none, some, done,
}
use octox.Buddy.Defs.{
  Buddy, addr, nblk, put_bit, set_alloc, set_split, is_alloc, buddy_of, remove, unlink, lower,
  set_free, merge_up,
}
use octox.Buddy.Index.{
  blk_index-addr, addr-left, addr-inj, fits, buddy_of-half, buddy_of-ne, buddy_of-eq,
}
use octox.Buddy.Nodes.{
  dead, vacant, used, cut, is_live, is_cut, listed, Nodes, set_node, occ, IsAt, Agrees, Without,
  occ-Without, placed-Without,
}

-- What a removal leaves, when every address in the list is of some kind.
abbrev Removed : (ℕ → Type 0) → ℕ → List ℕ → Option (List ℕ) → Type 0
Removed P q xs none = occ q xs ≡ 0
Removed P q xs (some ys) =
    ((p : ℕ) → occ p xs ≡ (if p == q then suc (occ p ys) else occ p ys)) × All P ys

remove-Removed : (P : ℕ → Type 0) (q : ℕ) (xs : List ℕ) → All P xs → Removed P q xs (remove q xs)
unfolding remove
remove-Removed P q [] h = refl
remove-Removed P q (x ∷ xs) h = elim (Bool-cases (q == x)) [
  | inl e ↦ rw (e, Removed) (λ p. ground (arith, e), h.1)
  | inr e ↦ rw (e, Removed) (past e (remove q xs) (remove-Removed P q xs h.1))
]
  where
    past :
        (q == x) ≡ false
        → (o : Option (List ℕ)) → Removed P q xs o
        → Removed P q
            (x ∷ xs)
            (elim o as (λ _. Option (List ℕ)) [ none ↦ none | some ys ↦ some (x ∷ ys) ])
    past e none g = ground (arith, e, g)
    past e (some ys) (g, a) = (λ p. (let old = g p in ground (arith, e, old)), (h.0, a))

unlink-some :
    (k q : ℕ) (ys : List ℕ) (t : Buddy)
    → remove q (t.free k) ≡ some ys
    → unlink k q t ≡ done (set_free k ys t)
unlink-some k q ys t e = rw (unlink, e) refl

-- The lower one of a pair has the even index.
lower-even : (f : ℕ → ℕ) (i : ℕ) → lower (buddy_of i) (f i) (f (buddy_of i)) ≡ f (2 * (i / 2))
unfolding buddy_of
lower-even f i = elim (Bool-cases ((i % 2) == 0)) [
  | inl e ↦
      let odd : ((i + 1) % 2 == 0) ≡ false = ground (arith, e) in
      let same : i ≡ 2 * (i / 2) = ground (arith, e) in rw (e, odd) (ap f same)
  | inr e ↦
      let even : ((i - 1) % 2 == 0) ≡ true = ground (arith, e) in
      let same : i - 1 ≡ 2 * (i / 2) = ground (arith, e) in rw (e, even) (ap f same)
]

-- The state after a round in which the buddy was free.
abbrev pub joined : Buddy → (k i : ℕ) → List ℕ → Buddy
joined s k i ys = record s {
  alloc = update s.alloc k (put_bit (s.alloc k) i false);
  free = update s.free k ys;
  split = update s.split (suc k) (put_bit (s.split (suc k)) (i / 2) false);
}

abbrev pub joined_nodes : Nodes → (k i : ℕ) → Nodes
joined_nodes node k i =
    set_node (suc k) (i / 2) used (set_node k (buddy_of i) dead (set_node k i dead node))

module _ (node : Nodes) (s : Buddy) (k i : ℕ) (h : Agrees node s) (lt : k < s.top)
    (u : node k i ≡ used) where
  pub parent : node (suc k) (i / 2) ≡ cut
  parent =
      let half = h.halves k i lt in
      let live = ap is_live u in
      let c : is_cut (node (suc k) (i / 2)) ≡ true = sym half ∙ live in ground (arith, c)

  pub buddy_live : is_live (node k (buddy_of i)) ≡ true
  buddy_live =
      h.halves k (buddy_of i) lt
      ∙ (ap (λ x. is_cut (node (suc k) x)) (buddy_of-half i) ∙ ap is_cut parent)

  pub buddy_inside : buddy_of i < nblk s.top k
  buddy_inside = (h.inside k (buddy_of i) buddy_live).1

  pub buddy_vacant : s.alloc k (buddy_of i) ≡ false → node k (buddy_of i) ≡ vacant
  buddy_vacant e =
      let l = buddy_live in let a = h.allocated k (buddy_of i) lt in ground (arith, l, a, e)

  pub joined-Agrees :
      (ys : List ℕ)
      → s.alloc k (buddy_of i) ≡ false
      → Without s.base k (buddy_of i) (s.free k) ys
      → All (IsAt s.base k) ys
      → Agrees (joined_nodes node k i) (joined s k i ys)
  joined-Agrees ys e w q =
      let b = buddy_of i in
      let v : node k (buddy_of i) ≡ vacant = buddy_vacant e in
      let c = parent in
      let other = buddy_of-ne i in
      record {
        inside = λ a j l.
            let old = h.inside a j in
            let up = h.inside (suc k) (i / 2) (ap is_live c) in ground (arith, old, up, l);
        halves = λ a j l.
            let old = h.halves a j l in
            let same = buddy_of-half i in
            let pair = buddy_of-eq i j in ground (arith, old, c, u, v, same, pair, other);
        leaves = λ j. let old = h.leaves j in ground (arith, old);
        whole = let old = h.whole in ground (arith, old, lt);
        allocated = λ a j l. let old = h.allocated a j l in ground (arith, old, c, v, u, e);
        parted = λ a j l. let old = h.parted a j l in ground (arith, old, u, v);
        placed = λ a. placed-Without s.base s.free k a ys h.placed q;
        counted = λ a j.
            let old = h.counted a j in
            let new = occ-Without s.base s.free k b ys w a j in
            ground (arith, old, new, v, u, c, other);
      }

  -- The block is marked as free.
  pub unmarked :
      set_alloc k i false s
      ≡ done (record s { alloc = update s.alloc k (put_bit (s.alloc k) i false) })
  unfolding set_alloc
  unmarked = let inside = fits s.top k i (h.inside k i (ap is_live u)).1 in rw inside refl

  -- The buddy is found on its list.
  pub buddy-Removed :
      s.alloc k (buddy_of i) ≡ false
      → (ys : List ℕ) × (remove (addr s.base k (buddy_of i)) (s.free k) ≡ some ys)
        × Without s.base k (buddy_of i) (s.free k) ys
        × All (IsAt s.base k) ys
  buddy-Removed e =
      by_removal (remove (addr s.base k (buddy_of i)) (s.free k)) refl
        (remove-Removed (IsAt s.base k) _ _ (h.placed k))
    where
      by_removal :
          (o : Option (List ℕ))
          → remove (addr s.base k (buddy_of i)) (s.free k) ≡ o
          → Removed (IsAt s.base k) (addr s.base k (buddy_of i)) (s.free k) o
          → (ys : List ℕ) × (remove (addr s.base k (buddy_of i)) (s.free k) ≡ some ys)
            × Without s.base k (buddy_of i) (s.free k) ys
            × All (IsAt s.base k) ys
      by_removal none e' r =
          let count = h.counted k (buddy_of i) in
          let v = ap listed (buddy_vacant e) in absurd (ground (arith, count, v, r))
      by_removal (some ys) e' (r, a) = (
        ys,
        e',
        (λ j.
            let inj = addr-inj s.base k j (buddy_of i) in
            let eq = ap (addr s.base k) {x = j} {y = buddy_of i} in
            let old = r (addr s.base k j) in ground (arith, old, inj, eq)),
        a,
      )

  -- The pair starts where the block that it makes does.
  pub lower-addr :
      lower (buddy_of i) (addr s.base k i) (addr s.base k (buddy_of i))
      ≡ addr s.base (suc k) (i / 2)
  lower-addr = lower-even (addr s.base k) i ∙ sym (addr-left s.base k (i / 2))

  pub merge_up-joined :
      (n : ℕ) (ys : List ℕ)
      → s.alloc k (buddy_of i) ≡ false
      → remove (addr s.base k (buddy_of i)) (s.free k) ≡ some ys
      → merge_up (suc n) k (addr s.base k i) s
        ≡ merge_up n (suc k) (addr s.base (suc k) (i / 2)) (joined s k i ys)
  unfolding merge_up set_split is_alloc
  merge_up-joined n ys e r =
      let place = blk_index-addr s.base k i in
      let mark = unmarked in
      let in_pair = fits s.top k (buddy_of i) buddy_inside in
      let other : (i == buddy_of i) ≡ false = (let ne = buddy_of-ne i in ground (arith, ne)) in
      let low = lower-addr in
      let up = blk_index-addr s.base (suc k) (i / 2) in
      let in_split = fits s.top (suc k) (i / 2) (h.inside (suc k) (i / 2) (ap is_live parent)).1 in
      let self : (k == k) ≡ true = ground arith in
      let unset : update s.alloc k (put_bit (s.alloc k) i false) k (buddy_of i) ≡ false =
        rw (self, other) e in
      let off =
        unlink-some k (addr s.base k (buddy_of i)) ys
          (record s { alloc = update s.alloc k (put_bit (s.alloc k) i false) }) r in
      rw (place, mark, in_pair, unset, off, low, up, in_split) refl

  -- The buddy is in use, and the loop ends.
  pub merge_up-stopped :
      (n : ℕ)
      → s.alloc k (buddy_of i) ≡ true
      → merge_up (suc n) k (addr s.base k i) s
        ≡ done (
          k,
          addr s.base k i,
          record s { alloc = update s.alloc k (put_bit (s.alloc k) i false) },
        )
  unfolding merge_up is_alloc
  merge_up-stopped n e =
      let place = blk_index-addr s.base k i in
      let mark = unmarked in
      let in_pair = fits s.top k (buddy_of i) buddy_inside in
      let other : (i == buddy_of i) ≡ false = (let ne = buddy_of-ne i in ground (arith, ne)) in
      let self : (k == k) ≡ true = ground arith in
      let set : update s.alloc k (put_bit (s.alloc k) i false) k (buddy_of i) ≡ true =
        rw (self, other) e in
      rw (place, mark, in_pair, set) refl
