-- ===== src/Buddy/Free.antt =====
-- BuddyAllocator::size and dealloc, seen on the blocks.
use octox.Base.{
  ℕ, zero, suc, ◌+◌, ◌-◌, ◌/◌, ◌<◌, ◌≤◌, ◌≡◌, refl, sym, ap, subst, ◌∙◌, Bool, true, false, ◌&&◌,
  ◌∷◌, ◌==◌, if◌then◌else◌, arith, update, inl, inr, Bool-cases, Outcome, done, panicked, ◌>>=◌,
}
use octox.Buddy.Defs.{
  Buddy, addr, blk_index, is_split, push, size_from, size, buddy_of, merge_up, dealloc,
}
use octox.Buddy.Index.{blk_index-addr, blk_index-suc, fits}
use octox.Buddy.Nodes.{
  vacant, used, is_live, is_busy, is_cut, is_used, Nodes, set_node, Agrees, occ-push, placed-push,
}
use octox.Buddy.Pairs.{Merged, vacant-Merged, joined-Merged}
use octox.Buddy.Merge.{
  joined, joined_nodes, parent, buddy_vacant, joined-Agrees, buddy-Removed, merge_up-joined,
  merge_up-stopped,
}

module _ (node : Nodes) (s : Buddy) (k i : ℕ) (h : Agrees node s) (lt : k < s.top)
    (u : node k i ≡ used) where
  -- No block within a block in use is cut.
  whole_below :
      (n j : ℕ) → j + n ≡ k → is_cut (node j (blk_index s.base j (addr s.base k i))) ≡ false
  whole_below zero j e =
      let me : j ≡ k = omega (arith, e) in
      subst (λ x. is_cut (node x (blk_index s.base x (addr s.base k i))) ≡ false) (sym me)
        (ap (λ x. is_cut (node k x)) (blk_index-addr s.base k i) ∙ ap is_cut u)
  whole_below (suc n) j e =
      let up = whole_below n (suc j) (omega (arith, e)) in
      let half = h.halves j (blk_index s.base j (addr s.base k i)) (omega (arith, e, lt)) in
      let pair = ap (λ x. is_cut (node (suc j) x)) (blk_index-suc s.base j (addr s.base k i)) in
      ground (arith, up, half, pair)

  unsplit_below :
      (j : ℕ) → j < k → is_split s (suc j) (blk_index s.base (suc j) (addr s.base k i)) ≡ false
  unfolding is_split
  unsplit_below j l =
      let bit = h.parted j (blk_index s.base (suc j) (addr s.base k i)) (omega (arith, l, lt)) in
      let clear = whole_below (k - suc j) (suc j) (omega (arith, l)) in ground (arith, bit, clear)

  split_above : is_split s (suc k) (blk_index s.base (suc k) (addr s.base k i)) ≡ true
  unfolding is_split
  split_above =
      let c = parent node s k i h lt u in
      let place : blk_index s.base (suc k) (addr s.base k i) ≡ i / 2 =
        blk_index-suc s.base k (addr s.base k i) ∙ ap (λ x. x / 2) (blk_index-addr s.base k i) in
      let bit = h.parted k (i / 2) (omega (arith, lt)) in
      let inside = fits s.top (suc k) (i / 2) (h.inside (suc k) (i / 2) (ap is_live c)).1 in
      rw (place, inside, bit, c) refl

  size_from-used : (n j : ℕ) → j + n ≡ s.top → j ≤ k → size_from n j (addr s.base k i) s ≡ k
  unfolding size_from
  size_from-used zero j e l = absurd (omega (arith, e, l, lt))
  size_from-used (suc n) j e l = elim (Bool-cases (j == k)) [
    | inl q ↦
        let me : j ≡ k = ground (arith, q) in
        let up = split_above in
        subst
          (λ x.
            (if is_split s (suc x) (blk_index s.base (suc x) (addr s.base k i))
              then x
              else size_from n (suc x) (addr s.base k i) s)
            ≡ k)
          (sym me) (rw up refl)
    | inr q ↦
        let low = unsplit_below j (ground (arith, q, l)) in
        rw low (size_from-used n (suc j) (omega (arith, e)) (ground (arith, q, l)))
  ]

  -- The size of a block in use is found from its address.
  pub size-used : size (addr s.base k i) s ≡ k
  unfolding size
  size-used = size_from-used s.top 0 (omega arith) (omega arith)

-- The block is put on the list of its size.
abbrev released : Buddy → (k i : ℕ) → (ℕ → ℕ → Bool) → Buddy
released s k i bits = record s { alloc = bits; free = update s.free k (addr s.base k i ∷ s.free k) }

released-Agrees :
    (node : Nodes) (s : Buddy) (k i : ℕ) (bits : ℕ → ℕ → Bool)
    → Agrees node s
    → node k i ≡ used
    → ((a b : ℕ) → a < s.top → bits a b ≡ is_busy (set_node k i vacant node a b))
    → Agrees (set_node k i vacant node) (released s k i bits)
released-Agrees node s k i bits h u f = record {
  inside = λ a b l. let old = h.inside a b in ground (arith, old, u, l);
  halves = λ a b lt. let old = h.halves a b lt in ground (arith, old, u);
  leaves = λ b. let old = h.leaves b in ground (arith, old);
  whole = let old = h.whole in ground (arith, old);
  allocated = f;
  parted = λ a b lt. let old = h.parted a b lt in ground (arith, old, u);
  placed = λ a. placed-push s.base s.free k i a h.placed;
  counted = λ a b.
      let old = h.counted a b in
      let new = occ-push s.base s.free k i a b in ground (arith, old, new, u);
}

-- The blocks in use are those of `g`, no two vacant halves are left, and the bits and lists agree with a tree.
abbrev pub Freed : (g : ℕ → ℕ → Bool) → Buddy → Outcome Buddy → Type 0
Freed g s panicked = ⊥
Freed g s (done t) =
    (new : Nodes) × Agrees new t
    × Merged t.top new
    × ((a b : ℕ) → is_used (new a b) ≡ g a b)
    × (t.base ≡ s.base)
    × (t.top ≡ s.top)

-- What remains in use when the block of the size `k` and index `i` is given back.
record Keeps (node : Nodes) (g : ℕ → ℕ → Bool) (k i : ℕ) : Type 0 where
  pub gone : g k i ≡ false
  pub rest : (a b : ℕ) → ((a == k) && (b == i)) ≡ false → is_used (node a b) ≡ g a b

abbrev give_back : Outcome (ℕ × ℕ × Buddy) → Outcome Buddy
give_back o = o >>= λ (k, q, t). done (push k q t)

joined-Keeps :
    (node : Nodes) (s : Buddy) (g : ℕ → ℕ → Bool) (k i : ℕ)
    → Agrees node s
    → k < s.top
    → node k i ≡ used
    → s.alloc k (buddy_of i) ≡ false
    → Keeps node g k i
    → Keeps (joined_nodes node k i) g (suc k) (i / 2)
joined-Keeps node s g k i h lt u e q =
    let c = parent node s k i h lt u in
    let v = buddy_vacant node s k i h lt u e in
    let gone = q.gone in
    let up = q.rest (suc k) (i / 2) in
    record {
      gone = ground (arith, up, c);
      rest = λ a b z. let old = q.rest a b in ground (arith, old, v, u, c, gone, z);
    }

merge_up-Freed :
    (g : ℕ → ℕ → Bool) (n : ℕ) (node : Nodes) (s : Buddy) (k i : ℕ)
    → Agrees node s
    → k + n ≡ s.top
    → node k i ≡ used
    → Keeps node g k i
    → Merged s.top node
    → Freed g s (give_back (merge_up n k (addr s.base k i) s))
unfolding merge_up
merge_up-Freed g zero node s k i h e u q m = (
  set_node k i vacant node,
  released-Agrees node s k i s.alloc h u
      (λ a b l. let old = h.allocated a b l in ground (arith, old, l, e)),
  vacant-Merged node s.top k i m (inl (omega (arith, e))),
  (λ a b. let old = q.rest a b in let gone = q.gone in ground (arith, old, gone)),
  refl,
  refl,
)
merge_up-Freed g (suc n) node s k i h e u q m = elim (Bool-cases (s.alloc k (buddy_of i))) [
  | inl busy ↦
      subst (λ o. Freed g s (give_back o)) (sym (merge_up-stopped node s k i h below u n busy))
        (
          set_node k i vacant node,
          released-Agrees node s k i _ h u
              (λ a b l. let old = h.allocated a b l in ground (arith, old, l, e)),
          vacant-Merged node s.top k i m (inr (sym (h.allocated k (buddy_of i) below) ∙ busy)),
          (λ a b. let old = q.rest a b in let gone = q.gone in ground (arith, old, gone)),
          refl,
          refl,
        )
  | inr free ↦
      let (ys, r, w, z) = buddy-Removed node s k i h below u free in
      subst (λ o. Freed g s (give_back o)) (sym (merge_up-joined node s k i h below u n ys free r))
        (same_frame (joined s k i ys) refl refl _ (
          merge_up-Freed g n (joined_nodes node k i) (joined s k i ys) (suc k) (i / 2)
            (joined-Agrees node s k i h below u ys free w z) (omega (arith, e)) (ground arith)
            (joined-Keeps node s g k i h below u free q) (joined-Merged node s.top k i m)))
]
  where
    below : k < s.top
    below = omega (arith, e)

    same_frame :
        (t : Buddy)
        → t.base ≡ s.base
        → t.top ≡ s.top
        → (o : Outcome Buddy) → Freed g t o
        → Freed g s o
    same_frame t eb et panicked d = d
    same_frame t eb et (done v) (new, a, m, f, b, c) = (new, a, m, f, b ∙ eb, c ∙ et)

-- On bits and lists that agree with a tree of blocks in which no block has two vacant halves, giving back a
-- block in use by its address, when it is not the whole heap, does not panic. The bits and lists then
-- agree with a tree in which, again, no block has two vacant halves, so that the block has been merged
-- as far up as its neighbours are vacant; the block is not in use there, and every other block is
-- exactly as much in use as before. The base and the number of sizes stay.
pub dealloc-Freed :
    (node : Nodes) (s : Buddy) (k i : ℕ)
    → Agrees node s
    → node k i ≡ used
    → k < s.top
    → Merged s.top node
    → Freed
        (λ a b. if (a == k) && (b == i) then false else is_used (node a b))
        s
        (dealloc (addr s.base k i) s)
unfolding dealloc
dealloc-Freed node s k i h u lt m =
    let found = size-used node s k i h lt u in
    let g : ℕ → ℕ → Bool = λ a b. if (a == k) && (b == i) then false else is_used (node a b) in
    rw found (
      merge_up-Freed g (s.top - k) node s k i h (omega (arith, lt)) u
        record { gone = ground arith; rest = λ a b z. ground (arith, z) } m)
