-- ===== src/Buddy/Split.antt =====
-- One round of the loop that splits a block.
use octox.Base.{
  ℕ, suc, ◌+◌, ◌*◌, ◌/◌, ◌<◌, ◌≤◌, ◌≡◌, refl, ap, ◌∙◌, true, false, ◌∷◌, arith, update, done,
}
use octox.Buddy.Defs.{
  Buddy, addr, nblk, blk_size, blk_index, put_bit, set_alloc, set_split, split_once,
}
use octox.Buddy.Index.{blk_index-addr, addr-left, addr-right, nblk-suc, fits}
use octox.Buddy.Nodes.{
  dead, vacant, used, cut, is_live, is_cut, Nodes, set_node, Agrees, occ-push, placed-push,
}

-- What a round leaves.
abbrev pub halved : Buddy → (k i : ℕ) → Buddy
halved s k i = record s {
  split = update s.split (suc k) (put_bit (s.split (suc k)) i true);
  alloc = update s.alloc k (put_bit (s.alloc k) (2 * i) true);
  free = update s.free k (addr s.base k (2 * i + 1) ∷ s.free k);
}

abbrev pub halved_nodes : Nodes → (k i : ℕ) → Nodes
halved_nodes node k i =
    set_node k (2 * i + 1) vacant (set_node k (2 * i) used (set_node (suc k) i cut node))

pub split_once-halved :
    (s : Buddy) (k i : ℕ)
    → suc k ≤ s.top
    → i < nblk s.top (suc k)
    → split_once k (addr s.base (suc k) i) s ≡ done (halved s k i)
unfolding split_once set_split set_alloc
split_once-halved s k i le lt =
    let bi : blk_index s.base (suc k) (addr s.base (suc k) i) ≡ i =
      blk_index-addr s.base (suc k) i in
    let half : blk_index s.base k (addr s.base (suc k) i) ≡ 2 * i =
      ap (blk_index s.base k) (addr-left s.base k i) ∙ blk_index-addr s.base k (2 * i) in
    let q : addr s.base (suc k) i + blk_size k ≡ addr s.base k (2 * i + 1) =
      addr-right s.base k i in
    let twice = nblk-suc s.top k (omega (arith, le)) in
    let in_split = fits s.top (suc k) i lt in
    let in_alloc = fits s.top k (2 * i) (omega (arith, lt, twice)) in
    rw (bi, in_split, half, in_alloc, q) refl

module _ (node : Nodes) (s : Buddy) (k i : ℕ) (h : Agrees node s) (le : suc k ≤ s.top)
    (u : node (suc k) i ≡ used) where
  below : (j : ℕ) → j / 2 ≡ i → is_live (node k j) ≡ false
  below j e =
      let half = h.halves k j (omega (arith, le)) in
      half ∙ (ap (λ x. is_cut (node (suc k) x)) e ∙ ap is_cut u)

  dead_below : (j : ℕ) → j / 2 ≡ i → node k j ≡ dead
  dead_below j e = let l = below j e in ground (arith, l)

  pub left : node k (2 * i) ≡ dead
  left = dead_below (2 * i) (omega arith)

  pub right : node k (2 * i + 1) ≡ dead
  right = dead_below (2 * i + 1) (omega arith)

  pub halved-Agrees : Agrees (halved_nodes node k i) (halved s k i)
  halved-Agrees = record {
    inside = λ a b e.
        let old = h.inside a b in
        let here = h.inside (suc k) i (ap is_live u) in
        let twice = nblk-suc s.top k (omega (arith, le)) in ground (arith, old, here, twice, e, le);
    halves = λ a b lt.
        let old = h.halves a b lt in
        let l = left in let r = right in ground (arith, old, le, u, l, r);
    leaves = λ b. let old = h.leaves b in ground (arith, old);
    whole = let old = h.whole in ground (arith, old, u, le);
    allocated =
        λ a b lt. let old = h.allocated a b lt in let r = right in ground (arith, old, u, r);
    parted = λ a b lt.
        let old = h.parted a b lt in let l = left in let r = right in ground (arith, old, u, l, r);
    placed = λ a. placed-push s.base s.free k (2 * i + 1) a h.placed;
    counted = λ a b.
        let old = h.counted a b in
        let l = left in
        let r = right in
        let new = occ-push s.base s.free k (2 * i + 1) a b in ground (arith, old, l, r, u, new);
  }
