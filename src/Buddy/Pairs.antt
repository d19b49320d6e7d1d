-- ===== src/Buddy/Pairs.antt =====
-- BuddyAllocator::dealloc: pairs of vacant halves, which a merge leaves nowhere.
use octox.Base.{ℕ, ◌<◌, ◌≡◌, ◌≢◌, ◌⊎◌, sym, ap, ◌∙◌, true, ◌&&◌, ◌==◌, arith, inl, inr, Bool-cases}
use octox.Buddy.Defs.{buddy_of}
use octox.Buddy.Index.{buddy_of-ne}
use octox.Buddy.Nodes.{vacant, is_busy, Nodes, set_node}
use octox.Buddy.Merge.{joined_nodes}

-- Below the whole heap no two halves of one block are both vacant.
abbrev pub Merged : ℕ → Nodes → Type 0
Merged top node = (k i : ℕ) → k < top → node k i ≡ vacant → node k (buddy_of i) ≢ vacant

buddy_of-twice : (i : ℕ) → buddy_of (buddy_of i) ≡ i
unfolding buddy_of
buddy_of-twice i = ground arith

-- A block made vacant beside a half that is not, or the whole heap made vacant.
pub vacant-Merged :
    (node : Nodes) (top k i : ℕ)
    → Merged top node
    → (k ≡ top) ⊎ (is_busy (node k (buddy_of i)) ≡ true)
    → Merged top (set_node k i vacant node)
vacant-Merged node top k i m o a b lt v v' = elim (Bool-cases ((a == k) && (b == i))) [
  | inl q ↦ mine (ground (arith, q)) (ground (arith, q)) o
  | inr q ↦ elim (Bool-cases ((a == k) && (buddy_of b == i))) [
    | inl r ↦ theirs (ground (arith, r)) (ground (arith, r)) (rw q at v) o
    | inr r ↦ m a b lt (rw q at v) (rw r at v')
  ]
]
  where
    mine : a ≡ k → b ≡ i → (k ≡ top) ⊎ (is_busy (node k (buddy_of i)) ≡ true) → ⊥
    mine e f (inl w) = omega (arith, e, w, lt)
    mine e f (inr w) = let other = buddy_of-ne i in ground (arith, v', e, f, w, other)

    theirs :
        a ≡ k
        → buddy_of b ≡ i
        → node a b ≡ vacant
        → (k ≡ top) ⊎ (is_busy (node k (buddy_of i)) ≡ true)
        → ⊥
    theirs e f z (inl w) = omega (arith, e, w, lt)
    theirs e f z (inr w) =
        let back : buddy_of i ≡ b = ap buddy_of (sym f) ∙ buddy_of-twice b in
        ground (arith, e, back, z, w)

pub joined-Merged :
    (node : Nodes) (top k i : ℕ) → Merged top node → Merged top (joined_nodes node k i)
joined-Merged node top k i m a b lt v v' = m a b lt (old a b v) (old a (buddy_of b) v')
  where
    old : (a b : ℕ) → joined_nodes node k i a b ≡ vacant → node a b ≡ vacant
    old a b e = ground (arith, e)
