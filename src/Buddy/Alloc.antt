-- ===== src/Buddy/Alloc.antt =====
-- BuddyAllocator::alloc, seen on the blocks.
use octox.Base.{
  ℕ, zero, suc, ◌+◌, ◌*◌, ◌<◌, ◌≤◌, ◌≡◌, ◌≢◌, refl, sym, ap, subst, ◌∙◌, true, false, ◌&&◌, List,
  [], ◌∷◌, ◌==◌, arith, update, All, inl, inr, Bool-cases, Option, none, some, Outcome, done,
  panicked, ◌>>=◌,
}
use octox.Buddy.Defs.{Buddy, addr, nblk, put_bit, split_once, split_down, first_free}
use octox.Buddy.Index.{addr-left, addr-inj}
use octox.Buddy.Nodes.{
  vacant, used, is_live, is_used, Nodes, set_node, occ, IsAt, Agrees, Without, occ-Without,
  placed-Without,
}
use octox.Buddy.Split.{halved, halved_nodes, split_once-halved, halved-Agrees, left, right}

-- The block of the size `k` and index `i` is handed out, which it was not before, and nothing else changed hands.
pub record Holding (old new : Nodes) (k i : ℕ) : Type 0 where
  pub held : new k i ≡ used
  pub fresh : is_used (old k i) ≡ false
  pub others : (a b : ℕ) → ((a == k) && (b == i)) ≡ false → is_used (new a b) ≡ is_used (old a b)

-- What the allocator gives: a block of the heap of the size `k`.
abbrev pub Given : (old : Nodes) (s : Buddy) (k : ℕ) → Outcome (Option ℕ × Buddy) → Type 0
Given old s k panicked = ⊥
Given old s k (done (none, t)) = (t ≡ s) × ((a b : ℕ) → k ≤ a → old a b ≢ vacant)
Given old s k (done (some p, t)) =
    (i : ℕ) × (new : Nodes) × (p ≡ addr s.base k i)
    × (i < nblk s.top k)
    × Agrees new t
    × Holding old new k i
    × (t.base ≡ s.base)
    × (t.top ≡ s.top)

halved-Holding :
    (old node : Nodes) (s : Buddy) (k i : ℕ)
    → Agrees node s
    → suc k ≤ s.top
    → Holding old node (suc k) i
    → Holding old (halved_nodes node k i) k (2 * i)
halved-Holding old node s k i h le q =
    let l = left node s k i h le q.held in
    let r = right node s k i h le q.held in
    let f = q.fresh in
    record {
      held = ground arith;
      fresh = let o = q.others k (2 * i) in ground (arith, o, l);
      others = λ a b e. let o = q.others a b in ground (arith, o, l, r, e, f);
    }

abbrev pub Down : Nodes → Buddy → ℕ → ℕ → Outcome Buddy → Type 0
Down old s fk p panicked = ⊥
Down old s fk p (done t) =
    (i : ℕ) × (new : Nodes) × (p ≡ addr s.base fk i)
    × Agrees new t
    × Holding old new fk i
    × (t.base ≡ s.base)
    × (t.top ≡ s.top)

pub split_down-Down :
    (old node : Nodes) (n fk k i p : ℕ) (s : Buddy)
    → Agrees node s
    → k ≡ fk + n
    → k ≤ s.top
    → p ≡ addr s.base k i
    → Holding old node k i
    → Down old s fk p (split_down n fk p s)
unfolding split_down
split_down-Down old node zero fk k i p s h e le at q =
    let me : k ≡ fk = omega (arith, e) in
    (
      i,
      node,
      at ∙ ap (λ x. addr s.base x i) me,
      h,
      subst (λ x. Holding old node x i) me q,
      refl,
      refl,
    )
split_down-Down old node (suc n) fk k i p s h e le at q =
    let me : k ≡ suc (fk + n) = omega (arith, e) in
    let q' = subst (λ x. Holding old node x i) me q in
    let at' : p ≡ addr s.base (suc (fk + n)) i = at ∙ ap (λ x. addr s.base x i) me in
    let le' : suc (fk + n) ≤ s.top = omega (arith, le, me) in
    let there = h.inside (suc (fk + n)) i (ap is_live q'.held) in
    let round : split_once (fk + n) p s ≡ done (halved s (fk + n) i) =
      ap (λ x. split_once (fk + n) x s) at' ∙ split_once-halved s (fk + n) i le' there.1 in
    let ih =
      split_down-Down old (halved_nodes node (fk + n) i) n fk (fk + n) (2 * i) p
        (halved s (fk + n) i) (halved-Agrees node s (fk + n) i h le' q'.held) refl
        (omega (arith, le')) (at' ∙ addr-left s.base (fk + n) i)
        (halved-Holding old node s (fk + n) i h le' q') in
    subst (Down old s fk p) (sym (ap (λ o. o >>= split_down n fk p) round)) (same_frame _ ih)
  where
    same_frame : (o : Outcome Buddy) → Down old (halved s (fk + n) i) fk p o → Down old s fk p o
    same_frame panicked d = d
    same_frame (done t) d = d

-- What is popped from the list of a size.
pub pop-IsAt :
    (node : Nodes) (s : Buddy) (k p : ℕ) (ps : List ℕ)
    → Agrees node s
    → s.free k ≡ p ∷ ps
    → (i : ℕ) × (p ≡ addr s.base k i) × (node k i ≡ vacant)
pop-IsAt node s k p ps h e =
    let (i, at) = (subst (All (IsAt s.base k)) e (h.placed k)).0 in
    let count = h.counted k i in
    let first : occ (addr s.base k i) (s.free k) ≡ suc (occ (addr s.base k i) ps) =
      ap (occ (addr s.base k i)) e ∙ ground (arith, at) in
    (i, at, ground (arith, count, first))

-- The block is off its list and marked.
abbrev pub claimed : Buddy → (k i : ℕ) → List ℕ → Buddy
claimed s k i ps = record s {
  free = update s.free k ps;
  alloc = update s.alloc k (put_bit (s.alloc k) i true);
}

pub claimed-Agrees :
    (node : Nodes) (s : Buddy) (k i : ℕ) (ps : List ℕ)
    → Agrees node s
    → s.free k ≡ addr s.base k i ∷ ps
    → node k i ≡ vacant
    → Agrees (set_node k i used node) (claimed s k i ps)
claimed-Agrees node s k i ps h e v = record {
  inside = λ a b l. let old = h.inside a b in ground (arith, old, v, l);
  halves = λ a b lt. let old = h.halves a b lt in ground (arith, old, v);
  leaves = λ b. let old = h.leaves b in ground (arith, old, v);
  whole = let old = h.whole in ground (arith, old);
  allocated = λ a b lt. let old = h.allocated a b lt in ground (arith, old);
  parted = λ a b lt. let old = h.parted a b lt in ground (arith, old, v);
  placed = λ a.
      placed-Without s.base s.free k a ps h.placed (subst (All (IsAt s.base k)) e (h.placed k)).1;
  counted = λ a b.
      let old = h.counted a b in
      let new = occ-Without s.base s.free k i ps (head_without s k i ps e) a b in
      ground (arith, old, new, v);
}
  where
    head_without :
        (s : Buddy) (k i : ℕ) (ps : List ℕ)
        → s.free k ≡ addr s.base k i ∷ ps
        → Without s.base k i (s.free k) ps
    head_without s k i ps e b =
        let inj = addr-inj s.base k b i in
        let eq = ap (addr s.base k) {x = b} {y = i} in
        ap (occ (addr s.base k b)) e ∙ ground (arith, inj, eq)

-- The search stops at the first size with a free block, and finds none when there is none.
abbrev pub Found : Nodes → Buddy → (n k : ℕ) → Option ℕ → Type 0
Found node s n k none = (a b : ℕ) → k ≤ a → a < k + n → node a b ≢ vacant
Found node s n k (some j) = (k ≤ j) × (j < k + n) × (p : ℕ) × (ps : List ℕ) × (s.free j ≡ p ∷ ps)

pub first_free-Found :
    (node : Nodes) (s : Buddy) (n k : ℕ) → Agrees node s → Found node s n k (first_free n k s)
unfolding first_free
first_free-Found node s zero k h = λ a b l r. absurd (omega arith)
first_free-Found node s (suc n) k h = by_list (s.free k) refl (first_free-Found node s n (suc k) h)
  where
    later : s.free k ≡ [] → (o : Option ℕ) → Found node s n (suc k) o → Found node s (suc n) k o
    later e none f = λ a b l r v. elim (Bool-cases (a == k)) [
      | inl q ↦
          let me : a ≡ k = ground (arith, q) in
          let count = h.counted k b in
          let none_here : occ (addr s.base k b) (s.free k) ≡ 0 = ap (occ (addr s.base k b)) e in
          let v' : node k b ≡ vacant = ap (λ x. node x b) (sym me) ∙ v in
          ground (arith, count, none_here, v')
      | inr q ↦ f a b (ground (arith, q, l)) (omega (arith, r)) v
    ]
    later e (some j) (l, r, p, ps, f) = (omega (arith, l), omega (arith, r), p, ps, f)

    by_list :
        (xs : List ℕ)
        → s.free k ≡ xs
        → Found node s n (suc k) (first_free n (suc k) s)
        → Found node s
            (suc n)
            k
            (elim xs as (λ _. Option ℕ) [ [] ↦ first_free n (suc k) s | p ∷ ps ↦ some k ])
    by_list [] e ih = later e (first_free n (suc k) s) ih
    by_list (p ∷ ps) e ih = (omega arith, omega arith, p, ps, e)
