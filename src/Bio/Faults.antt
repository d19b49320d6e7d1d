-- ===== src/Bio/Faults.antt =====
-- `relse` of the buffer at the head and of the buffer at the tail.
use octox.Base.{
  ℕ, zero, suc, ◌≡◌, ◌≢◌, refl, ap, ◌∙◌, Bool, true, false, List, [], ◌∷◌, ◌++◌, arith, Option,
  none, some, update,
}
use octox.Bio.Defs.{
  Meta, Lru, set_next, set_prev, detach, detach_from, attach, attach_to, relse, walk, walk_back,
  ended, endless,
}
use octox.Bio.Chain.{
  last_of, has, IsChain, Seg-split, Distinct-split, has-last_of_self, last_of-append, update_ne,
  update_self,
}

detach_from-head : (nx pv : Option ℕ) (i : ℕ) (s : Lru) → (detach_from nx pv i s).head ≡ s.head
unfolding detach_from
detach_from-head none none i s = refl
detach_from-head none (some p) i s = refl
detach_from-head (some n) none i s = refl
detach_from-head (some n) (some p) i s = refl

detach_from-tail : (nx pv : Option ℕ) (i : ℕ) (s : Lru) → (detach_from nx pv i s).tail ≡ s.tail
unfolding detach_from
detach_from-tail none none i s = refl
detach_from-tail none (some p) i s = refl
detach_from-tail (some n) none i s = refl
detach_from-tail (some n) (some p) i s = refl

attach_to_self : (i : ℕ) (t : Lru) → ((attach_to (some i) i t).node i).next ≡ some i
unfolding attach_to
attach_to_self i t =
    ap (λ (m : Meta). m.next) (update_self (update t.node i (set_prev (some i) (t.node i))) i _)

walk_cycle :
    (fuel : ℕ) (test : ℕ → Bool) (s : Lru) (i : ℕ)
    → (s.node i).next ≡ some i
    → test i ≡ false
    → walk fuel test s (some i) ≡ endless
unfolding walk
walk_cycle zero test s i e t = refl
walk_cycle (suc k) test s i e t = rw t (ap (walk k test s) e ∙ walk_cycle k test s i e t)

module _ (s : Lru) (i : ℕ) (at : s.head ≡ some i) (one : s.count i ≡ 1) where
  relse-attach_to : relse i s ≡ attach_to (some i) i (detach i s)
  unfolding relse attach detach
  relse-attach_to = rw one (
      ap (λ o. attach_to o i (detach i s))
        (detach_from-head (s.node i).next (s.node i).prev i s ∙ at))

-- When the last guard of the buffer at the head of the list is dropped, and nothing pins it, the
-- buffer becomes its own successor: every search of the list from the head for another buffer
-- than this one runs for ever.
relse-head_endless :
    (s : Lru) (i : ℕ) (test : ℕ → Bool) (fuel : ℕ)
    → s.head ≡ some i
    → s.count i ≡ 1
    → test i ≡ false
    → walk fuel test (relse i s) (relse i s).head ≡ endless
unfolding attach_to
relse-head_endless s i test fuel at one t =
    rw (relse-attach_to s i at one)
      (walk_cycle fuel test (attach_to (some i) i (detach i s)) i (attach_to_self i (detach i s)) t)

module _ (s : Lru) (h : ℕ) (ls : List ℕ) (i : ℕ) (c : IsChain s (h ∷ (ls ++ (i ∷ [])))) where
  abbrev a : ℕ
  a = last_of h ls

  alone : Lru
  unfolding detach_from attach_to
  alone = attach_to (some h) i (detach_from none (some a) i s)

  attach-detach : attach i (detach i s) ≡ alone
  unfolding attach detach alone
  attach-detach =
      let cut = Seg-split s.node none (h ∷ ls) (i ∷ []) none c.links in
      ap (attach i) (λ k. detach_from (cut.1.1 k) (cut.1.0 k) i s) ∙ λ k.
      attach_to (c.from k) i (detach_from none (some a) i s)

  apart : (x : ℕ) → has x (h ∷ ls) ≡ true → x ≢ i
  apart x q e = absurd (ground (arith, (Distinct-split (h ∷ ls) (i ∷ []) c.distinct).2 x q))

  alone-prev : (alone.node i).prev ≡ none
  unfolding alone
  alone-prev =
      let node₁ = update s.node i (set_next none (s.node i)) in
      let node₂ = update node₁ i (set_prev none (node₁ i)) in
      let node₃ = update node₂ a (set_next none (node₂ a)) in
      let node₄ = update node₃ h (set_prev (some i) (node₃ h)) in
      let at₂ = update_self node₁ i (set_prev none (node₁ i)) in
      let at₃ = update_ne node₂ a (set_next none (node₂ a)) i (apart a (has-last_of_self h ls)) in
      let at₄ = update_ne node₃ h (set_prev (some i) (node₃ h)) i (apart h (ground arith)) in
      let at₅ = update_self node₄ i (set_next (some h) (node₄ i)) in
      ap (λ (m : Meta). m.prev) at₅ ∙ ap (λ (m : Meta). m.prev) (at₄ ∙ (at₃ ∙ at₂))

  alone-tail : alone.tail ≡ some i
  unfolding alone
  alone-tail = c.to ∙ ap some (last_of-append h ls i [])

walk_back-none : (k : ℕ) (test : ℕ → Bool) (s : Lru) → walk_back k test s none ≡ ended
unfolding walk_back
walk_back-none zero test s = refl
walk_back-none (suc k) test s = refl

-- When the last guard of the buffer at the tail of a list of two or more is dropped, and nothing
-- pins it, the tail stays where it is: a search from the tail sees this buffer alone.
relse-tail_alone :
    (s : Lru) (h : ℕ) (ls : List ℕ) (i : ℕ) (test : ℕ → Bool) (fuel : ℕ)
    → IsChain s (h ∷ (ls ++ (i ∷ [])))
    → s.count i ≡ 1
    → test i ≡ false
    → walk_back (suc fuel) test (relse i s) (relse i s).tail ≡ ended
unfolding relse walk_back
relse-tail_alone s h ls i test fuel c one t =
    let r = alone s h ls i c in
    rw (one, attach-detach s h ls i c)
      (ap (walk_back (suc fuel) test r) (alone-tail s h ls i c)
        ∙ rw t (ap (walk_back fuel test r) (alone-prev s h ls i c) ∙ walk_back-none fuel test r))
