-- ===== src/Bio/Release.antt =====
-- `relse`: what it does to the chain of buffers.
use octox.Base.{
  ℕ, ◌≡◌, ◌≢◌, refl, sym, ap, ◌∙◌, true, false, List, ◌∷◌, ◌++◌, arith, none, some, update,
}
use mathlib.Core.Bool.{false≢true}
use octox.Bio.Defs.{Meta, Lru, set_next, set_prev, detach, detach_from, attach, attach_to, relse}
use octox.Bio.Chain.{
  last_of, has, Distinct, Seg, IsChain, Seg-update, Seg-set_prev, Seg-set_next, Seg-append,
  Seg-split, has-append, Distinct-split, Distinct-append, last_of-append, has-last_of_self,
  update_ne, update_self,
}

-- The links after a middle node `i`, between the lists `h ∷ ls` and `b ∷ ys`, has gone to the front.
module _ (s : Lru) (h : ℕ) (ls : List ℕ) (i b : ℕ) (ys : List ℕ)
    (c : IsChain s (h ∷ (ls ++ (i ∷ b ∷ ys)))) where
  abbrev front : List ℕ
  front = h ∷ ls

  abbrev back : List ℕ
  back = b ∷ ys

  abbrev a : ℕ
  a = last_of h ls

  cut : Seg s.node none front (some i) × Seg s.node (some a) (i ∷ back) none
  cut = Seg-split s.node none front (i ∷ back) none c.links

  apart :
      Distinct front
      × Distinct (i ∷ back)
      × ((x : ℕ) → has x front ≡ true → has x (i ∷ back) ≡ false)
  apart = Distinct-split front (i ∷ back) c.distinct

  -- Which nodes differ.
  not_front : (x : ℕ) → has x (i ∷ back) ≡ true → has x front ≡ false
  not_front x q = ground (arith, apart.2 x)

  i-front : has i front ≡ false
  i-front = not_front i (ground arith)

  b-front : has b front ≡ false
  b-front = not_front b (ground arith)

  a-back : has a back ≡ false
  a-back = ground (arith, apart.2 a (has-last_of_self h ls))

  h-back : has h back ≡ false
  h-back = ground (arith, apart.2 h (ground arith))

  i-back : has i back ≡ false
  i-back = apart.1.0

  b-ys : has b ys ≡ false
  b-ys = apart.1.1.0

  -- The nodes after each change.
  abbrev node₁ : ℕ → Meta
  node₁ = update s.node i (set_next none (s.node i))

  abbrev node₂ : ℕ → Meta
  node₂ = update node₁ i (set_prev none (node₁ i))

  abbrev node₃ : ℕ → Meta
  node₃ = update node₂ b (set_prev (some a) (node₂ b))

  abbrev node₄ : ℕ → Meta
  node₄ = update node₃ a (set_next (some b) (node₃ a))

  abbrev node₅ : ℕ → Meta
  node₅ = update node₄ h (set_prev (some i) (node₄ h))

  abbrev node₆ : ℕ → Meta
  node₆ = update node₅ i (set_next (some h) (node₅ i))

  front-links : Seg node₆ (some i) front (some b)
  front-links = Seg-update node₅ i _ (some i) front (some b) i-front (
      Seg-set_prev node₄ none (some i) h ls (some b) apart.0.0 (
        Seg-set_next node₃ none h ls (some i) (some b) apart.0 (
          Seg-update node₂ b _ none front (some i) b-front (
            Seg-update node₁ i _ none front (some i) i-front
              (Seg-update s.node i _ none front (some i) i-front cut.0)))))

  back-links : Seg node₆ (some a) back none
  back-links = Seg-update node₅ i _ (some a) back none i-back (
      Seg-update node₄ h _ (some a) back none h-back (
        Seg-update node₃ a _ (some a) back none a-back (
          Seg-set_prev node₂ (some i) (some a) b ys none b-ys (
            Seg-update node₁ i _ (some i) back none i-back
              (Seg-update s.node i _ (some i) back none i-back cut.1.2)))))

  ne_of_has : (x y : ℕ) (xs : List ℕ) → has x xs ≡ true → has y xs ≡ false → x ≢ y
  ne_of_has x y xs p q e = absurd (false≢true (sym q ∙ ap (λ t. has t xs) (sym e) ∙ p))

  i-prev : (node₆ i).prev ≡ none
  i-prev =
      let at₃ =
        update_ne node₂ b (set_prev (some a) (node₂ b)) i
          (ne_of_has b i back (ground arith) i-back) in
      let at₄ =
        update_ne node₃ a (set_next (some b) (node₃ a)) i
          (ne_of_has a i front (has-last_of_self h ls) i-front) in
      let at₅ =
        update_ne node₄ h (set_prev (some i) (node₄ h)) i
          (ne_of_has h i front (ground arith) i-front) in
      let at₂ = update_self node₁ i (set_prev none (node₁ i)) in
      let at₆ = update_self node₅ i (set_next (some h) (node₅ i)) in
      ap (λ (m : Meta). m.prev) at₆ ∙ ap (λ (m : Meta). m.prev) (at₅ ∙ (at₄ ∙ (at₃ ∙ at₂)))

  i-next : (node₆ i).next ≡ some h
  i-next = ap (λ (m : Meta). m.next) (update_self node₅ i (set_next (some h) (node₅ i)))

  moved : Lru
  moved = record s { head = some i; node = node₆ }

  attach-detach : attach i (detach i s) ≡ moved
  unfolding attach detach moved
  attach-detach = ap (attach i) (λ k. detach_from (cut.1.1 k) (cut.1.0 k) i s) ∙ λ k.
      attach_to (c.from k) i (detach_from (some b) (some a) i s)

  has-moved : (x : ℕ) → has x front ≡ true → has x back ≡ false
  has-moved x q = ground (arith, apart.2 x q)

  moved-IsChain : IsChain moved (i ∷ h ∷ (ls ++ (b ∷ ys)))
  unfolding moved
  moved-IsChain = record {
    from = refl;
    to = c.to ∙ ap some (last_of-append h ls i (b ∷ ys) ∙ sym (last_of-append h ls b ys));
    links = (i-prev, i-next, Seg-append node₆ (some i) front back none front-links back-links);
    distinct = (
      ground (arith, has-append i front back, i-front, i-back),
      Distinct-append front back apart.0 apart.1.1 has-moved,
    );
  }

-- When the last guard of a buffer that stands between others is dropped, and nothing pins the
-- buffer, it moves to the front of the list and the order of the others stays.
pub relse-middle :
    (s : Lru) (h : ℕ) (ls : List ℕ) (i b : ℕ) (ys : List ℕ)
    → IsChain s (h ∷ (ls ++ (i ∷ b ∷ ys)))
    → s.count i ≡ 1
    → IsChain (relse i s) (i ∷ h ∷ (ls ++ (b ∷ ys)))
unfolding relse
relse-middle s h ls i b ys c one =
    rw (one, attach-detach s h ls i b ys c) (moved-IsChain s h ls i b ys c)
