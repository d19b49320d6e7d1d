-- ===== src/Vm/Map.antt =====
-- What `mappages` does to the translation of addresses.
use octox.Base.{
  ℕ, zero, suc, ◌/◌, ◌<◌, ◌≡◌, ◌≢◌, refl, sym, ap, ◌∙◌, ◌==◌, arith, Option, none, some, inl, inr,
  Bool-cases,
}
use octox.Vm.Defs.{Vm, maxva, px, is_v, to_pa, put}
use octox.Vm.Tree.{Kinds, IsTree, leaf}
use octox.Vm.Slots.{slot, entry_of, leaf-slot}

-- Two addresses with the same index at each level from `l` down.
abbrev Agree : ℕ → ℕ → ℕ → Type 0
Agree zero a b = px a 0 ≡ px b 0
Agree (suc l) a b = (px a (suc l) ≡ px b (suc l)) × Agree l a b

Agree-page : (a b : ℕ) → a < maxva → b < maxva → Agree 2 a b → a / 4096 ≡ b / 4096
unfolding px
Agree-page a b ha hb (e2, (e1, e0)) = omega (arith, ha, hb, e2, e1, e0)

-- In a tree two walks end at one place only if they follow the same indices.
slot-Agree :
    (l : ℕ) (kind : Kinds) (v : Vm)
    → IsTree kind v
    → (t t' a b : ℕ) → kind t ≡ suc l
    → kind t' ≡ suc l
    → (s : ℕ × ℕ) → slot l v t a ≡ some s
    → slot l v t' b ≡ some s
    → (t ≡ t') × Agree l a b
unfolding slot
slot-Agree zero kind v h t t' a b k k' s e f = (ground arith, ground arith)
slot-Agree (suc l) kind v h t t' a b k k' s e f =
    elim (Bool-cases (is_v (v.entry t (px a (suc l))))) [
      | inr q ↦ absurd (ground (arith, rw q at e))
      | inl q ↦ elim (Bool-cases (is_v (v.entry t' (px b (suc l))))) [
        | inr r ↦ absurd (ground (arith, rw r at f))
        | inl r ↦
            let (same, deeper) =
              slot-Agree l kind v h _ _ a b (h.down t _ l k q) (h.down t' _ l k' r) s (rw q at e)
                (rw r at f) in
            let (tt', ii') = h.once t _ t' _ l l k k' q r same in (tt', (ii', deeper))
      ]
    ]

-- A write at level 0.
module _ (kind : Kinds) (v : Vm) (h : IsTree kind v) (s i e : ℕ) (low : kind s ≡ 1) where
  abbrev w : Vm
  w = put s i e v

  upper : (t j l : ℕ) → kind t ≡ suc (suc l) → w.entry t j ≡ v.entry t j
  upper t j l k = elim (Bool-cases (s == t)) [
    | inl q ↦ let same : s ≡ t = ground arith in absurd (ground (arith, low, k, ap kind same))
    | inr q ↦ rw q refl
  ]

  pub put-IsTree : IsTree kind w
  put-IsTree = record {
    top = h.top;
    down = λ t j l k q.
        ap (λ x. kind (to_pa x)) (upper t j l k)
        ∙ h.down t j l k (ap is_v (sym (upper t j l k)) ∙ q);
    once = λ t j t' j' l l' k k' q q' z.
        h.once t j t' j' l l' k k' (ap is_v (sym (upper t j l k)) ∙ q)
          (ap is_v (sym (upper t' j' l' k')) ∙ q')
          (ap to_pa (sym (upper t j l k)) ∙ (z ∙ ap to_pa (upper t' j' l' k')));
    unused = h.unused;
    apart = h.apart;
  }

  put-slot : (l t a : ℕ) → kind t ≡ suc l → slot l w t a ≡ slot l v t a
  unfolding slot
  put-slot zero t a k = refl
  put-slot (suc l) t a k =
      let same = upper t (px a (suc l)) l k in
      elim (Bool-cases (is_v (v.entry t (px a (suc l))))) [
        | inl q ↦ rw (same, q) (put-slot l _ a (h.down t _ l k q))
        | inr q ↦ rw (same, q) refl
      ]

  pub put-leaf_self : (t a : ℕ) → kind t ≡ 3 → slot 2 v t a ≡ some (s, i) → leaf 2 w t a ≡ e
  put-leaf_self t a k at =
      leaf-slot 2 w t a ∙ (ap (entry_of w) (put-slot 2 t a k ∙ at) ∙ ground arith)

  pub put-leaf_else :
      (t a b : ℕ)
      → kind t ≡ 3
      → a < maxva
      → b < maxva
      → slot 2 v t a ≡ some (s, i)
      → a / 4096 ≢ b / 4096
      → leaf 2 w t b ≡ leaf 2 v t b
  put-leaf_else t a b k ha hb at n =
      leaf-slot 2 w t b
      ∙ (ap (entry_of w) (put-slot 2 t b k)
          ∙ (unwritten (slot 2 v t b) refl ∙ sym (leaf-slot 2 v t b)))
    where
      unwritten : (o : Option (ℕ × ℕ)) → o ≡ slot 2 v t b → entry_of w o ≡ entry_of v o
      unwritten none f = refl
      unwritten (some (s', i')) f = elim (Bool-cases (s == s')) [
        | inr q ↦ rw q refl
        | inl q ↦ elim (Bool-cases (i == i')) [
          | inr r ↦ let same : s ≡ s' = ground arith in ground (arith, q, r, ap v.entry same)
          | inl r ↦
              let same : Option.some (s', i') ≡ some (s, i) = ground (arith, q, r) in
              absurd (
                n (
                  Agree-page a b ha hb
                    (slot-Agree 2 kind v h t t a b k k (s, i) at (sym f ∙ same)).1))
        ]
      ]
