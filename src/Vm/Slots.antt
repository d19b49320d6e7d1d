-- ===== src/Vm/Slots.antt =====
-- Where a walk ends, with and without making tables.
use octox.Base.{
  ℕ, zero, suc, ◌%◌, ◌≡◌, ◌≢◌, refl, sym, ap, subst, ◌∙◌, Bool, true, false, List, [], ◌∷◌,
  if◌then◌else◌, arith, Option, none, some, inl, inr, Bool-cases, All,
}
use octox.Vm.Defs.{Vm, px, is_v, to_pa, take_page, link, descend, walk_from}
use octox.Vm.Tree.{Kinds, Apart, IsTree, leaf, Grown, Grown-refl, Grown-trans}
use octox.Vm.Grow.{new_table-Grown, new_table-kind, new_table-child}

-- The place of the entry of level 0, where there is one.
unfoldable pub slot : (level : ℕ) → Vm → (t va : ℕ) → Option (ℕ × ℕ)
slot zero v t va = some (t, px va 0)
slot (suc l) v t va =
    let below = slot l v (to_pa (v.entry t (px va (suc l)))) va in
    if is_v (v.entry t (px va (suc l))) then below else none

descend-valid :
    (alloc : Bool) (t i : ℕ) (v : Vm)
    → is_v (v.entry t i) ≡ true
    → descend alloc t i v ≡ (some (to_pa (v.entry t i)), v)
unfolding descend
descend-valid alloc t i v e = rw e refl

descend-gap : (t i : ℕ) (v : Vm) → is_v (v.entry t i) ≡ false → descend false t i v ≡ (none, v)
unfolding descend
descend-gap t i v e = rw e refl

descend-new :
    (t i : ℕ) (v : Vm)
    → is_v (v.entry t i) ≡ false
    → descend true t i v ≡ link t i (take_page v.pool v)
unfolding descend
descend-new t i v e = rw e refl

next : Bool → (l va : ℕ) → Option ℕ × Vm → Option (ℕ × ℕ) × Vm
next alloc l va (some t, v) = walk_from alloc l t va v
next alloc l va (none, v) = (none, v)

walk_from-next :
    (alloc : Bool) (l t va : ℕ) (v : Vm) (d : Option ℕ × Vm)
    → descend alloc t (px va (suc l)) v ≡ d
    → walk_from alloc (suc l) t va v ≡ next alloc l va d
unfolding walk_from next
walk_from-next alloc l t va v (some t', v1) e =
    rw (ap (λ (z : Option ℕ × Vm). z.0) e, walk_from)
      (ap (λ (z : Option ℕ × Vm). walk_from alloc l t' va z.1) e)
walk_from-next alloc l t va v (none, v1) e =
    rw (ap (λ (z : Option ℕ × Vm). z.0) e, walk_from) (ap (λ (z : Option ℕ × Vm). (none, z.1)) e)

pub walk_from-slot : (l t va : ℕ) (v : Vm) → walk_from false l t va v ≡ (slot l v t va, v)
unfolding walk_from slot next
walk_from-slot zero t va v = refl
walk_from-slot (suc l) t va v =
    let deeper = walk_from-slot l (to_pa (v.entry t (px va (suc l)))) va v in
    elim (Bool-cases (is_v (v.entry t (px va (suc l))))) [
      | inl q ↦
          walk_from-next false l t va v _ (descend-valid false t (px va (suc l)) v q)
          ∙ (deeper ∙ rw q refl)
      | inr q ↦ walk_from-next false l t va v _ (descend-gap t (px va (suc l)) v q) ∙ rw q refl
    ]

-- The entry at the place is the leaf.
abbrev pub entry_of : Vm → Option (ℕ × ℕ) → ℕ
entry_of v (some (t, i)) = v.entry t i
entry_of v none = 0

pub leaf-slot : (l : ℕ) (v : Vm) (t va : ℕ) → leaf l v t va ≡ entry_of v (slot l v t va)
unfolding leaf slot
leaf-slot zero v t va = refl
leaf-slot (suc l) v t va = elim (Bool-cases (is_v (v.entry t (px va (suc l))))) [
  | inl q ↦ rw q (leaf-slot l v (to_pa (v.entry t (px va (suc l)))) va)
  | inr q ↦ rw q refl
]

-- What a walk that makes tables leaves.
abbrev pub Walked : Kinds → Vm → (l t va : ℕ) → Option (ℕ × ℕ) × Vm → Type 0
Walked kind v l t va (some (s, i), w) =
    (kind' : Kinds) × Grown kind kind' v w
    × (slot l w t va ≡ some (s, i))
    × (kind' s ≡ 1)
    × (i ≡ px va 0)
Walked kind v l t va (none, w) = (kind' : Kinds) × Grown kind kind' v w

Walked-below :
    (kind k1 : Kinds) (v v1 : Vm) (l t c va : ℕ)
    → kind t ≢ 0
    → Grown kind k1 v v1
    → (is_v (v1.entry t (px va (suc l))) ≡ true) × (to_pa (v1.entry t (px va (suc l))) ≡ c)
    → (r : Option (ℕ × ℕ) × Vm) → Walked k1 v1 l c va r
    → Walked kind v (suc l) t va r
unfolding slot
Walked-below kind k1 v v1 l t c va n g (q, e) (some (s, i), w) (k2, g2, at, ks, is) =
    let keep : w.entry t (px va (suc l)) ≡ v1.entry t (px va (suc l)) =
      g2.valid t (px va (suc l)) (λ z. n (sym (g.kinds t n) ∙ z)) q in
    (k2, Grown-trans g g2, rw (keep, q, e) at, ks, is)
Walked-below kind k1 v v1 l t c va n g (q, e) (none, w) (k2, g2) = (k2, Grown-trans g g2)

pub walk_from-Walked :
    (l : ℕ) (kind : Kinds) (v : Vm) (t va : ℕ)
    → IsTree kind v
    → kind t ≡ suc l
    → Walked kind v l t va (walk_from true l t va v)
unfolding walk_from slot next
walk_from-Walked zero kind v t va h k = (kind, Grown-refl h, refl, k, refl)
walk_from-Walked (suc l) kind v t va h k = elim (Bool-cases (is_v (v.entry t (px va (suc l))))) [
  | inl q ↦
      subst (Walked kind v (suc l) t va)
        (sym (walk_from-next true l t va v _ (descend-valid true t (px va (suc l)) v q)))
        (Walked-below kind kind v v l t _ va (λ z. ground (arith, z, k)) (Grown-refl h) (q, refl) _
          (walk_from-Walked l kind v _ va h (h.down t (px va (suc l)) l k q)))
  | inr q ↦
      subst (Walked kind v (suc l) t va)
        (sym (walk_from-next true l t va v _ (descend-new t (px va (suc l)) v q)))
        (from_pool v.pool refl q (walk_from-Walked l))
]
  where
    from_pool :
        (ps : List ℕ)
        → ps ≡ v.pool
        → is_v (v.entry t (px va (suc l))) ≡ false
        → ((kind1 : Kinds) (v1 : Vm) (c a : ℕ)
            → IsTree kind1 v1
            → kind1 c ≡ suc l
            → Walked kind1 v1 l c a (walk_from true l c a v1))
        → Walked kind v (suc l) t va (next true l va (link t (px va (suc l)) (take_page ps v)))
    from_pool [] e q ih = (kind, Grown-refl h)
    from_pool (p ∷ ps) e q ih =
        let (free, rest) = subst (All (λ x. (kind x ≡ 0) × (x % 4096 ≡ 0))) (sym e) h.unused in
        let (away, others) = subst Apart (sym e) h.apart in
        let g = new_table-Grown kind v t (px va (suc l)) l p ps h k q free rest away others in
        Walked-below kind _ v _ l t p va (λ z. ground (arith, z, k)) g
          (new_table-child kind v t (px va (suc l)) l p ps h k q free rest away others) _
          (ih _ _ p va g.tree
            (new_table-kind kind v t (px va (suc l)) l p ps h k q free rest away others))
