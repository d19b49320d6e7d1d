-- ===== src/Vm/Tree.antt =====
-- Page tables as trees: no table is used at two places, and none is in the pool.
use octox.Base.{
  ℕ, zero, suc, ◌%◌, ◌≡◌, ◌≢◌, refl, sym, ap, ◌∙◌, true, false, List, [], ◌∷◌, if◌then◌else◌, arith,
  All,
}
use octox.Vm.Defs.{Vm, px, is_v, to_pa, pte, pte_v}

-- The page at `p` is a table of level `kind p - 1`, or none.
abbrev pub Kinds : Type 0
Kinds = ℕ → ℕ

abbrev pub Apart : List ℕ → Type 0
Apart [] = Unit
Apart (p ∷ ps) = All (λ q. p ≢ q) ps × Apart ps

pub record IsTree (kind : Kinds) (v : Vm) : Type 0 where
  pub top : kind v.root ≡ 3
  pub down :
      (t i l : ℕ)
      → kind t ≡ suc (suc l)
      → is_v (v.entry t i) ≡ true
      → kind (to_pa (v.entry t i)) ≡ suc l
  pub once :
      (t i t' i' l l' : ℕ)
      → kind t ≡ suc (suc l)
      → kind t' ≡ suc (suc l')
      → is_v (v.entry t i) ≡ true
      → is_v (v.entry t' i') ≡ true
      → to_pa (v.entry t i) ≡ to_pa (v.entry t' i')
      → (t ≡ t') × (i ≡ i')
  pub unused : All (λ p. (kind p ≡ 0) × (p % 4096 ≡ 0)) v.pool
  pub apart : Apart v.pool

-- The entry of level 0 for an address, or 0 where there is no table for it.
unfoldable pub leaf : (level : ℕ) → Vm → (t va : ℕ) → ℕ
leaf zero v t va = v.entry t (px va 0)
leaf (suc l) v t va =
    let below = leaf l v (to_pa (v.entry t (px va (suc l)))) va in
    if is_v (v.entry t (px va (suc l))) then below else 0

-- New tables and nothing else.
pub record Grown (kind kind' : Kinds) (v v' : Vm) : Type 0 where
  pub tree : IsTree kind' v'
  pub kinds : (t : ℕ) → kind t ≢ 0 → kind' t ≡ kind t
  pub valid : (t i : ℕ) → kind t ≢ 0 → is_v (v.entry t i) ≡ true → v'.entry t i ≡ v.entry t i
  pub leaves : (l t va : ℕ) → kind t ≡ suc l → leaf l v' t va ≡ leaf l v t va
  pub rooted : v'.root ≡ v.root

pub Grown-refl : {kind : Kinds} {v : Vm} → IsTree kind v → Grown kind kind v v
Grown-refl h = record {
  tree = h;
  kinds = λ t n. refl;
  valid = λ t i n e. refl;
  leaves = λ l t va e. refl;
  rooted = refl;
}

pub Grown-trans :
    {k k' k'' : Kinds} {u v w : Vm} → Grown k k' u v → Grown k' k'' v w → Grown k k'' u w
Grown-trans {k = k} g h = record {
  tree = h.tree;
  kinds = λ t n. h.kinds t (λ e. n (sym (g.kinds t n) ∙ e)) ∙ g.kinds t n;
  valid = λ t i n e.
      h.valid t i (λ z. n (sym (g.kinds t n) ∙ z)) (ap is_v (g.valid t i n e) ∙ e)
      ∙ g.valid t i n e;
  leaves =
      λ l t va e. h.leaves l t va (g.kinds t (λ z. ground (arith, z, e)) ∙ e) ∙ g.leaves l t va e;
  rooted = h.rooted ∙ g.rooted;
}

pub is_v_zero : is_v 0 ≡ false
unfolding is_v
is_v_zero = refl

pub is_v-link : (p : ℕ) → is_v (pte p pte_v) ≡ true
unfolding is_v pte
is_v-link p = ground arith

pub to_pa-link : (p : ℕ) → p % 4096 ≡ 0 → to_pa (pte p pte_v) ≡ p
unfolding to_pa pte
to_pa-link p e = omega arith
