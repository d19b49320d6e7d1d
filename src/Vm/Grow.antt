-- ===== src/Vm/Grow.antt =====
-- A walk that makes the tables it misses.
use octox.Base.{
  ℕ, zero, suc, ◌%◌, ◌≡◌, ◌≢◌, ◌⊎◌, refl, sym, ap, ◌∙◌, true, false, List, [], ◌∷◌, ◌==◌,
  if◌then◌else◌, arith, inl, inr, Bool-cases, update, All,
}
use octox.Vm.Defs.{Vm, px, is_v, to_pa, pte, pte_v, put, fresh}
use octox.Vm.Tree.{Kinds, Apart, IsTree, leaf, Grown, is_v_zero, is_v-link, to_pa-link}

-- A new table `p` under the entry `i` of the table `t` of level `l + 1`.
module _ (kind : Kinds) (v : Vm) (t i l p : ℕ) (ps : List ℕ) (h : IsTree kind v)
    (at : kind t ≡ suc (suc l)) (gap : is_v (v.entry t i) ≡ false)
    (free : (kind p ≡ 0) × (p % 4096 ≡ 0)) (rest : All (λ q. (kind q ≡ 0) × (q % 4096 ≡ 0)) ps)
    (fresh_page : All (λ q. p ≢ q) ps) (others : Apart ps) where
  abbrev v' : Vm
  v' = put t i (pte p pte_v) (fresh p ps v)

  abbrev kind' : Kinds
  kind' = update kind p (suc l)

  t-p : t ≢ p
  t-p e = ground (arith, at, free.0, ap kind e)

  entry_new : (j : ℕ) → v'.entry p j ≡ 0
  entry_new j = ground (arith, t-p)

  entry_link : v'.entry t i ≡ pte p pte_v
  entry_link = ground arith

  entry_else : (a j : ℕ) → a ≢ p → ((a ≢ t) ⊎ (j ≢ i)) → v'.entry a j ≡ v.entry a j
  entry_else a j n (inl m) = ground (arith, n, m)
  entry_else a j n (inr m) = elim (Bool-cases (t == a)) [
    | inl q ↦ let same : t ≡ a = ground arith in ground (arith, n, m, ap v.entry same)
    | inr q ↦ ground (arith, n, q)
  ]

  place : (a j : ℕ) → (a ≡ p) ⊎ (((a ≡ t) × (j ≡ i)) ⊎ ((a ≢ p) × (v'.entry a j ≡ v.entry a j)))
  place a j = elim (Bool-cases (a == p)) [
    | inl q ↦ inl (ground arith)
    | inr q ↦ elim (Bool-cases (a == t)) [
      | inl r ↦ elim (Bool-cases (j == i)) [
        | inl s ↦ inr (inl (ground arith, ground arith))
        | inr s ↦ inr (inr (ground arith, entry_else a j (ground arith) (inr (ground arith))))
      ]
      | inr r ↦ inr (inr (ground arith, entry_else a j (ground arith) (inl (ground arith))))
    ]
  ]

  kind_old : (a : ℕ) → kind a ≢ 0 → kind' a ≡ kind a
  kind_old a n = elim (Bool-cases (p == a)) [
    | inl q ↦ let same : p ≡ a = ground arith in absurd (n (sym (ap kind same) ∙ free.0))
    | inr q ↦ rw q refl
  ]

  kind_not_p : (a : ℕ) → a ≢ p → kind' a ≡ kind a
  kind_not_p a n = ground (arith, n)

  child_not_p :
      (a j m : ℕ) → kind a ≡ suc (suc m) → is_v (v.entry a j) ≡ true → to_pa (v.entry a j) ≢ p
  child_not_p a j m k q e = ground (arith, h.down a j m k q, free.0, ap kind e)

  no_entry : (a j : ℕ) → a ≡ p → is_v (v'.entry a j) ≡ true → ⊥
  no_entry a j e q =
      ground
        (arith, sym q ∙ (ap (λ x. is_v (v'.entry x j)) e ∙ (ap is_v (entry_new j) ∙ is_v_zero)))

  link_pa : (a j : ℕ) → (a ≡ t) × (j ≡ i) → to_pa (v'.entry a j) ≡ p
  link_pa a j (e, f) =
      ap (λ x. to_pa (v'.entry x j)) e
      ∙ (ap (λ y. to_pa (v'.entry t y)) f ∙ (ap to_pa entry_link ∙ to_pa-link p free.1))

  down' :
      (a j m : ℕ)
      → kind' a ≡ suc (suc m)
      → is_v (v'.entry a j) ≡ true
      → kind' (to_pa (v'.entry a j)) ≡ suc m
  down' a j m k q = elim (place a j) [
    | inl e ↦ absurd (no_entry a j e q)
    | inr (inl (e, f)) ↦
        let self : (p == p) ≡ true = ground arith in
        let level : l ≡ m =
          ground (arith, k, kind_old t (λ z. ground (arith, z, at)), at, ap kind' e) in
        ap kind' (link_pa a j (e, f)) ∙ rw self (ap suc level)
    | inr (inr (n, e)) ↦
        let k' : kind a ≡ suc (suc m) = sym (kind_not_p a n) ∙ k in
        let q' : is_v (v.entry a j) ≡ true = ap is_v (sym e) ∙ q in
        let below = h.down a j m k' q' in
        ap (λ x. kind' (to_pa x)) e ∙ (kind_old _ (λ z. ground (arith, z, below)) ∙ below)
  ]

  once' :
      (a j b c m m' : ℕ)
      → kind' a ≡ suc (suc m)
      → kind' b ≡ suc (suc m')
      → is_v (v'.entry a j) ≡ true
      → is_v (v'.entry b c) ≡ true
      → to_pa (v'.entry a j) ≡ to_pa (v'.entry b c)
      → (a ≡ b) × (j ≡ c)
  once' a j b c m m' ka kb qa qb e = elim (place a j) [
    | inl z ↦ absurd (no_entry a j z qa)
    | inr (inl x) ↦ elim (place b c) [
      | inl z ↦ absurd (no_entry b c z qb)
      | inr (inl y) ↦ (x.0 ∙ sym y.0, x.1 ∙ sym y.1)
      | inr (inr (n, f)) ↦ absurd (
          child_not_p b c m' (sym (kind_not_p b n) ∙ kb) (ap is_v (sym f) ∙ qb)
            (ap to_pa (sym f) ∙ (sym e ∙ link_pa a j x)))
    ]
    | inr (inr (n, f)) ↦ elim (place b c) [
      | inl z ↦ absurd (no_entry b c z qb)
      | inr (inl y) ↦ absurd (
          child_not_p a j m (sym (kind_not_p a n) ∙ ka) (ap is_v (sym f) ∙ qa)
            (ap to_pa (sym f) ∙ (e ∙ link_pa b c y)))
      | inr (inr (n', f')) ↦
          h.once a j b c m m' (sym (kind_not_p a n) ∙ ka) (sym (kind_not_p b n') ∙ kb)
            (ap is_v (sym f) ∙ qa) (ap is_v (sym f') ∙ qb) (ap to_pa (sym f) ∙ (e ∙ ap to_pa f'))
    ]
  ]

  new_free : All (λ q. (kind' q ≡ 0) × (q % 4096 ≡ 0)) ps
  new_free = both ps fresh_page rest
    where
      both :
          (qs : List ℕ)
          → All (λ q. p ≢ q) qs
          → All (λ q. (kind q ≡ 0) × (q % 4096 ≡ 0)) qs
          → All (λ q. (kind' q ≡ 0) × (q % 4096 ≡ 0)) qs
      both [] a b = tt
      both (q ∷ qs) (n, a) ((e, f), b) = ((kind_not_p q (λ z. n (sym z)) ∙ e, f), both qs a b)

  root_kind : kind' v.root ≡ 3
  root_kind = kind_old v.root (λ z. ground (arith, z, h.top)) ∙ h.top

  grown-IsTree : IsTree kind' v'
  grown-IsTree = record {
    top = root_kind;
    down = down';
    once = once';
    unused = new_free;
    apart = others;
  }

  empty-leaf : (m va : ℕ) → leaf m v' p va ≡ 0
  unfolding leaf
  empty-leaf zero va = entry_new (px va 0)
  empty-leaf (suc m) va = rw (entry_new (px va (suc m)), is_v_zero) refl

  grown-leaf : (m a va : ℕ) → kind a ≡ suc m → leaf m v' a va ≡ leaf m v a va
  unfolding leaf
  grown-leaf zero a va k = entry_else a (px va 0) a-p (inl (λ e. ground (arith, k, at, ap kind e)))
    where
      a-p : a ≢ p
      a-p e = ground (arith, k, free.0, ap kind e)
  grown-leaf (suc m) a va k =
      let lower = grown-leaf m (to_pa (v.entry a (px va (suc m)))) va in
      elim (place a (px va (suc m))) [
        | inl e ↦ absurd (ground (arith, k, free.0, ap kind e))
        | inr (inl (e, f)) ↦ through (px va (suc m)) e f
        | inr (inr (n, e)) ↦ elim (Bool-cases (is_v (v.entry a (px va (suc m))))) [
          | inl q ↦ rw (e, q) (lower (h.down a (px va (suc m)) m k q))
          | inr q ↦ rw (e, q) refl
        ]
      ]
    where
      through :
          (j : ℕ)
          → a ≡ t
          → j ≡ i
          → (if is_v (v'.entry a j) then leaf m v' (to_pa (v'.entry a j)) va else 0)
            ≡ (if is_v (v.entry a j) then leaf m v (to_pa (v.entry a j)) va else 0)
      through j e f =
          let now : is_v (v'.entry a j) ≡ true =
            ap (λ x. is_v (v'.entry x j)) e
            ∙ (ap (λ y. is_v (v'.entry t y)) f ∙ (ap is_v entry_link ∙ is_v-link p)) in
          let before : is_v (v.entry a j) ≡ false =
            ap (λ x. is_v (v.entry x j)) e ∙ (ap (λ y. is_v (v.entry t y)) f ∙ gap) in
          rw (now, before) (ap (λ x. leaf m v' x va) (link_pa a j (e, f)) ∙ empty-leaf m va)

  pub new_table-Grown : Grown kind kind' v v'
  new_table-Grown = record {
    tree = grown-IsTree;
    kinds = kind_old;
    valid = λ a j n q. entry_else a j (λ e. n (ap kind e ∙ free.0)) (ne a j q);
    leaves = grown-leaf;
    rooted = refl;
  }
    where
      ne : (a j : ℕ) → is_v (v.entry a j) ≡ true → (a ≢ t) ⊎ (j ≢ i)
      ne a j q = elim (Bool-cases (j == i)) [
        | inl s ↦
            let same : j ≡ i = ground arith in
            inl (λ e. ground (
              arith,
              gap,
              sym q ∙ (ap (λ x. is_v (v.entry x j)) e ∙ ap (λ y. is_v (v.entry t y)) same),
            ))
        | inr s ↦ inr (ground arith)
      ]

  pub new_table-kind : kind' p ≡ suc l
  new_table-kind = ground arith

  pub new_table-child : (is_v (v'.entry t i) ≡ true) × (to_pa (v'.entry t i) ≡ p)
  new_table-child = (ap is_v entry_link ∙ is_v-link p, ap to_pa entry_link ∙ to_pa-link p free.1)
