-- ===== src/Vm/Pages.antt =====
-- The mapping of one page.
use octox.Base.{
  ℕ, ◌+◌, ◌*◌, ◌/◌, ◌<◌, ◌≤◌, ◌≡◌, ◌≢◌, ◌⊎◌, sym, ap, ◌∙◌, Bool, true, false, arith, Option, none,
  some, inl, inr, done,
}
use octox.Vm.Defs.{
  Vm, maxva, is_v, pte, pte_v, put, walk, walk_from, Mapped, mapped, failed, panics, no_fuel,
  map_at, map_one,
}
use octox.Vm.Tree.{Kinds, IsTree, leaf, Grown}
use octox.Vm.Slots.{slot, entry_of, leaf-slot, Walked, walk_from-Walked}
use octox.Vm.Map.{put-IsTree, put-leaf_self, put-leaf_else}

-- The entry of an address.
abbrev pub leaf_of : Vm → ℕ → ℕ
leaf_of v a = leaf 2 v v.root a

-- An address outside the `n + 1` pages from the page of `va` on.
abbrev pub Outside : (va n a : ℕ) → Type 0
Outside va n a = (a / 4096 < va / 4096) ⊎ (va / 4096 + n < a / 4096)

abbrev pub Untouched : (v w : Vm) (va n : ℕ) → Type 0
Untouched v w va n = (a : ℕ) → a < maxva → Outside va n a → leaf_of w a ≡ leaf_of v a

-- What the mapping of `n + 1` pages comes to.
abbrev pub MapPost : Vm → (va pa n perm : ℕ) → Mapped → Type 0
MapPost v va pa n perm (mapped w) =
    (kind : Kinds) × IsTree kind w
    × ((j : ℕ) → j ≤ n → leaf_of w (va + j * 4096) ≡ pte (pa + j * 4096) (perm + pte_v))
    × Untouched v w va n
MapPost v va pa n perm (failed w) = (kind : Kinds) × IsTree kind w × Untouched v w va n
MapPost v va pa n perm panics = ⊥
MapPost v va pa n perm no_fuel = ⊥

walk-done :
    (va : ℕ) (alloc : Bool) (v : Vm)
    → va < maxva
    → walk va alloc v ≡ done (walk_from alloc 2 v.root va v)
unfolding walk
walk-done va alloc v h = ground (arith, h)

Grown-leaf_of :
    {k k' : Kinds} {v w : Vm} → IsTree k v → Grown k k' v w → (a : ℕ) → leaf_of w a ≡ leaf_of v a
Grown-leaf_of {v = v} {w = w} h g a = ap (λ r. leaf 2 w r a) g.rooted ∙ g.leaves 2 v.root a h.top

Outside-ne : (va a : ℕ) → Outside va 0 a → va / 4096 ≢ a / 4096
Outside-ne va a (inl h) e = omega (arith, h, e)
Outside-ne va a (inr h) e = omega (arith, h, e)

map_at-MapPost :
    (kind : Kinds) (v : Vm) (va pa perm : ℕ)
    → IsTree kind v
    → va < maxva
    → is_v (leaf_of v va) ≡ false
    → (r : Option (ℕ × ℕ) × Vm) → Walked kind v 2 v.root va r
    → MapPost v va pa 0 perm (map_at pa perm r.0 r.1)
unfolding map_at
map_at-MapPost kind v va pa perm h lt gap (none, w) (k', g) =
    (k', g.tree, λ a _ _. Grown-leaf_of h g a)
map_at-MapPost kind v va pa perm h lt gap (some (s, i), w) (k', g, at, low, _) =
    let at' : slot 2 w w.root va ≡ some (s, i) = ap (λ r. slot 2 w r va) g.rooted ∙ at in
    let here : leaf_of w va ≡ w.entry s i = leaf-slot 2 w w.root va ∙ ap (entry_of w) at' in
    let free : is_v (w.entry s i) ≡ false = ap is_v (sym here ∙ Grown-leaf_of h g va) ∙ gap in
    rw (free, MapPost)
      (
        k',
        put-IsTree k' w g.tree s i _ low,
        (λ j le. one_page j le at' low g.tree),
        λ a b o.
            put-leaf_else k' w g.tree s i _ low w.root va a g.tree.top lt b at' (Outside-ne va a o)
            ∙ Grown-leaf_of h g a,
      )
  where
    one_page :
        (j : ℕ)
        → j ≤ 0
        → slot 2 w w.root va ≡ some (s, i)
        → k' s ≡ 1
        → IsTree k' w
        → leaf_of (put s i (pte pa (perm + pte_v)) w) (va + j * 4096)
          ≡ pte (pa + j * 4096) (perm + pte_v)
    one_page j le at' low t =
        let z : j ≡ 0 = omega arith in
        let a : va + j * 4096 ≡ va = omega (arith, z) in
        let b : pa + j * 4096 ≡ pa = omega (arith, z) in
        rw (a, b) (put-leaf_self k' w t s i _ low w.root va t.top at')

pub map_one-MapPost :
    (kind : Kinds) (v : Vm) (va pa perm : ℕ)
    → IsTree kind v
    → va < maxva
    → is_v (leaf_of v va) ≡ false
    → MapPost v va pa 0 perm (map_one va pa perm v)
unfolding map_one
map_one-MapPost kind v va pa perm h lt gap =
    rw (walk-done va true v lt, MapPost)
      (map_at-MapPost kind v va pa perm h lt gap _ (walk_from-Walked 2 kind v v.root va h h.top))
