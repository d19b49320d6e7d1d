-- ===== src/Vm/Range.antt =====
-- The loop of `mappages` over the pages of a range.
use octox.Base.{
  ℕ, zero, suc, ◌+◌, ◌*◌, ◌<◌, ◌≤◌, ◌≡◌, sym, ap, ◌∙◌, true, false, ◌==◌, if◌then◌else◌, arith, inl,
  inr,
}
use octox.Vm.Defs.{
  Vm, pgsize, maxva, is_v, pte, pte_v, Mapped, mapped, failed, panics, no_fuel, map_one, map_loop,
}
use octox.Vm.Tree.{Kinds, IsTree}
use octox.Vm.Pages.{leaf_of, Outside, Untouched, MapPost, map_one-MapPost}

-- The first page, and the pages after it.
MapPost-more :
    (v w : Vm) (va pa n perm : ℕ)
    → leaf_of w va ≡ pte pa (perm + pte_v)
    → Untouched v w va 0
    → va + suc n * 4096 < maxva
    → (m : Mapped) → MapPost w (va + 4096) (pa + 4096) n perm m
    → MapPost v va pa (suc n) perm m
MapPost-more v w va pa n perm first out lt (mapped x) (k, t, pages, out') =
    (k, t, all, λ a b o. out' a b (wider a o) ∙ out a b (narrower a o))
  where
    wider : (a : ℕ) → Outside va (suc n) a → Outside (va + 4096) n a
    wider a (inl h) = inl (omega arith)
    wider a (inr h) = inr (omega arith)

    narrower : (a : ℕ) → Outside va (suc n) a → Outside va 0 a
    narrower a (inl h) = inl h
    narrower a (inr h) = inr (omega arith)

    all : (j : ℕ) → j ≤ suc n → leaf_of x (va + j * 4096) ≡ pte (pa + j * 4096) (perm + pte_v)
    all zero le =
        let a : va + 0 * 4096 ≡ va = omega arith in
        let b : pa + 0 * 4096 ≡ pa = omega arith in
        rw (a, b) (out' va (omega arith) (inl (omega arith)) ∙ first)
    all (suc j) le =
        let a : va + suc j * 4096 ≡ va + 4096 + j * 4096 = omega arith in
        let b : pa + suc j * 4096 ≡ pa + 4096 + j * 4096 = omega arith in
        rw (a, b) (pages j (omega arith))
MapPost-more v w va pa n perm first out lt (failed x) (k, t, out') =
    (k, t, λ a b o. out' a b (wider a o) ∙ out a b (narrower a o))
  where
    wider : (a : ℕ) → Outside va (suc n) a → Outside (va + 4096) n a
    wider a (inl h) = inl (omega arith)
    wider a (inr h) = inr (omega arith)

    narrower : (a : ℕ) → Outside va (suc n) a → Outside va 0 a
    narrower a (inl h) = inl h
    narrower a (inr h) = inr (omega arith)
MapPost-more v w va pa n perm first out lt panics h = h
MapPost-more v w va pa n perm first out lt no_fuel h = h

-- The pages of a range that are not mapped.
abbrev Gap : Vm → (va n : ℕ) → Type 0
Gap v va n = (j : ℕ) → j ≤ n → is_v (leaf_of v (va + j * 4096)) ≡ false

after : ℕ → (va pa last perm : ℕ) → Mapped → Mapped
after k va pa last perm m = elim m [
  | mapped w ↦ if va == last then mapped w else map_loop k (va + pgsize) (pa + pgsize) last perm w
  | failed w ↦ failed w
  | panics ↦ panics
  | no_fuel ↦ no_fuel
]

pub map_loop-MapPost :
    (k n : ℕ) (kind : Kinds) (v : Vm) (va pa last perm : ℕ)
    → IsTree kind v
    → last ≡ va + n * 4096
    → last < maxva
    → Gap v va n
    → n < k
    → MapPost v va pa n perm (map_loop k va pa last perm v)
unfolding map_loop after
map_loop-MapPost zero n kind v va pa last perm h e lt gap f = absurd (omega arith)
map_loop-MapPost (suc k) zero kind v va pa last perm h e lt gap f =
    only (map_one va pa perm v) (map_one-MapPost kind v va pa perm h (omega arith) first)
  where
    first : is_v (leaf_of v va) ≡ false
    first =
        let a : va + 0 * 4096 ≡ va = omega arith in
        ap (λ x. is_v (leaf_of v x)) (sym a) ∙ gap 0 (omega arith)

    only :
        (m : Mapped) → MapPost v va pa 0 perm m → MapPost v va pa 0 perm (after k va pa last perm m)
    only (mapped w) q =
        let stop : (va == last) ≡ true = ground (arith, e) in rw (stop, after, MapPost) q
    only (failed w) q = q
    only panics q = q
    only no_fuel q = q
map_loop-MapPost (suc k) (suc n) kind v va pa last perm h e lt gap f =
    more (map_one va pa perm v) (map_one-MapPost kind v va pa perm h (omega arith) first)
      (λ kind' w. map_loop-MapPost k n kind' w (va + pgsize) (pa + pgsize) last perm)
  where
    first : is_v (leaf_of v va) ≡ false
    first =
        let a : va + 0 * 4096 ≡ va = omega arith in
        ap (λ x. is_v (leaf_of v x)) (sym a) ∙ gap 0 (omega arith)

    shifted : (j : ℕ) → j ≤ n → is_v (leaf_of v (va + pgsize + j * 4096)) ≡ false
    shifted j le =
        let a : va + pgsize + j * 4096 ≡ va + suc j * 4096 = omega arith in
        ap (λ x. is_v (leaf_of v x)) a ∙ gap (suc j) (omega arith)

    more :
        (m : Mapped)
        → MapPost v va pa 0 perm m
        → ((kind' : Kinds) (w : Vm)
            → IsTree kind' w
            → last ≡ va + pgsize + n * 4096
            → last < maxva
            → Gap w (va + pgsize) n
            → n < k
            → MapPost w
                (va + pgsize)
                (pa + pgsize)
                n
                perm
                (map_loop k (va + pgsize) (pa + pgsize) last perm w))
        → MapPost v va pa (suc n) perm (after k va pa last perm m)
    more (mapped w) (kind', t, pages, out) ih =
        let go_on : (va == last) ≡ false = ground (arith, e) in
        let a : va + 0 * 4096 ≡ va = omega arith in
        let b : pa + 0 * 4096 ≡ pa = omega arith in
        rw (go_on, after, MapPost)
          (MapPost-more v w va pa n perm (rw (a, b) at (pages 0 (omega arith))) out (omega arith) _
            (ih kind' w t (omega arith) lt
              (λ j le.
                ap is_v (out (va + pgsize + j * 4096) (omega arith) (inr (omega arith)))
                ∙ shifted j le)
              (omega arith)))
    more (failed w) (kind', t, out) ih = (kind', t, λ a b o. out a b (narrower a o))
      where
        narrower : (a : ℕ) → Outside va (suc n) a → Outside va 0 a
        narrower a (inl q) = inl q
        narrower a (inr q) = inr (omega arith)
    more panics q ih = q
    more no_fuel q ih = q
