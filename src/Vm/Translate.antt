-- ===== src/Vm/Translate.antt =====
-- `mappages` seen through `walkaddr`.
use octox.Base.{
  ℕ, ◌+◌, ◌-◌, ◌/◌, ◌%◌, ◌<◌, ◌≤◌, ◌≡◌, ◌⊎◌, refl, sym, ap, ◌∙◌, false, leb, arith, Option, none,
  some,
}
use octox.Vm.Defs.{
  Vm, pgsize, maxva, rounddown, is_v, is_u, walkaddr, user_pa, entry_at, Mapped, mapped, failed,
  panics, no_fuel,
}
use octox.Vm.Slots.{slot, walk_from-slot, entry_of, leaf-slot}
use octox.Vm.Pages.{leaf_of}

user_pa_zero : user_pa 0 ≡ none
unfolding is_v is_u
user_pa_zero = refl

pub walkaddr-leaf_of : (a : ℕ) (v : Vm) → a < maxva → walkaddr a v ≡ user_pa (leaf_of v a)
unfolding walkaddr
walkaddr-leaf_of a v h =
    let inside : leb maxva a ≡ false = ground (arith, h) in
    rw (inside) (
      ap (λ r. entry_at v r.0) (walk_from-slot 2 v.root a v)
      ∙ (by_slot (slot 2 v v.root a) ∙ ap user_pa (sym (leaf-slot 2 v v.root a))))
  where
    by_slot : (o : Option (ℕ × ℕ)) → entry_at v o ≡ user_pa (entry_of v o)
    by_slot (some (t, i)) = refl
    by_slot none = sym user_pa_zero

-- The attributes that `mappages` is given for a page of the user.
pub record IsUserPerm (perm : ℕ) : Type 0 where
  pub even : perm % 2 ≡ 0
  pub user : (perm / 16) % 2 ≡ 1
  pub small : perm < 1024

-- An address outside the pages that hold the range.
abbrev pub Elsewhere : (va size a : ℕ) → Type 0
Elsewhere va size a = (a < rounddown va) ⊎ (rounddown (va + size - 1) + pgsize ≤ a)

abbrev pub Same : (v w : Vm) (va size : ℕ) → Type 0
Same v w va size = (a : ℕ) → a < maxva → Elsewhere va size a → walkaddr a w ≡ walkaddr a v

-- What `mappages` promises to the users of `walkaddr`.
abbrev pub MapsTo : Vm → (va pa size : ℕ) → Mapped → Type 0
MapsTo v va pa size (mapped w) =
    ((a : ℕ)
      → rounddown va ≤ a
      → a < va + size
      → walkaddr a w ≡ some (pa + (rounddown a - rounddown va)))
    × Same v w va size
MapsTo v va pa size (failed w) = Same v w va size
MapsTo v va pa size panics = ⊥
MapsTo v va pa size no_fuel = ⊥

unfoldable pages_of : (va size : ℕ) → ℕ
pages_of va size = (va + size - 1) / 4096 - va / 4096

-- No page of the range is mapped.
abbrev pub Free : Vm → (va size : ℕ) → Type 0
Free v va size = (a : ℕ) → rounddown va ≤ a → a < va + size → is_v (leaf_of v a) ≡ false
