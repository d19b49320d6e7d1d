-- ===== src/Vm/Defs.antt =====
-- kernel/vm.rs: page tables in memory. A page of a table is named by its address, and `entry` is what
-- memory holds there as 64-bit words; `pool` is what the allocator of pages will hand out, in order,
-- and it fails when nothing is left. Attributes of an entry are below 2^10, so that `|` adds.
use octox.Base.{
  ℕ, zero, suc, ◌+◌, ◌-◌, ◌*◌, ◌/◌, ◌%◌, ◌^◌, Bool, true, false, ◌&&◌, List, [], ◌∷◌, ◌==◌, leb,
  if◌then◌else◌, Option, none, some, update, Outcome, done, panicked,
}
pub use octox.Layout.Defs.{pgsize, maxva}

abbrev pub pte_v : ℕ
pte_v = 1

-- VAddr::px
unfoldable pub px : ℕ → ℕ → ℕ
px va level = (va / 2 ^ (12 + 9 * level)) % 512

-- Addr::rounddown
unfoldable pub rounddown : ℕ → ℕ
rounddown a = (a / pgsize) * pgsize

-- PageTableEntry
unfoldable pub is_v : ℕ → Bool
is_v e = (e % 2) == 1

unfoldable pub is_u : ℕ → Bool
is_u e = ((e / 16) % 2) == 1

unfoldable pub to_pa : ℕ → ℕ
to_pa e = (e / 1024) * 4096

unfoldable pub pte : (pa attr : ℕ) → ℕ
pte pa attr = (pa / 4096) * 1024 + attr

pub record Vm : Type 0 where
  pub root : ℕ
  pub entry : ℕ → ℕ → ℕ
  pub pool : List ℕ

-- PageTableEntry::set, and a write of an entry.
abbrev pub put : (t i e : ℕ) → Vm → Vm
put t i e v = record v { entry = update v.entry t (update (v.entry t) i e) }

-- RawPageTable::new: a page of zeros.
abbrev pub fresh : ℕ → List ℕ → Vm → Vm
fresh p ps v = record v { entry = update v.entry p (λ i. 0); pool = ps }

abbrev pub take_page : List ℕ → Vm → Option ℕ × Vm
take_page [] v = (none, v)
take_page (p ∷ ps) v = (some p, fresh p ps v)

-- What a new table is entered as; nothing where there is none.
abbrev pub link : (t i : ℕ) → Option ℕ × Vm → Option ℕ × Vm
link t i (some p, v) = (some p, put t i (pte p pte_v) v)
link t i (none, v) = (none, v)

-- One round of the loop of `walk`: from the table `t` by its entry `i`.
unfoldable pub descend : Bool → (t i : ℕ) → Vm → Option ℕ × Vm
descend alloc t i v =
    if is_v (v.entry t i)
    then (some (to_pa (v.entry t i)), v)
    else if alloc
    then link t i (take_page v.pool v)
    else (none, v)

-- The loop of `walk`, with the levels left: the place of the entry of level 0.
unfoldable pub walk_from : Bool → (level t va : ℕ) → Vm → Option (ℕ × ℕ) × Vm
walk_from alloc zero t va v = (some (t, px va 0), v)
walk_from alloc (suc l) t va v = elim (descend alloc t (px va (suc l)) v).0 [
  | some t' ↦ walk_from alloc l t' va (descend alloc t (px va (suc l)) v).1
  | none ↦ (none, (descend alloc t (px va (suc l)) v).1)
]

-- PageTable::walk
unfoldable pub walk : ℕ → Bool → Vm → Outcome (Option (ℕ × ℕ) × Vm)
walk va alloc v = if leb maxva va then panicked else done (walk_from alloc 2 v.root va v)

-- PageTable::walkaddr
abbrev pub user_pa : ℕ → Option ℕ
user_pa e = if is_v e && is_u e then some (to_pa e) else none

abbrev pub entry_at : Vm → Option (ℕ × ℕ) → Option ℕ
entry_at v (some (t, i)) = user_pa (v.entry t i)
entry_at v none = none

unfoldable pub walkaddr : ℕ → Vm → Option ℕ
walkaddr va v = if leb maxva va then none else entry_at v (walk_from false 2 v.root va v).0

-- What the loop of `mappages` comes to; `failed` is the error, when no page is left for a table.
pub data Mapped : Type 0 where
  mapped : Vm → Mapped
  failed : Vm → Mapped
  panics : Mapped
  no_fuel : Mapped

-- One entry of `mappages`, where the walk has ended.
unfoldable pub map_at : (pa perm : ℕ) → Option (ℕ × ℕ) → Vm → Mapped
map_at pa perm none v = failed v
map_at pa perm (some (t, i)) v =
    if is_v (v.entry t i) then panics else mapped (put t i (pte pa (perm + pte_v)) v)

unfoldable pub map_one : (va pa perm : ℕ) → Vm → Mapped
map_one va pa perm v = elim (walk va true v) [
  | panicked ↦ panics
  | done (o, w) ↦ map_at pa perm o w
]

unfoldable pub map_loop : ℕ → (va pa last perm : ℕ) → Vm → Mapped
map_loop zero va pa last perm v = no_fuel
map_loop (suc k) va pa last perm v = elim (map_one va pa perm v) [
  | mapped w ↦ if va == last then mapped w else map_loop k (va + pgsize) (pa + pgsize) last perm w
  | failed w ↦ failed w
  | panics ↦ panics
  | no_fuel ↦ no_fuel
]

-- PageTable::mappages; a bit of `perm` is never PTE_V, so that `|` adds. The range has at most
-- as many pages as there are.
unfoldable pub mappages : (va pa size perm : ℕ) → Vm → Mapped
mappages va pa size perm v =
    if size == 0
    then panics
    else map_loop (size / pgsize + 2) (rounddown va) pa (rounddown (va + size - 1)) perm v
