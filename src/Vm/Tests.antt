-- ===== src/Vm/Tests.antt =====
-- Page tables on concrete values.
use octox.Base.{ℕ, ◌≡◌, ◌/◌, refl, [], ◌∷◌, ◌==◌, if◌then◌else◌, arith, Option, none, some}
use octox.Vm.Defs.{
  Vm, is_v, is_u, px, rounddown, to_pa, pte, walkaddr, Mapped, mapped, failed, panics, no_fuel,
  mappages, map_loop, map_one, walk, map_at, walk_from, descend,
}
use octox.Vm.Tree.{Kinds}
use octox.Vm.CopyOut.{copyout}
use octox.Vm.RoundTrip.{Frames, Copied, copyout-Copied}

-- A root of zeros, and two pages to come.
abbrev tables : Vm
tables = record { root = 4096; entry = λ t i. 0; pool = 8192 ∷ 12288 ∷ [] }

abbrev root_only : Kinds
root_only t = if t == 4096 then 3 else 0

looked_up : Mapped → Option ℕ
looked_up (mapped v) = walkaddr 5050 v
looked_up (failed v) = none
looked_up panics = none
looked_up no_fuel = none

looked_up_example : looked_up (mappages 5000 16384 100 22 tables) ≡ some 16384
unfolding looked_up mappages walkaddr map_loop map_one walk rounddown map_at walk_from descend is_v
    px pte to_pa is_u
looked_up_example = refl

-- Two pages, and their frames in the other order; every address of a page gives its frame.
abbrev swapped : ℕ → Option ℕ
swapped p = if p / 4096 == 1 then some 20480 else if p / 4096 == 2 then some 12288 else none

swapped-Frames : Frames swapped
swapped-Frames p q f g a b ne = ground (arith, a, b, ne)

abbrev blank : ℕ → ℕ
blank pa = 0

-- Over the border of the two pages.
copyout-Copied_example :
    Copied swapped blank 8191 (7 ∷ 8 ∷ 9 ∷ []) (copyout swapped blank 8191 (7 ∷ 8 ∷ 9 ∷ []))
copyout-Copied_example = copyout-Copied swapped swapped-Frames blank 8191 (7 ∷ 8 ∷ 9 ∷ [])
