-- ===== src/Files/Tests.antt =====
-- Files on concrete values.
use octox.Base.{◌≡◌, ◌≢◌, refl, true, [], ◌∷◌, arith, none, some, done}
use octox.Mode.Defs.{from_usize}
use octox.Files.Defs.{
  Files, inode, no_files, alloc, place, clone, Reach, start, later, allocs, clones,
}
use octox.Files.Counted.{Counted, Sound, Reach-Sound}
use octox.Files.Leak.{LostIn, overlap, stays, overlap-Lost}
use octox.Files.Descriptors.{Sys, dup}
use octox.Files.Duplicate.{Duplicated, dup-Duplicated}

-- One file, opened to read and write and then duplicated.
abbrev opened : Files
opened = (alloc (from_usize 2) (inode 7) (no_files 3)).1

abbrev shared : Files
shared = clone 0 opened

is_live : opened.live 0 ≢ 0
unfolding alloc place
is_live e = ground (arith, e)

shared-Reach : Reach (done shared)
shared-Reach = later (later (start 3) (allocs (from_usize 2) (inode 7))) (clones 0 is_live)

Reach-Sound_example : Sound (done shared)
Reach-Sound_example = Reach-Sound (done shared) shared-Reach

shared-Counted : Counted shared
shared-Counted = Reach-Sound (done shared) shared-Reach

in_use : shared.live 0 ≢ 0
unfolding alloc clone place
in_use e = ground (arith, e)

settled : shared.closing 0 ≡ 0
unfolding alloc clone place
settled = refl

twice : shared.live 0 ≡ 2
unfolding alloc clone place
twice = refl

overlap-Lost_example : Sound (overlap 0 shared) × LostIn 0 (overlap 0 shared)
overlap-Lost_example = overlap-Lost 0 shared shared-Counted twice settled (overlap 0 shared) stays

-- A process with the file at descriptor 1, and two more descriptors.
abbrev process : Sys
process = record {
  files = shared;
  ofile = none ∷ some record { f = 0; readable = true; writable = true } ∷ none ∷ [];
}

dup-Duplicated_example : Duplicated 1 process (dup 1 process)
dup-Duplicated_example =
    dup-Duplicated 1 process record { f = 0; readable = true; writable = true } shared-Counted refl
      in_use
