-- ===== src/Files/Descriptors.antt =====
-- kernel/syscall.rs: the descriptors of a process and the system calls on them, and Pipe::alloc of
-- kernel/pipe.rs. A result is an Option, with none for the error.
use octox.Base.{
  ℕ, suc, Bool, true, false, List, [], ◌∷◌, get_elem?, set, Option, none, some, Outcome, done,
  panicked, ◌>>=◌,
}
use octox.Mode.Defs.{set_read, set_write}
use octox.Mode.Defs.{new as new_mode}
use octox.Files.Defs.{pipe, File, Files, alloc, clone, drop_file}

abbrev pub nofile : ℕ
nofile = 16

-- The files of the system and the descriptors of the process that calls.
pub record Sys : Type 0 where
  pub files : Files
  pub ofile : List (Option File)

-- ProcData::arg, on the registers a0 to a5.
abbrev pub arg : List ℕ → ℕ → Outcome ℕ
arg regs n = elim (get_elem? regs n) [ none ↦ panicked | some x ↦ done x ]

-- The file of a descriptor.
abbrev pub file_of : Option (Option File) → Option File
file_of none = none
file_of (some o) = o

-- ProcData::arg_fd
unfoldable pub arg_fd : ℕ → List (Option File) → Option (ℕ × File)
arg_fd fd ofile = elim (file_of (get_elem? ofile fd)) [ none ↦ none | some f ↦ some (fd, f) ]

-- ProcData::fdalloc
abbrev pub one_up : Option File → Option (ℕ × List (Option File)) → Option (ℕ × List (Option File))
one_up x none = none
one_up x (some (n, ys)) = some (suc n, x ∷ ys)

unfoldable pub fdalloc : File → List (Option File) → Option (ℕ × List (Option File))
fdalloc f [] = none
fdalloc f (none ∷ xs) = some (0, some f ∷ xs)
fdalloc f (some g ∷ xs) = one_up (some g) (fdalloc f xs)

-- The end of a value `File`, and what the call returns then.
abbrev pub dropping : Option ℕ → List (Option File) → Outcome Files → Outcome (Option ℕ × Sys)
dropping r ofile panicked = panicked
dropping r ofile (done s) = done (r, record { files = s; ofile = ofile })

-- SysCalls::dup; a file that finds no descriptor is dropped.
abbrev pub dup_to : File → Sys → Option (ℕ × List (Option File)) → Outcome (Option ℕ × Sys)
dup_to f s none = dropping none s.ofile (drop_file f.f s.files)
dup_to f s (some (fd, ofile)) = done (some fd, record s { ofile = ofile })

unfoldable pub dup : ℕ → Sys → Outcome (Option ℕ × Sys)
dup fd s = elim (arg_fd fd s.ofile) [
  | none ↦ done (none, s)
  | some (_, f) ↦ dup_to f (record s { files = clone f.f s.files }) (fdalloc f s.ofile)
]

-- SysCalls::close
unfoldable pub close : ℕ → Sys → Outcome (Option ℕ × Sys)
close fd s = elim (arg_fd fd s.ofile) [
  | none ↦ done (none, s)
  | some (_, f) ↦ dropping (some 0) (set s.ofile fd none) (drop_file f.f s.files)
]

-- Pipe::alloc, of the channel `k`: the end that reads, then the end that writes.
abbrev pub second_end : File → Option File × Files → Outcome (Option (File × File) × Files)
second_end r (none, s) = drop_file r.f s >>= λ t. done (none, t)
second_end r (some w, s) = done (some (r, w), s)

abbrev pub first_end : ℕ → Option File × Files → Outcome (Option (File × File) × Files)
first_end k (none, s) = done (none, s)
first_end k (some r, s) = second_end r (alloc (set_write true (set_read false new_mode)) (pipe k) s)

unfoldable pub pipe_alloc : ℕ → Files → Outcome (Option (File × File) × Files)
pipe_alloc k s = first_end k (alloc (set_write false (set_read true new_mode)) (pipe k) s)

-- Both ends are dropped.
abbrev pub drop_both : File → File → List (Option File) → Files → Outcome (Option ℕ × Sys)
drop_both r w ofile s = drop_file r.f s >>= λ t. dropping none ofile (drop_file w.f t)

-- SysCalls::pipe; `told` says whether both numbers could be copied to the process.
abbrev pub tell : Bool → (r w : File) → (fd0 fd1 : ℕ) → Sys → Outcome (Option ℕ × Sys)
tell true r w fd0 fd1 s = done (some 0, s)
tell false r w fd0 fd1 s = drop_both r w (set (set s.ofile fd0 none) fd1 none) s.files

abbrev pub second_fd :
    Bool → (r w : File) → ℕ → Sys → Option (ℕ × List (Option File)) → Outcome (Option ℕ × Sys)
second_fd told r w fd0 s none = drop_both w r (set s.ofile fd0 none) s.files
second_fd told r w fd0 s (some (fd1, ofile)) = tell told r w fd0 fd1 (record s { ofile = ofile })

abbrev pub first_fd :
    Bool → (r w : File) → Sys → Option (ℕ × List (Option File)) → Outcome (Option ℕ × Sys)
first_fd told r w s none = drop_both r w s.ofile s.files
first_fd told r w s (some (fd0, ofile)) =
    second_fd told r w fd0 (record s { ofile = ofile }) (fdalloc w ofile)

abbrev pub with_ends :
    Bool → List (Option File) → Option (File × File) × Files → Outcome (Option ℕ × Sys)
with_ends told ofile (none, s) = done (none, record { files = s; ofile = ofile })
with_ends told ofile (some (r, w), s) =
    first_fd told r w (record { files = s; ofile = ofile }) (fdalloc r ofile)

unfoldable pub sys_pipe : ℕ → Bool → Sys → Outcome (Option ℕ × Sys)
sys_pipe k told s = pipe_alloc k s.files >>= with_ends told s.ofile
