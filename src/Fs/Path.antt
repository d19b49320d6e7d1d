-- ===== src/Fs/Path.antt =====
-- kernel/fs.rs: path names. A str is its bytes, and '/' is 47. The lock
-- of an inode, as far as it says whether the inode is a directory, and the dirlookup under it are
-- arguments of the walk; either may panic (Fs.Inode.lock at an inode without a type, dirlookup at a
-- short read).
use octox.Base.{
  ℕ, zero, suc, Bool, true, false, ◌&&◌, List, [], ◌∷◌, ◌==◌, ltb, leb, if◌then◌else◌, length,
  Option, none, some, Outcome, done, panicked,
}

abbrev pub dirsiz : ℕ
dirsiz = 14

abbrev pub slash : ℕ
slash = 47

abbrev pub rootino : ℕ
rootino = 1

-- str::trim_matches, split_once and rsplit_once, for '/'.
abbrev pub is_empty : List ℕ → Bool
is_empty [] = true
is_empty (x ∷ xs) = false

abbrev pub trim_start : List ℕ → List ℕ
trim_start [] = []
trim_start (x ∷ xs) = let rest = trim_start xs in if x == slash then rest else x ∷ xs

abbrev pub trim_end : List ℕ → List ℕ
trim_end [] = []
trim_end (x ∷ xs) = let rest = trim_end xs in if (x == slash) && is_empty rest then [] else x ∷ rest

abbrev pub trim : List ℕ → List ℕ
trim xs = trim_end (trim_start xs)

abbrev pub longer : ℕ → Option (List ℕ × List ℕ) → Option (List ℕ × List ℕ)
longer x none = none
longer x (some (a, b)) = some (x ∷ a, b)

abbrev pub split_once : List ℕ → Option (List ℕ × List ℕ)
split_once [] = none
split_once (x ∷ xs) =
    let rest = split_once xs in if x == slash then some ([], xs) else longer x rest

abbrev pub rsplit_once : List ℕ → Option (List ℕ × List ℕ)
rsplit_once [] = none
rsplit_once (x ∷ xs) = elim (rsplit_once xs) [
  | some (a, b) ↦ some (x ∷ a, b)
  | none ↦ if x == slash then some ([], xs) else none
]

-- What `skip_elem` finds: nothing, a last name, or a name and the path after it.
pub data Elem : Type 0 where
  no_elem : Elem
  last_elem : List ℕ → Elem
  elem_then : (name path : List ℕ) → Elem

-- Path::skip_elem
abbrev pub skip_split : List ℕ → Option (List ℕ × List ℕ) → Elem
skip_split inner (some (name, path)) =
    if leb (length name) dirsiz then elem_then name path else no_elem
skip_split inner none =
    if ltb 0 (length inner) && ltb (length inner) dirsiz then last_elem inner else no_elem

unfoldable pub skip_elem : List ℕ → Elem
skip_elem inner = skip_split inner (split_once (trim inner))

-- Path::file_name, with str::ends_with.
abbrev pub same : List ℕ → List ℕ → Bool
same [] [] = true
same [] (b ∷ bs) = false
same (a ∷ xs) [] = false
same (a ∷ xs) (b ∷ bs) = (a == b) && same xs bs

abbrev pub ends_with : List ℕ → List ℕ → Bool
ends_with suffix [] = is_empty suffix
ends_with suffix (x ∷ xs) =
    let rest = ends_with suffix xs in if same suffix (x ∷ xs) then true else rest

unfoldable pub file_name : List ℕ → Option (List ℕ)
file_name inner =
    if ends_with (46 ∷ 46 ∷ []) inner
    then none
    else elim (rsplit_once inner) [ some (a, name) ↦ some name | none ↦ some inner ]

-- How the walk ends: at a name and an inode, or without one.
pub data Found : Type 0 where
  found : (name : List ℕ) (ip : ℕ) → Found
  missing : Found
  panics : Found
  out_of_fuel : Found

-- What follows the lock of an inode that has to be a directory.
abbrev pub in_dir : Outcome Bool → Found → Found
in_dir panicked f = panics
in_dir (done false) f = missing
in_dir (done true) f = f

-- What follows the lookup of a name.
abbrev pub at_entry : Outcome (Option ℕ) → (ℕ → Found) → Found
at_entry panicked f = panics
at_entry (done none) f = missing
at_entry (done (some next)) f = f next

module _ (is_dir : ℕ → Outcome Bool) (dirlookup : ℕ → List ℕ → Outcome (Option ℕ)) where
  -- The last name of a path, in the directory `ip`.
  abbrev pub at_last : (parent : Bool) → (ip : ℕ) → List ℕ → Found
  at_last true ip name = found name ip
  at_last false ip name = at_entry (dirlookup ip name) (λ next. found name next)

  -- The loop of Path::namex, from the inode `ip`.
  unfoldable pub namex_loop : ℕ → (parent : Bool) → (ip : ℕ) → List ℕ → Found
  namex_loop zero parent ip path = out_of_fuel
  namex_loop (suc k) parent ip path = in_dir (is_dir ip) (elim (skip_elem path) [
    | no_elem ↦ missing
    | last_elem name ↦ at_last parent ip name
    | elem_then name npath ↦ at_entry (dirlookup ip name) (λ next. namex_loop k parent next npath)
  ])

  abbrev pub first_inode : (cwd : ℕ) → List ℕ → ℕ
  first_inode cwd [] = cwd
  first_inode cwd (x ∷ xs) = if x == slash then rootino else cwd

  -- Path::namex, in a process whose directory is `cwd`.
  unfoldable pub namex : (parent : Bool) → (cwd : ℕ) → List ℕ → Found
  namex parent cwd path = namex_loop (suc (length path)) parent (first_inode cwd path) path
