-- ===== src/Files/Defs.antt =====
-- kernel/file.rs: the table of open files, and the files of processes that refer to it. An Arc is
-- named by a number, and `count` is its strong count. A file is dropped in two steps, since other
-- processors run between the look at the count and the end of the reference.
use octox.Base.{
  ℕ, suc, ◌-◌, Bool, true, false, not, ◌&&◌, ◌≢◌, List, [], ◌∷◌, replicate, ◌==◌, ltb,
  if◌then◌else◌, Option, none, some, update, Outcome, done, panicked,
}
use octox.Mode.Defs.{OMode, is_rdonly}

abbrev pub nfile : ℕ
nfile = 100

-- enum Major
pub data Major : Type 0 where
  null console invalid : Major

-- Major::from_u16
abbrev pub major_from_u16 : ℕ → Major
major_from_u16 bits = if bits == 0 then null else if bits == 1 then console else invalid

-- enum VFile; an inode and a pipe are named by numbers.
pub data VFile : Type 0 where
  device : Major → ℕ → VFile
  inode : ℕ → VFile
  pipe : ℕ → VFile

-- struct File, without the case of a file that was taken.
pub record File : Type 0 where
  pub f : ℕ
  pub readable : Bool
  pub writable : Bool

-- FTABLE with the memory of its Arcs. `live` counts the values `File` in use that refer to an Arc, and
-- `closing` those that are being dropped; `closed` are the Arcs whose file was dropped, in order.
pub record Files : Type 0 where
  pub table : List (Option ℕ)
  pub vfile : ℕ → Option VFile
  pub count : ℕ → ℕ
  pub next : ℕ
  pub live : ℕ → ℕ
  pub closing : ℕ → ℕ
  pub closed : List ℕ

-- What an inode is: the type and the major number that its guard gives.
pub data IType : Type 0 where
  dir file dev : IType
  unused : IType

pub record Node : Type 0 where
  pub ip : ℕ
  pub itype : IType
  pub major : ℕ

abbrev pub is_dir : IType → Bool
is_dir dir = true
is_dir t = false

-- The match on the type of the inode; the flag is whether it is truncated first, and `drivers` says
-- which entries of DEVSW are set.
abbrev pub open_device : (Major → Bool) → ℕ → Major → Outcome (Option (VFile × Bool))
open_device drivers ip null = done none
open_device drivers ip invalid = done none
open_device drivers ip console =
    if drivers console then done (some (device console ip, false)) else panicked

unfoldable pub open_node : (Major → Bool) → OMode → Node → Outcome (Option (VFile × Bool))
open_node drivers opts node = elim node.itype [
  | dev ↦ open_device drivers node.ip (major_from_u16 node.major)
  | dir ↦ done (some (inode node.ip, false))
  | file ↦ done (some (inode node.ip, opts.truncate))
  | unused ↦ done none
]

-- A path in FTable::alloc: `node` is what `create` or `namei` finds.
unfoldable pub open_path : (Major → Bool) → OMode → Option Node → Outcome (Option (VFile × Bool))
open_path drivers opts none = done none
open_path drivers opts (some node) =
    if not opts.create && (is_dir node.itype && not (is_rdonly opts))
    then done none
    else open_node drivers opts node

-- The first empty place gets the file.
unfoldable pub place : ℕ → List (Option ℕ) → Option (List (Option ℕ))
place a [] = none
place a (none ∷ xs) = some (some a ∷ xs)
place a (some b ∷ xs) = elim (place a xs) [ none ↦ none | some ys ↦ some (some b ∷ ys) ]

abbrev pub allocated : OMode → VFile → Files → Option (List (Option ℕ)) → Option File × Files
allocated opts v s none = (none, s)
allocated opts v s (some t) = (
  some record { f = s.next; readable = opts.read; writable = opts.write },
  record s {
    table = t;
    vfile = update s.vfile s.next (some v);
    count = update s.count s.next 2;
    next = suc s.next;
    live = update s.live s.next 1;
  },
)

-- FTable::alloc, from where the file to enter is known.
unfoldable pub alloc : OMode → VFile → Files → Option File × Files
alloc opts v s = allocated opts v s (place s.next s.table)

-- Clone for File, of a file in use.
unfoldable pub clone : ℕ → Files → Files
clone a s = record s {
  count = update s.count a (suc (s.count a));
  live = update s.live a (suc (s.live a));
}

-- The loop over the table in Drop for File.
unfoldable pub clear : ℕ → List (Option ℕ) → List (Option ℕ)
clear a [] = []
clear a (none ∷ xs) = none ∷ clear a xs
clear a (some b ∷ xs) = (if a == b then none else some b) ∷ clear a xs

-- The references that it ends.
unfoldable pub held : ℕ → List (Option ℕ) → ℕ
held a [] = 0
held a (none ∷ xs) = held a xs
held a (some b ∷ xs) = let rest = held a xs in if a == b then suc rest else rest

-- Drop for File, up to the end of `if Arc::strong_count(&f) == 2`.
unfoldable pub drop_check : ℕ → Files → Outcome Files
drop_check a s =
    let going = record s {
      live = update s.live a (s.live a - 1);
      closing = update s.closing a (suc (s.closing a));
    } in
    if ltb (s.count a) 2
    then panicked
    else if s.count a == 2
    then done (record going {
      table = clear a s.table;
      count = update s.count a (s.count a - held a s.table);
    })
    else done going

-- Arc::try_unwrap, and what it leads to: the last reference drops the file.
unfoldable pub drop_end : ℕ → Files → Files
drop_end a s =
    let gone = record s {
      count = update s.count a (s.count a - 1);
      closing = update s.closing a (s.closing a - 1);
    } in
    if s.count a == 1
    then record gone { vfile = update s.vfile a none; closed = a ∷ s.closed }
    else gone

-- Drop for File, when nothing comes between.
unfoldable pub drop_file : ℕ → Files → Outcome Files
drop_file a s = elim (drop_check a s) [ panicked ↦ panicked | done t ↦ done (drop_end a t) ]

-- What processes do with files, in any interleaving.
pub data Step : Files → Outcome Files → Type 0 where
  allocs : {s : Files} → (opts : OMode) (v : VFile) → Step s (done (alloc opts v s).1)
  clones : {s : Files} → (a : ℕ) → s.live a ≢ 0 → Step s (done (clone a s))
  checks : {s : Files} → (a : ℕ) → s.live a ≢ 0 → Step s (drop_check a s)
  ends : {s : Files} → (a : ℕ) → s.closing a ≢ 0 → Step s (done (drop_end a s))

abbrev pub no_files : ℕ → Files
no_files n = record {
  table = replicate n none;
  vfile = λ a. none;
  count = λ a. 0;
  next = 0;
  live = λ a. 0;
  closing = λ a. 0;
  closed = [];
}

pub data Reach : Outcome Files → Type 0 where
  start : (n : ℕ) → Reach (done (no_files n))
  later : {s : Files} {o : Outcome Files} → Reach (done s) → Step s o → Reach o
