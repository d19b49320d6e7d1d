-- ===== src/Bio/Defs.antt =====
-- kernel/bio.rs: the list of buffers as nodes with `next` and `prev`, and the cache over it. A node
-- is named by the index of its buffer. `count` is the strong count of a node's `Arc`: one for the
-- list, one for each guard, one for each pin. Since the links may form a cycle, a walk over the list
-- has fuel. `locked` says which buffers have their sleep lock taken, by whichever process, at the call
-- of `get`: `get` takes the lock of the buffer that it returns while it holds the spin lock of the list.
use octox.Base.{
  ℕ, zero, suc, ◌+◌, ◌-◌, Bool, true, false, ◌&&◌, List, [], ◌∷◌, ◌==◌, if◌then◌else◌, Option, none,
  some, update,
}

-- struct Data
pub record Data : Type 0 where
  pub bytes : List ℕ
  pub disk : Bool
  pub blockno : ℕ
  pub dev : ℕ
  pub valid : Bool

-- struct Meta
pub record Meta : Type 0 where
  pub dev : ℕ
  pub blockno : ℕ
  pub next : Option ℕ
  pub prev : Option ℕ

-- struct Lru, with the nodes and the buffers that it refers to.
pub record Lru : Type 0 where
  pub head : Option ℕ
  pub tail : Option ℕ
  pub n : ℕ
  pub node : ℕ → Meta
  pub count : ℕ → ℕ
  pub buf : ℕ → Data

abbrev pub set_next : Option ℕ → Meta → Meta
set_next o m = record m { next = o }

abbrev pub set_prev : Option ℕ → Meta → Meta
set_prev o m = record m { prev = o }

-- A change of the node `i`; nothing where there is none.
abbrev pub change : (Meta → Meta) → Option ℕ → Lru → Lru
change f none s = s
change f (some i) s = record s { node = update s.node i (f (s.node i)) }

abbrev pub new_meta : Meta
new_meta = record { dev = 0; blockno = 0; next = none; prev = none }

abbrev pub fresh : ℕ → Lru → Lru
fresh i s = record s { node = update s.node i new_meta; count = update s.count i 1 }

-- Lru::add
unfoldable pub add : ℕ → Lru → Lru
add i s = elim s.tail [
  | some t ↦
      record (change (set_prev (some t)) (some i)
        (change (set_next (some i)) (some t) (fresh i s))) { tail = some i; n = s.n + 1 }
  | none ↦ record (fresh i s) { head = some i; tail = some i; n = s.n + 1 }
]

-- The first half of `relse`: the node, whose links are given, leaves its neighbours.
unfoldable pub detach_from : (next prev : Option ℕ) → ℕ → Lru → Lru
detach_from next prev i s = change (set_next next) prev (
    change (set_prev prev) next
      (change (set_prev none) (some i) (change (set_next none) (some i) s)))

unfoldable pub detach : ℕ → Lru → Lru
unfolding detach_from
detach i s = detach_from (s.node i).next (s.node i).prev i s

-- The second half: the node goes in front of the head, which is given.
unfoldable pub attach_to : (head : Option ℕ) → ℕ → Lru → Lru
attach_to (some h) i s =
    record (change (set_next (some h)) (some i) (change (set_prev (some i)) (some h) s)) {
      head = some i;
    }
attach_to none i s = record s { head = some i; tail = some i }

unfoldable pub attach : ℕ → Lru → Lru
unfolding attach_to
attach i s = attach_to s.head i s

-- Lru::relse
unfoldable pub relse : ℕ → Lru → Lru
relse i s = if s.count i == 1 then attach i (detach i s) else s

-- A walk over the list ends at a node that the test accepts, at the end of the list, or not at all.
pub data Walk : Type 0 where
  found : ℕ → Walk
  ended : Walk
  endless : Walk

-- `for b in self.iter()` with an early return.
unfoldable pub walk : ℕ → (ℕ → Bool) → Lru → Option ℕ → Walk
walk fuel test s none = ended
walk zero test s (some i) = endless
walk (suc k) test s (some i) =
    let rest = walk k test s (s.node i).next in if test i then found i else rest

-- `for b in self.iter().rev()`
unfoldable pub walk_back : ℕ → (ℕ → Bool) → Lru → Option ℕ → Walk
walk_back fuel test s none = ended
walk_back zero test s (some i) = endless
walk_back (suc k) test s (some i) =
    let rest = walk_back k test s (s.node i).prev in if test i then found i else rest

abbrev pub caches : ℕ → ℕ → Lru → ℕ → Bool
caches dev blockno s i = ((s.node i).dev == dev) && ((s.node i).blockno == blockno)

abbrev pub unused : Lru → ℕ → Bool
unused s i = s.count i == 1

-- The node `i` is given to another block; a guard of it is handed out.
unfoldable pub recycle : ℕ → ℕ → ℕ → Lru → Lru
recycle dev blockno i s = record s {
  node = update s.node i (record (s.node i) { dev = dev; blockno = blockno });
  buf = update s.buf i (record (s.buf i) { valid = false; blockno = blockno; dev = dev });
  count = update s.count i (s.count i + 1);
}

unfoldable pub share : ℕ → Lru → Lru
share i s = record s { count = update s.count i (s.count i + 1) }

-- What `get` comes to: a guard of a buffer, a sleep on the taken lock of a buffer with the spin lock of
-- the list held, at which `sched` (kernel/proc.rs) panics, the panic "no buffers", or a walk without
-- an end.
pub data Got : Type 0 where
  guard : ℕ → Lru → Got
  sleeps_held : ℕ → Lru → Got
  no_buffers : Got
  hangs : Got

-- The meta data of the node are set before its lock is taken.
unfoldable pub rename : ℕ → ℕ → ℕ → Lru → Lru
rename dev blockno i s = record s {
  node = update s.node i (record (s.node i) { dev = dev; blockno = blockno });
}

-- `b.data.lock()`, in the state `before`; `after` is what the rest makes of it.
abbrev pub lock_buf : (ℕ → Bool) → ℕ → (before after : Lru) → Got
lock_buf locked i before after = if locked i then sleeps_held i before else guard i after

unfoldable pub get_unused : (locked : ℕ → Bool) → ℕ → ℕ → ℕ → Lru → Got
get_unused locked fuel dev blockno s = elim (walk_back fuel (unused s) s s.tail) [
  | found i ↦ lock_buf locked i (rename dev blockno i s) (recycle dev blockno i s)
  | ended ↦ no_buffers
  | endless ↦ hangs
]

-- Lru::get
unfoldable pub get : (locked : ℕ → Bool) → ℕ → ℕ → ℕ → Lru → Got
get locked fuel dev blockno s = elim (walk fuel (caches dev blockno s) s s.head) [
  | found i ↦ lock_buf locked i s (share i s)
  | ended ↦ get_unused locked fuel dev blockno s
  | endless ↦ hangs
]

-- BCache::read; `fetch` is what the disk driver's `rw` brings into the buffer.
unfoldable pub fill : (ℕ → List ℕ) → ℕ → Lru → Lru
fill fetch i s = if (s.buf i).valid then s else record s {
  buf = update s.buf i (record (s.buf i) { bytes = fetch (s.buf i).blockno; valid = true });
}

unfoldable pub read : (ℕ → List ℕ) → (locked : ℕ → Bool) → ℕ → ℕ → ℕ → Lru → Got
read fetch locked fuel dev blockno s = elim (get locked fuel dev blockno s) [
  | sleeps_held i s' ↦ sleeps_held i s'
  | guard i s' ↦ guard i (fill fetch i s')
  | no_buffers ↦ no_buffers
  | hangs ↦ hangs
]

-- BufGuard::pin and unpin
unfoldable pub pin : ℕ → Lru → Lru
pin i s = record s { count = update s.count i (s.count i + 1) }

unfoldable pub unpin : ℕ → Lru → Lru
unpin i s = record s { count = update s.count i (s.count i - 1) }

-- Drop for BufGuard, of a holder of the buffer's lock: its reference goes, then `relse`.
unfoldable pub drop_guard : ℕ → Lru → Lru
drop_guard i s = relse i (record s { count = update s.count i (s.count i - 1) })

-- init: the buffers are added in order.
unfoldable pub add_all : List ℕ → Lru → Lru
add_all [] s = s
add_all (i ∷ is) s = add_all is (add i s)
