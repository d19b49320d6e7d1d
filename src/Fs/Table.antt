-- ===== src/Fs/Table.antt =====
-- kernel/fs.rs: the table of inodes in memory. An MInode is named by a number, and an Arc of it is one of its
-- strong count; what is in the table is one too.
use octox.Base.{
  ℕ, suc, ◌-◌, Bool, true, false, ◌&&◌, List, [], ◌∷◌, ◌==◌, if◌then◌else◌, Option, none, some,
  update, Outcome, done, panicked,
}

-- ITABLE, and the inodes in memory: device and number, strong count, and the next one that is made.
pub record ITable : Type 0 where
  pub slots : List (Option ℕ)
  pub dev : ℕ → ℕ
  pub inum : ℕ → ℕ
  pub count : ℕ → ℕ
  pub next : ℕ

abbrev pub is_named : ITable → (dev inum ip : ℕ) → Bool
is_named s dev inum ip = (s.dev ip == dev) && (s.inum ip == inum)

-- The loop of ITable::get: the inode, where it is in the table, and else the table with a new one in the first
-- empty place.
abbrev pub search : ITable → (dev inum : ℕ) → List (Option ℕ) → Option ℕ
search s dev inum [] = none
search s dev inum (none ∷ xs) = search s dev inum xs
search s dev inum (some ip ∷ xs) =
    let rest = search s dev inum xs in if is_named s dev inum ip then some ip else rest

abbrev pub fill_first : ℕ → List (Option ℕ) → Option (List (Option ℕ))
fill_first ip [] = none
fill_first ip (none ∷ xs) = some (some ip ∷ xs)
fill_first ip (some q ∷ xs) = elim (fill_first ip xs) [ none ↦ none | some ys ↦ some (some q ∷ ys) ]

abbrev pub recycled : ITable → (dev inum : ℕ) → Option (List (Option ℕ)) → Outcome (ℕ × ITable)
recycled s dev inum none = panicked
recycled s dev inum (some ys) = done (
  s.next,
  record {
    slots = ys;
    dev = update s.dev s.next dev;
    inum = update s.inum s.next inum;
    count = update s.count s.next 2;
    next = suc s.next;
  },
)

abbrev pub got : ITable → (dev inum : ℕ) → Option ℕ → Outcome (ℕ × ITable)
got s dev inum (some ip) = done (ip, record s { count = update s.count ip (suc (s.count ip)) })
got s dev inum none = recycled s dev inum (fill_first s.next s.slots)

-- ITable::get
unfoldable pub get : (dev inum : ℕ) → ITable → Outcome (ℕ × ITable)
get dev inum s = got s dev inum (search s dev inum s.slots)

-- ITable::put, its look at the count under the lock: whether it goes on to the end below. If not, the
-- reference is dropped.
unfoldable pub put_check : ℕ → ITable → Bool × ITable
put_check ip s =
    if s.count ip == 2
    then (true, s)
    else (false, record s { count = update s.count ip (s.count ip - 1) })

-- Between the two, without the lock of the table, an inode without links is truncated and freed on the disk, by
-- trunc and update. The end of ITable::put, under the lock again: the inode is taken from the table, and the reference dropped.
abbrev pub taken_out : ℕ → List (Option ℕ) → List (Option ℕ)
taken_out ip [] = []
taken_out ip (none ∷ xs) = none ∷ taken_out ip xs
taken_out ip (some q ∷ xs) = (if q == ip then none else some q) ∷ taken_out ip xs

abbrev pub places : ℕ → List (Option ℕ) → ℕ
places ip [] = 0
places ip (none ∷ xs) = places ip xs
places ip (some q ∷ xs) = let rest = places ip xs in if q == ip then suc rest else rest

unfoldable pub put_end : ℕ → ITable → ITable
put_end ip s = record s {
  slots = taken_out ip s.slots;
  count = update s.count ip (s.count ip - places ip s.slots - 1);
}

-- ITable::put with nothing between its two parts.
abbrev pub ended : ℕ → Bool × ITable → ITable
ended ip (true, s) = put_end ip s
ended ip (false, s) = s

unfoldable pub put : ℕ → ITable → ITable
put ip s = ended ip (put_check ip s)
