-- ===== src/Buddy/Links.antt =====
-- kernel/list.rs: the list in a circle of links. The memory is the two fields of the node at each address.
use octox.Base.{ℕ, Bool, ◌==◌, if◌then◌else◌, Option, none, some, update}

-- struct List at each address
pub record Links : Type 0 where
  pub next : ℕ → ℕ
  pub prev : ℕ → ℕ

abbrev pub set_next : (p q : ℕ) → Links → Links
set_next p q m = record m { next = update m.next p q }

abbrev pub set_prev : (p q : ℕ) → Links → Links
set_prev p q m = record m { prev = update m.prev p q }

-- List::init
unfoldable pub init : ℕ → Links → Links
init l m = set_next l l (set_prev l l m)

-- List::is_empty
unfoldable pub is_empty : ℕ → Links → Bool
is_empty l m = m.next l == l

-- List::remove
unfoldable pub remove : ℕ → Links → Links
remove e m = let m1 = set_next (m.prev e) (m.next e) m in set_prev (m1.next e) (m1.prev e) m1

-- List::pop
unfoldable pub pop : ℕ → Links → Option ℕ × Links
pop l m = if is_empty l m then (none, m) else (some (m.next l), remove (m.next l) m)

-- List::push
unfoldable pub push : (l raw_addr : ℕ) → Links → Links
push l raw_addr m =
    let m1 = set_next raw_addr (m.next l) (set_prev raw_addr l m) in
    set_next l raw_addr (set_prev (m1.next l) raw_addr m1)
