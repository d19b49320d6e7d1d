-- ===== src/Mode/Defs.antt =====
-- kernel/fcntl.rs: `OMode` and the flags that `open` is given.
use octox.Base.{ℕ, ◌/◌, ◌%◌, ◌==◌, Bool, true, false, not, ◌&&◌, ◌||◌}

-- struct OMode
pub record OMode : Type 0 where
  pub read : Bool
  pub write : Bool
  pub truncate : Bool
  pub create : Bool

-- OMode::new
abbrev pub new : OMode
new = record { read = false; write = false; truncate = false; create = false }

-- The setters.
abbrev pub set_read : Bool → OMode → OMode
set_read b m = record m { read = b }

abbrev pub set_write : Bool → OMode → OMode
set_write b m = record m { write = b }

abbrev pub set_truncate : Bool → OMode → OMode
set_truncate b m = record m { truncate = b }

abbrev pub set_create : Bool → OMode → OMode
set_create b m = record m { create = b }

abbrev pub wronly : ℕ
wronly = 1

abbrev pub rdwr : ℕ
rdwr = 2

abbrev pub create_bit : ℕ
create_bit = 512

abbrev pub trunc_bit : ℕ
trunc_bit = 1024

-- `bits & flag != 0`, for a flag of one bit.
unfoldable pub has : ℕ → ℕ → Bool
has bits flag = ((bits / flag) % 2) == 1

-- OMode::from_usize
unfoldable pub from_usize : ℕ → OMode
from_usize bits = set_truncate (has bits trunc_bit) (
    set_create (has bits create_bit) (
      set_write (has bits wronly || has bits rdwr)
        (set_read (not (has bits wronly)) (set_read true new))))

-- OMode::is_rdonly
unfoldable pub is_rdonly : OMode → Bool
is_rdonly m = m.read && not m.write
