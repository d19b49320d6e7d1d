-- ===== src/Mode/Tests.antt =====
-- The flags of `open` at one mode.
use octox.Base.{◌≡◌, refl, true, false}
use octox.Mode.Defs.{has, from_usize, is_rdonly}

-- O_RDWR | O_CREATE
read_write_create :
    from_usize 514 ≡ record { read = true; write = true; truncate = false; create = true }
unfolding from_usize has
read_write_create = refl

not_rdonly : is_rdonly (from_usize 514) ≡ false
unfolding from_usize is_rdonly has
not_rdonly = refl
