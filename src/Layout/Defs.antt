-- ===== src/Layout/Defs.antt =====
-- kernel/memlayout.rs, with the page size of kernel/riscv.rs and the end of the virtual addresses of
-- kernel/vm.rs. Addresses are 64-bit words; a subtraction below zero panics.
use octox.Base.{ℕ, ◌+◌, ◌-◌, ◌*◌, ◌^◌, leb, if◌then◌else◌, Outcome, done, panicked}

abbrev pub pgsize : ℕ
pgsize = 4096

abbrev pub maxva : ℕ
maxva = 2 ^ 38

abbrev pub nproc : ℕ
nproc = 64

abbrev pub kernbase : ℕ
kernbase = 2147483648

abbrev pub phystop : ℕ
phystop = kernbase + 128 * 1024 * 1024

abbrev pub clint : ℕ
clint = 33554432

abbrev pub plic : ℕ
plic = 201326592

-- clint_mtimecmp
unfoldable pub clint_mtimecmp : ℕ → ℕ
clint_mtimecmp hartid = clint + 16384 + 8 * hartid

abbrev pub clint_mtime : ℕ
clint_mtime = clint + 49144

-- PLIC_SENABLE, PLIC_SPRIORITY and PLIC_SCLAIM
unfoldable pub plic_senable : ℕ → ℕ
plic_senable hart = plic + 8320 + hart * 256

unfoldable pub plic_spriority : ℕ → ℕ
plic_spriority hart = plic + 2101248 + hart * 8192

unfoldable pub plic_sclaim : ℕ → ℕ
plic_sclaim hart = plic + 2101252 + hart * 8192

abbrev pub trampoline : ℕ
trampoline = maxva - pgsize

abbrev pub trapflame : ℕ
trapflame = trampoline - pgsize

unfoldable pub kstack : ℕ → Outcome ℕ
kstack p =
    if leb ((p + 1) * 5 * pgsize) trampoline
    then done (trampoline - (p + 1) * 5 * pgsize)
    else panicked
