-- ===== src/Layout/Tests.antt =====
-- The theorems on the layout at concrete processes and harts.
use octox.Base.{ℕ, ◌+◌, ◌*◌, ◌≤◌, ◌<◌, ◌≡◌, arith, done}
use octox.Layout.Defs.{pgsize, phystop, trapflame, kstack}
use octox.Layout.Stacks.{kstack-apart}

kstack-apart_example :
    (a : ℕ) × (b : ℕ) × (kstack 3 ≡ done a)
    × (kstack 63 ≡ done b)
    × (b + pgsize + 4 * pgsize ≤ a)
    × (phystop < b)
    × (a + pgsize ≤ trapflame)
kstack-apart_example = kstack-apart 3 63 (omega arith) (omega arith)
