-- ===== src/Layout/Stacks.antt =====
-- The kernel stacks of the processes, and the registers of the harts.
use octox.Base.{ℕ, ◌+◌, ◌-◌, ◌*◌, ◌≤◌, ◌<◌, ◌≡◌, refl, true, leb, arith, done}
use octox.Layout.Defs.{
  pgsize, nproc, kernbase, phystop, clint_mtimecmp, clint_mtime, plic_senable, plic_spriority,
  plic_sclaim, trampoline, trapflame, kstack,
}

abbrev pub stack_of : ℕ → ℕ
stack_of p = trampoline - (p + 1) * 5 * pgsize

kstack-done : (p : ℕ) → p < nproc → kstack p ≡ done (stack_of p)
unfolding kstack
kstack-done p h =
    let fits : leb ((p + 1) * 5 * pgsize) trampoline ≡ true = ground arith in rw fits refl

-- Every process of the table has a kernel stack: it lies above the memory of the machine and below the page
-- under the trampoline, and between the stacks of two processes there are at least four pages.
pub kstack-apart :
    (p q : ℕ)
    → p < q
    → q < nproc
    → (a : ℕ) × (b : ℕ) × (kstack p ≡ done a)
      × (kstack q ≡ done b)
      × (b + pgsize + 4 * pgsize ≤ a)
      × (phystop < b)
      × (a + pgsize ≤ trapflame)
kstack-apart p q h b = (
  stack_of p,
  stack_of q,
  kstack-done p (omega arith),
  kstack-done q b,
  omega arith,
  omega arith,
  omega arith,
)

-- The registers of the timer and of the interrupt controller for different harts are different words, and
-- so are those of one hart; none lies in the memory of the machine.
registers-apart :
    (g h : ℕ)
    → g < h
    → h < 8
    → (clint_mtimecmp g + 8 ≤ clint_mtimecmp h)
      × (clint_mtimecmp h + 8 ≤ clint_mtime)
      × (plic_senable g + 4 ≤ plic_senable h)
      × (plic_senable h + 4 ≤ plic_spriority g)
      × (plic_spriority g + 4 ≤ plic_sclaim g)
      × (plic_sclaim g + 4 ≤ plic_spriority h)
      × (plic_sclaim h + 4 ≤ kernbase)
unfolding clint_mtimecmp plic_senable plic_spriority plic_sclaim
registers-apart g h l b =
    (omega arith, omega arith, omega arith, omega arith, omega arith, omega arith, omega arith)
