-- ===== src/Intr/Defs.antt =====
-- kernel/proc.rs: `Cpu::lock` and `Cpu::unlock`, which every spin lock and every look at the current
-- processor goes through. `enabled` is the interrupt bit of the processor (intr_get).
use octox.Base.{
  ℕ, ◌+◌, ◌-◌, Bool, true, false, ◌&&◌, List, [], ◌∷◌, ◌==◌, if◌then◌else◌, Outcome, done, panicked,
  ◌>>=◌,
}

-- The fields of struct Cpu that the nesting is about, and the interrupt bit.
pub record Cpu : Type 0 where
  pub noff : ℕ
  pub intena : Bool
  pub enabled : Bool

-- Cpus::intr_lock, with Cpu::lock in it.
unfoldable pub intr_lock : Cpu → Cpu
intr_lock c = record {
  noff = c.noff + 1;
  intena = if c.noff == 0 then c.enabled else c.intena;
  enabled = false;
}

-- Cpu::unlock, from the drop of an IntrLock.
unfoldable pub unlock : Cpu → Outcome Cpu
unlock c =
    if c.enabled
    then panicked
    else if c.noff == 0
    then panicked
    else done (record c {
      noff = c.noff - 1;
      enabled = if (c.noff - 1 == 0) && c.intena then true else c.enabled;
    })

-- What code on the processor does: it takes an IntrLock, or drops one, in any order.
pub data Op : Type 0 where
  take : Op
  drop : Op

unfoldable pub run : List Op → Cpu → Outcome Cpu
run [] c = done c
run (take ∷ ops) c = run ops (intr_lock c)
run (drop ∷ ops) c = unlock c >>= run ops
