-- ===== src/Intr/Tests.antt =====
-- A run of nested locks, and the theorem at it.
use octox.Base.{ℕ, ◌≡◌, refl, true, false, List, [], ◌∷◌, some}
use octox.Intr.Defs.{Cpu, Op, take, drop}
use octox.Intr.Nesting.{left}

abbrev ops : List Op
ops = take ∷ take ∷ drop ∷ take ∷ drop ∷ drop ∷ []

abbrev cpu : Cpu
cpu = record { noff = 0; intena = false; enabled = true }

abbrev no_lock : ℕ
no_lock = 0

balanced : left 0 ops ≡ some no_lock
unfolding left
balanced = refl
