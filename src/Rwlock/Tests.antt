-- ===== src/Rwlock/Tests.antt =====
-- Runs of the lock, and the theorems at such inputs.
use octox.Base.{arith, ◌≤◌, ◌<◌, ◌≡◌, ◌≢◌, refl, true, false, List, [], ◌∷◌, ◌++◌, panicked}
use octox.Rwlock.Defs.{
  Pc, idle, counted, reading, claimed, Wish, to_read, to_write, to_drop, step, read_step,
  write_step, drop_read, System, by, Reach, start, later,
}
use octox.Rwlock.Agree.{reads, writes, total, lock}
use octox.Rwlock.Exclusion.{initial, Reach-exclusive}
use octox.Rwlock.Stuck.{after_write, write-stuck}

abbrev reader : System
reader = record { lock = lock 1 false; threads = reading ∷ idle ∷ [] }

abbrev attempting : System
attempting = record { lock = lock 1 true; threads = reading ∷ claimed ∷ [] }

abbrev released : System
released = record { lock = lock 0 true; threads = idle ∷ idle ∷ [] }

-- One thread reads.
initial-reader : Reach (initial 2) reader
unfolding step read_step
initial-reader =
    later {t = record { lock = lock 1 false; threads = counted ∷ idle ∷ [] }}
      (later start (by [] idle counted (idle ∷ []) to_read refl refl refl))
      (by [] counted reading (idle ∷ []) to_read refl refl refl)

-- One reads and the other is in its attempt.
attempt : Reach (initial 2) attempting
unfolding step write_step
attempt = later initial-reader (by (reading ∷ []) idle claimed [] to_write refl refl refl)

stuck-released : Reach (after_write attempting (reading ∷ []) []) released
unfolding step write_step drop_read
stuck-released = later start (by [] reading idle (idle ∷ []) to_drop refl refl refl)

Reach-exclusive_example :
    (total writes reader.threads ≤ 1)
    × (0 < total writes reader.threads → total reads reader.threads ≡ 0)
    × ((xs : List Pc) (p : Pc) (ys : List Pc) (w : Wish)
        → reader.threads ≡ xs ++ (p ∷ ys)
        → step reader.lock p w ≢ panicked)
Reach-exclusive_example = Reach-exclusive 2 reader initial-reader

write-stuck_example :
    (released.lock.wcnt ≡ true)
    × (total writes released.threads ≡ 0)
    × (total reads released.threads ≤ total reads (reading ∷ idle ∷ []))
write-stuck_example =
    write-stuck 2 attempting (reading ∷ []) [] released attempt refl (omega arith) stuck-released
