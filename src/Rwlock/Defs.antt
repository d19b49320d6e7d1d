-- ===== src/Rwlock/Defs.antt =====
-- kernel/rwlock.rs: the two atomic words of the lock, and the atomic steps that threads make on them.
-- The steps of all threads interleave in any order, each on the words as the last one left them. A
-- thread that tries again is one that starts anew; a spurious failure of the exchange changes
-- nothing and is no step.
use octox.Base.{
  ℕ, ◌+◌, ◌-◌, ◌≡◌, Bool, true, false, List, ◌∷◌, ◌++◌, ◌==◌, ltb, if◌then◌else◌, Outcome, done,
  panicked,
}

-- struct RwLock, without the data.
pub record RwLock : Type 0 where
  pub rcnt : ℕ
  pub wcnt : Bool

-- RwLock::new
abbrev pub new : RwLock
new = record { rcnt = 0; wcnt = false }

-- Where a thread stands: `counted` and `backing_off` in try_read, `claimed` in try_write, `upgrading`
-- and `converting` in try_upgrade; `reading` and `writing` with a guard.
pub data Pc : Type 0 where
  idle : Pc
  counted : Pc
  backing_off : Pc
  reading : Pc
  claimed : Pc
  writing : Pc
  upgrading : Pc
  converting : Pc

-- What a thread may start, when it has no step to go on with.
pub data Wish : Type 0 where
  to_read : Wish
  to_write : Wish
  to_upgrade : Wish
  to_drop : Wish

-- compare_exchange of `wcnt` from false to true.
abbrev pub claim : RwLock → Pc → Pc → Outcome (RwLock × Pc)
claim l fail ok = if l.wcnt then done (l, fail) else done (record l { wcnt = true }, ok)

-- try_read
unfoldable pub read_step : RwLock → Pc → Outcome (RwLock × Pc)
read_step l counted = done (l, (if l.wcnt then backing_off else reading))
read_step l backing_off = done (record l { rcnt = l.rcnt - 1 }, idle)
read_step l p = done (record l { rcnt = l.rcnt + 1 }, counted)

-- try_write
unfoldable pub write_step : RwLock → Pc → Outcome (RwLock × Pc)
write_step l claimed = done (l, (if ltb l.rcnt 1 then writing else idle))
write_step l p = claim l idle claimed

-- try_upgrade; the guard of the reader is dropped when the writer's exists.
unfoldable pub upgrade_step : RwLock → Pc → Outcome (RwLock × Pc)
upgrade_step l upgrading = done (l, (if l.rcnt == 1 then converting else reading))
upgrade_step l converting =
    if l.rcnt == 0 then panicked else done (record l { rcnt = l.rcnt - 1 }, writing)
upgrade_step l p = claim l reading upgrading

-- Drop for RwLockReadGuard and for RwLockWriteGuard.
unfoldable pub drop_read : RwLock → Outcome (RwLock × Pc)
drop_read l = if l.rcnt == 0 then panicked else done (record l { rcnt = l.rcnt - 1 }, idle)

unfoldable pub drop_write : RwLock → Outcome (RwLock × Pc)
drop_write l = if l.wcnt then done (record l { wcnt = false }, idle) else panicked

-- The next atomic step of a thread.
unfoldable pub step : RwLock → Pc → Wish → Outcome (RwLock × Pc)
step l idle to_read = read_step l idle
step l idle to_write = write_step l idle
step l idle w = done (l, idle)
step l counted w = read_step l counted
step l backing_off w = read_step l backing_off
step l claimed w = write_step l claimed
step l reading to_upgrade = upgrade_step l reading
step l reading to_drop = drop_read l
step l reading w = done (l, reading)
step l writing to_drop = drop_write l
step l writing w = done (l, writing)
step l upgrading w = upgrade_step l upgrading
step l converting w = upgrade_step l converting

pub record System : Type 0 where
  pub lock : RwLock
  pub threads : List Pc

-- One thread makes a step.
pub data Step (s t : System) : Type 0 where
  by :
      (xs : List Pc) (p q : Pc) (ys : List Pc) (w : Wish)
      → s.threads ≡ xs ++ (p ∷ ys)
      → step s.lock p w ≡ done (t.lock, q)
      → t.threads ≡ xs ++ (q ∷ ys)
      → Step s t

pub data Reach (s : System) : System → Type 0 where
  start : Reach s s
  later : {t u : System} → Reach s t → Step t u → Reach s u
