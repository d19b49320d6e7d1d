-- ===== src/Lock/Defs.antt =====
-- kernel/spinlock.rs and kernel/sleeplock.rs. A processor makes atomic steps on the word of a spin lock, with its
-- interrupts off. What a process does to a sleep lock while it holds the spin lock inside is one
-- step, and so is the release of that lock together with falling asleep, since sleep takes the
-- lock of the process first and wakeup waits for it. The steps of all interleave in any order.
use octox.Base.{
  ℕ, Bool, true, false, ◌&&◌, ◌==◌, if◌then◌else◌, Option, none, some, update, Outcome, done,
  panicked,
}

-- The word of Mutex: the processor that holds it, if any.
abbrev pub Word : Type 0
Word = Option ℕ

-- Mutex::holding
unfoldable pub holding : Word → ℕ → Bool
holding none cpu = false
holding (some c) cpu = c == cpu

-- compare_exchange of the word from null to the processor: the word after it, and whether it was null.
unfoldable pub claim : Word → ℕ → Word × Bool
claim none cpu = (some cpu, true)
claim (some c) cpu = (some c, false)

-- Where a processor stands: not in `lock`, in its loop, with the guard.
pub data Pc : Type 0 where
  off : Pc
  spinning : Pc
  guarded : Pc

-- What a processor may do next, when it is not in the loop.
pub data Wish : Type 0 where
  to_lock : Wish
  to_drop : Wish

-- Mutex::lock, up to the loop.
unfoldable pub lock_call : Word → ℕ → Outcome (Word × Pc)
lock_call w cpu = if holding w cpu then panicked else done (w, spinning)

-- A round of the loop.
abbrev pub lock_round : Word → ℕ → Outcome (Word × Pc)
lock_round w cpu = let (next, ok) = claim w cpu in done (next, (if ok then guarded else spinning))

-- Drop for MutexGuard, and Mutex::force_unlock.
unfoldable pub unlock : Word → ℕ → Outcome (Word × Pc)
unlock w cpu = if holding w cpu then done (none, off) else panicked

-- The next step of a processor; with the guard, another call of `lock` is one too.
unfoldable pub spin_step : Word → ℕ → Pc → Wish → Outcome (Word × Pc)
spin_step w cpu off to_lock = lock_call w cpu
spin_step w cpu off to_drop = done (w, off)
spin_step w cpu spinning wish = lock_round w cpu
spin_step w cpu guarded to_lock = lock_call w cpu
spin_step w cpu guarded to_drop = unlock w cpu

-- SleepLockInfo
pub record SleepLockInfo : Type 0 where
  pub locked : Bool
  pub pid : ℕ

-- SleepLock::new
abbrev pub new : SleepLockInfo
new = record { locked = false; pid = 0 }

-- Where a process stands: not at the lock, about to look at it, asleep on it, with its guard, and in the
-- drop of the guard after the assertion.
pub data Stand : Type 0 where
  outside : Stand
  waiting : Stand
  asleep : Stand
  inside : Stand
  dropping : Stand

-- The lock and the processes by their identifiers.
pub record System : Type 0 where
  pub info : SleepLockInfo
  pub at : ℕ → Stand

-- SleepLock::lock, one round of the loop.
unfoldable pub look : ℕ → SleepLockInfo → SleepLockInfo × Stand
look me info = if info.locked then (info, asleep) else (record { locked = true; pid = me }, inside)

-- SleepLock::holding
unfoldable pub is_holding : ℕ → SleepLockInfo → Bool
is_holding me info = info.locked && (info.pid == me)

-- wakeup on the lock.
abbrev pub roused : Stand → Stand
roused outside = outside
roused waiting = waiting
roused asleep = waiting
roused inside = inside
roused dropping = dropping

-- Drop for SleepLockGuard, after the assertion.
unfoldable pub release : ℕ → System → System
release me s = record {
  info = record { locked = false; pid = 0 };
  at = update (λ i. roused (s.at i)) me outside;
}

-- The next step of a process.
abbrev pub step_at : ℕ → System → Stand → Outcome System
step_at me s outside = done (record s { at = update s.at me waiting })
step_at me s waiting =
    let (next, there) = look me s.info in done (record { info = next; at = update s.at me there })
step_at me s asleep = done s
step_at me s inside =
    if is_holding me s.info then done (record s { at = update s.at me dropping }) else panicked
step_at me s dropping = done (release me s)

unfoldable pub step : ℕ → System → Outcome System
step me s = step_at me s (s.at me)

-- What kill does to a process that sleeps: it looks again.
abbrev pub stirred : ℕ → System → System
stirred i s = record s { at = update s.at i (roused (s.at i)) }
