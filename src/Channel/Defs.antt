-- ===== src/Channel/Defs.antt =====
-- kernel/semaphore.rs and kernel/mpmc.rs. The mutex of the semaphore and that of the buffer are separate:
-- a sender counts itself in, and later appends; a receiver removes an element, and before it leaves
-- the mutex of the buffer it counts itself out. A process that would sleep makes no step, and tries
-- again later. `sent` and `got` are the elements appended and removed so far, in order.
use octox.Base.{
  ℕ, ◌+◌, ◌-◌, ◌≡◌, Bool, true, false, List, [], ◌∷◌, ◌++◌, ◌==◌, leb, if◌then◌else◌, Option, none,
  some, Outcome, done, panicked,
}

-- Semaphore::wait; nothing where the caller sleeps.
unfoldable pub sem_wait : (max cnt : ℕ) → Option ℕ
sem_wait max cnt = if leb max cnt then none else some (cnt + 1)

-- Semaphore::post, and whether it notifies the waiters.
unfoldable pub sem_post : (max cnt : ℕ) → Outcome (ℕ × Bool)
sem_post max cnt = if cnt == 0 then panicked else done (cnt - 1, leb (cnt - 1) max)

-- A channel: SyncSender and SyncReceiver share the semaphore and the buffer. `senders` have been let in by
-- the semaphore and not appended yet; `receiver` holds the mutex of the buffer between its removal
-- and its post.
pub record Channel : Type 0 where
  pub max : ℕ
  pub cnt : ℕ
  pub buf : List ℕ
  pub senders : ℕ
  pub receiver : Bool
  pub sent : List ℕ
  pub got : List ℕ

-- sync_channel
abbrev pub sync_channel : ℕ → Channel
sync_channel max = record {
  max = max;
  cnt = 0;
  buf = [];
  senders = 0;
  receiver = false;
  sent = [];
  got = [];
}

-- SyncSender::send, up to the end of the wait.
unfoldable pub send_wait : Channel → Option Channel
send_wait c = elim (sem_wait c.max c.cnt) [
  | some n ↦ some (record c { cnt = n; senders = c.senders + 1 })
  | none ↦ none
]

-- The rest of `send`, of a sender that has been let in, when the buffer is not locked.
unfoldable pub push : ℕ → Channel → Option Channel
push x c =
    if c.receiver
    then none
    else if c.senders == 0
    then none
    else some
        (record c { buf = c.buf ++ (x ∷ []); senders = c.senders - 1; sent = c.sent ++ (x ∷ []) })

-- SyncReceiver::recv, up to the removal.
unfoldable pub pop_from : List ℕ → Channel → Option Channel
pop_from [] c = none
pop_from (x ∷ xs) c = some (record c { buf = xs; receiver = true; got = c.got ++ (x ∷ []) })

unfoldable pub pop : Channel → Option Channel
pop c = if c.receiver then none else pop_from c.buf c

-- The rest of `recv`: the post.
unfoldable pub post : Channel → Outcome Channel
post c = elim (sem_post c.max c.cnt) [
  | done (n, notify) ↦ done (record c { cnt = n; receiver = false })
  | panicked ↦ panicked
]

pub data Step (c d : Channel) : Type 0 where
  waits : send_wait c ≡ some d → Step c d
  pushes : (x : ℕ) → push x c ≡ some d → Step c d
  pops : pop c ≡ some d → Step c d
  posts : c.receiver ≡ true → post c ≡ done d → Step c d

pub data Reach (c : Channel) : Channel → Type 0 where
  start : Reach c c
  later : {d e : Channel} → Reach c d → Step d e → Reach c e
