-- ===== src/Log/Tests.antt =====
-- Runs of the log on small inputs, and the theorems at such inputs.
use octox.Base.{ℕ, ◌≡◌, refl, inr, true, false, List, [], ◌∷◌, arith, panicked, replicate, update}
use octox.Log.Defs.{Disk, Log, Bufs, encode, decode, begin_op, write, commit, recover, reboot}
use octox.Log.Blocks.{Committed}
use octox.Log.Recovery.{Recovers, recover-Committed}
use octox.Log.Commit.{Ready, Commits, after, commit_atomic}
use octox.Log.Admission.{
  System, Spend, Leave, Step, Reach, Admitted, begins, writes, ends, start, later, Writes,
  write-Admitted,
}

-- Two blocks, 40 and 41, are logged: the cache has new contents for both.
abbrev blocks : List ℕ
blocks = 40 ∷ 41 ∷ replicate 28 0

abbrev log : Log
log = record {
  start = 2;
  size = 31;
  dev = 1;
  outstanding = 0;
  committing = true;
  lh = record { n = 2; block = blocks };
}

abbrev bufs : Bufs
bufs = record {
  cache = update (update (λ _. 0 ∷ []) 40 (7 ∷ [])) 41 (8 ∷ []);
  disk = λ _. 0 ∷ [];
  pins = λ _. 1;
  history = [];
}

log-Ready : Ready log bufs
unfolding decode
log-Ready = record {
  sized = refl;
  fits = omega arith;
  range = omega arith;
  homes = (inr (omega arith), (inr (omega arith), tt));
  idle = refl;
  fresh = refl;
}

commit_atomic_example : (commit true log bufs ≡ panicked) × Commits log bufs (after log bufs)
commit_atomic_example = commit_atomic log bufs log-Ready

-- The disk after the commit point of the same transaction, with nothing installed.
abbrev crashed : Disk
unfolding encode
crashed = update (update (update (λ _. 0 ∷ []) 2 (encode log.lh [])) 3 (7 ∷ [])) 4 (8 ∷ [])

abbrev wanted : Disk
wanted = update (update (λ _. 0 ∷ []) 40 (7 ∷ [])) 41 (8 ∷ [])

crashed-Committed : Committed 2 log.lh wanted crashed
unfolding decode encode
crashed-Committed = record {
  head = refl;
  entries = (refl, (refl, tt));
  rest = λ b o q. ground arith;
}

recover-Committed_example :
    (recover true log (reboot crashed) ≡ panicked) × Recovers log log.lh wanted crashed
recover-Committed_example =
    recover-Committed log log.lh wanted crashed (omega arith) (omega arith)
      (inr (omega arith), (inr (omega arith), tt)) crashed-Committed

-- A log of 31 blocks with no operation, and with one.
abbrev empty : Log
empty = record {
  start = 2;
  size = 31;
  dev = 1;
  outstanding = 0;
  committing = false;
  lh = record { n = 0; block = replicate 30 0 };
}

abbrev quiet : System
quiet = record { log = empty; bufs = bufs; ops = [] }

abbrev busy : System
busy = record { log = record empty { outstanding = 1 }; bufs = bufs; ops = 10 ∷ [] }

quiet-Admitted : Admitted quiet
unfolding octox.Log.Admission.budget
quiet-Admitted = record {
  sized = refl;
  counted = refl;
  within = tt;
  room = omega arith;
  alone = λ e. cc;
}

Reach-busy : Reach quiet busy
unfolding begin_op
Reach-busy = later start (begins refl refl refl)

write-Admitted_example : Writes busy.log 40 bufs
write-Admitted_example = write-Admitted 40 quiet-Admitted Reach-busy Spend.here

-- A log of LOGSIZE blocks, which is what mkfs makes, panics at the thirtieth block of a
-- transaction, though three operations may write ten blocks each.
full_log_panics :
    write (record busy.log { size = 30; lh = record { n = 29; block = replicate 30 0 } }) 40 bufs
    ≡ panicked
unfolding write
full_log_panics = refl
