-- ===== src/Log/Commit.antt =====
-- `commit`: the blocks of a transaction reach the disk all together or not at all.
use octox.Base.{
  ◌^◌, leb, ℕ, zero, suc, ◌+◌, ◌≤◌, ◌<◌, ◌≡◌, refl, ◌⊎◌, inl, inr, true, false, List, [], ◌∷◌,
  if◌then◌else◌, arith, All, All-map, done, length, lt→ltb, ltb, panicked, Bool-cases,
}
use octox.Log.Defs.{
  Disk, Log, Bufs, log_size, decode, write_head, install_loop, install_trans, log_one, log_loop,
  write_log, commit, cleared,
}
use octox.Log.Blocks.{
  Home, listed, Firsts, Firsts-listed, Holds-head, Clear, Committed, decode-encode,
}
use octox.Log.Recovery.{
  wrote_head, Installed, install_loop_lem, restored_lem, Recovers, recover-Clear, Committed-update,
  Leads, wrote_head-Clear,
}
use octox.Log.Writing.{Written, log_loop_lem}

-- The log and the buffers when the last system call of a transaction has ended.
pub record Ready (l : Log) (s : Bufs) : Type 0 where
  pub sized : length l.lh.block ≡ log_size
  pub fits : l.lh.n ≤ log_size
  pub range : l.start + log_size < 2 ^ 32
  pub homes : Firsts (Home l.start) l.lh.n l.lh.block
  pub idle : (decode (s.disk l.start)).n ≡ 0
  pub fresh : s.history ≡ []

-- The disk that the transaction asks for: the logged blocks from the cache, the others as they are.
unfoldable pub after : Log → Bufs → Disk
after l s b = if listed b l.lh.n l.lh.block then s.cache b else s.disk b

-- What `commit` leaves, and what recovery makes of a crash between any two of its disk writes.
pub record Commits (l : Log) (s : Bufs) (T : Disk) : Type 0 where
  pub log : Log
  pub bufs : Bufs
  pub returns : commit false l s ≡ done (log, bufs)
  pub empty : log.lh.n ≡ 0
  pub stored : Clear l.start T bufs.disk
  pub crashes : All (λ d. Recovers l l.lh s.disk d ⊎ Recovers l l.lh T d) bufs.history

zero_or_pos : (n : ℕ) → (n ≡ 0) ⊎ (0 < n)
zero_or_pos zero = inl refl
zero_or_pos (suc n) = inr (omega arith)

module _ (l : Log) (s : Bufs) (r : Ready l s) where
  abbrev T : Disk
  T = after l s

  abbrev OldOrNew : Disk → Type 0
  OldOrNew d = Clear l.start s.disk d ⊎ Leads l.start l.lh T d

  written : Written s.disk T l.start 0 l.lh.n l.lh.block s (write_log false l s)
  unfolding write_log after
  written =
      log_loop_lem s.disk T l.start l.lh.n 0 l.lh.block s (omega (arith, r.fits)) r.range r.homes
        (λ b o q. rw q) (record { head = r.idle; home = λ b o. refl }) (rw r.fresh tt)

  -- The write of the header is the commit point.
  committed : Committed l.start l.lh T (wrote_head l written.result).disk
  unfolding wrote_head after
  committed = record {
    head = ground (arith, decode-encode l.lh (written.result.cache l.start) r.sized);
    entries = Holds-head T written.result.disk l.start _ 0 l.lh.n l.lh.block written.stored;
    rest = λ b o q. ground (arith, written.now.home b o);
  }

  installed :
      Installed
        (Committed l.start l.lh T)
        OldOrNew
        l.start
        T
        (install_loop false false l.start l.lh.n 0 l.lh.block (wrote_head l written.result))
  unfolding wrote_head
  installed =
      install_loop_lem (Committed l.start l.lh T) OldOrNew (λ x h. inr (inr h)) _
        (λ x b w q p. Committed-update l.start l.lh T x b w r.fits q p) l.start T (λ b q. q.0) false
        l.lh.n 0 l.lh.block (wrote_head l written.result) (omega (arith, r.fits)) r.range
        (Firsts-listed (Home l.start) l.lh.n l.lh.block r.homes)
        (Holds-head T written.result.cache l.start _ 0 l.lh.n l.lh.block written.cached)
        committed.rest committed
        (inr (inr committed), All-map _ OldOrNew (λ x h. inl h) written.result.history written.past)

  recovers : (d : Disk) → OldOrNew d → Recovers l l.lh s.disk d ⊎ Recovers l l.lh T d
  recovers d (inl h) = inl (recover-Clear l l.lh s.disk d h)
  recovers d (inr (inl h)) = inr (recover-Clear l l.lh T d h)
  recovers d (inr (inr h)) = inr (restored_lem l l.lh T d r.fits r.range r.homes h)

  cleared-T : Clear l.start T (wrote_head (cleared l) installed.result).disk
  cleared-T = wrote_head-Clear l T installed.result installed.home

  commit_some : 0 < l.lh.n → Commits l s T
  unfolding commit write_log install_trans write_head wrote_head
  commit_some h = record {
    log = cleared l;
    bufs = wrote_head (cleared l) installed.result;
    returns = rw (lt→ltb 0 l.lh.n h) (rw written.returns (rw installed.returns));
    empty = refl;
    stored = cleared-T;
    crashes = (
      recovers _ (inr (inl cleared-T)),
      All-map OldOrNew _ recovers installed.result.history installed.past,
    );
  }

  commit_none : l.lh.n ≡ 0 → Commits l s T
  unfolding commit after
  commit_none h = record {
    log = l;
    bufs = s;
    returns = ground (arith, h);
    empty = h;
    stored = record { head = r.idle; home = λ b o. rw h };
    crashes = rw (r.fresh) tt;
  }

  commits : Commits l s T
  commits = elim (zero_or_pos l.lh.n) [ inl z ↦ commit_none z | inr p ↦ commit_some p ]

-- With the guard as it is, `write_log` panics at its first block.
log_loop-refused :
    (start n : ℕ) (bs : List ℕ) (s : Bufs)
    → ltb 0 n ≡ true
    → log_loop true start n 0 bs s ≡ panicked
unfolding log_loop log_one
log_loop-refused start zero bs s e = absurd (ground (arith, e))
log_loop-refused start (suc n) [] s e = refl
log_loop-refused start (suc n) (b ∷ bs) s e = elim (Bool-cases (leb (2 ^ 32) (start + 0 + 1))) [
  | inl o ↦ rw o refl
  | inr o ↦ rw o refl
]

commit-refused :
    (l : Log) (s : Bufs) → commit true l s ≡ (if ltb 0 l.lh.n then panicked else done (l, s))
unfolding commit write_log
commit-refused l s = elim (Bool-cases (ltb 0 l.lh.n)) [
  | inl e ↦ rw e (rw (log_loop-refused l.start l.lh.n l.lh.block s e))
  | inr e ↦ rw e
]

-- With the guard as it is, `commit` of a well-formed log with a block in it panics, and of an empty
-- one does nothing. With the guard repaired it comes to an end without a panic, leaves an empty log
-- and every logged block in its home with its cached contents, the other home blocks unchanged. If
-- the machine stops after any of its disk writes, recovery from that disk comes to an end with an
-- empty log and either all of the old home blocks or all of the new ones, and a crash during that
-- recovery leaves a disk that leads to the same.
pub commit_atomic :
    (l : Log) (s : Bufs)
    → Ready l s
    → (commit true l s ≡ (if ltb 0 l.lh.n then panicked else done (l, s))) × Commits l s (after l s)
commit_atomic l s r = (commit-refused l s, commits l s r)
