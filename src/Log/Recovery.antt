-- ===== src/Log/Recovery.antt =====
-- Installing a transaction, and what `recover` makes of a disk after a crash.
use octox.Base.{
  ◌^◌, ◌<◌, leb, ℕ, zero, suc, ◌+◌, ◌≤◌, ◌≡◌, refl, ap, ◌⊎◌, inl, inr, Bool, true, false, List, [],
  ◌∷◌, arith, All, update, Outcome, done, panicked, fun_ext, Bool-cases, ltb, if◌then◌else◌,
}
use octox.Log.Defs.{
  Block, Disk, LogHeader, Log, Bufs, log_size, decode, encode, read_head, write_head, install_one,
  install_loop, install_trans, cleared, recover, reboot, fill, stored, unpin,
}
use octox.Log.Blocks.{Home, listed, Firsts, Firsts-listed, Holds, Holds-Home, Clear, Committed}

-- What one round of `install_trans`, and `write_head`, leave when the guard lets its holder write.
unfoldable pub one_installed : Bool → (from to : ℕ) → Bufs → Bufs
one_installed recovering from to s =
    let s' = stored to (fill to (s.cache from) s) in if recovering then s' else unpin to s'

unfoldable pub wrote_head : Log → Bufs → Bufs
wrote_head l s = stored l.start (fill l.start (encode l.lh (s.cache l.start)) s)

one_installed-disk :
    (r : Bool) (from to : ℕ) (s : Bufs)
    → (one_installed r from to s).disk ≡ update s.disk to (s.cache from)
unfolding one_installed
one_installed-disk true from to s = fun_ext λ b. ground arith
one_installed-disk false from to s = fun_ext λ b. ground arith

one_installed-cache :
    (r : Bool) (from to : ℕ) (s : Bufs)
    → (one_installed r from to s).cache ≡ update s.cache to (s.cache from)
unfolding one_installed
one_installed-cache true from to s = refl
one_installed-cache false from to s = refl

one_installed-history :
    (r : Bool) (from to : ℕ) (s : Bufs)
    → (one_installed r from to s).history ≡ update s.disk to (s.cache from) ∷ s.history
unfolding one_installed
one_installed-history true from to s = ap (λ d. d ∷ s.history) (fun_ext λ b. ground arith)
one_installed-history false from to s = ap (λ d. d ∷ s.history) (fun_ext λ b. ground arith)

-- What an installation leaves: the home blocks are those of `T`, `P` holds, and `H` held all along.
pub record Installed (P H : Disk → Type 0) (start : ℕ) (T : Disk) (m : Outcome Bufs) : Type 0 where
  pub result : Bufs
  pub returns : m ≡ done result
  pub home : (b : ℕ) → Home start b → result.disk b ≡ T b
  pub now : P result.disk
  pub past : All H result.history

module _ (P H : Disk → Type 0) (was : (d : Disk) → P d → H d) (Q : ℕ → Type 0)
    (keep : (d : Disk) (b : ℕ) (w : Block) → Q b → P d → P (update d b w)) (start : ℕ) (T : Disk)
    (out : (b : ℕ) → Q b → Home start b) where
  pub install_loop_lem :
      (r : Bool) (k tail : ℕ) (bs : List ℕ) (s : Bufs)
      → tail + k ≤ log_size
      → start + log_size < 2 ^ 32
      → Firsts Q k bs
      → Holds T s.cache start tail k bs
      → ((b : ℕ) → Home start b → listed b k bs ≡ false → s.disk b ≡ T b)
      → P s.disk
      → All H s.history
      → Installed P H start T (install_loop false r start k tail bs s)
  unfolding install_loop install_one one_installed
  install_loop_lem r zero tail bs s fits range f e rest p h = record {
    result = s;
    returns = refl;
    home = λ b o. rest b o refl;
    now = p;
    past = h;
  }
  install_loop_lem r (suc k) tail [] s fits range f e rest p h = absurd f
  install_loop_lem r (suc k) tail (b ∷ bs) s fits range f e rest p h =
      let no_overflow : leb (2 ^ 32) (start + tail + 1) ≡ false = ground (arith, fits, range) in
      let w = s.cache (start + tail + 1) in
      let p' = keep s.disk b w f.0 p in
      rw no_overflow (
        install_loop_lem r k (suc tail) bs (one_installed r (start + tail + 1) b s) (omega arith)
          range f.1
          (rw (one_installed-cache r (start + tail + 1) b s)
            (Holds-Home T s.cache start b w (out b f.0) (suc tail) k bs (omega arith) e.1))
          (λ c o q.
            rw (one_installed-disk r (start + tail + 1) b s) (ground (arith, rest c o, e.0)))
          (rw (one_installed-disk r (start + tail + 1) b s) p')
          (rw (one_installed-history r (start + tail + 1) b s) (was _ p', h)))

-- A disk that holds `T`, or a committed transaction that leads to `T`.
abbrev pub Leads : ℕ → LogHeader → Disk → Disk → Type 0
Leads start lh T d = Clear start T d ⊎ Committed start lh T d

-- With the guard repaired, recovery from `d` comes to an end with `T` on the disk and an empty log, and a crash during it
-- leaves a disk that still leads to `T`.
pub record Recovers (l : Log) (lh : LogHeader) (T d : Disk) : Type 0 where
  pub log : Log
  pub bufs : Bufs
  pub returns : recover false l (reboot d) ≡ done (log, bufs)
  pub empty : log.lh.n ≡ 0
  pub restored : Clear l.start T bufs.disk
  pub crashes : All (Leads l.start lh T) bufs.history

pub Committed-update :
    (start : ℕ) (lh : LogHeader) (T d : Disk) (b : ℕ) (w : Block)
    → lh.n ≤ log_size
    → Home start b × (listed b lh.n lh.block ≡ true)
    → Committed start lh T d
    → Committed start lh T (update d b w)
Committed-update start lh T d b w fits q c = record {
  head = ground (arith, c.head);
  entries = Holds-Home T d start b w q.0 0 lh.n lh.block (omega arith) c.entries;
  rest = λ x o n. ground (arith, c.rest x o n);
}

-- The header with no blocks, written over any log, clears it.
pub wrote_head-Clear :
    (l : Log) (T : Disk) (s : Bufs)
    → ((b : ℕ) → Home l.start b → s.disk b ≡ T b)
    → Clear l.start T (wrote_head (cleared l) s).disk
unfolding wrote_head encode decode
wrote_head-Clear l T s h = record { head = ground arith; home = λ b o. ground (arith, h b o) }

pub wrote_head-history :
    (l : Log) (s : Bufs) → (wrote_head l s).history ≡ (wrote_head l s).disk ∷ s.history
unfolding wrote_head
wrote_head-history l s = refl

pub restored_lem :
    (l : Log) (lh : LogHeader) (T d : Disk)
    → lh.n ≤ log_size
    → l.start + log_size < 2 ^ 32
    → Firsts (Home l.start) lh.n lh.block
    → Committed l.start lh T d
    → Recovers l lh T d
unfolding recover install_trans read_head write_head wrote_head
restored_lem l lh T d fits range homes c = record {
  log = cleared (read_head l (reboot d));
  bufs = wrote_head (cleared (read_head l (reboot d))) i.result;
  returns = rw (c.head) (rw i.returns);
  empty = refl;
  restored = wrote_head-Clear (read_head l (reboot d)) T i.result i.home;
  crashes = (inl (wrote_head-Clear (read_head l (reboot d)) T i.result i.home), i.past);
}
  where
    i :
        Installed
          (Committed l.start lh T)
          (Leads l.start lh T)
          l.start
          T
          (install_loop false true l.start lh.n 0 lh.block (reboot d))
    i =
        install_loop_lem (Committed l.start lh T) (Leads l.start lh T) (λ x h. inr h) _
          (λ x b w q p. Committed-update l.start lh T x b w fits q p) l.start T (λ b q. q.0) true
          lh.n 0 lh.block (reboot d) (omega arith) range
          (Firsts-listed (Home l.start) lh.n lh.block homes) c.entries c.rest c tt

pub recover-Clear : (l : Log) (lh : LogHeader) (T d : Disk) → Clear l.start T d → Recovers l lh T d
unfolding recover install_trans read_head install_loop write_head wrote_head
recover-Clear l lh T d c = record {
  log = cleared (read_head l (reboot d));
  bufs = wrote_head (cleared (read_head l (reboot d))) (reboot d);
  returns = rw (c.head);
  empty = refl;
  restored = wrote_head-Clear (read_head l (reboot d)) T (reboot d) c.home;
  crashes = (inl (wrote_head-Clear (read_head l (reboot d)) T (reboot d) c.home), tt);
}

-- With the guard as it is, `install_trans` panics at its first block.
pub install_trans-refused :
    (l : Log) (r : Bool) (s : Bufs)
    → install_trans true l r s ≡ (if ltb 0 l.lh.n then panicked else done s)
unfolding install_trans install_loop install_one
install_trans-refused l r s = go l.lh.n l.lh.block
  where
    go :
        (n : ℕ) (bs : List ℕ)
        → install_loop true r l.start n 0 bs s ≡ (if ltb 0 n then panicked else done s)
    go zero bs = refl
    go (suc n) [] = ground arith
    go (suc n) (b ∷ bs) = elim (Bool-cases (leb (2 ^ 32) (l.start + 0 + 1))) [
      | inl o ↦ rw o (ground arith)
      | inr o ↦ rw o (ground arith)
    ]

recover-refused : (l : Log) (s : Bufs) → recover true l s ≡ panicked
unfolding recover write_head
recover-refused l s = elim (Bool-cases (ltb 0 (read_head l s).lh.n)) [
  | inl e ↦ rw (install_trans-refused (read_head l s) true s) (rw e)
  | inr e ↦ rw (install_trans-refused (read_head l s) true s) (rw e)
]

-- With the guard as it is, recovery panics on every disk. With the guard repaired, and block numbers of
-- the log below 2^32: from a disk with a
-- committed transaction, installed in part or not at all, `recover` comes to an end with the
-- transaction installed and the log empty, and a crash after any of its disk writes leaves a disk
-- that leads to the same end.
pub recover-Committed :
    (l : Log) (lh : LogHeader) (T d : Disk)
    → lh.n ≤ log_size
    → l.start + log_size < 2 ^ 32
    → Firsts (Home l.start) lh.n lh.block
    → Committed l.start lh T d
    → (recover true l (reboot d) ≡ panicked) × Recovers l lh T d
recover-Committed l lh T d fits range homes c =
    (recover-refused l (reboot d), restored_lem l lh T d fits range homes c)
