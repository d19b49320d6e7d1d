-- ===== src/Log/Defs.antt =====
-- kernel/log.rs: the log's state and operations. A block is its 256 words of 32 bits, so that the
-- header is read from and written over the front of a block as `align_to` does for `LogHeader`.
-- `Bufs` is what kernel/bio.rs promises its callers for the log's device: `read` gives the contents
-- that the buffer holds, and a pinned buffer stays in the cache.
-- `refuses` is the test of BufGuard::write (kernel/bio.rs), which panics when the caller holds the
-- buffer's lock. Every call of it in log.rs is made on the guard that `read` has just given, so the
-- code as it stands is the case `true`; `false` is the guard that the message "Must be locked" asks
-- for, which lets a holder write.
-- `history` records, newest first, the disk after each block write: where a crash can leave it.
use octox.Base.{
  ℕ, zero, suc, ◌+◌, ◌-◌, ◌*◌, ◌^◌, Bool, true, false, ◌||◌, List, [], ◌∷◌, ◌++◌, ◌==◌, ltb, leb,
  if◌then◌else◌, get_or, set, take, drop, Option, none, some, Outcome, done, panicked, ◌>>=◌,
  update,
}

-- param.rs: LOGSIZE and MAXOPBLOCKS.
abbrev pub max_op_blocks : ℕ
max_op_blocks = 10

abbrev pub log_size : ℕ
log_size = 30

abbrev pub Block : Type 0
Block = List ℕ

abbrev pub Disk : Type 0
Disk = ℕ → Block

-- struct LogHeader
pub record LogHeader : Type 0 where
  pub n : ℕ
  pub block : List ℕ

-- struct Log
pub record Log : Type 0 where
  pub start : ℕ
  pub size : ℕ
  pub dev : ℕ
  pub outstanding : ℕ
  pub committing : Bool
  pub lh : LogHeader

pub record Bufs : Type 0 where
  pub cache : ℕ → Block
  pub disk : Disk
  pub pins : ℕ → ℕ
  pub history : List Disk

abbrev pub fill : ℕ → Block → Bufs → Bufs
fill b w s = record s { cache = update s.cache b w }

abbrev pub stored : ℕ → Bufs → Bufs
stored b s = record s {
  disk = update s.disk b (s.cache b);
  history = update s.disk b (s.cache b) ∷ s.history;
}

-- BufGuard::write by the holder of the buffer: the panic "bwrite", or the write by the disk driver.
abbrev pub bwrite : (refuses : Bool) → ℕ → Bufs → Outcome Bufs
bwrite refuses b s = if refuses then panicked else done (stored b s)

abbrev pub pin : ℕ → Bufs → Bufs
pin b s = record s { pins = update s.pins b (s.pins b + 1) }

abbrev pub unpin : ℕ → Bufs → Bufs
unpin b s = record s { pins = update s.pins b (s.pins b - 1) }

-- The machine after a power loss: only the disk is left.
abbrev pub reboot : Disk → Bufs
reboot d = record { cache = d; disk = d; pins = λ _. 0; history = [] }

unfoldable pub decode : Block → LogHeader
decode w = record { n = get_or w 0 0; block = take log_size (drop 1 w) }

unfoldable pub encode : LogHeader → Block → Block
encode h w = h.n ∷ (h.block ++ drop (log_size + 1) w)

unfoldable pub read_head : Log → Bufs → Log
read_head l s = record l { lh = decode (s.cache l.start) }

unfoldable pub write_head : Bool → Log → Bufs → Outcome Bufs
write_head refuses l s = bwrite refuses l.start (fill l.start (encode l.lh (s.cache l.start)) s)

-- One round of `install_trans`: log block `from` goes to its home `to`.
unfoldable pub install_one : Bool → Bool → (from to : ℕ) → Bufs → Outcome Bufs
install_one refuses recovering from to s = do
  s' ← bwrite refuses to (fill to (s.cache from) s)
  done (if recovering then s' else unpin to s')

-- The rounds left, the round's `tail`, and `block[tail..]`: past its end the index panics, and so
-- does a block number of 32 bits that overflows.
unfoldable pub install_loop : Bool → Bool → ℕ → (rounds tail : ℕ) → List ℕ → Bufs → Outcome Bufs
install_loop refuses recovering start zero tail bs s = done s
install_loop refuses recovering start (suc k) tail [] s = panicked
install_loop refuses recovering start (suc k) tail (b ∷ bs) s =
    if leb (2 ^ 32) (start + tail + 1) then panicked else (do
      s' ← install_one refuses recovering (start + tail + 1) b s
      install_loop refuses recovering start k (suc tail) bs s')

unfoldable pub install_trans : Bool → Log → Bool → Bufs → Outcome Bufs
install_trans refuses l recovering s = install_loop refuses recovering l.start l.lh.n 0 l.lh.block s

-- One round of `write_log`: cached block `from` goes to log block `to`.
unfoldable pub log_one : Bool → (from to : ℕ) → Bufs → Outcome Bufs
log_one refuses from to s = bwrite refuses to (fill to (s.cache from) s)

unfoldable pub log_loop : Bool → ℕ → (rounds tail : ℕ) → List ℕ → Bufs → Outcome Bufs
log_loop refuses start zero tail bs s = done s
log_loop refuses start (suc k) tail [] s = panicked
log_loop refuses start (suc k) tail (b ∷ bs) s =
    if leb (2 ^ 32) (start + tail + 1)
    then panicked
    else (do s' ← log_one refuses b (start + tail + 1) s; log_loop refuses start k (suc tail) bs s')

unfoldable pub write_log : Bool → Log → Bufs → Outcome Bufs
write_log refuses l s = log_loop refuses l.start l.lh.n 0 l.lh.block s

abbrev pub cleared : Log → Log
cleared l = record l { lh = record l.lh { n = 0 } }

unfoldable pub commit : Bool → Log → Bufs → Outcome (Log × Bufs)
commit refuses l s =
    if ltb 0 l.lh.n
    then (do
      s1 ← write_log refuses l s
      s2 ← write_head refuses l s1
      s3 ← install_trans refuses l false s2
      s4 ← write_head refuses (cleared l) s3
      done (cleared l, s4))
    else done (l, s)

unfoldable pub recover : Bool → Log → Bufs → Outcome (Log × Bufs)
recover refuses l s = do
  s1 ← install_trans refuses (read_head l s) true s
  s2 ← write_head refuses (cleared (read_head l s)) s1
  done (cleared (read_head l s), s2)

-- Log::new, from the super block's `logstart` and `nlog`; `recover` is its last call.
unfoldable pub new : Bool → (logstart nlog dev : ℕ) → Bufs → Outcome (Log × Bufs)
new refuses logstart nlog dev s =
    recover refuses
      (record {
        start = logstart;
        size = nlog;
        dev = dev;
        outstanding = 0;
        committing = false;
        lh = record { n = 0; block = [] };
      })
      s

-- One pass of the loop of `begin_op`: `none` is a sleep, after which the caller tests again.
unfoldable pub begin_op : Log → Option Log
begin_op l =
    if l.committing
    then none
    else (if ltb log_size (l.lh.n + (l.outstanding + 1) * max_op_blocks)
        then none
        else some (record l { outstanding = l.outstanding + 1 }))

-- The part of `end_op` under the lock: whether the caller now commits. The subtraction panics at 0.
unfoldable pub end_op_locked : Log → Outcome (Log × Bool)
end_op_locked l =
    if l.outstanding == 0
    then panicked
    else (if l.committing
        then panicked
        else (if l.outstanding == 1
            then done (record l { outstanding = 0; committing = true }, true)
            else done (record l { outstanding = l.outstanding - 1 }, false)))

-- The rest of `end_op`, when it commits.
unfoldable pub end_op_commit : Bool → Log → Bufs → Outcome (Log × Bufs)
end_op_commit refuses l s = do
  (l', s') ← commit refuses l s
  done (record l' { committing = false }, s')

unfoldable pub absorbed : ℕ → ℕ → List ℕ → Outcome Bool
absorbed blockno zero bs = done false
absorbed blockno (suc k) [] = panicked
absorbed blockno (suc k) (b ∷ bs) =
    let rest = absorbed blockno k bs in if b == blockno then done true else rest

abbrev pub append : ℕ → Log → Log
append blockno l = record l {
  lh = record l.lh { n = l.lh.n + 1; block = set l.lh.block l.lh.n blockno };
}

-- `write` of a locked buffer of block `blockno`.
unfoldable pub write : Log → ℕ → Bufs → Outcome (Log × Bufs)
write l blockno s =
    if leb log_size l.lh.n || ((l.size == 0) || leb (l.size - 1) l.lh.n)
    then panicked
    else (if l.outstanding == 0 then panicked else (do
      found ← absorbed blockno l.lh.n l.lh.block
      done (if found then (l, s) else (append blockno l, pin blockno s))))
