-- ===== src/Proc/Wakeup.antt =====
-- Sleep and wakeup, the kill of a process, and the allocation of a process.
use octox.Base.{
  ℕ, zero, suc, ◌<◌, ◌≡◌, ◌≢◌, refl, ap, ◌∙◌, Bool, true, false, ◌&&◌, List, [], ◌∷◌, ◌==◌,
  if◌then◌else◌, arith, Option, none, some, inl, inr, Bool-cases, get_elem?,
}
use octox.Proc.Defs.{
  Proc, unused, sleeping, runnable, is, change, wake, wakeup, sleep, fall_asleep, kill, hit,
  alloc_proc,
}
use octox.Proc.Pool.{get-change, get-wakeup}

wake-asleep :
    (chan : ℕ) (p : Proc)
    → wake chan (fall_asleep chan p) ≡ record p { chan = chan; state = runnable }
unfolding wake
wake-asleep chan p = let self : (chan == chan) ≡ true = ground arith in rw self refl

-- A process that has gone to sleep on a channel can run again after a wakeup of this channel by
-- another process; and the wakeup leaves alone whatever does not sleep on the channel.
wakeup-sleep :
    (me i chan : ℕ) (ps : List Proc) (p : Proc)
    → i ≢ me
    → get_elem? ps i ≡ some p
    → (get_elem? (wakeup (some me) chan (sleep i chan ps)) i
        ≡ some (record p { chan = chan; state = runnable }))
      × ((j : ℕ) (q : Proc)
          → j ≢ i
          → get_elem? ps j ≡ some q
          → (is q.state sleeping && (q.chan == chan)) ≡ false
          → get_elem? (wakeup (some me) chan (sleep i chan ps)) j ≡ some q)
unfolding sleep wake
wakeup-sleep me i chan ps p n g =
    let self : (i == i) ≡ true = ground arith in
    let other : (i == me) ≡ false = ground (arith, n) in
    let asleep : get_elem? (sleep i chan ps) i ≡ some (fall_asleep chan p) =
      get-change i (fall_asleep chan) ps i p g ∙ rw self refl in
    (
      get-wakeup me chan _ i _ asleep ∙ rw other (ap some (wake-asleep chan p)),
      λ j q d h away.
          let apart : (i == j) ≡ false = ground (arith, d) in
          let same : get_elem? (sleep i chan ps) j ≡ some q =
            get-change i (fall_asleep chan) ps j q h ∙ rw apart refl in
          get-wakeup me chan _ j q same ∙ rw away (if_same (j == me) q),
    )
  where
    if_same : (b : Bool) (q : Proc) → Option.some (if b then q else q) ≡ some q
    if_same true q = refl
    if_same false q = refl

-- What `kill` of an identifier comes to.
abbrev KillPost : ℕ → List Proc → Option (List Proc) → Type 0
KillPost pid ps (some qs) =
    (k : ℕ) × (p : Proc) × (get_elem? ps k ≡ some p)
    × (p.pid ≡ pid)
    × (qs ≡ change k hit ps)
    × ((j : ℕ) (q : Proc) → j < k → get_elem? ps j ≡ some q → q.pid ≢ pid)
KillPost pid ps none = (j : ℕ) (q : Proc) → get_elem? ps j ≡ some q → q.pid ≢ pid

KillPost-later :
    (pid : ℕ) (p : Proc) (ps : List Proc)
    → p.pid ≢ pid
    → (r : Option (List Proc)) → KillPost pid ps r
    → KillPost pid (p ∷ ps) (elim r [ some qs ↦ some (p ∷ qs) | none ↦ none ])
KillPost-later pid p ps n (some qs) (k, q, g, e, c, before) =
    (suc k, q, g, e, ap (λ xs. p ∷ xs) c, earlier)
  where
    earlier : (j : ℕ) (r : Proc) → j < suc k → get_elem? (p ∷ ps) j ≡ some r → r.pid ≢ pid
    earlier zero r h f =
        let same : p ≡ r = ground arith in λ x. n (ap (λ (y : Proc). y.pid) same ∙ x)
    earlier (suc j) r h f = before j r (omega arith) f
KillPost-later pid p ps n none none_there = later
  where
    later : (j : ℕ) (r : Proc) → get_elem? (p ∷ ps) j ≡ some r → r.pid ≢ pid
    later zero r f = let same : p ≡ r = ground arith in λ x. n (ap (λ (y : Proc). y.pid) same ∙ x)
    later (suc j) r f = none_there j r f

-- `kill` finds the first process with the identifier, marks it as killed, makes it runnable if it
-- sleeps and leaves the others alone; it fails only when no process has the identifier.
kill-post : (pid : ℕ) (ps : List Proc) → KillPost pid ps (kill pid ps)
unfolding kill
kill-post pid [] = λ j q e. absurd (ground arith)
kill-post pid (p ∷ ps) =
    let rest = kill-post pid ps in
    elim (Bool-cases (p.pid == pid)) [
      | inl t ↦ rw (t, KillPost) (0, p, refl, ground arith, refl, λ j q h. absurd (omega arith))
      | inr t ↦ rw (t, KillPost) (KillPost-later pid p ps (ground (arith, t)) _ rest)
    ]

-- Once a process has been allocated, no second one can be, however many are unused: the next
-- allocation fails and changes nothing.
alloc_proc-once :
    (tf uvm tf' uvm' : Bool) (next next' i : ℕ) (ps : List Proc)
    → (alloc_proc tf uvm next ps).proc ≡ some i
    → alloc_proc tf' uvm' next' (alloc_proc tf uvm next ps).pool
      ≡ record { proc = none; pool = (alloc_proc tf uvm next ps).pool; next_id = next' }
unfolding alloc_proc
alloc_proc-once tf uvm tf' uvm' next next' i [] h = absurd (ground arith)
alloc_proc-once tf uvm tf' uvm' next next' i (p ∷ ps) h = elim (Bool-cases (is p.state unused)) [
  | inl t ↦ elim (Bool-cases (tf && uvm)) [
    | inl q ↦ rw (t, q) refl
    | inr q ↦ absurd (ground (arith, rw (t, q) at h))
  ]
  | inr t ↦ absurd (ground (arith, rw t at h))
]
