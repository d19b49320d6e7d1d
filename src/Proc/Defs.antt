-- ===== src/Proc/Defs.antt =====
-- kernel/proc.rs: the table of processes and the transitions of a process. A process is named by its
-- index in the pool; an `Arc` of a process is such an index, and the channel of a process that waits
-- for its children, the address of its `Proc`, is given by the parameter `addr`. Each operation is
-- what one processor does under the locks that it takes; page tables and files are left out, and
-- what they answer is an argument.
use octox.Base.{
  ℕ, zero, suc, Bool, true, false, not, ◌&&◌, ◌||◌, List, [], ◌∷◌, ◌==◌, if◌then◌else◌, Option,
  none, some, length, Outcome, done, panicked,
}

-- enum ProcState
pub data ProcState : Type 0 where
  unused : ProcState
  used : ProcState
  sleeping : ProcState
  runnable : ProcState
  running : ProcState
  zombie : ProcState

abbrev pub code : ProcState → ℕ
code unused = 0
code used = 1
code sleeping = 2
code runnable = 3
code running = 4
code zombie = 5

abbrev pub is : ProcState → ProcState → Bool
is s t = code s == code t

-- struct ProcInner, with the parent of the process and the size of its memory.
pub record Proc : Type 0 where
  pub state : ProcState
  pub chan : ℕ
  pub killed : Bool
  pub xstate : ℕ
  pub pid : ℕ
  pub parent : Option ℕ
  pub sz : ℕ

-- ProcInner::new
abbrev pub new : Proc
new = record {
  state = unused;
  chan = 0;
  killed = false;
  xstate = 0;
  pid = 0;
  parent = none;
  sz = 0;
}

-- free_proc
unfoldable pub free_proc : Proc → Proc
free_proc p = record p {
  sz = 0;
  pid = 0;
  parent = none;
  chan = 0;
  killed = false;
  xstate = 0;
  state = unused;
}

-- The wake of one process of the pool.
unfoldable pub wake : ℕ → Proc → Proc
wake chan p = if is p.state sleeping && (p.chan == chan) then record p { state = runnable } else p

-- The loop of `wakeup`, from the process `i` on, on a processor that runs the process `me`.
unfoldable pub wake_all : (me i chan : ℕ) → List Proc → List Proc
wake_all me i chan [] = []
wake_all me i chan (p ∷ ps) = (if i == me then p else wake chan p) ∷ wake_all me (suc i) chan ps

-- Procs::wakeup; `my_proc` is what the processor runs, if anything.
unfoldable pub wakeup : Option ℕ → ℕ → List Proc → List Proc
wakeup (some me) chan ps = wake_all me 0 chan ps
wakeup none chan ps = ps

-- Procs::kill
abbrev pub hit : Proc → Proc
hit p = record p { killed = true; state = if is p.state sleeping then runnable else p.state }

unfoldable pub kill : ℕ → List Proc → Option (List Proc)
kill pid [] = none
kill pid (p ∷ ps) =
    let rest = kill pid ps in
    if p.pid == pid then some (hit p ∷ ps) else elim rest [ some qs ↦ some (p ∷ qs) | none ↦ none ]

-- What `alloc_proc` comes to, with the next process identifier.
pub record Alloc : Type 0 where
  pub proc : Option ℕ
  pub pool : List Proc
  pub next_id : ℕ

-- Procs::alloc_proc; `tf` and `uvm` say whether a trapframe and a page table can be had.
unfoldable pub alloc_proc : (tf uvm : Bool) → ℕ → List Proc → Alloc
alloc_proc tf uvm next [] = record { proc = none; pool = []; next_id = next }
alloc_proc tf uvm next (p ∷ ps) =
    let got = record p { pid = next; state = used } in
    if is p.state unused
    then if tf && uvm
      then record { proc = some 0; pool = got ∷ ps; next_id = suc next }
      else record { proc = none; pool = free_proc got ∷ ps; next_id = suc next }
    else record { proc = none; pool = p ∷ ps; next_id = next }

-- Process::sleep, up to the switch to the scheduler, of the process `i`.
abbrev pub change : ℕ → (Proc → Proc) → List Proc → List Proc
change i f [] = []
change zero f (p ∷ ps) = f p ∷ ps
change (suc i) f (p ∷ ps) = p ∷ change i f ps

abbrev pub fall_asleep : ℕ → Proc → Proc
fall_asleep chan p = record p { chan = chan; state = sleeping }

unfoldable pub sleep : (i chan : ℕ) → List Proc → List Proc
sleep i chan ps = change i (fall_asleep chan) ps

-- What `sleep` does when the process runs again.
unfoldable pub awake : ℕ → List Proc → List Proc
awake i ps = change i (λ p. record p { chan = 0 }) ps

-- Process::yielding, up to the switch.
unfoldable pub yielding : ℕ → List Proc → List Proc
yielding i ps = change i (λ p. record p { state = runnable }) ps

-- scheduler: the look at one process, which it runs if it can.
unfoldable pub schedule : Proc → Option Proc
schedule p = if is p.state runnable then some (record p { state = running }) else none

abbrev pub is_child : ℕ → Proc → Bool
is_child me p = elim p.parent [ some i ↦ i == me | none ↦ false ]

abbrev pub adopt : (me init : ℕ) → Proc → Proc
adopt me init p = if is_child me p then record p { parent = some init } else p

-- Whether the process `i` of the pool is a child of `me`.
abbrev pub child_at : ℕ → ℕ → List Proc → Bool
child_at me i [] = false
child_at me zero (p ∷ ps) = is_child me p
child_at me (suc i) (p ∷ ps) = child_at me i ps

abbrev pub parent_of : ℕ → List Proc → Option ℕ
parent_of i [] = none
parent_of zero (p ∷ ps) = p.parent
parent_of (suc i) (p ∷ ps) = parent_of i ps

abbrev pub die : ℕ → Proc → Proc
die status p = record p { xstate = status; state = zombie }

module _ (addr : ℕ → ℕ) where
  -- Procs::reparent, for `k` processes from `i` on.
  unfoldable pub reparent_loop : (me init k i : ℕ) → List Proc → List Proc
  reparent_loop me init zero i ps = ps
  reparent_loop me init (suc k) i ps =
      reparent_loop me init k (suc i) (
        if child_at me i ps then wakeup (some me) (addr init) (change i (adopt me init) ps) else ps)

  unfoldable pub reparent : (me init : ℕ) → List Proc → List Proc
  reparent me init ps = reparent_loop me init (length ps) 0 ps

  unfoldable pub leave : (me status : ℕ) → Option ℕ → List Proc → Outcome (List Proc)
  leave me status (some pp) ps = done (change me (die status) (wakeup (some me) (addr pp) ps))
  leave me status none ps = panicked

  -- Process::exit of the process `me`, after its files are closed.
  unfoldable pub exit : (me init status : ℕ) → List Proc → Outcome (List Proc)
  exit me init status ps =
      if me == init
      then panicked
      else (let qs = reparent me init ps in leave me status (parent_of me qs) qs)

-- One scan of `wait`: the first zombie among the children, and whether there are children.
pub data Scan : Type 0 where
  reaped : (pid status : ℕ) → List Proc → Scan
  copy_failed : Scan
  nothing : (havekids : Bool) → Scan

unfoldable pub keep : Proc → Scan → Scan
keep p (reaped pid status ps) = reaped pid status (p ∷ ps)
keep p copy_failed = copy_failed
keep p (nothing h) = nothing h

-- `copyout` says whether Uvm::copyout of the status succeeds through the page table of the child with the
-- identifier, which is what the code writes through, at the address that the parent gave.
unfoldable pub scan : (copyout : ℕ → Bool) (me : ℕ) (havekids : Bool) → List Proc → Scan
scan copyout me havekids [] = nothing havekids
scan copyout me havekids (p ∷ ps) =
    let other = keep p (scan copyout me havekids ps) in
    let living = keep p (scan copyout me true ps) in
    if is_child me p
    then if is p.state zombie
      then if copyout p.pid then reaped p.pid p.xstate (free_proc p ∷ ps) else copy_failed
      else living
    else other

-- One round of the loop of `wait`: it returns, or the process sleeps and tries again.
pub data Wait : Type 0 where
  returns : Option ℕ → List Proc → Wait
  sleeps : List Proc → Wait

abbrev pub was_killed : ℕ → List Proc → Bool
was_killed i [] = false
was_killed zero (p ∷ ps) = p.killed
was_killed (suc i) (p ∷ ps) = was_killed i ps

unfoldable pub wait :
    (addr : ℕ → ℕ) (copyout : ℕ → Bool) (me : ℕ) (havekids : Bool) → List Proc → Wait
wait addr copyout me havekids ps = elim (scan copyout me havekids ps) [
  | reaped pid status qs ↦ returns (some pid) qs
  | copy_failed ↦ returns none ps
  | nothing kids ↦
      if not kids || was_killed me ps then returns none ps else sleeps (sleep me (addr me) ps)
]
