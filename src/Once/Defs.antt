-- ===== src/Once/Defs.antt =====
-- kernel/sync.rs: `Once`. The state word, and the atomic steps of a thread in `call_once` and
-- `call_once_force`, in any interleaving. `runs` counts the initialisers that ended with success.
use octox.Base.{
  ℕ, suc, ◌≡◌, Bool, true, false, List, ◌∷◌, ◌++◌, if◌then◌else◌, Outcome, done, panicked,
}

-- The constants IMCOMPLETE, POISONED, RUNNING and COMPLETE.
pub data State : Type 0 where
  incomplete : State
  poisoned : State
  running : State
  complete : State

-- Where a thread stands: before the fast path, before the first load of call_inner, in its loop with the
-- state that it last saw, in the initialiser, returned, or ended by the panic on poison.
pub data Pc : Type 0 where
  outside : Pc
  entering : Pc
  looked : State → Pc
  initializing : Pc
  returned : Pc
  ended : Pc

pub record Once : Type 0 where
  pub state : State
  pub runs : ℕ

-- Once::new
abbrev pub new : Once
new = record { state = incomplete; runs = 0 }

-- is_completed
abbrev pub is_completed : State → Bool
is_completed complete = true
is_completed s = false

abbrev pub same : State → State → Bool
same incomplete incomplete = true
same poisoned poisoned = true
same running running = true
same complete complete = true
same s t = false

-- compare_exchange of the state that was seen with RUNNING.
unfoldable pub exchange : State → Once → Once × Pc
exchange seen o =
    if same o.state seen then (record o { state = running }, initializing) else (o, looked o.state)

-- One round of the loop of `call_inner`.
unfoldable pub round : (force : Bool) → State → Once → Once × Pc
round force complete o = (o, returned)
round true poisoned o = exchange poisoned o
round false poisoned o = (o, ended)
round force incomplete o = exchange incomplete o
round force running o = (o, looked o.state)

-- The drop of the guard: a swap, and the assertion that the state was RUNNING.
unfoldable pub drop_guard : (ok : Bool) → Once → Outcome (Once × Pc)
drop_guard ok o = elim o.state [
  | running ↦ done (
    (if ok
        then record { state = complete; runs = suc o.runs }
        else record { state = poisoned; runs = o.runs }),
    returned,
  )
  | incomplete ↦ panicked
  | poisoned ↦ panicked
  | complete ↦ panicked
]

-- The next atomic step of a thread; `ok` is whether its initialiser succeeds.
unfoldable pub step : (force ok : Bool) → Once → Pc → Outcome (Once × Pc)
step force ok o outside = done (o, (if is_completed o.state then returned else entering))
step force ok o entering = done (o, looked o.state)
step force ok o (looked s) = done (round force s o)
step force ok o initializing = drop_guard ok o
step force ok o returned = done (o, returned)
step force ok o ended = done (o, ended)

pub record System : Type 0 where
  pub once : Once
  pub threads : List Pc

pub data Step (s t : System) : Type 0 where
  by :
      (xs : List Pc) (p q : Pc) (ys : List Pc) (force ok : Bool)
      → s.threads ≡ xs ++ (p ∷ ys)
      → step force ok s.once p ≡ done (t.once, q)
      → t.threads ≡ xs ++ (q ∷ ys)
      → Step s t

pub data Reach (s : System) : System → Type 0 where
  start : Reach s s
  later : {t u : System} → Reach s t → Step t u → Reach s u
