-- ===== src/Once/Single.antt =====
-- At most one thread initialises, and at most one initialiser ever succeeds.
use octox.Base.{
  ℕ, zero, suc, ◌+◌, ◌≤◌, ◌≡◌, ◌≢◌, refl, ap, Bool, true, false, List, [], ◌∷◌, ◌++◌, if◌then◌else◌,
  arith, replicate, Outcome, done, panicked,
}
use octox.Once.Defs.{
  State, incomplete, poisoned, running, complete, Pc, outside, entering, looked, initializing,
  returned, ended, Once, is_completed, exchange, round, drop_guard, step, System, by, Reach, start,
  later, new,
}

abbrev pub inits : Pc → ℕ
inits initializing = 1
inits p = 0

abbrev pub total : List Pc → ℕ
total [] = 0
total (p ∷ ps) = inits p + total ps

total-append : (xs ys : List Pc) → total (xs ++ ys) ≡ total xs + total ys
total-append [] ys = omega arith
total-append (x ∷ xs) ys = omega (arith, total-append xs ys)

-- How many threads initialise, and how many initialisers have succeeded, in a state.
abbrev pub at_work : State → ℕ
at_work running = 1
at_work s = 0

abbrev pub successes : State → ℕ
successes complete = 1
successes s = 0

-- The word, one thread, and the number of the others that initialise.
pub record Agrees (o : Once) (p : Pc) (n : ℕ) : Type 0 where
  pub working : inits p + n ≡ at_work o.state
  pub succeeded : o.runs ≡ successes o.state

abbrev pub Goes : ℕ → Outcome (Once × Pc) → Type 0
Goes n (done (o, p)) = Agrees o p n
Goes n panicked = ⊥

module _ (n : ℕ) where
  abbrev word : State → ℕ → Once
  word s r = record { state = s; runs = r }

  moved : (o : Once) (p q : Pc) → inits p ≡ inits q → Agrees o p n → Agrees o q n
  moved o p q e a = record { working = omega (arith, a.working, e); succeeded = a.succeeded }

  claims :
      (seen s : State) (r : ℕ) (f : at_work seen ≡ 0) (g : successes seen ≡ 0)
      → Agrees (word s r) (looked seen) n
      → Goes n (done (exchange seen (word s r)))
  unfolding exchange
  claims incomplete incomplete r f g a = record {
    working = omega (arith, a.working);
    succeeded = a.succeeded;
  }
  claims poisoned poisoned r f g a = record {
    working = omega (arith, a.working);
    succeeded = a.succeeded;
  }
  claims incomplete poisoned r f g a = moved _ (looked incomplete) (looked poisoned) refl a
  claims incomplete running r f g a = moved _ (looked incomplete) (looked running) refl a
  claims incomplete complete r f g a = moved _ (looked incomplete) (looked complete) refl a
  claims poisoned incomplete r f g a = moved _ (looked poisoned) (looked incomplete) refl a
  claims poisoned running r f g a = moved _ (looked poisoned) (looked running) refl a
  claims poisoned complete r f g a = moved _ (looked poisoned) (looked complete) refl a
  claims running s r f g a = absurd (omega arith)
  claims complete s r f g a = absurd (omega arith)

  round-Goes :
      (force : Bool) (seen s : State) (r : ℕ)
      → Agrees (word s r) (looked seen) n
      → Goes n (done (round force seen (word s r)))
  unfolding round
  round-Goes force complete s r a = moved _ (looked complete) returned refl a
  round-Goes true poisoned s r a = claims poisoned s r refl refl a
  round-Goes false poisoned s r a = moved _ (looked poisoned) ended refl a
  round-Goes force incomplete s r a = claims incomplete s r refl refl a
  round-Goes force running s r a = moved _ (looked running) (looked s) refl a

  drop_guard-Goes :
      (ok : Bool) (s : State) (r : ℕ)
      → Agrees (word s r) initializing n
      → Goes n (drop_guard ok (word s r))
  unfolding drop_guard
  drop_guard-Goes true running r a = record {
    working = omega (arith, a.working);
    succeeded = omega (arith, a.succeeded);
  }
  drop_guard-Goes false running r a = record {
    working = omega (arith, a.working);
    succeeded = a.succeeded;
  }
  drop_guard-Goes ok incomplete r a = absurd (omega (arith, a.working))
  drop_guard-Goes ok poisoned r a = absurd (omega (arith, a.working))
  drop_guard-Goes ok complete r a = absurd (omega (arith, a.working))

  fast-Goes :
      (b : Bool) (o : Once) → Agrees o outside n → Agrees o (if b then returned else entering) n
  fast-Goes true o a = moved o outside returned refl a
  fast-Goes false o a = moved o outside entering refl a

  step-Goes : (force ok : Bool) (o : Once) (p : Pc) → Agrees o p n → Goes n (step force ok o p)
  unfolding step
  step-Goes force ok o outside a = fast-Goes (is_completed o.state) o a
  step-Goes force ok o entering a = moved o entering (looked o.state) refl a
  step-Goes force ok o (looked s) a = round-Goes force s o.state o.runs a
  step-Goes force ok o initializing a = drop_guard-Goes ok o.state o.runs a
  step-Goes force ok o returned a = a
  step-Goes force ok o ended a = a

pub record IsSound (s : System) : Type 0 where
  pub working : total s.threads ≡ at_work s.once.state
  pub succeeded : s.once.runs ≡ successes s.once.state

module _ (xs ys : List Pc) where
  total-one : (p : Pc) → total (xs ++ (p ∷ ys)) ≡ inits p + total (xs ++ ys)
  total-one p = omega (arith, total-append xs (p ∷ ys), total-append xs ys)

  goes :
      (s : System) (p : Pc) (force ok : Bool)
      → s.threads ≡ xs ++ (p ∷ ys)
      → IsSound s
      → Goes (total (xs ++ ys)) (step force ok s.once p)
  goes s p force ok e h = step-Goes (total (xs ++ ys)) force ok s.once p (record {
    working = omega (arith, h.working, ap total e, total-one p);
    succeeded = h.succeeded;
  })

  from_Agrees :
      (t : System) (q : Pc)
      → t.threads ≡ xs ++ (q ∷ ys)
      → Agrees t.once q (total (xs ++ ys))
      → IsSound t
  from_Agrees t q f a = record {
    working = omega (arith, a.working, ap total f, total-one q);
    succeeded = a.succeeded;
  }

Reach-IsSound : (s t : System) → IsSound s → Reach s t → IsSound t
Reach-IsSound s t h start = h
Reach-IsSound s t h (later {t = m} r (by xs p q ys force ok e x f)) =
    from_Agrees xs ys t q f (rw (x, Goes) at (goes xs ys m p force ok e (Reach-IsSound s m h r)))

abbrev pub initial : ℕ → System
initial n = record { once = new; threads = replicate n outside }

initial-total : (n : ℕ) → total (replicate n outside) ≡ 0
initial-total zero = refl
initial-total (suc n) = omega (arith, initial-total n)

state_bound : (s : State) → (at_work s ≤ 1) × (successes s ≤ 1)
state_bound incomplete = (omega arith, omega arith)
state_bound poisoned = (omega arith, omega arith)
state_bound running = (omega arith, omega arith)
state_bound complete = (omega arith, omega arith)

-- Whatever threads call a new `Once`, in any interleaving of their atomic steps: at most one is in its
-- initialiser, at most one initialiser ever succeeds, and the assertion in the drop of the guard does
-- not fail, whichever thread goes on.
pub Reach-single :
    (n : ℕ) (s : System)
    → Reach (initial n) s
    → (total s.threads ≤ 1)
      × (s.once.runs ≤ 1)
      × ((xs : List Pc) (p : Pc) (ys : List Pc) (force ok : Bool)
          → s.threads ≡ xs ++ (p ∷ ys)
          → step force ok s.once p ≢ panicked)
Reach-single n s r =
    let h =
      Reach-IsSound (initial n) s (record { working = initial-total n; succeeded = refl }) r in
    let (a, b) = state_bound s.once.state in
    (
      omega (arith, h.working, a),
      omega (arith, h.succeeded, b),
      λ xs p ys force ok e x. rw (x, Goes) at (goes xs ys s p force ok e h),
    )
