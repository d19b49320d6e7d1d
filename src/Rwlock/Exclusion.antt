-- ===== src/Rwlock/Exclusion.antt =====
-- Mutual exclusion, for all threads and any interleaving.
use octox.Base.{
  ℕ, zero, suc, ◌+◌, ◌≤◌, ◌<◌, ◌≡◌, ◌≢◌, refl, sym, ap, ◌∙◌, Bool, true, false, List, ◌∷◌, ◌++◌,
  arith, replicate, panicked,
}
use octox.Rwlock.Defs.{Pc, idle, Wish, step, System, Step, by, Reach, start, later}
use octox.Rwlock.Agree.{
  counts, claims, reads, writes, total, total-append, reads≤counts, writes≤claims, bit, Agrees,
  Goes, lock, step-Goes,
}

-- The lock and all its threads.
pub record IsSound (s : System) : Type 0 where
  pub counting : s.lock.rcnt ≡ total counts s.threads
  pub claiming : total claims s.threads ≤ bit s.lock.wcnt
  pub excluding : 0 < total writes s.threads → total reads s.threads ≡ 0

module _ (xs : List Pc) (ys : List Pc) where
  abbrev others : (Pc → ℕ) → ℕ
  others f = total f (xs ++ ys)

  total-one : (f : Pc → ℕ) (p : Pc) → total f (xs ++ (p ∷ ys)) ≡ f p + others f
  total-one f p = omega (arith, total-append f xs (p ∷ ys), total-append f xs ys)

  to_Agrees :
      (s : System) (p : Pc)
      → s.threads ≡ xs ++ (p ∷ ys)
      → IsSound s
      → Agrees s.lock p (others counts) (others claims) (others reads) (others writes)
  to_Agrees s p e h = record {
    counting = h.counting ∙ (ap (total counts) e ∙ total-one counts p);
    claiming = omega (arith, h.claiming, ap (total claims) e, total-one claims p);
    excluding = λ q. omega (
      arith,
      h.excluding (omega (arith, q, ap (total writes) e, total-one writes p)),
      ap (total reads) e,
      total-one reads p,
    );
  }

  from_Agrees :
      (s : System) (p : Pc)
      → s.threads ≡ xs ++ (p ∷ ys)
      → Agrees s.lock p (others counts) (others claims) (others reads) (others writes)
      → IsSound s
  from_Agrees s p e a = record {
    counting = a.counting ∙ sym (ap (total counts) e ∙ total-one counts p);
    claiming = omega (arith, a.claiming, ap (total claims) e, total-one claims p);
    excluding = λ q. omega (
      arith,
      a.excluding (omega (arith, q, ap (total writes) e, total-one writes p)),
      ap (total reads) e,
      total-one reads p,
    );
  }

  goes :
      (s : System) (p : Pc) (w : Wish)
      → s.threads ≡ xs ++ (p ∷ ys)
      → IsSound s
      → Goes (others counts) (others claims) (others reads) (others writes) (step s.lock p w)
  goes s p w e h =
      step-Goes (others counts) (others claims) (others reads) (others writes)
        (reads≤counts (xs ++ ys)) (writes≤claims (xs ++ ys)) s.lock.rcnt s.lock.wcnt p w
        (to_Agrees s p e h)

Step-IsSound : (s t : System) → Step s t → IsSound s → IsSound t
Step-IsSound s t (by xs p q ys w e r f) h =
    from_Agrees xs ys t q f (rw (r, Goes) at (goes xs ys s p w e h))

pub Reach-IsSound : (s t : System) → IsSound s → Reach s t → IsSound t
Reach-IsSound s t h start = h
Reach-IsSound s t h (later {t = m} r x) = Step-IsSound m t x (Reach-IsSound s m h r)

idle-total : (f : Pc → ℕ) → f idle ≡ 0 → (n : ℕ) → total f (replicate n idle) ≡ 0
idle-total f z zero = refl
idle-total f z (suc n) = omega (arith, z, idle-total f z n)

abbrev pub initial : ℕ → System
initial n = record { lock = lock 0 false; threads = replicate n idle }

pub initial-IsSound : (n : ℕ) → IsSound (initial n)
initial-IsSound n = record {
  counting = sym (idle-total counts refl n);
  claiming = omega (arith, idle-total claims refl n);
  excluding = λ h. idle-total reads refl n;
}

-- Whatever the threads of a new lock do, in any interleaving of their atomic steps: at most one holds a
-- writer's guard, none holds a reader's guard while one does, and no assertion of a guard's
-- drop fails, whichever thread goes on.
pub Reach-exclusive :
    (n : ℕ) (s : System)
    → Reach (initial n) s
    → (total writes s.threads ≤ 1)
      × (0 < total writes s.threads → total reads s.threads ≡ 0)
      × ((xs : List Pc) (p : Pc) (ys : List Pc) (w : Wish)
          → s.threads ≡ xs ++ (p ∷ ys)
          → step s.lock p w ≢ panicked)
Reach-exclusive n s r =
    let h = Reach-IsSound (initial n) s (initial-IsSound n) r in
    (
      omega (arith, writes≤claims s.threads, h.claiming, bit≤1 s.lock.wcnt),
      h.excluding,
      λ xs p ys w e x. rw (x, Goes) at (goes xs ys s p w e h),
    )
  where
    bit≤1 : (b : Bool) → bit b ≤ 1
    bit≤1 true = omega arith
    bit≤1 false = omega arith
