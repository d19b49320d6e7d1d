-- ===== src/Rwlock/Agree.antt =====
-- What a thread's step does to the agreement between the words of the lock and where the threads stand.
use octox.Base.{
  ℕ, ◌+◌, ◌≤◌, ◌<◌, ◌≡◌, refl, Bool, true, false, List, [], ◌∷◌, ◌++◌, ◌==◌, ltb, arith, inl, inr,
  Bool-cases, Outcome, done, panicked,
}
use octox.Rwlock.Defs.{
  RwLock, Pc, idle, counted, backing_off, reading, claimed, writing, upgrading, converting, Wish,
  to_read, to_write, to_upgrade, to_drop, read_step, write_step, upgrade_step, drop_read,
  drop_write, step, claim,
}

-- Threads that are counted in `rcnt`.
abbrev pub counts : Pc → ℕ
counts counted = 1
counts backing_off = 1
counts reading = 1
counts upgrading = 1
counts converting = 1
counts p = 0

-- Threads that hold the claim of `wcnt`.
abbrev pub claims : Pc → ℕ
claims claimed = 1
claims writing = 1
claims upgrading = 1
claims converting = 1
claims p = 0

-- Threads with a reader's guard.
abbrev pub reads : Pc → ℕ
reads reading = 1
reads upgrading = 1
reads p = 0

-- Threads with a writer's guard.
abbrev pub writes : Pc → ℕ
writes writing = 1
writes converting = 1
writes p = 0

abbrev pub total : (Pc → ℕ) → List Pc → ℕ
total f [] = 0
total f (p ∷ ps) = f p + total f ps

pub total-append : (f : Pc → ℕ) (xs ys : List Pc) → total f (xs ++ ys) ≡ total f xs + total f ys
total-append f [] ys = omega arith
total-append f (x ∷ xs) ys = omega (arith, total-append f xs ys)

pub reads≤counts : (ps : List Pc) → total reads ps ≤ total counts ps
reads≤counts [] = omega arith
reads≤counts (p ∷ ps) = omega (arith, here p, reads≤counts ps)
  where
    here : (p : Pc) → reads p ≤ counts p
    here idle = omega arith
    here counted = omega arith
    here backing_off = omega arith
    here reading = omega arith
    here claimed = omega arith
    here writing = omega arith
    here upgrading = omega arith
    here converting = omega arith

pub writes≤claims : (ps : List Pc) → total writes ps ≤ total claims ps
writes≤claims [] = omega arith
writes≤claims (p ∷ ps) = omega (arith, here p, writes≤claims ps)
  where
    here : (p : Pc) → writes p ≤ claims p
    here idle = omega arith
    here counted = omega arith
    here backing_off = omega arith
    here reading = omega arith
    here claimed = omega arith
    here writing = omega arith
    here upgrading = omega arith
    here converting = omega arith

abbrev pub bit : Bool → ℕ
bit true = 1
bit false = 0

-- The words of the lock, one thread, and the sums over the others: counted, claims, reads, writes.
pub record Agrees (l : RwLock) (p : Pc) (c k r w : ℕ) : Type 0 where
  pub counting : l.rcnt ≡ counts p + c
  pub claiming : claims p + k ≤ bit l.wcnt
  pub excluding : 0 < writes p + w → reads p + r ≡ 0

abbrev pub lock : ℕ → Bool → RwLock
lock n b = record { rcnt = n; wcnt = b }

-- A step that does not panic and after which they agree.
abbrev pub Goes : (c k r w : ℕ) → Outcome (RwLock × Pc) → Type 0
Goes c k r w (done (l, p)) = Agrees l p c k r w
Goes c k r w panicked = ⊥

module _ (c k r w : ℕ) (rc : r ≤ c) (wk : w ≤ k) where
  -- The exchange, for a thread that is or is not counted.
  claim-Goes :
      (n : ℕ) (b : Bool) (fail ok p : Pc)
      → claims p ≡ 0
      → (counts fail ≡ counts p) × (claims fail ≡ 0) × (writes fail ≡ 0) × (reads fail ≡ reads p)
      → (counts ok ≡ counts p) × (claims ok ≡ 1) × (writes ok ≡ 0) × (reads ok ≡ reads p)
      → writes p ≡ 0
      → Agrees (lock n b) p c k r w
      → Goes c k r w (claim (lock n b) fail ok)
  claim-Goes n true fail ok p z (f1, f2, f3, f4) _ y a = record {
    counting = omega (arith, a.counting, f1);
    claiming = omega (arith, a.claiming, f2, z);
    excluding = λ h. omega (arith, a.excluding (omega (arith, h, f3, y)), f4);
  }
  claim-Goes n false fail ok p z _ (f1, f2, f3, f4) y a = record {
    counting = omega (arith, a.counting, f1);
    claiming = omega (arith, a.claiming, f2, z);
    excluding = λ h. omega (arith, a.excluding (omega (arith, h, f3, y)), f4);
  }

  -- A thread that keeps its place.
  abbrev Move : ℕ → Bool → Pc → Outcome (RwLock × Pc) → Type 0
  Move n b p o = Agrees (lock n b) p c k r w → Goes c k r w o

  counted-Goes : (n : ℕ) (b : Bool) → Move n b counted (read_step (lock n b) counted)
  unfolding read_step
  counted-Goes n true a = record {
    counting = a.counting;
    claiming = a.claiming;
    excluding = λ h. a.excluding h;
  }
  counted-Goes n false a = record {
    counting = a.counting;
    claiming = a.claiming;
    excluding = λ h. absurd (omega (arith, h, a.claiming, wk));
  }

  -- The writer saw no reader.
  claimed-Goes : (n : ℕ) (b : Bool) → Move n b claimed (write_step (lock n b) claimed)
  unfolding write_step
  claimed-Goes n b a = elim (Bool-cases (ltb n 1)) [
    | inl t ↦
        rw (t, Goes)
          (record {
            counting = a.counting;
            claiming = a.claiming;
            excluding = λ h. ground (arith, t, a.counting, rc);
          })
    | inr t ↦
        rw (t, Goes)
          (record {
            counting = a.counting;
            claiming = omega (arith, a.claiming);
            excluding = λ h. a.excluding h;
          })
  ]

  upgrading-Goes : (n : ℕ) (b : Bool) → Move n b upgrading (upgrade_step (lock n b) upgrading)
  unfolding upgrade_step
  upgrading-Goes n b a = elim (Bool-cases (n == 1)) [
    | inl t ↦
        rw (t, Goes)
          (record {
            counting = a.counting;
            claiming = a.claiming;
            excluding = λ h. ground (arith, t, a.counting, rc);
          })
    | inr t ↦
        rw (t, Goes)
          (record {
            counting = a.counting;
            claiming = omega (arith, a.claiming);
            excluding = λ h. a.excluding h;
          })
  ]

  converting-Goes : (n : ℕ) (b : Bool) → Move n b converting (upgrade_step (lock n b) converting)
  unfolding upgrade_step
  converting-Goes n b a =
      let some_reader : (n == 0) ≡ false = ground (arith, a.counting) in
      rw (some_reader, Goes)
        (record {
          counting = omega (arith, a.counting);
          claiming = a.claiming;
          excluding = λ h. a.excluding h;
        })

  drop_read-Goes : (n : ℕ) (b : Bool) → Move n b reading (drop_read (lock n b))
  unfolding drop_read
  drop_read-Goes n b a =
      let some_reader : (n == 0) ≡ false = ground (arith, a.counting) in
      rw (some_reader, Goes)
        (record {
          counting = omega (arith, a.counting);
          claiming = a.claiming;
          excluding = λ h. absurd (omega (arith, h, a.excluding));
        })

  drop_write-Goes : (n : ℕ) (b : Bool) → Move n b writing (drop_write (lock n b))
  unfolding drop_write
  drop_write-Goes n false a = absurd (omega (arith, a.claiming))
  drop_write-Goes n true a = record {
    counting = a.counting;
    claiming = omega (arith, a.claiming);
    excluding = λ h. a.excluding (omega (arith, h));
  }

  idle-Goes : (n : ℕ) (b : Bool) → Move n b idle (read_step (lock n b) idle)
  unfolding read_step
  idle-Goes n b a = record {
    counting = omega (arith, a.counting);
    claiming = a.claiming;
    excluding = λ h. a.excluding h;
  }

  backing_off-Goes : (n : ℕ) (b : Bool) → Move n b backing_off (read_step (lock n b) backing_off)
  unfolding read_step
  backing_off-Goes n b a = record {
    counting = omega (arith, a.counting);
    claiming = a.claiming;
    excluding = λ h. a.excluding h;
  }

  pub step-Goes : (n : ℕ) (b : Bool) (p : Pc) (x : Wish) → Move n b p (step (lock n b) p x)
  unfolding step write_step upgrade_step
  step-Goes n b idle to_read a = idle-Goes n b a
  step-Goes n b idle to_write a =
      claim-Goes n b idle claimed idle refl (refl, refl, refl, refl) (refl, refl, refl, refl) refl a
  step-Goes n b idle to_upgrade a = a
  step-Goes n b idle to_drop a = a
  step-Goes n b counted x a = counted-Goes n b a
  step-Goes n b backing_off x a = backing_off-Goes n b a
  step-Goes n b claimed x a = claimed-Goes n b a
  step-Goes n b reading to_upgrade a =
      claim-Goes n b reading upgrading reading refl (refl, refl, refl, refl)
        (refl, refl, refl, refl) refl a
  step-Goes n b reading to_drop a = drop_read-Goes n b a
  step-Goes n b reading to_read a = a
  step-Goes n b reading to_write a = a
  step-Goes n b writing to_drop a = drop_write-Goes n b a
  step-Goes n b writing to_read a = a
  step-Goes n b writing to_write a = a
  step-Goes n b writing to_upgrade a = a
  step-Goes n b upgrading x a = upgrading-Goes n b a
  step-Goes n b converting x a = converting-Goes n b a
