-- ===== src/Rwlock/Stuck.antt =====
-- What a failed attempt to write leaves behind.
use octox.Base.{
  ℕ, ◌-◌, ◌≤◌, ◌<◌, ◌≡◌, refl, ap, subst, List, ◌++◌, ltb, ◌∙◌, Bool, true, false, ◌∷◌, ◌==◌,
  if◌then◌else◌, arith, Outcome, done, panicked,
}
use octox.Rwlock.Defs.{
  RwLock, Pc, idle, counted, backing_off, reading, claimed, writing, upgrading, converting, Wish,
  to_read, to_write, to_upgrade, to_drop, read_step, write_step, upgrade_step, drop_read, step,
  System, Step, by, Reach, start, later,
}
use octox.Rwlock.Exclusion.{initial, initial-IsSound, Reach-IsSound}
use octox.Rwlock.Agree.{bit, claims, reads, writes, total, total-append, writes≤claims}

-- The words say that there is a writer, and no thread is one or is about to be.
pub record IsStuck (s : System) : Type 0 where
  pub claimed_word : s.lock.wcnt ≡ true
  pub nobody : total claims s.threads ≡ 0

-- A step of a thread that holds no claim, while the word is set.
abbrev Stays : Pc → Outcome (RwLock × Pc) → Type 0
Stays p (done (l, q)) = (l.wcnt ≡ true) × (claims q ≡ 0) × (reads q ≤ reads p)
Stays p panicked = Unit

Stays-drop :
    (n : ℕ) (l : RwLock)
    → l.wcnt ≡ true
    → Stays reading (if n == 0 then panicked else done (l, idle))
Stays-drop n l h = by_test (n == 0)
  where
    by_test : (b : Bool) → Stays reading (if b then panicked else done (l, idle))
    by_test true = tt
    by_test false = (h, refl, omega arith)

step-Stays :
    (n : ℕ) (p : Pc) (w : Wish)
    → claims p ≡ 0
    → Stays p (step (record { rcnt = n; wcnt = true }) p w)
unfolding step read_step write_step upgrade_step drop_read
step-Stays n idle to_read h = (refl, refl, omega arith)
step-Stays n idle to_write h = (refl, refl, omega arith)
step-Stays n idle to_upgrade h = (refl, refl, omega arith)
step-Stays n idle to_drop h = (refl, refl, omega arith)
step-Stays n counted w h = (refl, refl, omega arith)
step-Stays n backing_off w h = (refl, refl, omega arith)
step-Stays n reading to_upgrade h = (refl, refl, omega arith)
step-Stays n reading to_drop h = Stays-drop n (record { rcnt = n - 1; wcnt = true }) refl
step-Stays n reading to_read h = (refl, refl, omega arith)
step-Stays n reading to_write h = (refl, refl, omega arith)
step-Stays n claimed w h = absurd (omega arith)
step-Stays n writing w h = absurd (omega arith)
step-Stays n upgrading w h = absurd (omega arith)
step-Stays n converting w h = absurd (omega arith)

step-Stays_word :
    (l : RwLock) (p : Pc) (w : Wish) → l.wcnt ≡ true → claims p ≡ 0 → Stays p (step l p w)
step-Stays_word l p w e h = by_word l.wcnt e
  where
    by_word : (b : Bool) → b ≡ true → Stays p (step (record { rcnt = l.rcnt; wcnt = b }) p w)
    by_word true q = step-Stays l.rcnt p w h
    by_word false q = absurd (ground arith)

Step-IsStuck :
    (s t : System)
    → Step s t
    → IsStuck s
    → IsStuck t × (total reads t.threads ≤ total reads s.threads)
Step-IsStuck s t (by xs p q ys w e r f) h =
    let before = ap (total claims) e ∙ total-append claims xs (p ∷ ys) in
    let after = ap (total claims) f ∙ total-append claims xs (q ∷ ys) in
    let free : claims p ≡ 0 = omega (arith, h.nobody, before) in
    let (word, none_new, fewer) =
      rw (r, Stays) at (step-Stays_word s.lock p w h.claimed_word free) in
    (
      record { claimed_word = word; nobody = omega (arith, h.nobody, before, after, none_new) },
      omega (
        arith,
        ap (total reads) e,
        total-append reads xs (p ∷ ys),
        ap (total reads) f,
        total-append reads xs (q ∷ ys),
        fewer,
      ),
    )

follow :
    (s t : System)
    → IsStuck s
    → Reach s t
    → IsStuck t × (total reads t.threads ≤ total reads s.threads)
follow s t k start = (k, omega arith)
follow s t k (later {t = m} r x) =
    let (k', fewer) = follow s m k r in
    let (k'', fewer') = Step-IsStuck m t x k' in (k'', omega (arith, fewer, fewer'))

-- The state after the step of a thread that is in try_write past its exchange.
abbrev moved : System → (xs ys : List Pc) → Outcome (RwLock × Pc) → System
moved s xs ys panicked = s
moved s xs ys (done (l, q)) = record { lock = l; threads = xs ++ (q ∷ ys) }

abbrev pub after_write : System → (xs ys : List Pc) → System
after_write s xs ys = moved s xs ys (step s.lock claimed to_write)

-- The end of try_write with a reader there gives the claim up and leaves the word set.
write_step-fails : (l : RwLock) → l.wcnt ≡ true → 0 < l.rcnt → write_step l claimed ≡ done (l, idle)
unfolding write_step
write_step-fails l w r = let few : ltb l.rcnt 1 ≡ false = ground (arith, r) in rw few refl

-- In any state that the threads of a new lock reach, let one of them be in try_write past its exchange while
-- a reader is counted. Its next step fails, and from then on nobody ever gets the lock again: in
-- whatever follows, no thread has a writer's guard, the word of the writer stays set, and the
-- readers' guards only become fewer.
pub write-stuck :
    (n : ℕ) (s : System) (xs ys : List Pc) (t : System)
    → Reach (initial n) s
    → s.threads ≡ xs ++ (claimed ∷ ys)
    → 0 < s.lock.rcnt
    → Reach (after_write s xs ys) t
    → (t.lock.wcnt ≡ true)
      × (total writes t.threads ≡ 0)
      × (total reads t.threads ≤ total reads (xs ++ (idle ∷ ys)))
unfolding step
write-stuck n s xs ys t r e rd go =
    let sound = Reach-IsSound (initial n) s (initial-IsSound n) r in
    let all = ap (total claims) e ∙ total-append claims xs (claimed ∷ ys) in
    let word = set_word s.lock.wcnt sound.claiming (omega (arith, all)) in
    let rest = total-append claims xs (idle ∷ ys) in
    let claimed_once = sound.claiming in
    let bound = bit≤1 s.lock.wcnt in
    let fails = write_step-fails s.lock word rd in
    let same : after_write s xs ys ≡ record { lock = s.lock; threads = xs ++ (idle ∷ ys) } =
      rw fails refl in
    let stuck : IsStuck (record { lock = s.lock; threads = xs ++ (idle ∷ ys) }) = record {
      claimed_word = word;
      nobody = omega (arith, all, rest, claimed_once, bound);
    } in
    let (k, fewer) = follow _ t stuck (subst (λ u. Reach u t) same go) in
    (k.claimed_word, omega (arith, writes≤claims t.threads, k.nobody), fewer)
  where
    set_word : (b : Bool) → total claims s.threads ≤ bit b → 0 < total claims s.threads → b ≡ true
    set_word true e p = refl
    set_word false e p = absurd (omega (arith, e, p))

    bit≤1 : (b : Bool) → bit b ≤ 1
    bit≤1 true = omega arith
    bit≤1 false = omega arith
