-- ===== src/Lock/Spin.antt =====
-- The spin lock under any interleaving of the steps of the processors.
use octox.Base.{
  ℕ, ◌≡◌, refl, sym, subst, ◌∙◌, Bool, true, false, ◌&&◌, ◌==◌, none, some, arith, update, inl, inr,
  Bool-cases, Outcome, done, panicked,
}
use octox.Lock.Defs.{
  Word, Pc, off, spinning, guarded, Wish, to_lock, to_drop, holding, claim, lock_call, unlock,
  spin_step,
}

pub record Cpus : Type 0 where
  pub word : Word
  pub at : ℕ → Pc

abbrev pub is_guarded : Pc → Bool
is_guarded off = false
is_guarded spinning = false
is_guarded guarded = true

abbrev pub wants : Wish → Bool
wants to_lock = true
wants to_drop = false

pub data Step : Cpus → Cpus → Type 0 where
  by :
      {s : Cpus} (c : ℕ) (w : Wish) (next : Word) (p : Pc)
      → spin_step s.word c (s.at c) w ≡ done (next, p)
      → Step s (record { word = next; at = update s.at c p })

pub data Reach : Cpus → Cpus → Type 0 where
  start : {s : Cpus} → Reach s s
  later : {s t u : Cpus} → Reach s t → Step t u → Reach s u

abbrev pub unlocked : Cpus
unlocked = record { word = none; at = λ c. off }

-- The word says which processor has the guard.
abbrev pub Told : Cpus → Type 0
Told s = (c : ℕ) → is_guarded (s.at c) ≡ holding s.word c

-- A step of a processor whose word says what it should, seen by every processor.
abbrev Tells : Word → (c : ℕ) → Outcome (Word × Pc) → Type 0
Tells w c panicked = Unit
Tells w c (done (next, p)) =
    (is_guarded p ≡ holding next c) × ((d : ℕ) → (c == d) ≡ false → holding next d ≡ holding w d)

spin_step-Tells :
    (w : Word) (c : ℕ) (p : Pc) (wish : Wish)
    → is_guarded p ≡ holding w c
    → Tells w c (spin_step w c p wish)
unfolding spin_step lock_call unlock claim holding
spin_step-Tells none c off to_lock h = (refl, λ d n. refl)
spin_step-Tells (some e) c off to_lock h = rw (sym h, Tells) (h, λ d n. refl)
spin_step-Tells w c off to_drop h = (h, λ d n. refl)
spin_step-Tells none c spinning wish h = (ground arith, λ d n. n)
spin_step-Tells (some e) c spinning wish h = (h, λ d n. refl)
spin_step-Tells w c guarded to_lock h = rw (sym h, Tells) tt
spin_step-Tells none c guarded to_drop h = absurd (ground (arith, h))
spin_step-Tells (some e) c guarded to_drop h = rw (sym h, Tells) (refl, λ d n. ground (arith, h, n))

Step-Told : (s t : Cpus) → Step s t → Told s → Told t
Step-Told s t (by c w next p r) h =
    let (me, others) = subst (Tells s.word c) r (spin_step-Tells s.word c (s.at c) w (h c)) in
    λ d. elim (Bool-cases (c == d)) [
      | inl e ↦ rw e (subst (λ x. is_guarded p ≡ holding next x) (ground (arith, e)) me)
      | inr e ↦ rw e (h d ∙ sym (others d e))
    ]

Reach-Told : (s t : Cpus) → Told s → Reach s t → Told t
Reach-Told s t h start = h
Reach-Told s t h (later {t = m} r x) = Step-Told m t x (Reach-Told s m h r)

-- Whether the next step of a processor panics.
abbrev pub panics : Outcome (Word × Pc) → Bool
panics panicked = true
panics (done r) = false

-- Whatever processors do with a spin lock that nobody holds at first, in any interleaving of their steps: no
-- two have its guard, and a step panics exactly when a processor that has the guard takes the lock
-- again, so that no drop of a guard fails its assertion.
Reach-guarded :
    (s : Cpus)
    → Reach unlocked s
    → ((c d : ℕ) → is_guarded (s.at c) ≡ true → is_guarded (s.at d) ≡ true → c ≡ d)
      × ((c : ℕ) (w : Wish)
          → panics (spin_step s.word c (s.at c) w) ≡ (is_guarded (s.at c) && wants w))
unfolding spin_step lock_call unlock claim holding
Reach-guarded s r =
    let h = Reach-Told unlocked s (λ c. refl) r in
    (
      λ c d a b. same s.word c d (sym (h c) ∙ a) (sym (h d) ∙ b),
      λ c w. exact s.word c (s.at c) w (h c),
    )
  where
    same : (w : Word) (c d : ℕ) → holding w c ≡ true → holding w d ≡ true → c ≡ d
    same none c d a b = absurd (ground (arith, a))
    same (some e) c d a b = ground (arith, a, b)

    exact :
        (w : Word) (c : ℕ) (p : Pc) (wish : Wish)
        → is_guarded p ≡ holding w c
        → panics (spin_step w c p wish) ≡ (is_guarded p && wants wish)
    exact none c off to_lock h = refl
    exact (some e) c off to_lock h = rw (sym h, panics) refl
    exact w c off to_drop h = refl
    exact none c spinning wish h = refl
    exact (some e) c spinning wish h = refl
    exact w c guarded to_lock h = rw (sym h, panics) refl
    exact w c guarded to_drop h = rw (sym h, panics) refl
