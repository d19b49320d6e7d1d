-- ===== src/Lock/Tests.antt =====
-- Runs of two processors at a spin lock, and two processes at a sleep lock of which the second sleeps.
use octox.Base.{ℕ, ◌≡◌, refl, true, [], ◌∷◌, none, some, update, panicked, ◌≢◌}
use octox.Lock.Defs.{
  off, spinning, guarded, to_lock, spin_step, lock_call, holding, claim, outside, waiting, asleep,
  inside, System, step, look,
}
use octox.Lock.Spin.{unlocked}
use octox.Lock.Spin
use octox.Lock.Sleep
use octox.Lock.Sleep.{
  has_guard, sleeps, EndsInside, run, turns, unused, Reach-guarded_asleep, waiting-inside,
}

-- Two processors are in the loop, and the first gets the lock.
first_in : Spin.Reach unlocked (record {
  word = some 0;
  at = update (update (update (λ c. off) 0 spinning) 1 spinning) 0 guarded;
})
unfolding spin_step lock_call holding claim
first_in =
    Spin.later
      (Spin.later (Spin.later Spin.start (Spin.by 0 to_lock none spinning refl))
        (Spin.by 1 to_lock none spinning refl))
      (Spin.by 0 to_lock (some 0) guarded refl)

-- The first process has the guard, and the second has gone to sleep.
abbrev slept : System
slept = record {
  info = record { locked = true; pid = 1 };
  at = update (update (update (update (λ i. outside) 1 waiting) 1 inside) 2 waiting) 2 asleep;
}

second_asleep : Sleep.Reach unused slept
unfolding step look
second_asleep =
    Sleep.later
      (Sleep.later (Sleep.later (Sleep.later Sleep.start (Sleep.by 1 _ refl)) (Sleep.by 1 _ refl))
        (Sleep.by 2 _ refl))
      (Sleep.by 2 _ refl)

Reach-guarded_asleep_example :
    ((i j : ℕ) → has_guard (slept.at i) ≡ true → has_guard (slept.at j) ≡ true → i ≡ j)
    × ((me : ℕ) → step me slept ≢ panicked)
    × ((i : ℕ) → sleeps (slept.at i) ≡ true → has_guard (slept.at 1) ≡ true)
Reach-guarded_asleep_example = Reach-guarded_asleep slept second_asleep

waiting-inside_example : EndsInside 2 (run (1 ∷ 1 ∷ 2 ∷ []) slept)
waiting-inside_example = waiting-inside slept 2 second_asleep refl
