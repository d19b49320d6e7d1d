-- ===== src/Once/Tests.antt =====
-- A run of `Once`, and the theorem at it.
use octox.Base.{◌≤◌, ◌≡◌, ◌≢◌, refl, Bool, true, false, List, [], ◌∷◌, ◌++◌, panicked}
use octox.Once.Defs.{
  incomplete, running, Pc, outside, entering, looked, initializing, exchange, round, step, System,
  by, Reach, start, later, new,
}
use octox.Once.Single.{total, initial, Reach-single}

abbrev one_runs : System
one_runs = record {
  once = record { state = running; runs = 0 };
  threads = initializing ∷ outside ∷ [];
}

initial-one_runs : Reach (initial 2) one_runs
unfolding step round exchange
initial-one_runs =
    later {t = record { once = new; threads = looked incomplete ∷ outside ∷ [] }}
      (later {t = record { once = new; threads = entering ∷ outside ∷ [] }}
        (later start (by [] outside entering (outside ∷ []) false true refl refl refl))
        (by [] entering (looked incomplete) (outside ∷ []) false true refl refl refl))
      (by [] (looked incomplete) initializing (outside ∷ []) false true refl refl refl)

Reach-single_example :
    (total one_runs.threads ≤ 1)
    × (one_runs.once.runs ≤ 1)
    × ((xs : List Pc) (p : Pc) (ys : List Pc) (force ok : Bool)
        → one_runs.threads ≡ xs ++ (p ∷ ys)
        → step force ok one_runs.once p ≢ panicked)
Reach-single_example = Reach-single 2 one_runs initial-one_runs
