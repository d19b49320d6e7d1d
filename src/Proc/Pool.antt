-- ===== src/Proc/Pool.antt =====
-- How the operations on the table act on the process at an index.
use octox.Base.{
  ℕ, zero, suc, ◌+◌, ◌≡◌, ◌≢◌, refl, ap, ◌∙◌, Bool, true, false, List, [], ◌∷◌, ◌==◌, if◌then◌else◌,
  arith, Option, none, some, inl, inr, Bool-cases, get_elem?,
}
use octox.Proc.Defs.{Proc, runnable, wake, wake_all, wakeup, change, is_child, child_at, adopt}

zero_not_suc : (j : ℕ) → (0 == suc j) ≡ false
zero_not_suc j = ground arith

suc_not_zero : (j : ℕ) → (suc j == 0) ≡ false
suc_not_zero j = ground arith

pub get-change :
    (i : ℕ) (f : Proc → Proc) (ps : List Proc) (j : ℕ) (p : Proc)
    → get_elem? ps j ≡ some p
    → get_elem? (change i f ps) j ≡ some (if i == j then f p else p)
get-change i f [] j p h = absurd (ground arith)
get-change zero f (q ∷ ps) zero p h = let same : q ≡ p = ground arith in ap (λ r. some (f r)) same
get-change zero f (q ∷ ps) (suc j) p h = rw (zero_not_suc j) h
get-change (suc i) f (q ∷ ps) zero p h = rw (suc_not_zero i) h
get-change (suc i) f (q ∷ ps) (suc j) p h = rw (get-change i f ps j p h) (ground arith)

pub get-wake_all :
    (me i chan : ℕ) (ps : List Proc) (j : ℕ) (p : Proc)
    → get_elem? ps j ≡ some p
    → get_elem? (wake_all me i chan ps) j ≡ some (if (i + j) == me then p else wake chan p)
unfolding wake_all
get-wake_all me i chan [] j p h = absurd (ground arith)
get-wake_all me i chan (q ∷ ps) zero p h =
    let same : q ≡ p = ground arith in let here : i + 0 ≡ i = omega arith in rw (same, here) refl
get-wake_all me i chan (q ∷ ps) (suc j) p h =
    let there : i + suc j ≡ suc i + j = omega arith in
    rw there (get-wake_all me (suc i) chan ps j p h)

pub get-wakeup :
    (me chan : ℕ) (ps : List Proc) (j : ℕ) (p : Proc)
    → get_elem? ps j ≡ some p
    → get_elem? (wakeup (some me) chan ps) j ≡ some (if j == me then p else wake chan p)
unfolding wakeup
get-wakeup me chan ps j p h =
    let start : 0 + j ≡ j = omega arith in
    get-wake_all me 0 chan ps j p h ∙ ap (λ k. some (if k == me then p else wake chan p)) start

-- Children.
is_child-if :
    (x : ℕ) (b : Bool) (p q : Proc)
    → is_child x p ≡ is_child x q
    → is_child x (if b then p else q) ≡ is_child x q
is_child-if x true p q h = h
is_child-if x false p q h = refl

is_child-wake : (x chan : ℕ) (p : Proc) → is_child x (wake chan p) ≡ is_child x p
unfolding wake
is_child-wake x chan p = is_child-if x _ (record p { state = runnable }) p refl

is_child-adopt : (me init : ℕ) (p : Proc) → init ≢ me → is_child me (adopt me init p) ≡ false
is_child-adopt me init p n = elim (Bool-cases (is_child me p)) [
  | inl t ↦ rw t (ground (arith, n))
  | inr t ↦ rw (t, t) refl
]

child_at-wake_all :
    (me x i chan : ℕ) (ps : List Proc) (j : ℕ)
    → child_at x j (wake_all me i chan ps) ≡ child_at x j ps
unfolding wake_all
child_at-wake_all me x i chan [] j = refl
child_at-wake_all me x i chan (p ∷ ps) zero = elim (Bool-cases (i == me)) [
  | inl t ↦ rw t refl
  | inr t ↦ rw t (is_child-wake x chan p)
]
child_at-wake_all me x i chan (p ∷ ps) (suc j) = child_at-wake_all me x (suc i) chan ps j

pub child_at-wakeup :
    (o : Option ℕ) (x chan : ℕ) (ps : List Proc) (j : ℕ)
    → child_at x j (wakeup o chan ps) ≡ child_at x j ps
unfolding wakeup
child_at-wakeup none x chan ps j = refl
child_at-wakeup (some me) x chan ps j = child_at-wake_all me x 0 chan ps j

-- A change that keeps the parent.
pub child_at-change :
    (x i : ℕ) (f : Proc → Proc)
    → ((p : Proc) → is_child x (f p) ≡ is_child x p)
    → (ps : List Proc) (j : ℕ) → child_at x j (change i f ps) ≡ child_at x j ps
child_at-change x i f same [] j = refl
child_at-change x zero f same (p ∷ ps) zero = same p
child_at-change x zero f same (p ∷ ps) (suc j) = refl
child_at-change x (suc i) f same (p ∷ ps) zero = refl
child_at-change x (suc i) f same (p ∷ ps) (suc j) = child_at-change x i f same ps j

pub child_at-adopt :
    (me init : ℕ)
    → init ≢ me
    → (i : ℕ) (ps : List Proc) (j : ℕ)
    → child_at me j (change i (adopt me init) ps) ≡ (if i == j then false else child_at me j ps)
child_at-adopt me init n i [] j = ground arith
child_at-adopt me init n zero (p ∷ ps) zero = is_child-adopt me init p n
child_at-adopt me init n zero (p ∷ ps) (suc j) = rw (zero_not_suc j) refl
child_at-adopt me init n (suc i) (p ∷ ps) zero = rw (suc_not_zero i) refl
child_at-adopt me init n (suc i) (p ∷ ps) (suc j) = child_at-adopt me init n i ps j ∙ ground arith
