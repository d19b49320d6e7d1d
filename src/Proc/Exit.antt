-- ===== src/Proc/Exit.antt =====
-- `exit` and `reparent`: the children go to init, and the parent learns of the end.
use octox.Base.{
  ℕ, zero, suc, ◌+◌, ◌≤◌, ◌<◌, ◌≡◌, ◌≢◌, ◌⊎◌, refl, sym, ap, ◌∙◌, false, List, [], ◌∷◌, ◌==◌, ltb,
  if◌then◌else◌, arith, some, inl, inr, Bool-cases, length, get_elem?,
}
use octox.Proc.Defs.{
  Proc, wake, wakeup, change, child_at, adopt, reparent, reparent_loop, parent_of,
}
use octox.Proc.Pool.{get-change, get-wakeup, child_at-wakeup, child_at-adopt}

child_at-bound : (x j : ℕ) (ps : List Proc) → length ps ≤ j → child_at x j ps ≡ false
child_at-bound x j [] h = refl
child_at-bound x zero (p ∷ ps) h = absurd (omega arith)
child_at-bound x (suc j) (p ∷ ps) h = child_at-bound x j ps (omega arith)

pub parent_of-get :
    (j : ℕ) (ps : List Proc) (p : Proc) → get_elem? ps j ≡ some p → parent_of j ps ≡ p.parent
parent_of-get j [] p h = absurd (ground arith)
parent_of-get zero (q ∷ ps) p h =
    let same : q ≡ p = ground arith in ap (λ (r : Proc). r.parent) same
parent_of-get (suc j) (q ∷ ps) p h = parent_of-get j ps p h

module _ (addr : ℕ → ℕ) (me init : ℕ) (n : init ≢ me) where
  abbrev round : ℕ → List Proc → List Proc
  round i ps =
      if child_at me i ps then wakeup (some me) (addr init) (change i (adopt me init) ps) else ps

  round-child_at :
      (i : ℕ) (ps : List Proc) (j : ℕ)
      → child_at me j (round i ps) ≡ (if i == j then false else child_at me j ps)
  round-child_at i ps j = elim (Bool-cases (child_at me i ps)) [
    | inl t ↦ rw t (child_at-wakeup (some me) me (addr init) _ j ∙ child_at-adopt me init n i ps j)
    | inr t ↦ rw t (elim (Bool-cases (i == j)) [
      | inl q ↦ let same : i ≡ j = ground arith in rw q (ap (λ k. child_at me k ps) (sym same) ∙ t)
      | inr q ↦ rw q refl
    ])
  ]

  reparent_loop-child_at :
      (k i : ℕ) (ps : List Proc) (j : ℕ)
      → (child_at me j ps ≡ false) ⊎ ((i ≤ j) × (j < i + k))
      → child_at me j (reparent_loop addr me init k i ps) ≡ false
  unfolding reparent_loop
  reparent_loop-child_at zero i ps j (inl h) = h
  reparent_loop-child_at zero i ps j (inr h) = absurd (omega arith)
  reparent_loop-child_at (suc k) i ps j h = elim (Bool-cases (i == j)) [
    | inl q ↦
        reparent_loop-child_at k (suc i) (round i ps) j (inl (round-child_at i ps j ∙ rw q refl))
    | inr q ↦ elim h [
      | inl c ↦
          reparent_loop-child_at k (suc i) (round i ps) j (inl (round-child_at i ps j ∙ rw q c))
      | inr (lo, hi) ↦
          reparent_loop-child_at k (suc i) (round i ps) j (inr (ground (arith, q), omega arith))
    ]
  ]

  pub reparent-child_at :
      (ps : List Proc) (j : ℕ) → child_at me j (reparent addr me init ps) ≡ false
  unfolding reparent
  reparent-child_at ps j = elim (Bool-cases (ltb j (length ps))) [
    | inl t ↦ reparent_loop-child_at (length ps) 0 ps j (inr (ground arith, ground arith))
    | inr t ↦
        reparent_loop-child_at (length ps) 0 ps j (inl (child_at-bound me j ps (ground arith)))
  ]

  -- What wakeups and adoptions keep of the process at an index, `reparent` keeps.
  module _ (P : Proc → Type 0) (woken : (chan : ℕ) (p : Proc) → P p → P (wake chan p))
      (adopted : (p : Proc) → P p → P (adopt me init p)) (j : ℕ) where
    unfoldable pub At : List Proc → Type 0
    At ps = (p : Proc) × (get_elem? ps j ≡ some p) × P p

    At-wakeup : (chan : ℕ) (ps : List Proc) → At ps → At (wakeup (some me) chan ps)
    unfolding At
    At-wakeup chan ps (p, g, h) = elim (Bool-cases (j == me)) [
      | inl t ↦ (p, get-wakeup me chan ps j p g ∙ rw t refl, h)
      | inr t ↦ (wake chan p, get-wakeup me chan ps j p g ∙ rw t refl, woken chan p h)
    ]

    At-adopt : (i : ℕ) (ps : List Proc) → At ps → At (change i (adopt me init) ps)
    unfolding At
    At-adopt i ps (p, g, h) = elim (Bool-cases (i == j)) [
      | inl t ↦ (adopt me init p, get-change i (adopt me init) ps j p g ∙ rw t refl, adopted p h)
      | inr t ↦ (p, get-change i (adopt me init) ps j p g ∙ rw t refl, h)
    ]

    At-round : (i : ℕ) (ps : List Proc) → At ps → At (round i ps)
    At-round i ps h = elim (Bool-cases (child_at me i ps)) [
      | inl t ↦ rw t (At-wakeup (addr init) _ (At-adopt i ps h))
      | inr t ↦ rw t h
    ]

    At-reparent_loop : (k i : ℕ) (ps : List Proc) → At ps → At (reparent_loop addr me init k i ps)
    unfolding reparent_loop
    At-reparent_loop zero i ps h = h
    At-reparent_loop (suc k) i ps h = At-reparent_loop k (suc i) (round i ps) (At-round i ps h)

    pub At-reparent : (ps : List Proc) → At ps → At (reparent addr me init ps)
    unfolding reparent
    At-reparent ps h = At-reparent_loop (length ps) 0 ps h
