-- ===== src/Bio/Pick.antt =====
-- The walk over the list of buffers, as a search of the sequence of its nodes.
use octox.Base.{
  ℕ, ◌≡◌, ◌≢◌, refl, Bool, true, false, ◌||◌, List, [], ◌∷◌, ◌==◌, ==_iff, arith, inl, inr,
  Bool-cases,
}
use octox.Bio.Defs.{found, ended, endless}
use octox.Bio.Chain.{has}
use octox.Bio.Walk.{pick, onto}

pub pick-found :
    (test : ℕ → Bool) (xs : List ℕ) (i : ℕ)
    → pick test xs ≡ found i
    → (has i xs ≡ true) × (test i ≡ true)
unfolding pick
pick-found test [] i e = absurd (ground arith)
pick-found test (x ∷ xs) i e = elim (Bool-cases (test x)) [
  | inl t ↦ hit t (rw t at e)
  | inr t ↦ let (a, b) = pick-found test xs i (rw t at e) in (ground arith, b)
]
  where
    hit : test x ≡ true → found x ≡ found i → (has i (x ∷ xs) ≡ true) × (test i ≡ true)
    hit t q = let same : x ≡ i = ground arith in (ground (arith, same), rw (← same) t)

pub pick-ended :
    (test : ℕ → Bool) (xs : List ℕ)
    → pick test xs ≡ ended
    → (j : ℕ) → has j xs ≡ true
    → test j ≡ false
unfolding pick
pick-ended test [] e j h = absurd (ground arith)
pick-ended test (x ∷ xs) e j h = elim (Bool-cases (test x)) [
  | inl t ↦ absurd (ground (arith, t))
  | inr t ↦ elim (Bool-cases (x == j)) [
    | inl q ↦ rw (← (==_iff x j).0 q) t
    | inr q ↦ pick-ended test xs (rw t at e) j (rw q at h)
  ]
]

pub pick-endless : (test : ℕ → Bool) (xs : List ℕ) → pick test xs ≢ endless
unfolding pick
pick-endless test [] e = ground arith
pick-endless test (x ∷ xs) e = elim (Bool-cases (test x)) [
  | inl t ↦ ground (arith, t)
  | inr t ↦ pick-endless test xs (rw t at e)
]

pub has-onto : (a : ℕ) (xs ys : List ℕ) → has a (onto xs ys) ≡ has a xs || has a ys
unfolding onto
has-onto a [] ys = refl
has-onto a (x ∷ xs) ys = ground (arith, has-onto a xs (x ∷ ys))
