-- ===== src/Files/Counts.antt =====
-- References of the table of files.
use octox.Base.{
  ℕ, zero, suc, ◌≡◌, ◌≢◌, inl, inr, refl, ap, true, false, List, [], ◌∷◌, length, replicate, ◌==◌,
  if◌then◌else◌, arith, Option, none, some, Bool-cases,
}
use octox.Files.Defs.{place, clear, held}

pub held-clear_self : (a : ℕ) (xs : List (Option ℕ)) → held a (clear a xs) ≡ 0
unfolding held clear
held-clear_self a [] = refl
held-clear_self a (none ∷ xs) = held-clear_self a xs
held-clear_self a (some b ∷ xs) = elim (Bool-cases (a == b)) [
  | inl q ↦ rw q (held-clear_self a xs)
  | inr q ↦ rw (q, q) (held-clear_self a xs)
]

pub held-clear_else : (a c : ℕ) (xs : List (Option ℕ)) → a ≢ c → held c (clear a xs) ≡ held c xs
unfolding held clear
held-clear_else a c [] ne = refl
held-clear_else a c (none ∷ xs) ne = held-clear_else a c xs ne
held-clear_else a c (some b ∷ xs) ne = elim (Bool-cases (a == b)) [
  | inl q ↦
      let other : (c == b) ≡ false = ground (arith, q, ne) in
      rw (q, other) (held-clear_else a c xs ne)
  | inr q ↦ rw q (ap (λ n. if c == b then suc n else n) (held-clear_else a c xs ne))
]

pub held-replicate : (a n : ℕ) → held a (replicate n none) ≡ 0
unfolding held
held-replicate a zero = refl
held-replicate a (suc n) = held-replicate a n

-- Every place is taken.
abbrev pub Full : List (Option ℕ) → Type 0
Full [] = Unit
Full (none ∷ xs) = ⊥
Full (some b ∷ xs) = Full xs

-- The new reference is counted and the others are as before, or the table is full.
abbrev pub Placed : ℕ → List (Option ℕ) → Option (List (Option ℕ)) → Type 0
Placed a xs none = Full xs
Placed a xs (some ys) =
    (held a ys ≡ suc (held a xs))
    × ((c : ℕ) → a ≢ c → held c ys ≡ held c xs)
    × (length ys ≡ length xs)

pub place-Placed : (a : ℕ) (xs : List (Option ℕ)) → Placed a xs (place a xs)
unfolding held place
place-Placed a [] = tt
place-Placed a (none ∷ xs) =
    let self : (a == a) ≡ true = ground arith in
    (rw self refl, λ c ne. let other : (c == a) ≡ false = ground (arith, ne) in rw other refl, refl)
place-Placed a (some b ∷ xs) = behind (place a xs) (place-Placed a xs)
  where
    past : Option (List (Option ℕ)) → Option (List (Option ℕ))
    past o = elim o [ none ↦ none | some ys ↦ some (some b ∷ ys) ]

    counted :
        (c n m : ℕ) → n ≡ suc m → (if c == b then suc n else n) ≡ suc (if c == b then suc m else m)
    counted c n m e = ground (arith, e)

    behind : (o : Option (List (Option ℕ))) → Placed a xs o → Placed a (some b ∷ xs) (past o)
    behind none h = h
    behind (some ys) (h, others, len) =
        (counted a _ _ h, (λ c ne. ap (λ n. if c == b then suc n else n) (others c ne)), ap suc len)
