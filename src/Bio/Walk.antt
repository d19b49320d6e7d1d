-- ===== src/Bio/Walk.antt =====
-- Searches over a well-formed list, in both directions.
use octox.Base.{
  ℕ, zero, suc, ◌+◌, ◌≤◌, ◌≡◌, refl, sym, ap, ◌∙◌, Bool, List, [], ◌∷◌, arith, Option, none, some,
  inl, inr, Bool-cases, length, if◌then◌else◌,
}
use octox.Bio.Defs.{Meta, Lru, walk, walk_back, Walk, found, ended}
use octox.Bio.Chain.{first, last, Seg, IsChain}

-- The first element that passes the test.
unfoldable pub pick : (ℕ → Bool) → List ℕ → Walk
pick test [] = ended
pick test (x ∷ xs) = if test x then found x else pick test xs

unfoldable pub onto : List ℕ → List ℕ → List ℕ
onto [] ys = ys
onto (x ∷ xs) ys = onto xs (x ∷ ys)

-- The list from its end.
abbrev pub backwards : List ℕ → List ℕ
backwards xs = onto xs []

walk-none : (k : ℕ) (test : ℕ → Bool) (s : Lru) → walk k test s none ≡ ended
unfolding walk
walk-none zero test s = refl
walk-none (suc k) test s = refl

walk-pick :
    (k : ℕ) (test : ℕ → Bool) (s : Lru) (p : Option ℕ) (xs : List ℕ)
    → Seg s.node p xs none
    → length xs ≤ k
    → walk k test s (first xs none) ≡ pick test xs
unfolding walk pick
walk-pick k test s p [] h f = walk-none k test s
walk-pick zero test s p (x ∷ xs) h f = absurd (omega arith)
walk-pick (suc k) test s p (x ∷ xs) h f = elim (Bool-cases (test x)) [
  | inl t ↦ rw t
  | inr t ↦ rw t (ap (walk k test s) h.1 ∙ walk-pick k test s (some x) xs h.2 (omega arith))
]

-- The `prev` links lead through the list.
abbrev Back : (ℕ → Meta) → List ℕ → Type 0
Back node [] = Unit
Back node (x ∷ xs) = ((node x).prev ≡ first xs none) × Back node xs

Back-onto :
    (node : ℕ → Meta) (xs ys : List ℕ) (q : Option ℕ)
    → Seg node (first ys none) xs q
    → Back node ys
    → Back node (onto xs ys)
unfolding onto
Back-onto node [] ys q h b = b
Back-onto node (x ∷ xs) ys q h b = Back-onto node xs (x ∷ ys) q h.2 (h.0, b)

first-onto : (xs ys : List ℕ) → first (onto xs ys) none ≡ last xs (first ys none)
unfolding onto
first-onto [] ys = refl
first-onto (x ∷ []) ys = refl
first-onto (x ∷ y ∷ xs) ys = first-onto (y ∷ xs) (x ∷ ys)

length-onto : (xs ys : List ℕ) → length (onto xs ys) ≡ length xs + length ys
unfolding onto
length-onto [] ys = omega arith
length-onto (x ∷ xs) ys = omega (arith, length-onto xs (x ∷ ys))

walk_back-none : (k : ℕ) (test : ℕ → Bool) (s : Lru) → walk_back k test s none ≡ ended
unfolding walk_back
walk_back-none zero test s = refl
walk_back-none (suc k) test s = refl

walk_back-pick :
    (k : ℕ) (test : ℕ → Bool) (s : Lru) (xs : List ℕ)
    → Back s.node xs
    → length xs ≤ k
    → walk_back k test s (first xs none) ≡ pick test xs
unfolding walk_back pick
walk_back-pick k test s [] h f = walk_back-none k test s
walk_back-pick zero test s (x ∷ xs) h f = absurd (omega arith)
walk_back-pick (suc k) test s (x ∷ xs) h f = elim (Bool-cases (test x)) [
  | inl t ↦ rw t
  | inr t ↦ rw t (ap (walk_back k test s) h.0 ∙ walk_back-pick k test s xs h.1 (omega arith))
]

module _ {s : Lru} {xs : List ℕ} (k : ℕ) (test : ℕ → Bool) (c : IsChain s xs)
    (f : length xs ≤ k) where
  -- On a well-formed list, with fuel for its length, the search from the head gives the first
  -- buffer that passes the test, and the search from the tail gives the last.
  pub walks-pick :
      (walk k test s s.head ≡ pick test xs) × (walk_back k test s s.tail ≡ pick test (backwards xs))
  walks-pick = (
    ap (walk k test s) c.from ∙ walk-pick k test s none xs c.links f,
    ap (walk_back k test s) (c.to ∙ sym (first-onto xs []))
        ∙ walk_back-pick k test s (backwards xs) (Back-onto s.node xs [] none c.links tt)
            (omega (arith, length-onto xs [])),
  )
