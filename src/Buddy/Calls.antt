-- ===== src/Buddy/Calls.antt =====
-- Calls of List::push, pop and remove on the free lists of all sizes, in one memory and on sequences.
use octox.Base.{
  ℕ, zero, suc, ◌<◌, ◌≡◌, ◌≢◌, Bool, true, ◌&&◌, List, [], ◌∷◌, ◌==◌, ltb, if◌then◌else◌, update,
  Option, none, some,
}
use octox.Buddy.Defs.{remove}
use octox.Buddy.Nodes.{occ}
use octox.Buddy.Links
use octox.Buddy.Links.{Links}
use octox.Buddy.Ring.{IsRing}

-- Each size below `n` has its circle, headed by its node, and no two circles share an address.
pub record Rings (n : ℕ) (head : ℕ → ℕ) (free : ℕ → List ℕ) (m : Links) : Type 0 where
  pub ring : (k : ℕ) → k < n → IsRing (head k) (free k) m
  pub apart :
      (j k p : ℕ)
      → j < n
      → k < n
      → j ≢ k
      → occ p (head j ∷ free j) ≢ 0
      → occ p (head k ∷ free k) ≡ 0

-- A call on the list of a size.
pub data Call : Type 0 where
  put : (k p : ℕ) → Call
  take : (k : ℕ) → Call
  drop : (k p : ℕ) → Call

-- The call in the memory; `take` also gives what `pop` returns.
unfoldable pub call : (head : ℕ → ℕ) → Call → Links → Option ℕ × Links
call head (put k p) m = (none, Links.push (head k) p m)
call head (take k) m = Links.pop (head k) m
call head (drop k p) m = (none, Links.remove p m)

unfoldable pub calls : (head : ℕ → ℕ) → List Call → Links → List (Option ℕ) × Links
calls head [] m = ([], m)
calls head (c ∷ cs) m = let (o, t) = call head c m in let (os, u) = calls head cs t in (o ∷ os, u)

-- No circle below `n` has the address.
abbrev pub absent : (n : ℕ) → (ℕ → ℕ) → (ℕ → List ℕ) → ℕ → Bool
absent zero head free p = true
absent (suc n) head free p =
    let rest = absent n head free p in (occ p (head n ∷ free n) == 0) && rest

-- The call on sequences. A put wants an address that no circle has, a drop one in its list.
abbrev pub taken : (k : ℕ) → List ℕ → (ℕ → List ℕ) → Option ℕ × (ℕ → List ℕ)
taken k [] free = (none, free)
taken k (p ∷ ps) free = (some p, update free k ps)

abbrev pub seq_call : (n : ℕ) → (ℕ → ℕ) → Call → (ℕ → List ℕ) → Option (Option ℕ × (ℕ → List ℕ))
seq_call n head (put k p) free =
    if ltb k n && absent n head free p then some (none, update free k (p ∷ free k)) else none
seq_call n head (take k) free = if ltb k n then some (taken k (free k) free) else none
seq_call n head (drop k p) free =
    if ltb k n
    then elim (remove p (free k)) [ none ↦ none | some ps ↦ some (none, update free k ps) ]
    else none

abbrev pub seq_calls :
    (n : ℕ) → (ℕ → ℕ) → List Call → (ℕ → List ℕ) → Option (List (Option ℕ) × (ℕ → List ℕ))
seq_calls n head [] free = some ([], free)
seq_calls n head (c ∷ cs) free = elim (seq_call n head c free) [
  | none ↦ none
  | some (o, next) ↦ elim (seq_calls n head cs next) [
    | none ↦ none
    | some (os, last) ↦ some (o ∷ os, last)
  ]
]
