-- ===== src/Buddy/Lists.antt =====
-- The free lists of all sizes in one memory: what List::push, pop and remove do to the sequences.
use octox.Base.{
  ℕ, ◌<◌, ◌≡◌, refl, sym, ap, subst, ◌∙◌, true, false, ◌&&◌, List, [], ◌∷◌, ◌==◌, ltb, arith,
  update, inl, inr, Bool-cases, Option, none, some,
}
use octox.Buddy.Defs.{remove}
use octox.Buddy.Nodes.{occ}
use octox.Buddy.Links
use octox.Buddy.Links.{Links}
use octox.Buddy.Ring.{IsRing, remove-occ, remove-le, remove-IsRing, push-IsRing}
use octox.Buddy.Calls.{
  Rings, absent, Call, put, take, drop, call, calls, taken, seq_call, seq_calls,
}
use octox.Buddy.Circles.{remove-elsewhere, push-elsewhere, step-Rings, absent-occ}

-- What the memory gives, where the sequences give something.
abbrev Sim : (n : ℕ) → (ℕ → ℕ) → Option ℕ × Links → Option (Option ℕ × (ℕ → List ℕ)) → Type 0
Sim n head out none = Unit
Sim n head (o', m) (some (o, free)) = (o' ≡ o) × Rings n head free m

module _ (n : ℕ) (head : ℕ → ℕ) (free : ℕ → List ℕ) (m : Links) (h : Rings n head free m) where
  put-Rings :
      (k p : ℕ)
      → k < n
      → absent n head free p ≡ true
      → Rings n head (update free k (p ∷ free k)) (Links.push (head k) p m)
  put-Rings k p lt a =
      let o = absent-occ n head free p k a lt in
      step-Rings n head free m _ k (p ∷ free k) h lt
        (push-IsRing (head k) p (free k) m (h.ring k lt) o)
        (λ j l ne.
          push-elsewhere (head k) (head j) p (free k) (free j) m (h.ring k lt) (h.ring j l) o
            (absent-occ n head free p j a l) (λ z w. h.apart k j z lt l (λ e. ne (sym e)) w))
        (λ j z l ne w.
          let old = h.apart k j z lt l (λ e. ne (sym e)) in
          let fresh = absent-occ n head free p j a l in
          elim (Bool-cases (z == p)) [
            | inl e ↦
                subst (λ x. occ x (head j ∷ free j) ≡ 0) (let me : p ≡ z = ground (arith, e) in me)
                  fresh
            | inr e ↦ old (ground (arith, w, e))
          ])

  drop-Rings :
      (k p : ℕ) (ys : List ℕ)
      → k < n
      → remove p (free k) ≡ some ys
      → Rings n head (update free k ys) (Links.remove p m)
  drop-Rings k p ys lt r =
      let there = remove-occ p (free k) ys r in
      step-Rings n head free m _ k ys h lt (remove-IsRing (head k) p (free k) ys m (h.ring k lt) r)
        (λ j l ne.
          remove-elsewhere (head k) (head j) p (free k) (free j) m (h.ring k lt) (h.ring j l) there
            (λ z w. h.apart k j z lt l (λ e. ne (sym e)) w))
        (λ j z l ne w.
          let le = remove-le p z (free k) ys r in
          h.apart k j z lt l (λ e. ne (sym e)) (ground (arith, w, le)))

  take-Sim :
      (k : ℕ) (xs : List ℕ)
      → k < n
      → free k ≡ xs
      → Sim n head (Links.pop (head k) m) (some (taken k xs free))
  unfolding Links.pop Links.is_empty remove
  take-Sim k [] lt e =
      let here = subst (λ xs. IsRing (head k) xs m) e (h.ring k lt) in
      let stop : (m.next (head k) == head k) ≡ true = (let n0 = here.0.0 in ground (arith, n0)) in
      rw (stop, Sim) (refl, h)
  take-Sim k (x ∷ xs) lt e =
      let here = subst (λ xs. IsRing (head k) xs m) e (h.ring k lt) in
      let first = here.0.0 in
      let once = here.1 x in
      let go : (m.next (head k) == head k) ≡ false = ground (arith, first, once) in
      let r : remove x (free k) ≡ some xs = ap (remove x) e ∙ ground arith in
      rw (go, Sim, first) (refl, drop-Rings k x xs lt r)

  call-Sim : (c : Call) → Sim n head (call head c m) (seq_call n head c free)
  unfolding call
  call-Sim (put k p) = elim (Bool-cases (ltb k n && absent n head free p)) [
    | inl e ↦ rw (e, Sim) (refl, put-Rings k p (ground (arith, e)) (ground (arith, e)))
    | inr e ↦ rw (e, Sim) tt
  ]
  call-Sim (take k) = elim (Bool-cases (ltb k n)) [
    | inl e ↦ rw e (take-Sim k (free k) (ground (arith, e)) refl)
    | inr e ↦ rw (e, Sim) tt
  ]
  call-Sim (drop k p) = elim (Bool-cases (ltb k n)) [
    | inl e ↦ rw e (by_result (ground (arith, e)) (remove p (free k)) refl)
    | inr e ↦ rw (e, Sim) tt
  ]
    where
      by_result :
          k < n
          → (o : Option (List ℕ)) → remove p (free k) ≡ o
          → Sim n head
              (none, Links.remove p m)
              (elim o as (λ _. Option (Option ℕ × (ℕ → List ℕ))) [
                | none ↦ none
                | some ps ↦ some (none, update free k ps)
              ])
      by_result lt none e = tt
      by_result lt (some ps) e = (refl, drop-Rings k p ps lt e)

abbrev SimAll :
    (n : ℕ) → (ℕ → ℕ) → List (Option ℕ) × Links → Option (List (Option ℕ) × (ℕ → List ℕ)) → Type 0
SimAll n head out none = Unit
SimAll n head (os', m) (some (os, free)) = (os' ≡ os) × Rings n head free m

calls-SimAll :
    (n : ℕ) (head : ℕ → ℕ) (cs : List Call) (free : ℕ → List ℕ) (m : Links)
    → Rings n head free m
    → SimAll n head (calls head cs m) (seq_calls n head cs free)
unfolding calls
calls-SimAll n head [] free m h = (refl, h)
calls-SimAll n head (c ∷ cs) free m h =
    by_first (λ next. calls-SimAll n head cs next (call head c m).1) (seq_call n head c free)
      (call-Sim n head free m h c)
  where
    out : List (Option ℕ) × Links
    out = calls head (c ∷ cs) m

    join :
        (o : Option ℕ)
        → (call head c m).0 ≡ o
        → (r : Option (List (Option ℕ) × (ℕ → List ℕ)))
        → SimAll n head (calls head cs (call head c m).1) r
        → SimAll n head out (elim r [ none ↦ none | some (os, last) ↦ some (o ∷ os, last) ])
    join o e none q = tt
    join o e (some (os, last)) (a, b) = (ground (arith, e, a), b)

    by_first :
        ((next : ℕ → List ℕ)
          → Rings n head next (call head c m).1
          → SimAll n head (calls head cs (call head c m).1) (seq_calls n head cs next))
        → (r : Option (Option ℕ × (ℕ → List ℕ))) → Sim n head (call head c m) r
        → SimAll n head out (elim r [
          | none ↦ none
          | some (o, next) ↦ elim (seq_calls n head cs next) [
            | none ↦ none
            | some (os, last) ↦ some (o ∷ os, last)
          ]
        ])
    by_first ih none q = tt
    by_first ih (some (o, next)) (a, b) = join o a (seq_calls n head cs next) (ih next b)

-- Let the circles of the sizes below `n` stand for the sequences `free`, with no address in two of them. Where
-- a series of calls is a run on the sequences (each put is of an address in no circle, each drop of one in
-- the list of its size), the same calls on the links return the same results, and the circles in the end
-- stand for the sequences in the end, still with no address in two of them: writes through one list never
-- reach another.
pub calls-Rings :
    (n : ℕ) (head : ℕ → ℕ) (cs : List Call) (free : ℕ → List ℕ) (m : Links) (os : List (Option ℕ))
    (last : ℕ → List ℕ)
    → Rings n head free m
    → seq_calls n head cs free ≡ some (os, last)
    → ((calls head cs m).0 ≡ os) × Rings n head last (calls head cs m).1
calls-Rings n head cs free m os last h e =
    subst (SimAll n head (calls head cs m)) e (calls-SimAll n head cs free m h)
