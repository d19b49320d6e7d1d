-- ===== src/Console/Read.antt =====
-- `read` takes bytes off the front of what is ready.
use octox.Base.{
  ℕ, zero, suc, ◌-◌, ◌≡◌, ◌≢◌, refl, ap, ◌∙◌, Bool, not, List, [], ◌∷◌, ◌++◌, arith, ◌==◌, ==_iff,
  ltb, if◌then◌else◌, inl, inr, Bool-cases,
}
use octox.Console.Defs.{
  Cons, add64, sub64, newline, ctrl, byte_at, Read, returns, sleeps, fails, read_loop, read,
}
use octox.Console.Ring.{bytes, IsValid, ready}

-- What `read` comes to on the list of ready bytes.
pub data Taken : Type 0 where
  took : (rest : List ℕ) (got : List ℕ) → Taken
  waits : (wanted : ℕ) (got : List ℕ) → Taken
  killed_off : Taken

unfoldable pub take_loop :
    (killed : Bool) (accepts : ℕ → Bool) (target n : ℕ) → List ℕ → List ℕ → Taken
take_loop killed accepts target zero got l = took l got
take_loop killed accepts target (suc n) got [] = if killed then killed_off else waits (suc n) got
take_loop killed accepts target (suc n) got (x ∷ l) =
    if x == ctrl b'D'
    then took (if ltb (suc n) target then x ∷ l else l) got
    else (if not (accepts (target - suc n))
        then took l got
        else (if x == newline
            then took l (got ++ (x ∷ []))
            else take_loop killed accepts target n (got ++ (x ∷ [])) l))

-- The result of `read` with the ring seen as the list of its ready bytes; a call that waits has
-- taken all of them.
abbrev pub taken : Read → Taken
taken (returns c got) = took (ready c) got
taken (sleeps c n got) = waits n got
taken (fails c) = killed_off

abbrev next : Cons → Cons
next c = record c { r = add64 c.r 1 }

module _ {c : Cons} (v : IsValid c) (ne : c.r ≢ c.w) where
  ready-next : ready c ≡ byte_at c c.r ∷ ready (next c)
  unfolding ready bytes
  ready-next =
      let more : sub64 c.w c.r ≡ suc (sub64 c.w (add64 c.r 1)) = omega (arith, v.words) in
      ap (λ t. bytes c.buf c.r t) more

  next-IsValid : IsValid (next c)
  next-IsValid = record {
    sized = v.sized;
    words = omega (arith, v.words);
    order = omega (arith, v.words, v.order);
    fits = omega (arith, v.words, v.order, v.fits);
  }

  ready-back : ready (record c { r = sub64 (add64 c.r 1) 1 }) ≡ ready c
  ready-back =
      let same : sub64 (add64 c.r 1) 1 ≡ c.r = omega (arith, v.words) in
      ap (λ t. ready (record c { r = t })) same

ready-nil : (c : Cons) → c.r ≡ c.w → ready c ≡ []
unfolding ready bytes
ready-nil c e = let z : sub64 c.w c.r ≡ 0 = omega arith in ap (λ t. bytes c.buf c.r t) z

module _ (killed : Bool) (accepts : ℕ → Bool) (target : ℕ) where
  read_loop-take :
      (n : ℕ) (got : List ℕ) (c : Cons)
      → IsValid c
      → taken (read_loop killed accepts target n got c)
        ≡ take_loop killed accepts target n got (ready c)
  unfolding read_loop take_loop
  read_loop-take zero got c v = refl
  read_loop-take (suc n) got c v = elim (Bool-cases (c.r == c.w)) [
    | inl e ↦
        rw (e, ready-nil c ((==_iff c.r c.w).0 e))
          (elim (Bool-cases killed) [ inl k ↦ rw k | inr k ↦ rw k ])
    | inr e ↦
        let ne : c.r ≢ c.w = λ q. absurd (ground (arith, q)) in
        rw (e, ready-next v ne)
          (elim (Bool-cases (byte_at c c.r == ctrl b'D')) [
            | inl d ↦ rw d (elim (Bool-cases (ltb (suc n) target)) [
              | inl l ↦ rw l (ap (λ t. took t got) (ready-back v ne ∙ ready-next v ne))
              | inr l ↦ rw l
            ])
            | inr d ↦ rw d (elim (Bool-cases (accepts (target - suc n))) [
              | inl a ↦ rw a (elim (Bool-cases (byte_at c c.r == newline)) [
                | inl l ↦ rw l
                | inr l ↦
                    rw l
                      (read_loop-take n (got ++ (byte_at c c.r ∷ [])) (next c) (next-IsValid v ne))
              ])
              | inr a ↦ rw a
            ])
          ])
  ]

-- On a well-formed ring `read` of `n` bytes, when some of them may be refused by the copy to the
-- caller, does what the loop over the list of ready bytes does: it ends after `n` bytes, after a
-- newline, which it copies, before or at a ^D, or at a refused byte, which is lost; it waits when
-- the list runs out, or fails if the process was killed. A ^D behind other bytes stays ready.
pub read-take :
    (killed : Bool) (accepts : ℕ → Bool) (n : ℕ) {c : Cons}
    → IsValid c
    → taken (read killed accepts n c) ≡ take_loop killed accepts n n [] (ready c)
unfolding read
read-take killed accepts n {c} v = read_loop-take killed accepts n n [] c v
