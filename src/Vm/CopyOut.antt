-- ===== src/Vm/CopyOut.antt =====
-- kernel/vm.rs: Uvm::copyout, and what Uvm::copyin reads after it.
use octox.Base.{
  ℕ, zero, suc, ◌+◌, ◌-◌, ◌%◌, ◌<◌, ◌≤◌, ◌≡◌, refl, sym, ap, ◌∙◌, Bool, true, false, List, [], ◌∷◌,
  ◌++◌, length, take, drop, length-take, length-drop, take-append-drop, min, ◌==◌, leb,
  if◌then◌else◌, arith, Option, none, some, inl, inr, Bool-cases, update, Option-cases,
}
use octox.Vm.Defs.{pgsize, rounddown}
use octox.Vm.Copy.{overwrite, chunk, rounddown-bounds, rounddown-add}

module _ (tr : ℕ → Option ℕ) where
  -- Uvm::copyout, with what is left of the source; the flag is false for the error.
  unfoldable pub copyout_loop : ℕ → (ℕ → ℕ) → ℕ → List ℕ → Option (Bool × (ℕ → ℕ))
  copyout_loop zero mem dstva src = if length src == 0 then some (true, mem) else none
  copyout_loop (suc k) mem dstva src =
      let va0 = rounddown dstva in
      let n = min (pgsize - (dstva - va0)) (length src) in
      if length src == 0 then some (true, mem) else elim (tr va0) [
        | none ↦ some (false, mem)
        | some pa0 ↦
            copyout_loop k (overwrite mem (pa0 + (dstva - va0)) (take n src)) (va0 + pgsize)
              (drop n src)
      ]

  unfoldable pub copyout : (ℕ → ℕ) → ℕ → List ℕ → Option (Bool × (ℕ → ℕ))
  copyout mem dstva src = copyout_loop (length src) mem dstva src

  -- Byte by byte, up to the first one whose page is not mapped.
  unfoldable pub user_write : (ℕ → ℕ) → ℕ → List ℕ → Bool × (ℕ → ℕ)
  user_write mem a [] = (true, mem)
  user_write mem a (b ∷ bs) = elim (tr (rounddown a)) [
    | none ↦ (false, mem)
    | some pa ↦ user_write (update mem (pa + a % 4096) b) (suc a) bs
  ]

  pub user_write-mapped :
      (mem : ℕ → ℕ) (a b pa : ℕ) (bs : List ℕ)
      → tr (rounddown a) ≡ some pa
      → user_write mem a (b ∷ bs) ≡ user_write (update mem (pa + a % 4096) b) (suc a) bs
  unfolding user_write
  user_write-mapped mem a b pa bs e = rw (e, user_write) refl

  pub user_write-unmapped :
      (mem : ℕ → ℕ) (a b : ℕ) (bs : List ℕ)
      → tr (rounddown a) ≡ none
      → user_write mem a (b ∷ bs) ≡ (false, mem)
  unfolding user_write
  user_write-unmapped mem a b bs e = rw (e, user_write) refl

  -- Bytes of one page.
  user_write-page :
      (mem : ℕ → ℕ) (va0 off pa0 : ℕ) (xs ys : List ℕ)
      → va0 % 4096 ≡ 0
      → off + length xs ≤ 4096
      → tr va0 ≡ some pa0
      → user_write mem (va0 + off) (xs ++ ys)
        ≡ user_write (overwrite mem (pa0 + off) xs) (va0 + off + length xs) ys
  unfolding overwrite
  user_write-page mem va0 off pa0 [] ys al le e =
      let same : va0 + off + 0 ≡ va0 + off = omega arith in ap (λ a. user_write mem a ys) (sym same)
  user_write-page mem va0 off pa0 (x ∷ xs) ys al le e =
      let page : rounddown (va0 + off) ≡ va0 = rounddown-add va0 off al (omega arith) in
      let ofs : (va0 + off) % 4096 ≡ off = omega arith in
      let next : suc (va0 + off) ≡ va0 + suc off = omega arith in
      let past : va0 + suc off + length xs ≡ va0 + off + suc (length xs) = omega arith in
      let place : pa0 + suc off ≡ suc (pa0 + off) = omega arith in
      user_write-mapped mem (va0 + off) x pa0 (xs ++ ys) (ap tr page ∙ e)
      ∙ (ap (λ o. user_write (update mem (pa0 + o) x) (suc (va0 + off)) (xs ++ ys)) ofs
          ∙ (ap (λ a. user_write (update mem (pa0 + off) x) a (xs ++ ys)) next
              ∙ (user_write-page (update mem (pa0 + off) x) va0 (suc off) pa0 xs ys al (omega arith)
                    e
                  ∙ (ap
                        (λ p.
                          user_write (overwrite (update mem (pa0 + off) x) p xs)
                            (va0 + suc off + length xs) ys)
                        place
                      ∙ ap
                          (λ a.
                            user_write (overwrite (update mem (pa0 + off) x) (suc (pa0 + off)) xs) a
                              ys)
                          past))))

  copyout_loop-none :
      (k : ℕ) (mem : ℕ → ℕ) (dstva : ℕ) (src : List ℕ)
      → 0 < length src
      → tr (rounddown dstva) ≡ none
      → copyout_loop (suc k) mem dstva src ≡ some (false, mem)
  unfolding copyout_loop
  copyout_loop-none k mem dstva src pos e =
      let more : (length src == 0) ≡ false = ground (arith, pos) in rw (more, e) refl

  copyout_loop-some :
      (k : ℕ) (mem : ℕ → ℕ) (dstva pa0 : ℕ) (src : List ℕ)
      → 0 < length src
      → tr (rounddown dstva) ≡ some pa0
      → copyout_loop (suc k) mem dstva src
        ≡ copyout_loop k
            (overwrite mem
              (pa0 + (dstva - rounddown dstva))
              (take (chunk tr (length src) dstva) src))
            (rounddown dstva + pgsize)
            (drop (chunk tr (length src) dstva) src)
  unfolding copyout_loop
  copyout_loop-some k mem dstva pa0 src pos e =
      let more : (length src == 0) ≡ false = ground (arith, pos) in rw (more, e) refl

  drop_nil : (n : ℕ) (src : List ℕ) → length src ≤ n → drop n src ≡ []
  drop_nil zero [] le = refl
  drop_nil zero (x ∷ xs) le = absurd (omega arith)
  drop_nil (suc n) [] le = refl
  drop_nil (suc n) (x ∷ xs) le = drop_nil n xs (omega arith)

  after_page :
      (mem : ℕ → ℕ) (a : ℕ) (src : List ℕ)
      → user_write mem
          (rounddown a + (a - rounddown a) + length (take (chunk tr (length src) a) src))
          (drop (chunk tr (length src) a) src)
        ≡ user_write mem (rounddown a + pgsize) (drop (chunk tr (length src) a) src)
  unfolding user_write
  after_page mem a src =
      let (al, low, off) = rounddown-bounds a in
      let taken = length-take (chunk tr (length src) a) src in
      elim (Bool-cases (leb (length src) (pgsize - (a - rounddown a)))) [
        | inl q ↦
            let nothing : drop (chunk tr (length src) a) src ≡ [] =
              drop_nil _ src (ground (arith, q)) in
            rw nothing refl
        | inr q ↦
            let next : rounddown a + (a - rounddown a) + length (take (chunk tr (length src) a) src)
                ≡ rounddown a + pgsize =
              ground (arith, q, low, off, taken) in
            ap (λ p. user_write mem p (drop (chunk tr (length src) a) src)) next
      ]

  user_write-chunk :
      (mem : ℕ → ℕ) (a pa0 : ℕ) (src : List ℕ)
      → tr (rounddown a) ≡ some pa0
      → user_write mem a src
        ≡ user_write
            (overwrite mem (pa0 + (a - rounddown a)) (take (chunk tr (length src) a) src))
            (rounddown a + pgsize)
            (drop (chunk tr (length src) a) src)
  user_write-chunk mem a pa0 src e =
      let (al, low, off) = rounddown-bounds a in
      let n = chunk tr (length src) a in
      let here : a ≡ rounddown a + (a - rounddown a) = omega arith in
      let taken = length-take n src in
      ap (user_write mem a) (sym (take-append-drop n src))
      ∙ (ap (λ p. user_write mem p (take n src ++ drop n src)) here
          ∙ (user_write-page mem (rounddown a) (a - rounddown a) pa0 (take n src) (drop n src) al
                (omega arith) e
              ∙ after_page _ a src))

  copyout_loop-user_write :
      (k : ℕ) (mem : ℕ → ℕ) (dstva : ℕ) (src : List ℕ)
      → length src ≤ k
      → copyout_loop k mem dstva src ≡ some (user_write mem dstva src)
  unfolding copyout_loop user_write
  copyout_loop-user_write zero mem dstva [] le = refl
  copyout_loop-user_write (suc k) mem dstva [] le = refl
  copyout_loop-user_write zero mem dstva (x ∷ xs) le = absurd (omega arith)
  copyout_loop-user_write (suc k) mem dstva (x ∷ xs) le =
      let (al, low, off) = rounddown-bounds dstva in
      let n = chunk tr (length (x ∷ xs)) dstva in
      let left = length-drop n (x ∷ xs) in
      elim (Option-cases (tr (rounddown dstva))) [
        | inl e ↦
            copyout_loop-none k mem dstva (x ∷ xs) (omega arith) e
            ∙ ap some (sym (user_write-unmapped mem dstva x xs e))
        | inr (pa0, e) ↦
            copyout_loop-some k mem dstva pa0 (x ∷ xs) (omega arith) e
            ∙ (copyout_loop-user_write k _ _ (drop n (x ∷ xs)) (omega arith)
                ∙ ap some (sym (user_write-chunk mem dstva pa0 (x ∷ xs) e)))
      ]

  pub copyout-user_write :
      (mem : ℕ → ℕ) (dstva : ℕ) (src : List ℕ)
      → copyout mem dstva src ≡ some (user_write mem dstva src)
  unfolding copyout
  copyout-user_write mem dstva src =
      copyout_loop-user_write (length src) mem dstva src (omega arith)
