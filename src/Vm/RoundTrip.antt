-- ===== src/Vm/RoundTrip.antt =====
-- kernel/vm.rs: what Uvm::copyin reads back after Uvm::copyout.
use octox.Base.{
  ℕ, suc, ◌+◌, ◌*◌, ◌/◌, ◌%◌, ◌<◌, ◌≤◌, ◌≡◌, ◌≢◌, ◌⊎◌, refl, sym, ap, subst, ◌∙◌, Bool, true, false,
  List, [], ◌∷◌, length, ◌==◌, if◌then◌else◌, arith, Option, none, some, inl, inr, Bool-cases,
  update, Option-cases,
}
use octox.Vm.Defs.{rounddown}
use octox.Vm.Copy.{copyin, copyin-user_bytes, user_byte, user_bytes, read_byte, also}
use octox.Vm.CopyOut.{
  copyout, copyout-user_write, user_write, user_write-mapped, user_write-unmapped,
}

module _ (tr : ℕ → Option ℕ) where
  -- The pages `p` and `q`, by their numbers, stand in frames that do not overlap.
  abbrev pub Frames : Type 0
  Frames =
      (p q f g : ℕ)
      → tr (p * 4096) ≡ some f
      → tr (q * 4096) ≡ some g
      → p ≢ q
      → (f + 4096 ≤ g) ⊎ (g + 4096 ≤ f)

  apart :
      Frames
      → (a c f g : ℕ) → tr (rounddown a) ≡ some f
      → tr (rounddown c) ≡ some g
      → a ≢ c
      → f + a % 4096 ≢ g + c % 4096
  unfolding rounddown
  apart h a c f g ea ec ne same = elim (Bool-cases (a / 4096 == c / 4096)) [
    | inl q ↦
        let page : a / 4096 ≡ c / 4096 = ground (arith, q) in
        let frame : some f ≡ some g = sym ea ∙ (ap (λ p. tr (p * 4096)) page ∙ ec) in
        let fg : f ≡ g = ground (arith, frame) in ne (omega (arith, page, fg, same))
    | inr q ↦ elim (h (a / 4096) (c / 4096) f g ea ec (λ e. ground (arith, q, e))) [
      | inl o ↦ omega (arith, o, same)
      | inr o ↦ omega (arith, o, same)
    ]
  ]

  user_byte-update :
      (h : Frames) (mem : ℕ → ℕ) (a c f b : ℕ)
      → tr (rounddown a) ≡ some f
      → a ≢ c
      → user_byte tr (update mem (f + a % 4096) b) c ≡ user_byte tr mem c
  user_byte-update h mem a c f b e ne = by_frame (tr (rounddown c)) refl
    where
      by_frame :
          (o : Option ℕ)
          → tr (rounddown c) ≡ o
          → read_byte (update mem (f + a % 4096) b) (c % 4096) o ≡ read_byte mem (c % 4096) o
      by_frame none q = refl
      by_frame (some g) q =
          let other : ((f + a % 4096) == (g + c % 4096)) ≡ false =
            ground (arith, apart h a c f g e q ne) in
          rw other refl

  user_byte-update_self :
      (mem : ℕ → ℕ) (a f b : ℕ)
      → tr (rounddown a) ≡ some f
      → user_byte tr (update mem (f + a % 4096) b) a ≡ some b
  user_byte-update_self mem a f b e =
      let self : ((f + a % 4096) == (f + a % 4096)) ≡ true = ground arith in
      ap (read_byte (update mem (f + a % 4096) b) (a % 4096)) e ∙ rw self refl

  -- Nothing else that the user sees is written.
  user_write-else :
      (h : Frames) (mem : ℕ → ℕ) (a : ℕ) (src : List ℕ) (c : ℕ)
      → (c < a) ⊎ (a + length src ≤ c)
      → user_byte tr (user_write tr mem a src).1 c ≡ user_byte tr mem c
  unfolding user_write
  user_write-else h mem a [] c o = refl
  user_write-else h mem a (b ∷ bs) c o = elim (Option-cases (tr (rounddown a))) [
    | inl e ↦ ap (λ (r : Bool × (ℕ → ℕ)). user_byte tr r.1 c) (user_write-unmapped tr mem a b bs e)
    | inr (f, e) ↦
        ap (λ (r : Bool × (ℕ → ℕ)). user_byte tr r.1 c) (user_write-mapped tr mem a b f bs e)
        ∙ (user_write-else h (update mem (f + a % 4096) b) (suc a) bs c (beyond o)
            ∙ user_byte-update h mem a c f b e (other o))
  ]
    where
      beyond : (c < a) ⊎ (a + suc (length bs) ≤ c) → (c < suc a) ⊎ (suc a + length bs ≤ c)
      beyond (inl q) = inl (omega arith)
      beyond (inr q) = inr (omega arith)

      other : (c < a) ⊎ (a + suc (length bs) ≤ c) → a ≢ c
      other (inl q) e = omega (arith, q, e)
      other (inr q) e = omega (arith, q, e)

  also-if :
      (b : ℕ) (bs : List ℕ) (ok : Bool)
      → also tr (some b) (if ok then some bs else none) ≡ (if ok then some (b ∷ bs) else none)
  also-if b bs true = refl
  also-if b bs false = refl

  ReadBack : List ℕ → ℕ → Bool × (ℕ → ℕ) → Type 0
  ReadBack src a r = user_bytes tr r.1 (length src) a ≡ (if r.0 then some src else none)

  -- What was written is read back, or some page was not mapped.
  user_write-ReadBack :
      (h : Frames) (mem : ℕ → ℕ) (a : ℕ) (src : List ℕ) → ReadBack src a (user_write tr mem a src)
  unfolding user_write user_bytes ReadBack
  user_write-ReadBack h mem a [] = refl
  user_write-ReadBack h mem a (b ∷ bs) = elim (Option-cases (tr (rounddown a))) [
    | inl e ↦ subst (ReadBack (b ∷ bs) a) (sym (user_write-unmapped tr mem a b bs e)) (
        ap (λ o. also tr o (user_bytes tr mem (length bs) (suc a)))
          (ap (read_byte mem (a % 4096)) e))
    | inr (f, e) ↦
        let mem' = update mem (f + a % 4096) b in
        let here : user_byte tr (user_write tr mem' (suc a) bs).1 a ≡ some b =
          user_write-else h mem' (suc a) bs a (inl (omega arith))
          ∙ user_byte-update_self mem a f b e in
        subst (ReadBack (b ∷ bs) a) (sym (user_write-mapped tr mem a b f bs e)) (
          ap (λ o. also tr o (user_bytes tr (user_write tr mem' (suc a) bs).1 (length bs) (suc a)))
            here
          ∙ (ap (also tr (some b)) (user_write-ReadBack h mem' (suc a) bs) ∙ also-if b bs _))
  ]

  -- A copy to the user at `dstva`, then what `copyin` reads from there, and what else the user sees.
  abbrev pub Copied : (ℕ → ℕ) → ℕ → List ℕ → Option (Bool × (ℕ → ℕ)) → Type 0
  Copied mem dstva src none = ⊥
  Copied mem dstva src (some (ok, mem')) =
      (copyin tr mem' (length src) dstva ≡ some (if ok then some src else none))
      × ((c : ℕ)
          → (c < dstva) ⊎ (dstva + length src ≤ c)
          → user_byte tr mem' c ≡ user_byte tr mem c)

  -- Where the frames of distinct pages do not overlap, `copyout` ends within its fuel. Where it
  -- succeeds, `copyin` of as many bytes from the same address gives the bytes copied; where it
  -- fails, that `copyin` fails too. In both cases no byte that the user sees outside the range
  -- has changed.
  pub copyout-Copied :
      (h : Frames) (mem : ℕ → ℕ) (dstva : ℕ) (src : List ℕ)
      → Copied mem dstva src (copyout tr mem dstva src)
  unfolding ReadBack
  copyout-Copied h mem dstva src =
      subst (Copied mem dstva src) (sym (copyout-user_write tr mem dstva src)) (
        copyin-user_bytes tr _ (length src) dstva ∙ ap some (user_write-ReadBack h mem dstva src),
        user_write-else h mem dstva src,
      )
