-- ===== src/Proc/Reap.antt =====
-- `wait`: which child it takes, and when there is none to take.
use octox.Base.{
  ℕ, zero, suc, ◌≡◌, ◌≢◌, refl, ap, ◌∙◌, Bool, true, false, ◌||◌, List, [], ◌∷◌, if◌then◌else◌,
  arith, some, inl, inr, Bool-cases, get_elem?,
}
use octox.Proc.Defs.{
  Proc, ProcState, unused, used, runnable, running, zombie, sleeping, is, change, is_child,
  free_proc, new, Scan, reaped, copy_failed, nothing, keep, scan,
}

-- Whether a process of the table is a child of `me`.
unfoldable pub any_child : ℕ → List Proc → Bool
any_child me [] = false
any_child me (p ∷ ps) = is_child me p || any_child me ps

abbrev pub ZombieChild : ℕ → List Proc → ℕ → Proc → Type 0
ZombieChild me ps k z = (get_elem? ps k ≡ some z) × (is_child me z ≡ true) × (z.state ≡ zombie)

-- What a scan of the table says.
abbrev pub ScanPost : (ℕ → Bool) → ℕ → Bool → List Proc → Scan → Type 0
ScanPost copyout me havekids ps (reaped pid status qs) =
    (k : ℕ) × (z : Proc) × ZombieChild me ps k z
    × (pid ≡ z.pid)
    × (status ≡ z.xstate)
    × (copyout z.pid ≡ true)
    × (qs ≡ change k (λ p. new) ps)
ScanPost copyout me havekids ps copy_failed =
    (k : ℕ) × (z : Proc) × ZombieChild me ps k z × (copyout z.pid ≡ false)
ScanPost copyout me havekids ps (nothing h) =
    (h ≡ (havekids || any_child me ps))
    × ((k : ℕ) (z : Proc) → get_elem? ps k ≡ some z → is_child me z ≡ true → z.state ≢ zombie)

zombie_is : (p : Proc) → is p.state zombie ≡ true → p.state ≡ zombie
zombie_is p h = by_state p.state h
  where
    by_state : (s : ProcState) → is s zombie ≡ true → s ≡ zombie
    by_state zombie h = refl
    by_state unused h = absurd (ground arith)
    by_state used h = absurd (ground arith)
    by_state sleeping h = absurd (ground arith)
    by_state runnable h = absurd (ground arith)
    by_state running h = absurd (ground arith)

-- A process in front that is not taken.
module _ (copyout : ℕ → Bool) (me : ℕ) (p : Proc) (ps : List Proc) where
  keep-ScanPost :
      (kids kids' : Bool)
      → (kids' ≡ (kids || is_child me p))
      → (is_child me p ≡ true → p.state ≢ zombie)
      → (r : Scan) → ScanPost copyout me kids' ps r
      → ScanPost copyout me kids (p ∷ ps) (keep p r)
  unfolding keep any_child
  keep-ScanPost kids kids' e n (reaped pid status qs) (k, z, h, a, b, w, c) =
      (suc k, z, h, a, b, w, ap (λ xs. p ∷ xs) c)
  keep-ScanPost kids kids' e n copy_failed (k, z, h, c) = (suc k, z, h, c)
  keep-ScanPost kids kids' e n (nothing h) (same, none_left) = (ground (arith, e, same), later)
    where
      later :
          (k : ℕ) (z : Proc)
          → get_elem? (p ∷ ps) k ≡ some z
          → is_child me z ≡ true
          → z.state ≢ zombie
      later zero z g c =
          let first : p ≡ z = ground arith in
          λ q. n (ap (is_child me) first ∙ c) (ap (λ (x : Proc). x.state) first ∙ q)
      later (suc k) z g c = none_left k z g c

  here : is_child me p ≡ true → is p.state zombie ≡ true → ZombieChild me (p ∷ ps) 0 p
  here t q = (refl, t, zombie_is p q)

  -- A zombie child in front.
  zombie-ScanPost :
      (kids : Bool)
      → is_child me p ≡ true
      → is p.state zombie ≡ true
      → ScanPost copyout me kids
          (p ∷ ps)
          (if copyout p.pid then reaped p.pid p.xstate (free_proc p ∷ ps) else copy_failed)
  unfolding free_proc
  zombie-ScanPost kids t q = elim (Bool-cases (copyout p.pid)) [
    | inl c ↦ rw (c, ScanPost) (0, p, here t q, refl, refl, c, refl)
    | inr c ↦ rw (c, ScanPost) (0, p, here t q, c)
  ]

-- A scan of `wait` takes a zombie child whose status could be copied, through the page table of the child
-- itself, gives its identifier and status, makes its place in the table a new unused one and
-- leaves the others; or fails to copy the status of one; or finds that no child is a zombie, and then says whether there are children,
-- or were in an earlier scan.
pub scan-post :
    (copyout : ℕ → Bool) (me : ℕ) (havekids : Bool) (ps : List Proc)
    → ScanPost copyout me havekids ps (scan copyout me havekids ps)
unfolding scan any_child
scan-post copyout me havekids [] = (ground arith, λ k z g. absurd (ground arith))
scan-post copyout me havekids (p ∷ ps) =
    let other = scan-post copyout me havekids ps in
    let living = scan-post copyout me true ps in
    elim (Bool-cases (is_child me p)) [
      | inr f ↦
          rw (f, ScanPost)
            (keep-ScanPost copyout me p ps havekids havekids (ground (arith, f))
              (λ c. ground (arith, c, f)) _ other)
      | inl t ↦ elim (Bool-cases (is p.state zombie)) [
        | inl q ↦ rw (t, q, ScanPost) (zombie-ScanPost copyout me p ps havekids t q)
        | inr q ↦
            rw (t, q, ScanPost)
              (keep-ScanPost copyout me p ps havekids true (ground (arith, t))
                (λ c e. ground (arith, q, e)) _ living)
      ]
    ]
