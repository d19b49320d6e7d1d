-- ===== src/Intr/Nesting.antt =====
-- Interrupts are off while there is an IntrLock, and as before when there is none.
use octox.Base.{
  ℕ, zero, suc, ◌-◌, ◌≡◌, ◌≢◌, refl, sym, ap, ◌∙◌, Bool, true, false, ◌&&◌, List, [], ◌∷◌, ◌==◌,
  if◌then◌else◌, arith, Option, none, some, done, ◌>>=◌,
}
use octox.Intr.Defs.{Cpu, intr_lock, unlock, Op, take, drop, run}

-- How many locks are left after the operations; none where more are dropped than there are.
unfoldable pub left : ℕ → List Op → Option ℕ
left n [] = some n
left n (take ∷ ops) = left (suc n) ops
left zero (drop ∷ ops) = none
left (suc n) (drop ∷ ops) = left n ops

-- The processor holds `n` locks, and its interrupts were `was` before the first.
pub record Holds (was : Bool) (n : ℕ) (c : Cpu) : Type 0 where
  pub depth : c.noff ≡ n
  pub off : n ≢ 0 → (c.enabled ≡ false) × (c.intena ≡ was)
  pub on : n ≡ 0 → c.enabled ≡ was

module _ (was : Bool) where
  intr_lock-Holds : (n : ℕ) (c : Cpu) → Holds was n c → Holds was (suc n) (intr_lock c)
  unfolding intr_lock
  intr_lock-Holds zero c h =
      let first : (c.noff == 0) ≡ true = ground (arith, h.depth) in
      record {
        depth = omega (arith, h.depth);
        off = λ _. (refl, rw first (h.on refl));
        on = λ e. absurd (omega arith);
      }
  intr_lock-Holds (suc n) c h =
      let more : (c.noff == 0) ≡ false = ground (arith, h.depth) in
      record {
        depth = omega (arith, h.depth);
        off = λ _. (refl, rw more ((h.off (λ e. omega arith)).1));
        on = λ e. absurd (omega arith);
      }

  abbrev after : ℕ → Cpu → Cpu
  after n c = record { noff = n; intena = c.intena; enabled = (n == 0) && c.intena }

  after-unlock :
      (n m : ℕ) (e i : Bool)
      → e ≡ false
      → m ≡ suc n
      → unlock (record { noff = m; intena = i; enabled = e })
        ≡ done (after n (record { noff = m; intena = i; enabled = e }))
  unfolding unlock
  after-unlock n m true i f g = absurd (ground arith)
  after-unlock n m false i f g =
      let positive : (m == 0) ≡ false = ground (arith, g) in
      let one_less : m - 1 ≡ n = omega (arith, g) in
      rw (positive, one_less)
        (ap (λ b. done (record { noff = n; intena = i; enabled = b })) (by_cond ((n == 0) && i)))
    where
      by_cond : (b : Bool) → (if b then true else false) ≡ b
      by_cond true = refl
      by_cond false = refl

  after-Holds : (n : ℕ) (c : Cpu) → c.intena ≡ was → Holds was n (after n c)
  after-Holds zero c e = record { depth = refl; off = λ k. absurd (k refl); on = λ _. e }
  after-Holds (suc n) c e =
      let more : (suc n == 0) ≡ false = ground arith in
      record { depth = refl; off = λ _. (rw more refl, e); on = λ k. absurd (omega arith) }

  run-Holds :
      (ops : List Op) (n m : ℕ) (c : Cpu)
      → left n ops ≡ some m
      → Holds was n c
      → (c' : Cpu) × (run ops c ≡ done c') × Holds was m c'
  unfolding run left
  run-Holds [] n m c e h = (
    c,
    refl,
    record {
      depth = h.depth ∙ same;
      off = λ k. h.off (λ z. k (sym same ∙ z));
      on = λ k. h.on (same ∙ k);
    },
  )
    where
      same : n ≡ m
      same = ground (arith, e)
  run-Holds (take ∷ ops) n m c e h = run-Holds ops (suc n) m (intr_lock c) e (intr_lock-Holds n c h)
  run-Holds (drop ∷ ops) zero m c e h = absurd (ground arith)
  run-Holds (drop ∷ ops) (suc n) m c e h =
      let (off, kept) = h.off (λ k. omega arith) in
      let (c', r, k) = run-Holds ops n m (after n c) e (after-Holds n c kept) in
      (c', ap (λ o. o >>= run ops) (after-unlock n c.noff c.enabled c.intena off h.depth) ∙ r, k)

-- A processor that holds no lock takes and drops locks in any order, never dropping more than it
-- has: nothing panics, its interrupts are off as long as it holds one, and once it has dropped
-- them all its interrupts are what they were at first.
run-left :
    (ops : List Op) (m : ℕ) (c : Cpu)
    → c.noff ≡ 0
    → left 0 ops ≡ some m
    → (c' : Cpu) × (run ops c ≡ done c')
      × (c'.noff ≡ m)
      × (m ≢ 0 → c'.enabled ≡ false)
      × (m ≡ 0 → c'.enabled ≡ c.enabled)
run-left ops m c z e =
    let (c', r, h) =
      run-Holds c.enabled ops 0 m c e
        (record { depth = z; off = λ k. absurd (k refl); on = λ _. refl }) in
    (c', r, h.depth, (λ k. (h.off k).0), h.on)
