-- ===== src/Proc/Handover.antt =====
-- The end of a process: what `exit` leaves for its parent and for its children.
use octox.Base.{
  ℕ, ◌==◌, ◌≡◌, ◌≢◌, ◌⊎◌, refl, sym, ap, ◌∙◌, ◌||◌, [], ◌∷◌, zero, suc, Bool-cases, Bool, true,
  false, List, if◌then◌else◌, arith, Option, some, inl, inr, get_elem?, done,
}
use octox.Proc.Defs.{
  Proc, sleeping, runnable, zombie, wake, wakeup, change, is_child, child_at, adopt, reparent,
  parent_of, exit, leave, die,
}
use octox.Proc.Pool.{get-change, get-wakeup, child_at-wakeup, child_at-change}
use octox.Proc.Exit.{parent_of-get, reparent-child_at, At, At-reparent}

abbrev Waiting : ℕ → Proc → Type 0
Waiting chan p = (p.chan ≡ chan) × ((p.state ≡ sleeping) ⊎ (p.state ≡ runnable))

if-either {ℓ} : (P : Proc → Type ℓ) (b : Bool) (p q : Proc) → P p → P q → P (if b then p else q)
if-either P true p q h k = h
if-either P false p q h k = k

parent-wake : (x : Option ℕ) (chan : ℕ) (p : Proc) → p.parent ≡ x → (wake chan p).parent ≡ x
unfolding wake
parent-wake x chan p h = if-either (λ r. r.parent ≡ x) _ (record p { state = runnable }) p h h

wake-Waiting : (c chan : ℕ) (p : Proc) → Waiting c p → Waiting c (wake chan p)
unfolding wake
wake-Waiting c chan p (e, s) =
    if-either (Waiting c) _ (record p { state = runnable }) p (e, inr refl) (e, s)

wake-runnable : (c : ℕ) (p : Proc) → Waiting c p → (wake c p).state ≡ runnable
unfolding wake
wake-runnable c p (e, inl s) = rw (e, s) (ground arith)
wake-runnable c p (e, inr s) = rw (e, s) refl

-- The process `me` is a zombie with the status and the parent given.
abbrev pub Zombie : (me pp status : ℕ) → List Proc → Type 0
Zombie me pp status qs =
    (z : Proc) × (get_elem? qs me ≡ some z)
    × (z.state ≡ zombie)
    × (z.xstate ≡ status)
    × (z.parent ≡ some pp)

abbrev pub Runs : ℕ → List Proc → Type 0
Runs i qs = (w : Proc) × (get_elem? qs i ≡ some w) × (w.state ≡ runnable)

module _ (addr : ℕ → ℕ) (me init pp status : ℕ) (n : init ≢ me) (m : pp ≢ me) where
  abbrev last_pool : List Proc → List Proc
  last_pool rs = change me (die status) (wakeup (some me) (addr pp) rs)

  not_self : (p : Proc) → p.parent ≡ some pp → is_child me p ≡ false
  not_self p h = rw h (ground (arith, m))

  adopt-parent : (p : Proc) → p.parent ≡ some pp → (adopt me init p).parent ≡ some pp
  adopt-parent p h = rw (not_self p h) h

  adopt-Waiting : (p : Proc) → Waiting (addr pp) p → Waiting (addr pp) (adopt me init p)
  adopt-Waiting p h =
      if-either (Waiting (addr pp)) (is_child me p) (record p { parent = some init }) p h h

  Zombie-last_pool :
      (rs : List Proc) (r : Proc)
      → get_elem? rs me ≡ some r
      → r.parent ≡ some pp
      → Zombie me pp status (last_pool rs)
  Zombie-last_pool rs r g h =
      let self : (me == me) ≡ true = ground arith in
      let woken : get_elem? (wakeup (some me) (addr pp) rs) me ≡ some r =
        get-wakeup me (addr pp) rs me r g ∙ rw self refl in
      (die status r, get-change me (die status) _ me r woken ∙ rw self refl, refl, refl, h)

  Runs-last_pool :
      (rs : List Proc) (r : Proc)
      → get_elem? rs pp ≡ some r
      → Waiting (addr pp) r
      → Runs pp (last_pool rs)
  Runs-last_pool rs r g h =
      let other : (pp == me) ≡ false = ground (arith, m) in
      let other' : (me == pp) ≡ false = ground (arith, m) in
      let woken : get_elem? (wakeup (some me) (addr pp) rs) pp ≡ some (wake (addr pp) r) =
        get-wakeup me (addr pp) rs pp r g ∙ rw other refl in
      (
        wake (addr pp) r,
        get-change me (die status) _ pp _ woken ∙ rw other' refl,
        wake-runnable (addr pp) r h,
      )

  orphans : (ps : List Proc) (j : ℕ) → child_at me j (last_pool (reparent addr me init ps)) ≡ false
  orphans ps j =
      child_at-change me me (die status) (λ p. refl) _ j
      ∙ (child_at-wakeup (some me) me (addr pp) _ j ∙ reparent-child_at addr me init n ps j)

  -- A child stays one, of the process or of init.
  Kin : Proc → Type 0
  Kin p = (is_child me p || is_child init p) ≡ true

  wake-Kin : (chan : ℕ) (p : Proc) → Kin p → Kin (wake chan p)
  unfolding wake Kin
  wake-Kin chan p h =
      if-either (λ r. (is_child me r || is_child init r) ≡ true) _ (record p { state = runnable }) p
        h h

  adopt-Kin : (p : Proc) → Kin p → Kin (adopt me init p)
  unfolding Kin
  adopt-Kin p h = elim (Bool-cases (is_child me p)) [
    | inl t ↦
        let other : (init == me) ≡ false = ground (arith, n) in
        let self : (init == init) ≡ true = ground arith in rw (t, other, self) refl
    | inr f ↦ rw (f, is_child) h
  ]

  child_at-get :
      (x j : ℕ) (ps : List Proc) (p : Proc)
      → get_elem? ps j ≡ some p
      → child_at x j ps ≡ is_child x p
  child_at-get x j [] p g = absurd (ground (arith, g))
  child_at-get x zero (q ∷ ps) p g = (let same : q ≡ p = ground (arith, g) in ap (is_child x) same)
  child_at-get x (suc j) (q ∷ ps) p g = child_at-get x j ps p g

  child_at-some :
      (x j : ℕ) (ps : List Proc)
      → child_at x j ps ≡ true
      → (p : Proc) × (get_elem? ps j ≡ some p) × (is_child x p ≡ true)
  child_at-some x j [] h = absurd (ground (arith, h))
  child_at-some x zero (q ∷ ps) h = (q, refl, h)
  child_at-some x (suc j) (q ∷ ps) h = child_at-some x j ps h

  adopted_by_init :
      (ps : List Proc) (j : ℕ)
      → child_at me j ps ≡ true
      → child_at init j (last_pool (reparent addr me init ps)) ≡ true
  unfolding At Kin
  adopted_by_init ps j h =
      let (p, g, c) = child_at-some me j ps h in
      let kin : Kin p = rw c refl in
      let (r, gr, hr) = At-reparent addr me init n Kin wake-Kin adopt-Kin j ps (p, g, kin) in
      let gone : is_child me r ≡ false =
        sym (child_at-get me j _ r gr) ∙ reparent-child_at addr me init n ps j in
      let here : is_child init r ≡ true = either (is_child me r) (is_child init r) gone hr in
      child_at-change init me (die status) (λ p. refl) _ j
      ∙ (child_at-wakeup (some me) init (addr pp) _ j ∙ (child_at-get init j _ r gr ∙ here))
    where
      either : (a b : Bool) → a ≡ false → (a || b) ≡ true → b ≡ true
      either a b e h = ground (arith, e, h)

  exit-last_pool :
      (ps : List Proc) (r : Proc)
      → get_elem? (reparent addr me init ps) me ≡ some r
      → r.parent ≡ some pp
      → exit addr me init status ps ≡ done (last_pool (reparent addr me init ps))
  unfolding exit leave
  exit-last_pool ps r g h =
      let here : parent_of me (reparent addr me init ps) ≡ some pp = parent_of-get me _ r g ∙ h in
      let other : (me == init) ≡ false = ground (arith, n) in rw (other, here) refl

  exit-ends :
      (ps : List Proc) (p q : Proc)
      → get_elem? ps me ≡ some p
      → p.parent ≡ some pp
      → get_elem? ps pp ≡ some q
      → Waiting (addr pp) q
      → (qs : List Proc) × (exit addr me init status ps ≡ done qs)
        × Zombie me pp status qs
        × Runs pp qs
        × ((j : ℕ) → child_at me j qs ≡ false)
        × ((j : ℕ) → child_at me j ps ≡ true → child_at init j qs ≡ true)
  unfolding At
  exit-ends ps p q gp hp gq hq =
      let (r, gr, hr) =
        At-reparent addr me init n (λ x. x.parent ≡ some pp) (parent-wake (some pp)) adopt-parent me
          ps (p, gp, hp) in
      let (w, gw, hw) =
        At-reparent addr me init n (Waiting (addr pp)) (wake-Waiting (addr pp)) adopt-Waiting pp ps
          (q, gq, hq) in
      (
        last_pool (reparent addr me init ps),
        exit-last_pool ps r gr hr,
        Zombie-last_pool _ r gr hr,
        Runs-last_pool _ w gw hw,
        orphans ps,
        adopted_by_init ps,
      )

-- When a process other than init exits whose parent, another process, sleeps in `wait`, the call
-- does not panic; the process is a zombie with its status and still has its parent, the parent can
-- run again, no process of the pool is a child of the zombie any more, and every process that was
-- is a child of init.
pub exit-handover :
    (addr : ℕ → ℕ) (me init pp status : ℕ) (ps : List Proc) (p q : Proc)
    → init ≢ me
    → pp ≢ me
    → get_elem? ps me ≡ some p
    → p.parent ≡ some pp
    → get_elem? ps pp ≡ some q
    → q.chan ≡ addr pp
    → q.state ≡ sleeping
    → (qs : List Proc) × (exit addr me init status ps ≡ done qs)
      × Zombie me pp status qs
      × Runs pp qs
      × ((j : ℕ) → child_at me j qs ≡ false)
      × ((j : ℕ) → child_at me j ps ≡ true → child_at init j qs ≡ true)
exit-handover addr me init pp status ps p q n m gp hp gq chan asleep =
    exit-ends addr me init pp status n m ps p q gp hp gq (chan, inl asleep)
