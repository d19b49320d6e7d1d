-- ===== src/Lock/Sleep.antt =====
-- The sleep lock under any interleaving of the steps of the processes.
use octox.Base.{
  ℕ, ◌≡◌, ◌≢◌, refl, sym, ap, subst, ◌∙◌, Bool, true, false, ◌&&◌, ◌==◌, if◌then◌else◌, List, [],
  ◌∷◌, arith, update, inl, inr, Bool-cases, Outcome, done, panicked, ◌>>=◌,
}
use octox.Lock.Defs.{
  new, Stand, outside, waiting, asleep, inside, dropping, System, look, is_holding, roused, release,
  step_at, step, stirred,
}

abbrev pub has_guard : Stand → Bool
has_guard outside = false
has_guard waiting = false
has_guard asleep = false
has_guard inside = true
has_guard dropping = true

abbrev pub sleeps : Stand → Bool
sleeps outside = false
sleeps waiting = false
sleeps asleep = true
sleeps inside = false
sleeps dropping = false

abbrev pub wants : Stand → Bool
wants outside = false
wants waiting = true
wants asleep = true
wants inside = false
wants dropping = false

pub data Step : System → System → Type 0 where
  by : {s : System} (me : ℕ) (t : System) → step me s ≡ done t → Step s t
  stir : {s : System} (i : ℕ) → Step s (stirred i s)

pub data Reach : System → System → Type 0 where
  start : {s : System} → Reach s s
  later : {s t u : System} → Reach s t → Step t u → Reach s u

abbrev pub unused : System
unused = record { info = new; at = λ i. outside }

-- The lock names who has its guard, and nobody sleeps on a free lock.
pub record IsSound (s : System) : Type 0 where
  pub named : (i : ℕ) → has_guard (s.at i) ≡ is_holding i s.info
  pub wakeful : (i : ℕ) → sleeps (s.at i) ≡ true → s.info.locked ≡ true

abbrev StepPost : Outcome System → Type 0
StepPost panicked = ⊥
StepPost (done t) = IsSound t

step-IsSound : (me : ℕ) (s : System) → IsSound s → StepPost (step me s)
unfolding step look is_holding release
step-IsSound me s h = by_stand (s.at me) refl
  where
    by_stand : (p : Stand) → s.at me ≡ p → StepPost (step_at me s p)
    by_stand outside e = record {
      named = λ i. let old = h.named i in let mine = h.named me in ground (arith, old, mine, e);
      wakeful = λ i w. let old = h.wakeful i in ground (arith, old, w);
    }
    by_stand waiting e = elim (Bool-cases s.info.locked) [
      | inl l ↦ rw l record {
        named =
            λ i. let old = h.named i in let mine = h.named me in ground (arith, old, mine, e, l);
        wakeful = λ i w. refl;
      }
      | inr l ↦ rw l record {
        named =
            λ i. let old = h.named i in let mine = h.named me in ground (arith, old, mine, e, l);
        wakeful = λ i w. refl;
      }
    ]
    by_stand asleep e = h
    by_stand inside e =
        let held : (s.info.locked && (s.info.pid == me)) ≡ true =
          sym (h.named me) ∙ ap has_guard e in
        rw held record {
          named = λ i. let old = h.named i in let mine = h.named me in ground (arith, old, mine, e);
          wakeful = λ i w. let old = h.wakeful i in ground (arith, old, w);
        }
    by_stand dropping e = record {
      named = λ i. let old = h.named i in let mine = h.named me in ground (arith, old, mine, e);
      wakeful = λ i w. absurd (ground (arith, w));
    }

Step-IsSound : (s t : System) → Step s t → IsSound s → IsSound t
Step-IsSound s t (by me u r) h = subst StepPost r (step-IsSound me s h)
Step-IsSound s t (stir i) h = record {
  named = λ j. let old = h.named j in ground (arith, old);
  wakeful = λ j w. let old = h.wakeful j in ground (arith, old, w);
}

Reach-IsSound : (s t : System) → IsSound s → Reach s t → IsSound t
Reach-IsSound s t h start = h
Reach-IsSound s t h (later {t = m} r x) = Step-IsSound m t x (Reach-IsSound s m h r)

unused-IsSound : IsSound unused
unfolding is_holding
unused-IsSound = record { named = λ i. refl; wakeful = λ i w. absurd (ground (arith, w)) }

-- Whatever processes do with a sleep lock that is free at first, in any interleaving of their steps and with
-- any of them stirred by a kill: no two have its guard, the next step of no process panics, and
-- as long as any process sleeps on the lock some process has the guard.
pub Reach-guarded_asleep :
    (s : System)
    → Reach unused s
    → ((i j : ℕ) → has_guard (s.at i) ≡ true → has_guard (s.at j) ≡ true → i ≡ j)
      × ((me : ℕ) → step me s ≢ panicked)
      × ((i : ℕ) → sleeps (s.at i) ≡ true → has_guard (s.at s.info.pid) ≡ true)
unfolding is_holding
Reach-guarded_asleep s r =
    let h = Reach-IsSound unused s unused-IsSound r in
    (
      λ i j a b. (let x = h.named i in let y = h.named j in ground (arith, x, y, a, b)),
      λ me e. subst StepPost e (step-IsSound me s h),
      λ i w. (let l = h.wakeful i w in let x = h.named s.info.pid in ground (arith, l, x)),
    )

-- A run in which the processes of the list take the next step, one after the other.
abbrev pub run : List ℕ → System → Outcome System
run [] s = done s
run (me ∷ rest) s = step me s >>= run rest

-- The end of a run.
abbrev pub EndsInside : ℕ → Outcome System → Type 0
EndsInside i panicked = ⊥
EndsInside i (done t) = t.at i ≡ inside

-- The steps that the holder takes to give the lock back, and then the look of the process that waits.
abbrev pub turns : Stand → (holder i : ℕ) → List ℕ
turns inside holder i = holder ∷ holder ∷ i ∷ []
turns dropping holder i = holder ∷ i ∷ []
turns outside holder i = i ∷ []
turns waiting holder i = i ∷ []
turns asleep holder i = i ∷ []

look-inside :
    (s : System) (i : ℕ) → s.at i ≡ waiting → s.info.locked ≡ false → EndsInside i (run (i ∷ []) s)
unfolding step look
look-inside s i e l = rw (e, l, EndsInside) (ground arith)

rouses : (p : Stand) → wants p ≡ true → roused p ≡ waiting
rouses p w = ground (arith, w)

release-inside :
    (s : System) (i j : ℕ)
    → s.at j ≡ dropping
    → i ≢ j
    → wants (s.at i) ≡ true
    → EndsInside i (run (j ∷ i ∷ []) s)
unfolding step release
release-inside s i j e ne w =
    let there : update (λ k. roused (s.at k)) j outside i ≡ waiting =
      (let up = rouses (s.at i) w in ground (arith, ne, up)) in
    rw e (look-inside (release j s) i there refl)

holder-inside :
    (s : System) (i j : ℕ)
    → s.at j ≡ inside
    → is_holding j s.info ≡ true
    → i ≢ j
    → wants (s.at i) ≡ true
    → EndsInside i (run (j ∷ j ∷ i ∷ []) s)
unfolding step
holder-inside s i j e held ne w =
    rw (e, held)
      (release-inside (record s { at = update s.at j dropping }) i j (ground arith) ne
        (ground (arith, ne, w)))

-- However the processes got there, one that waits for the lock, asleep or not, gets its guard once whoever
-- has the guard has taken the two steps at most that give it back, and the process has then
-- looked once: the release wakes it, and nothing else need run.
pub waiting-inside :
    (s : System) (i : ℕ)
    → Reach unused s
    → wants (s.at i) ≡ true
    → EndsInside i
        (run (if s.info.locked then turns (s.at s.info.pid) s.info.pid i else (i ∷ [])) s)
unfolding is_holding
waiting-inside s i r w =
    let h = Reach-IsSound unused s unused-IsSound r in
    elim (Bool-cases s.info.locked) [
      | inl l ↦
          subst
            (λ b.
              EndsInside i (run (if b then turns (s.at s.info.pid) s.info.pid i else (i ∷ [])) s))
            (sym l) (by_holder h l (s.at s.info.pid) refl)
      | inr l ↦
          let up = h.wakeful i in
          let there : s.at i ≡ waiting =
            awake_of (s.at i) w (λ z. (let x = up z in ground (arith, x, l))) in
          subst
            (λ b.
              EndsInside i (run (if b then turns (s.at s.info.pid) s.info.pid i else (i ∷ [])) s))
            (sym l) (look-inside s i there l)
    ]
  where
    awake_of : (p : Stand) → wants p ≡ true → (sleeps p ≢ true) → p ≡ waiting
    awake_of p w ne = ground (arith, w, ne)

    ne_pid : (p : Stand) → s.at s.info.pid ≡ p → has_guard p ≡ true → i ≢ s.info.pid
    ne_pid p e g z = let same : s.at i ≡ p = ap s.at z ∙ e in ground (arith, same, g, w)

    nobody :
        IsSound s → s.info.locked ≡ true → (p : Stand) → s.at s.info.pid ≡ p → has_guard p ≢ false
    nobody h l p e g =
        let x = h.named s.info.pid in let y = ap has_guard e in ground (arith, x, y, g, l)

    by_holder :
        IsSound s
        → s.info.locked ≡ true
        → (p : Stand) → s.at s.info.pid ≡ p
        → EndsInside i (run (turns p s.info.pid i) s)
    by_holder h l inside e =
        holder-inside s i s.info.pid e (sym (h.named s.info.pid) ∙ ap has_guard e)
          (ne_pid inside e refl) w
    by_holder h l dropping e = release-inside s i s.info.pid e (ne_pid dropping e refl) w
    by_holder h l outside e = absurd (nobody h l outside e refl)
    by_holder h l waiting e = absurd (nobody h l waiting e refl)
    by_holder h l asleep e = absurd (nobody h l asleep e refl)
