-- ===== src/Files/Last.antt =====
-- The drop of a file, when no other drop of it is under way.
use octox.Base.{
  ℕ, suc, ◌-◌, ◌<◌, ◌≡◌, ◌≢◌, refl, sym, ap, subst, ◌∙◌, true, false, ◌∷◌, ◌==◌, ltb, arith, none,
  update, Bool-cases, inl, inr, Outcome, done, panicked,
}
use octox.Files.Defs.{Files, clear, held, drop_check, drop_end, drop_file}
use octox.Files.Counts.{held-clear_self}
use octox.Files.Counted.{Counted}

-- The outcomes of the two steps of a drop.
abbrev pub skipped : ℕ → Files → Files
skipped a s = record s {
  live = update s.live a (s.live a - 1);
  closing = update s.closing a (suc (s.closing a));
}

abbrev pub unlinked : ℕ → Files → Files
unlinked a s = record s {
  table = clear a s.table;
  count = update s.count a (s.count a - held a s.table);
  live = update s.live a (s.live a - 1);
  closing = update s.closing a (suc (s.closing a));
}

abbrev pub released : ℕ → Files → Files
released a s = record s {
  count = update s.count a (s.count a - 1);
  closing = update s.closing a (s.closing a - 1);
}

abbrev pub ended : ℕ → Files → Files
ended a s = record s {
  count = update s.count a (s.count a - 1);
  closing = update s.closing a (s.closing a - 1);
  vfile = update s.vfile a none;
  closed = a ∷ s.closed;
}

pub drop_check-unlinked : (a : ℕ) (s : Files) → s.count a ≡ 2 → drop_check a s ≡ done (unlinked a s)
unfolding drop_check
drop_check-unlinked a s e =
    let many : ltb (s.count a) 2 ≡ false = ground (arith, e) in
    let two : (s.count a == 2) ≡ true = ground (arith, e) in rw (many, two) refl

pub drop_check-skipped : (a : ℕ) (s : Files) → 2 < s.count a → drop_check a s ≡ done (skipped a s)
unfolding drop_check
drop_check-skipped a s e =
    let many : ltb (s.count a) 2 ≡ false = ground (arith, e) in
    let two : (s.count a == 2) ≡ false = ground (arith, e) in rw (many, two) refl

pub drop_end-ended : (a : ℕ) (s : Files) → s.count a ≡ 1 → drop_end a s ≡ ended a s
unfolding drop_end
drop_end-ended a s e = let one : (s.count a == 1) ≡ true = ground (arith, e) in rw one refl

pub drop_end-released : (a : ℕ) (s : Files) → 1 < s.count a → drop_end a s ≡ released a s
unfolding drop_end
drop_end-released a s e = let one : (s.count a == 1) ≡ false = ground (arith, e) in rw one refl

after : ℕ → Outcome Files → Outcome Files
after a panicked = panicked
after a (done t) = done (drop_end a t)

drop_file-after : (a : ℕ) (s : Files) → drop_file a s ≡ after a (drop_check a s)
unfolding drop_file after
drop_file-after a s = by_check (drop_check a s)
  where
    by_check :
        (o : Outcome Files)
        → (elim o as (λ _. Outcome Files) [ panicked ↦ panicked | done t ↦ done (drop_end a t) ])
          ≡ after a o
    by_check panicked = refl
    by_check (done t) = refl

-- A drop of a use that is not the last.
pub drop_file-released :
    (a : ℕ) (s : Files) → 2 < s.count a → drop_file a s ≡ done (released a (skipped a s))
unfolding after
drop_file-released a s many =
    drop_file-after a s
    ∙ (ap (after a) (drop_check-skipped a s many)
        ∙ ap done (drop_end-released a (skipped a s) (omega (arith, many))))

-- A drop of the only use.
pub drop_file-ended :
    (a : ℕ) (s : Files)
    → s.count a ≡ 2
    → held a s.table ≡ 1
    → drop_file a s ≡ done (ended a (unlinked a s))
unfolding after
drop_file-ended a s two entered =
    let self : (a == a) ≡ true = ground arith in
    let one : (unlinked a s).count a ≡ 1 = ground (arith, self, two, entered) in
    drop_file-after a s
    ∙ (ap (after a) (drop_check-unlinked a s two) ∙ ap done (drop_end-ended a (unlinked a s) one))

-- The last file gives back its place and ends the Arc; any other one leaves both.
abbrev Dropped : ℕ → Files → Outcome Files → Type 0
Dropped a s panicked = ⊥
Dropped a s (done t) =
    (t.live a ≡ s.live a - 1)
    × (t.closing a ≡ 0)
    × ((s.live a ≡ 1) → (held a t.table ≡ 0) × (t.vfile a ≡ none) × (t.closed ≡ a ∷ s.closed))
    × ((s.live a ≢ 1) → (t.table ≡ s.table) × (t.vfile a ≡ s.vfile a) × (t.closed ≡ s.closed))

-- With the counts right and no other drop of the file under way, a drop does not panic and ends one use
-- of the file. The last use empties the place in the table and drops the file behind, once; any
-- other leaves the table and the file alone.
drop_file-Dropped :
    (a : ℕ) (s : Files) → Counted s → s.live a ≢ 0 → s.closing a ≡ 0 → Dropped a s (drop_file a s)
drop_file-Dropped a s h l c =
    let exact = h.exact a in
    let entered = h.entered a l in
    let self : (a == a) ≡ true = ground arith in
    elim (Bool-cases (s.live a == 1)) [
      | inl q ↦
          let two : s.count a ≡ 2 = ground (arith, q, exact, entered, c) in
          subst (Dropped a s) (sym (drop_file-ended a s two entered)) (
            ground (arith, self),
            ground (arith, self, c),
            (λ e. (held-clear_self a s.table, ground (arith, self), refl)),
            λ ne. absurd (ground (arith, ne, q)),
          )
      | inr q ↦
          let many : 2 < s.count a = ground (arith, q, exact, entered, c, l) in
          subst (Dropped a s) (sym (drop_file-released a s many)) (
            ground (arith, self),
            ground (arith, self, c),
            (λ e. absurd (ground (arith, e, q))),
            λ ne. (refl, refl, refl),
          )
    ]
