-- ===== src/Files/Counted.antt =====
-- The strong counts of files.
use octox.Base.{
  ℕ, suc, ◌+◌, ◌-◌, ◌≤◌, ◌≡◌, ◌≢◌, inl, inr, refl, sym, ap, ◌∙◌, true, false, List, ◌==◌, ltb,
  if◌then◌else◌, arith, Option, none, some, update, Bool-cases, Outcome, done, panicked,
}
use octox.Mode.Defs.{OMode}
use octox.Files.Defs.{
  VFile, Files, place, allocated, alloc, clone, clear, held, drop_check, drop_end, Step, allocs,
  clones, checks, ends, no_files, Reach, start, later,
}
use octox.Files.Counts.{held-clear_self, held-clear_else, held-replicate, Placed, place-Placed}

-- The count of an Arc is the number of its references; a file in use has exactly one in the table; an
-- Arc has a file as long as it is counted, and numbers not yet given out have nothing.
pub record Counted (s : Files) : Type 0 where
  pub exact : (a : ℕ) → s.count a ≡ held a s.table + (s.live a + s.closing a)
  pub entered : (a : ℕ) → s.live a ≢ 0 → held a s.table ≡ 1
  pub single : (a : ℕ) → held a s.table ≤ 1
  pub unborn : (a : ℕ) → s.next ≤ a → s.count a ≡ 0
  pub gone : (a : ℕ) → s.count a ≡ 0 → s.vfile a ≡ none
  pub kept : (a : ℕ) → s.count a ≢ 0 → s.vfile a ≢ none

no_files-Counted : (n : ℕ) → Counted (no_files n)
no_files-Counted n = record {
  exact = λ a. omega (arith, held-replicate a n);
  entered = λ a h. absurd (h refl);
  single = λ a. omega (arith, held-replicate a n);
  unborn = λ a h. refl;
  gone = λ a h. refl;
  kept = λ a h. absurd (h refl);
}

update_self : (f : ℕ → ℕ) (a x : ℕ) → update f a x a ≡ x
update_self f a x = let self : (a == a) ≡ true = ground arith in rw self refl

clone-Counted : (a : ℕ) (s : Files) → Counted s → s.live a ≢ 0 → Counted (clone a s)
unfolding clone
clone-Counted a s h l = record {
  exact = λ b. let e = h.exact b in ground (arith, e);
  entered = λ b k. let e = h.entered b in let e' = h.entered a l in ground (arith, e, e', k);
  single = h.single;
  unborn = λ b k. let e = h.unborn b k in let c = h.exact b in ground (arith, e, c, l, k);
  gone = λ b k. let e = h.gone b in ground (arith, e, k);
  kept = λ b k.
      let e = h.kept b in let e' = h.kept a in let c = h.exact a in ground (arith, e, e', c, k, l);
}

alloc-Counted : (opts : OMode) (v : VFile) (s : Files) → Counted s → Counted (alloc opts v s).1
unfolding alloc
alloc-Counted opts v s h = by_place (place s.next s.table) (place-Placed s.next s.table)
  where
    none_yet : (held s.next s.table ≡ 0) × (s.live s.next ≡ 0) × (s.closing s.next ≡ 0)
    none_yet =
        let e = h.exact s.next in
        let z = h.unborn s.next (omega arith) in
        (omega (arith, e, z), omega (arith, e, z), omega (arith, e, z))

    by_place :
        (o : Option (List (Option ℕ))) → Placed s.next s.table o → Counted (allocated opts v s o).1
    by_place none p = h
    by_place (some t) (here, others, len) =
        let (z, zl, zc) = none_yet in
        let held_new : (b : ℕ) → held b t ≡ (if s.next == b then 1 else held b s.table) = λ b.
          elim (Bool-cases (s.next == b)) [
            | inl q ↦
                let me : s.next ≡ b = ground (arith, q) in
                rw q (ap (λ c. held c t) (sym me) ∙ (here ∙ ap suc z))
            | inr q ↦ rw q (others b (λ e. ground (arith, q, e)))
          ] in
        record {
          exact = λ b.
              let e = h.exact b in
              let n = held_new b in let e' = h.exact s.next in ground (arith, e, n, z, zl, zc, e');
          entered = λ b k. let e = h.entered b in let n = held_new b in ground (arith, e, n, k);
          single = λ b. let e = h.single b in let n = held_new b in ground (arith, e, n);
          unborn = λ b k. let e = h.unborn b in ground (arith, e, k);
          gone = λ b k. let e = h.gone b in ground (arith, e, k);
          kept = λ b k. let e = h.kept b in ground (arith, e, k);
        }

-- No panic, and counts that are right.
abbrev pub Sound : Outcome Files → Type 0
Sound (done s) = Counted s
Sound panicked = ⊥

drop_check-Counted : (a : ℕ) (s : Files) → Counted s → s.live a ≢ 0 → Sound (drop_check a s)
unfolding drop_check
drop_check-Counted a s h l =
    let exact = h.exact a in
    let entered = h.entered a l in
    let many : ltb (s.count a) 2 ≡ false = ground (arith, exact, entered, l) in
    elim (Bool-cases (s.count a == 2)) [
      | inl q ↦ rw (many, q, Sound) (last q)
      | inr q ↦
          rw (many, q, Sound)
            (record {
              exact = λ b. let e = h.exact b in ground (arith, e, l);
              entered = λ b k. let e = h.entered b in ground (arith, e, entered, k);
              single = h.single;
              unborn = h.unborn;
              gone = h.gone;
              kept = h.kept;
            })
    ]
  where
    last :
        (s.count a == 2) ≡ true
        → Counted (record s {
          table = clear a s.table;
          count = update s.count a (s.count a - held a s.table);
          live = update s.live a (s.live a - 1);
          closing = update s.closing a (suc (s.closing a));
        })
    last q =
        let exact = h.exact a in
        let entered = h.entered a l in
        let held_new : (b : ℕ) → held b (clear a s.table) ≡ (if a == b then 0 else held b s.table) =
          λ b. elim (Bool-cases (a == b)) [
            | inl p ↦
                let me : a ≡ b = ground (arith, p) in
                rw p (ap (λ c. held c (clear a s.table)) (sym me) ∙ held-clear_self a s.table)
            | inr p ↦ rw p (held-clear_else a b s.table (λ e. ground (arith, p, e)))
          ] in
        record {
          exact = λ b.
              let e = h.exact b in let n = held_new b in ground (arith, e, n, exact, entered, q, l);
          entered = λ b k.
              let e = h.entered b in
              let n = held_new b in ground (arith, e, n, exact, entered, q, k, l);
          single = λ b. let e = h.single b in let n = held_new b in ground (arith, e, n);
          unborn = λ b k.
              let e = h.unborn b k in let e' = h.unborn a in ground (arith, e, e', exact, q, k);
          gone = λ b k.
              let e = h.gone b in let e' = h.gone a in ground (arith, e, e', exact, entered, q, k);
          kept = λ b k. let e = h.kept b in let e' = h.kept a in ground (arith, e, e', exact, q, k);
        }

drop_end-Counted : (a : ℕ) (s : Files) → Counted s → s.closing a ≢ 0 → Counted (drop_end a s)
unfolding drop_end
drop_end-Counted a s h l =
    let exact = h.exact a in
    elim (Bool-cases (s.count a == 1)) [
      | inl q ↦ rw q (record {
        exact = λ b. let e = h.exact b in ground (arith, e, exact, q, l);
        entered = h.entered;
        single = h.single;
        unborn = λ b k. let e = h.unborn b k in ground (arith, e, exact, q, l);
        gone = λ b k. let e = h.gone b in ground (arith, e, exact, q, k);
        kept = λ b k. let e = h.kept b in ground (arith, e, exact, q, k);
      })
      | inr q ↦ rw q (record {
        exact = λ b. let e = h.exact b in ground (arith, e, exact, q, l);
        entered = h.entered;
        single = h.single;
        unborn = λ b k. let e = h.unborn b k in ground (arith, e, exact, q, l);
        gone = λ b k. let e = h.gone b in ground (arith, e, exact, q, k, l);
        kept =
            λ b k. let e = h.kept b in let e' = h.kept a in ground (arith, e, e', exact, q, k, l);
      })
    ]

pub Step-Sound : (s : Files) (o : Outcome Files) → Counted s → Step s o → Sound o
Step-Sound s o h (allocs opts v) = alloc-Counted opts v s h
Step-Sound s o h (clones a l) = clone-Counted a s h l
Step-Sound s o h (checks a l) = drop_check-Counted a s h l
Step-Sound s o h (ends a l) = drop_end-Counted a s h l

-- However processes open, duplicate and drop files, with the drops of several processors in any
-- interleaving, no drop panics, the strong count of each file is the number of its references, and
-- a file is there exactly as long as its count is not 0.
pub Reach-Sound : (o : Outcome Files) → Reach o → Sound o
Reach-Sound o (start n) = no_files-Counted n
Reach-Sound o (later {s = s} r t) = Step-Sound s o (Reach-Sound (done s) r) t
