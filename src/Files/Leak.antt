-- ===== src/Files/Leak.antt =====
-- Two drops of the last two uses of a file that overlap.
use octox.Base.{
  ℕ, ◌<◌, ◌≡◌, ◌≢◌, refl, sym, ap, subst, ◌∙◌, true, false, List, ◌==◌, arith, Option, none, some,
  Bool-cases, inl, inr, Outcome, done, panicked, ◌>>=◌,
}
use octox.Mode.Defs.{OMode}
use octox.Files.Defs.{
  VFile, Files, place, allocated, alloc, clone, held, drop_check, drop_end, Step, allocs, clones,
  checks, ends,
}
use octox.Files.Counts.{held-clear_else, Placed, place-Placed}
use octox.Files.Counted.{Counted, Sound, Step-Sound}
use octox.Files.Last.{skipped, released, drop_check-unlinked, drop_check-skipped, drop_end-released}

-- Both look at the count before either ends its reference.
unfoldable pub overlap : ℕ → Files → Outcome Files
overlap a s = drop_check a s >>= λ t. drop_check a t >>= λ u. done (drop_end a (drop_end a u))

-- Nothing refers to the file but its place in the table.
pub record Lost (a : ℕ) (s : Files) : Type 0 where
  pub unused : s.live a ≡ 0
  pub settled : s.closing a ≡ 0
  pub taken : held a s.table ≡ 1
  pub born : a < s.next

abbrev pub LostIn : ℕ → Outcome Files → Type 0
LostIn a (done s) = Lost a s
LostIn a panicked = ⊥

-- Steps from there on.
pub data Onward (m : Outcome Files) : Outcome Files → Type 0 where
  stays : Onward m m
  goes : {t : Files} {o : Outcome Files} → Onward m (done t) → Step t o → Onward m o

alloc-Lost : (a : ℕ) (opts : OMode) (v : VFile) (s : Files) → Lost a s → Lost a (alloc opts v s).1
unfolding alloc
alloc-Lost a opts v s h = by_place (place s.next s.table) (place-Placed s.next s.table)
  where
    by_place :
        (o : Option (List (Option ℕ))) → Placed s.next s.table o → Lost a (allocated opts v s o).1
    by_place none p = h
    by_place (some t) (here, others, len) =
        let b = h.born in
        let u = h.unused in
        let other : (s.next == a) ≡ false = ground (arith, b) in
        record {
          unused = ground (arith, u, b);
          settled = h.settled;
          taken = others a (λ e. ground (arith, e, b)) ∙ h.taken;
          born = omega (arith, b);
        }

drop_check-Lost :
    (a b : ℕ) (s : Files) → Counted s → Lost a s → s.live b ≢ 0 → LostIn a (drop_check b s)
drop_check-Lost a b s h q l =
    let exact = h.exact b in
    let entered = h.entered b l in
    let u = q.unused in
    let ne : b ≢ a = λ e. l (ap s.live e ∙ u) in
    let other : (b == a) ≡ false = ground (arith, ne) in
    elim (Bool-cases (s.count b == 2)) [
      | inl two ↦ subst (LostIn a) (sym (drop_check-unlinked b s (ground (arith, two)))) (record {
        unused = rw other u;
        settled = rw other q.settled;
        taken = held-clear_else b a s.table ne ∙ q.taken;
        born = q.born;
      })
      | inr many ↦
          subst (LostIn a) (sym (drop_check-skipped b s (ground (arith, many, exact, entered, l))))
            (record {
              unused = rw other u;
              settled = rw other q.settled;
              taken = q.taken;
              born = q.born;
            })
    ]

drop_end-Lost : (a b : ℕ) (s : Files) → Lost a s → s.closing b ≢ 0 → Lost a (drop_end b s)
unfolding drop_end
drop_end-Lost a b s q l =
    let c = q.settled in
    let ne : b ≢ a = λ e. l (ap s.closing e ∙ c) in
    let other : (b == a) ≡ false = ground (arith, ne) in
    elim (Bool-cases (s.count b == 1)) [
      | inl one ↦
          rw one
            (record { unused = q.unused; settled = rw other c; taken = q.taken; born = q.born })
      | inr many ↦
          rw many
            (record { unused = q.unused; settled = rw other c; taken = q.taken; born = q.born })
    ]

Step-Lost : (a : ℕ) (s : Files) (o : Outcome Files) → Counted s → Lost a s → Step s o → LostIn a o
unfolding clone
Step-Lost a s o h q (allocs opts v) = alloc-Lost a opts v s q
Step-Lost a s o h q (clones b l) =
    let u = q.unused in
    let ne : b ≢ a = λ e. l (ap s.live e ∙ u) in
    let other : (b == a) ≡ false = ground (arith, ne) in
    record { unused = rw other u; settled = q.settled; taken = q.taken; born = q.born }
Step-Lost a s o h q (checks b l) = drop_check-Lost a b s h q l
Step-Lost a s o h q (ends b l) = drop_end-Lost a b s q l

Onward-Lost :
    (a : ℕ) (m : Outcome Files)
    → Sound m
    → LostIn a m
    → (o : Outcome Files) → Onward m o
    → Sound o × LostIn a o
Onward-Lost a m h q o stays = (h, q)
Onward-Lost a m h q o (goes {t = t} r step) =
    let (h', q') = Onward-Lost a m h q (done t) r in
    (Step-Sound t o h' step, Step-Lost a t o h' q' step)

-- Both checks see three references, and neither end is the last.
left_over : ℕ → Files → Files
left_over a s = drop_end a (drop_end a (skipped a (skipped a s)))

left_over-released :
    (a : ℕ) (s : Files)
    → s.count a ≡ 3
    → left_over a s ≡ released a (released a (skipped a (skipped a s)))
unfolding left_over
left_over-released a s three =
    let self : (a == a) ≡ true = ground arith in
    let two : 1 < (released a (skipped a (skipped a s))).count a = ground (arith, self, three) in
    ap (drop_end a) (drop_end-released a (skipped a (skipped a s)) (omega (arith, three)))
    ∙ drop_end-released a (released a (skipped a (skipped a s))) two

left_over-Lost :
    (a : ℕ) (s : Files)
    → Counted s
    → s.live a ≡ 2
    → s.closing a ≡ 0
    → s.count a ≡ 3
    → Lost a (left_over a s)
left_over-Lost a s h l c three =
    let self : (a == a) ≡ true = ground arith in
    let entered = h.entered a (λ e. omega (arith, e, l)) in
    let unborn = h.unborn a in
    subst (Lost a) (sym (left_over-released a s three)) (record {
      unused = ground (arith, self, l);
      settled = ground (arith, self, c);
      taken = entered;
      born = ground (arith, unborn, three);
    })

left_over-Counted :
    (a : ℕ) (s : Files)
    → Counted s
    → s.live a ≡ 2
    → s.closing a ≡ 0
    → s.count a ≡ 3
    → Counted (left_over a s)
unfolding left_over
left_over-Counted a s h l c three =
    let self : (a == a) ≡ true = ground arith in
    let t = skipped a s in
    let u = skipped a t in
    let one_left : t.live a ≢ 0 = λ e. ground (arith, self, e, l) in
    let closing : u.closing a ≢ 0 = λ e. ground (arith, self, e) in
    let still : (released a u).closing a ≢ 0 = λ e. ground (arith, self, e) in
    let h1 =
      subst Sound (drop_check-skipped a s (omega (arith, three)))
        (Step-Sound s _ h (checks a (λ e. omega (arith, e, l)))) in
    let h2 =
      subst Sound (drop_check-skipped a t (omega (arith, three)))
        (Step-Sound t _ h1 (checks a one_left)) in
    let h3 = Step-Sound u _ h2 (ends a closing) in
    let first = drop_end-released a u (omega (arith, three)) in
    Step-Sound (drop_end a u) _ h3
      (ends a (λ e. still (ap (λ (z : Files). z.closing a) (sym first) ∙ e)))

overlap-left_over : (a : ℕ) (s : Files) → s.count a ≡ 3 → overlap a s ≡ done (left_over a s)
unfolding overlap left_over
overlap-left_over a s three =
    rw
      (
        drop_check-skipped a s (omega (arith, three)),
        drop_check-skipped a (skipped a s) (omega (arith, three)),
      )
      refl

-- Where a file has exactly two uses, two drops of it that overlap do not panic, end both uses and leave
-- its place taken; whatever processes do from there on, the place stays taken and no use of the
-- file comes back.
pub overlap-Lost :
    (a : ℕ) (s : Files)
    → Counted s
    → s.live a ≡ 2
    → s.closing a ≡ 0
    → (o : Outcome Files) → Onward (overlap a s) o
    → Sound o × LostIn a o
overlap-Lost a s h l c =
    let exact = h.exact a in
    let entered = h.entered a (λ e. omega (arith, e, l)) in
    let three : s.count a ≡ 3 = omega (arith, exact, entered, l, c) in
    Onward-Lost a (overlap a s)
      (subst Sound (sym (overlap-left_over a s three)) (left_over-Counted a s h l c three))
      (subst (LostIn a) (sym (overlap-left_over a s three)) (left_over-Lost a s h l c three))
