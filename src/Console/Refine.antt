-- ===== src/Console/Refine.antt =====
-- The interrupt handler refines the line editor, and keeps the ring well formed.
use octox.Base.{
  ℕ, zero, suc, ◌+◌, ◌%◌, ◌<◌, ◌≡◌, ◌≢◌, refl, sym, ap, ◌∙◌, Bool, true, false, not, ◌&&◌, ◌||◌,
  List, [], ◌∷◌, ◌++◌, arith, set, length, length-set, length-append, ◌==◌, ==_iff, ltb,
  if◌then◌else◌, inl, inr, Bool-cases,
}
use octox.Console.Defs.{
  Cons, Event, add64, sub64, input_buf_size, newline, ctrl, byte_at, kill_line, backspace, store,
  intr, putc,
}
use octox.Console.Ring.{bytes, IsValid, ready, line}
use octox.Console.Edit.{
  Input, view, chop, accept, typed, Plain, chop-snoc, Plain-snoc, snoc-Plain, lengths, line-split,
  line-store, ready-store, joined,
}

-- The ring is well formed, and the line being edited holds no newline.
pub record IsGood (c : Cons) : Type 0 where
  pub valid : IsValid c
  pub plain : Plain (line c)

line-nil : (c : Cons) → c.e ≡ c.w → line c ≡ []
unfolding line bytes
line-nil c e = let z : sub64 c.e c.w ≡ 0 = omega arith in ap (λ t. bytes c.buf c.w t) z

-- What is left of the line without its last byte, and that byte.
module _ {c : Cons} (g : IsGood c) (ne : c.e ≢ c.w) where
  abbrev shorter : Cons
  shorter = record c { e = sub64 c.e 1 }

  line-shorter : line c ≡ line shorter ++ (byte_at c (sub64 c.e 1) ∷ [])
  unfolding line
  line-shorter = line-split g.valid ne

  parts : Plain (line shorter) × ((byte_at c (sub64 c.e 1) == newline) ≡ false)
  parts = Plain-snoc (line shorter) (byte_at c (sub64 c.e 1)) (rw line-shorter at g.plain)

  shorter-IsGood : IsGood shorter
  shorter-IsGood =
      let v = g.valid in
      record {
        valid = record {
          sized = v.sized;
          words = omega (arith, v.words);
          order = omega (arith, v.words, v.order);
          fits = omega (arith, v.words, v.order, v.fits);
        };
        plain = parts.0;
      }

  shorter-view : view shorter ≡ record (view c) { line = chop (line c) }
  unfolding ready
  shorter-view =
      ap (λ t. record (view c) { line = t })
        (sym (ap chop line-shorter ∙ chop-snoc (line shorter) (byte_at c (sub64 c.e 1))))

ne_of_false : (a b : ℕ) → (a == b) ≡ false → a ≢ b
ne_of_false a b h = ground arith

backspace-view :
    {c : Cons} → IsGood c → view (backspace c).cons ≡ record (view c) { line = chop (line c) }
unfolding backspace chop
backspace-view {c} g = elim (Bool-cases (c.e == c.w)) [
  | inl q ↦ rw q (rw (line-nil c ((==_iff c.e c.w).0 q)))
  | inr q ↦ rw q (shorter-view g (ne_of_false c.e c.w q))
]

backspace-IsGood : {c : Cons} → IsGood c → IsGood (backspace c).cons
unfolding backspace
backspace-IsGood {c} g = elim (Bool-cases (c.e == c.w)) [
  | inl q ↦ rw q g
  | inr q ↦ rw q (shorter-IsGood g (ne_of_false c.e c.w q))
]

kill_line-cons :
    (k : ℕ) (c : Cons) (es : List Event)
    → IsGood c
    → sub64 c.e c.w ≡ k
    → (kill_line k c es).cons ≡ record c { e = c.w }
unfolding kill_line
kill_line-cons zero c es g e = ap (λ t. record c { e = t }) (omega (arith, g.valid.words))
kill_line-cons (suc k) c es g e =
    let ne : c.e ≢ c.w = λ q. absurd (omega (arith, g.valid.words, q)) in
    let p : (c.e == c.w) ≡ false = ground (arith, ne) in
    rw (p, (parts g ne).1)
      (kill_line-cons k (record c { e = sub64 c.e 1 }) (es ++ putc (ctrl b'H'))
        (shorter-IsGood g ne) (omega (arith, g.valid.words)))

killed-IsGood : {c : Cons} → IsGood c → IsGood (record c { e = c.w })
killed-IsGood {c} g =
    let v = g.valid in
    record {
      valid = record {
        sized = v.sized;
        words = omega (arith, v.words);
        order = omega (arith, v.words, v.order);
        fits = omega (arith, v.words, v.order, v.fits);
      };
      plain = rw (line-nil (record c { e = c.w }) refl) tt;
    }

killed-view : (c : Cons) → view (record c { e = c.w }) ≡ record (view c) { line = [] }
unfolding ready
killed-view c = ap (λ t. record (view c) { line = t }) (line-nil (record c { e = c.w }) refl)

module _ {c : Cons} (x : ℕ) (g : IsGood c) (room : sub64 c.e c.r < input_buf_size) where
  abbrev ends : Bool
  ends = (x == newline) || ((x == ctrl b'D') || (sub64 (add64 c.e 1) c.r == input_buf_size))

  ended :
      view (record c { buf = set c.buf (c.e % input_buf_size) x; e = add64 c.e 1; w = add64 c.e 1 })
      ≡ record { ready = ready c ++ (line c ++ (x ∷ [])); line = [] }
  unfolding ready
  ended = λ i. record {
    ready = joined g.valid x room i;
    line =
        line-nil
          (record c { buf = set c.buf (c.e % input_buf_size) x; e = add64 c.e 1; w = add64 c.e 1 })
          refl i;
  }

  going :
      view (record c { buf = set c.buf (c.e % input_buf_size) x; e = add64 c.e 1 })
      ≡ record { ready = ready c; line = line c ++ (x ∷ []) }
  unfolding ready line
  going = λ i. record { ready = ready-store g.valid x room i; line = line-store g.valid x room i }

  sizes : length (ready c) + length (line c ++ (x ∷ [])) ≡ sub64 (add64 c.e 1) c.r
  sizes =
      let v = g.valid in
      let one : length (x ∷ []) ≡ 1 = refl in
      omega (arith, length-append (line c) (x ∷ []), lengths v, v.words, v.order, one)

  store-view : view (store c x).cons ≡ accept (view c) x
  unfolding store accept
  store-view = rw sizes (elim (Bool-cases ends) [ inl q ↦ rw q ended | inr q ↦ rw q going ])

  store-IsGood : IsGood (store c x).cons
  unfolding store
  store-IsGood = elim (Bool-cases ends) [
    | inl q ↦ rw q (record {
      valid = record {
        sized = omega (arith, length-set c.buf (c.e % input_buf_size) x, g.valid.sized);
        words = omega (arith, g.valid.words);
        order = omega (arith, g.valid.words);
        fits = omega (arith, g.valid.words);
      };
      plain = rw (ap (λ (s : Input). s.line) ended) tt;
    })
    | inr q ↦ rw q (record {
      valid = record {
        sized = omega (arith, length-set c.buf (c.e % input_buf_size) x, g.valid.sized);
        words = omega (arith, g.valid.words);
        order = omega (arith, g.valid.words, g.valid.order);
        fits = omega (arith, g.valid.words, g.valid.order);
      };
      plain = rw (ap (λ (s : Input). s.line) going) (snoc-Plain (line c) x g.plain (ground arith));
    })
  ]

room : {a n : ℕ} (b : Bool) → (b && ltb a n) ≡ true → a < n
room b h = ground arith

module _ {c : Cons} (x : ℕ) (g : IsGood c) where
  -- The handler of an input byte keeps the ring well formed and its line free of newlines.
  intr-IsGood : IsGood (intr c x).cons
  unfolding intr
  intr-IsGood = elim (Bool-cases (x == ctrl b'P')) [
    | inl p ↦ rw p g
    | inr p ↦ rw p (elim (Bool-cases (x == ctrl b'U')) [
      | inl u ↦ rw (u, kill_line-cons (sub64 c.e c.w) c [] g refl) (killed-IsGood g)
      | inr u ↦ rw u (elim (Bool-cases (x == 0x7f)) [
        | inl d ↦ rw d (backspace-IsGood g)
        | inr d ↦ rw d (elim (Bool-cases (not (x == 0) && ltb (sub64 c.e c.r) input_buf_size)) [
          | inl r ↦ rw r (store-IsGood (if x == 13 then newline else x) g (room (not (x == 0)) r))
          | inr r ↦ rw r g
        ])
      ])
    ])
  ]

  -- The line editor `typed` appends ^H as it does any other byte, and so does the handler, though the
  -- source's comments call ^H a backspace.
  intr-view : view (intr c x).cons ≡ typed (view c) x
  unfolding intr typed
  intr-view = elim (Bool-cases (x == ctrl b'P')) [
    | inl p ↦ rw p
    | inr p ↦ rw p (elim (Bool-cases (x == ctrl b'U')) [
      | inl u ↦ rw (u, kill_line-cons (sub64 c.e c.w) c [] g refl) (killed-view c)
      | inr u ↦ rw u (elim (Bool-cases (x == 0x7f)) [
        | inl d ↦ rw d (backspace-view g)
        | inr d ↦
            rw (d, lengths g.valid)
              (elim (Bool-cases (not (x == 0) && ltb (sub64 c.e c.r) input_buf_size)) [
                | inl r ↦
                    rw r (store-view (if x == 13 then newline else x) g (room (not (x == 0)) r))
                | inr r ↦ rw r
              ])
      ])
    ])
  ]

  -- On a well-formed ring the handler of an input byte other than ^H does what the line editor does:
  -- it ignores ^P, NUL and a byte for which there is no room, empties the line at ^U, drops its last
  -- byte at DEL, and appends any other byte, where a carriage return is a newline, and a newline, ^D
  -- or a full buffer makes the line ready to be read.
  pub intr-typed : x ≢ ctrl b'H' → view (intr c x).cons ≡ typed (view c) x
  intr-typed ne = intr-view
