-- ===== src/Console/Edit.antt =====
-- The interrupt handler as a line editor: what it does to the bytes to be read and to the line.
use octox.Base.{
  ℕ, ◌+◌, ◌%◌, ◌<◌, ◌≡◌, ◌≢◌, refl, ap, ◌∙◌, false, not, ◌&&◌, ◌||◌, List, [], ◌∷◌, ◌++◌, arith,
  get_or, set, length, All, ◌==◌, ltb, if◌then◌else◌,
}
use octox.Console.Defs.{Cons, add64, sub64, input_buf_size, newline, ctrl, byte_at}
use octox.Console.Ring.{
  bytes, bytes-append, bytes-snoc, bytes-set, get_or-set_self, length-bytes, IsValid, ready, line,
}

-- The input as a client sees it.
pub record Input : Type 0 where
  pub ready : List ℕ
  pub line : List ℕ

abbrev pub view : Cons → Input
view c = record { ready = ready c; line = line c }

unfoldable pub chop : List ℕ → List ℕ
chop [] = []
chop (x ∷ []) = []
chop (x ∷ y ∷ l) = x ∷ chop (y ∷ l)

-- The end of a line makes it ready, and so does a full buffer.
unfoldable pub accept : Input → ℕ → Input
accept s x =
    let l = s.line ++ (x ∷ []) in
    if (x == newline) || ((x == ctrl b'D') || (length s.ready + length l == input_buf_size))
    then record { ready = s.ready ++ l; line = [] }
    else record { ready = s.ready; line = l }

unfoldable pub typed : Input → ℕ → Input
typed s x =
    if x == ctrl b'P'
    then s
    else (if x == ctrl b'U'
        then record s { line = [] }
        else (if x == 0x7f
            then record s { line = chop s.line }
            else (if not (x == 0) && ltb (length s.ready + length s.line) input_buf_size
                then accept s (if x == 13 then newline else x)
                else s)))

abbrev pub Plain : List ℕ → Type 0
Plain = All (λ x. (x == newline) ≡ false)

pub chop-snoc : (xs : List ℕ) (x : ℕ) → chop (xs ++ (x ∷ [])) ≡ xs
unfolding chop
chop-snoc [] x = refl
chop-snoc (y ∷ []) x = refl
chop-snoc (y ∷ z ∷ xs) x = ap (λ t. y ∷ t) (chop-snoc (z ∷ xs) x)

pub Plain-snoc :
    (xs : List ℕ) (x : ℕ) → Plain (xs ++ (x ∷ [])) → Plain xs × ((x == newline) ≡ false)
Plain-snoc [] x h = (tt, h.0)
Plain-snoc (y ∷ xs) x h = let (p, q) = Plain-snoc xs x h.1 in ((h.0, p), q)

pub snoc-Plain : (xs : List ℕ) (x : ℕ) → Plain xs → (x == newline) ≡ false → Plain (xs ++ (x ∷ []))
snoc-Plain [] x h e = (e, tt)
snoc-Plain (y ∷ xs) x h e = (h.0, snoc-Plain xs x h.1 e)

pub chop-Plain : (xs : List ℕ) → Plain xs → Plain (chop xs)
unfolding chop
chop-Plain [] h = tt
chop-Plain (x ∷ []) h = tt
chop-Plain (x ∷ y ∷ xs) h = (h.0, chop-Plain (y ∷ xs) h.1)

module _ {c : Cons} (v : IsValid c) where
  abbrev pub count : ℕ
  count = sub64 c.e c.w

  abbrev pub avail : ℕ
  avail = sub64 c.w c.r

  pub counts : sub64 c.e c.r ≡ avail + count
  counts = omega (arith, v.words, v.order)

  pub lengths : length (ready c) + length (line c) ≡ sub64 c.e c.r
  unfolding ready line
  lengths = omega (arith, length-bytes c.buf c.r avail, length-bytes c.buf c.w count, counts)

  -- The last byte of a line that is not empty.
  pub line-split :
      c.e ≢ c.w
      → line c ≡ bytes c.buf c.w (sub64 (sub64 c.e 1) c.w) ++ (byte_at c (sub64 c.e 1) ∷ [])
  unfolding line
  line-split ne =
      let k = sub64 (sub64 c.e 1) c.w in
      let more : count ≡ k + 1 = omega (arith, v.words) in
      let last : add64 c.w k ≡ sub64 c.e 1 = omega (arith, v.words) in
      ap (λ t. bytes c.buf c.w t) more
      ∙ (bytes-snoc c.buf c.w k (omega (arith, v.words))
          ∙ ap (λ t. bytes c.buf c.w k ++ (get_or c.buf (t % input_buf_size) 0 ∷ [])) last)

  -- A byte is stored behind the line.
  pub line-store :
      (x : ℕ)
      → sub64 c.e c.r < input_buf_size
      → bytes (set c.buf (c.e % input_buf_size) x) c.w (sub64 (add64 c.e 1) c.w)
        ≡ line c ++ (x ∷ [])
  unfolding line
  line-store x room =
      let more : sub64 (add64 c.e 1) c.w ≡ count + 1 = omega (arith, v.words, v.order) in
      let last : add64 c.w count ≡ c.e = omega (arith, v.words) in
      let buf = set c.buf (c.e % input_buf_size) x in
      ap (λ t. bytes buf c.w t) more
      ∙ (bytes-snoc buf c.w count (omega (arith, v.words))
          ∙ rw
              (
                bytes-set c.buf c.w count count (c.e % input_buf_size) x (omega (arith, v.words))
                    (omega arith) (omega (arith, v.words, v.order)),
                last,
              )
              (ap (λ t. bytes c.buf c.w count ++ (t ∷ []))
                (get_or-set_self c.buf (c.e % input_buf_size) x (omega (arith, v.sized)))))

  pub ready-store :
      (x : ℕ)
      → sub64 c.e c.r < input_buf_size
      → bytes (set c.buf (c.e % input_buf_size) x) c.r avail ≡ ready c
  unfolding ready
  ready-store x room =
      bytes-set c.buf c.r avail (sub64 c.e c.r) (c.e % input_buf_size) x (omega (arith, v.words))
        (omega (arith, v.order)) room

  -- The bytes to be read, when the line joins them.
  pub joined :
      (x : ℕ)
      → sub64 c.e c.r < input_buf_size
      → bytes (set c.buf (c.e % input_buf_size) x) c.r (sub64 (add64 c.e 1) c.r)
        ≡ ready c ++ (line c ++ (x ∷ []))
  joined x room =
      let buf = set c.buf (c.e % input_buf_size) x in
      let n = sub64 (add64 c.e 1) c.w in
      let all : sub64 (add64 c.e 1) c.r ≡ avail + n = omega (arith, v.words, v.order) in
      let from : add64 c.r avail ≡ c.w = omega (arith, v.words) in
      ap (λ t. bytes buf c.r t) all
      ∙ (bytes-append buf c.r avail n (omega (arith, v.words))
          ∙ rw (from, ready-store x room, line-store x room))
