-- ===== src/Fs/Names.antt =====
-- kernel/fs.rs: Path::namex on names joined by slashes.
use octox.Base.{
  ℕ, zero, suc, ◌<◌, ◌≡◌, refl, ap, ◌∙◌, Bool, true, false, not, ◌&&◌, List, [], ◌∷◌, ◌++◌, ◌==◌,
  ltb, leb, if◌then◌else◌, length, length-append, arith, All, Option, none, some, Outcome,
}
use octox.Fs.Path.{
  dirsiz, slash, is_empty, trim_start, trim_end, trim, split_once, no_elem, last_elem, elem_then,
  skip_split, skip_elem, Found, missing, in_dir, at_entry, at_last,
}

-- A name has no slash.
abbrev pub plain : List ℕ → Bool
plain [] = true
plain (x ∷ xs) = not (x == slash) && plain xs

abbrev pub IsName : List ℕ → Type 0
IsName n = (plain n ≡ true) × (0 < length n)

abbrev pub slashes : ℕ → List ℕ
slashes zero = []
slashes (suc k) = slash ∷ slashes k

abbrev pub join : List ℕ → List (List ℕ) → List ℕ
join n [] = n
join n (m ∷ ms) = n ++ (slash ∷ join m ms)

trim_start-slashes : (k : ℕ) (xs : List ℕ) → trim_start (slashes k ++ xs) ≡ trim_start xs
trim_start-slashes zero xs = refl
trim_start-slashes (suc k) xs = trim_start-slashes k xs

trim_start-join : (n : List ℕ) (ms : List (List ℕ)) → IsName n → trim_start (join n ms) ≡ join n ms
trim_start-join [] ms h = absurd (ground (arith, h))
trim_start-join (x ∷ xs) [] h = ground (arith, h)
trim_start-join (x ∷ xs) (m ∷ ms) h = ground (arith, h)

trim_end-plain : (n : List ℕ) → plain n ≡ true → trim_end n ≡ n
trim_end-plain [] h = refl
trim_end-plain (x ∷ xs) h =
    let ih = trim_end-plain xs (ground (arith, h)) in
    let head : (x == slash) ≡ false = ground (arith, h) in rw (head, ih) refl

trim_end-append :
    (xs ys : List ℕ) → trim_end ys ≡ ys → is_empty ys ≡ false → trim_end (xs ++ ys) ≡ xs ++ ys
trim_end-append [] ys e ne = e
trim_end-append (x ∷ xs) ys e ne =
    let ih = trim_end-append xs ys e ne in
    let more : is_empty (xs ++ ys) ≡ false = nonempty xs in rw (ih, more) ground (arith, ih)
  where
    nonempty : (zs : List ℕ) → is_empty (zs ++ ys) ≡ false
    nonempty [] = ne
    nonempty (z ∷ zs) = refl

trim_end-join :
    (n : List ℕ) (ms : List (List ℕ))
    → IsName n
    → All IsName ms
    → (trim_end (join n ms) ≡ join n ms) × (is_empty (join n ms) ≡ false)
trim_end-join [] ms h hs = absurd (ground (arith, h))
trim_end-join (x ∷ xs) [] h hs = (trim_end-plain (x ∷ xs) h.0, refl)
trim_end-join (x ∷ xs) (m ∷ ms) h hs =
    let (a, b) = trim_end-join m ms hs.0 hs.1 in
    let tail : trim_end (slash ∷ join m ms) ≡ slash ∷ join m ms = rw (a, b) refl in
    (trim_end-append (x ∷ xs) (slash ∷ join m ms) tail refl, refl)

split_once-plain : (n : List ℕ) → plain n ≡ true → split_once n ≡ none
split_once-plain [] h = refl
split_once-plain (x ∷ xs) h =
    let ih = split_once-plain xs (ground (arith, h)) in
    let head : (x == slash) ≡ false = ground (arith, h) in rw (head, ih) refl

split_once-slash : (n r : List ℕ) → plain n ≡ true → split_once (n ++ (slash ∷ r)) ≡ some (n, r)
split_once-slash [] r h = refl
split_once-slash (x ∷ xs) r h =
    let ih = split_once-slash xs r (ground (arith, h)) in
    let head : (x == slash) ≡ false = ground (arith, h) in rw (head, ih) refl

trim-join :
    (k : ℕ) (n : List ℕ) (ms : List (List ℕ))
    → IsName n
    → All IsName ms
    → trim (slashes k ++ join n ms) ≡ join n ms
trim-join k n ms h hs =
    ap trim_end (trim_start-slashes k (join n ms) ∙ trim_start-join n ms h)
    ∙ (trim_end-join n ms h hs).0

pub skip_elem-last :
    (k : ℕ) (n : List ℕ)
    → IsName n
    → skip_elem (slashes k ++ n)
      ≡ (if ltb (length (slashes k ++ n)) dirsiz then last_elem (slashes k ++ n) else no_elem)
unfolding skip_elem
skip_elem-last k n h =
    let whole = ap split_once (trim-join k n [] h tt) ∙ split_once-plain n h.0 in
    let long = length-append (slashes k) n in
    let some_length : ltb 0 (length (slashes k ++ n)) ≡ true =
      (let pos = h.1 in ground (arith, long, pos)) in
    ap (skip_split (slashes k ++ n)) whole ∙ rw some_length refl

pub skip_elem-join :
    (k : ℕ) (n m : List ℕ) (ms : List (List ℕ))
    → IsName n
    → IsName m
    → All IsName ms
    → skip_elem (slashes k ++ join n (m ∷ ms))
      ≡ (if leb (length n) dirsiz then elem_then n (join m ms) else no_elem)
unfolding skip_elem
skip_elem-join k n m ms h h' hs =
    ap (skip_split (slashes k ++ join n (m ∷ ms)))
      (ap split_once (trim-join k n (m ∷ ms) h (h', hs)) ∙ split_once-slash n (join m ms) h.0)

-- The inode that a path of names leads to from the directory `ip`: each name but the last is of 14 bytes at
-- most and is found in a directory; the last is shorter than 14 bytes, and is looked up where the
-- parent is not asked for. A lock or a lookup that panics ends it.
module _ (is_dir : ℕ → Outcome Bool) (dirlookup : ℕ → List ℕ → Outcome (Option ℕ))
    (parent : Bool) where
  abbrev pub resolve : ℕ → List ℕ → List (List ℕ) → Found
  resolve ip n [] =
      in_dir (is_dir ip)
        (if ltb (length n) dirsiz then at_last is_dir dirlookup parent ip n else missing)
  resolve ip n (m ∷ ms) = in_dir (is_dir ip) (
      if leb (length n) dirsiz
      then at_entry (dirlookup ip n) (λ next. resolve next m ms)
      else missing)

  -- The first name as it is looked up: a single name keeps the slashes in front of it.
  abbrev pub lead : ℕ → List ℕ → List (List ℕ) → List ℕ
  lead j n [] = slashes j ++ n
  lead j n (m ∷ ms) = n
