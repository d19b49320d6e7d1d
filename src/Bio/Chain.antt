-- ===== src/Bio/Chain.antt =====
-- Chains of nodes: what it means that the links of the list agree with a sequence of nodes.
use octox.Base.{
  ℕ, ◌≡◌, ◌≢◌, refl, ap, ◌∙◌, Bool, true, false, ◌||◌, List, [], ◌∷◌, ◌++◌, ◌==◌, arith, Option,
  none, some, update,
}
use octox.Bio.Defs.{Meta, Lru, set_next, set_prev}

abbrev pub first : List ℕ → Option ℕ → Option ℕ
first [] q = q
first (x ∷ xs) q = some x

abbrev pub last_of : ℕ → List ℕ → ℕ
last_of x [] = x
last_of x (y ∷ ys) = last_of y ys

abbrev pub last : List ℕ → Option ℕ → Option ℕ
last [] p = p
last (x ∷ xs) p = some (last_of x xs)

abbrev pub has : ℕ → List ℕ → Bool
has a [] = false
has a (x ∷ xs) = (x == a) || has a xs

abbrev pub Distinct : List ℕ → Type 0
Distinct [] = Unit
Distinct (x ∷ xs) = (has x xs ≡ false) × Distinct xs

-- The nodes link `xs` in both directions, between `p` before them and `q` behind.
abbrev pub Seg : (ℕ → Meta) → Option ℕ → List ℕ → Option ℕ → Type 0
Seg node p [] q = Unit
Seg node p (i ∷ xs) q = ((node i).prev ≡ p) × ((node i).next ≡ first xs q) × Seg node (some i) xs q

pub record IsChain (s : Lru) (xs : List ℕ) : Type 0 where
  pub from : s.head ≡ first xs none
  pub to : s.tail ≡ last xs none
  pub links : Seg s.node none xs none
  pub distinct : Distinct xs

-- A change of another node leaves the segment alone.
pub Seg-update :
    (node : ℕ → Meta) (i : ℕ) (m : Meta) (p : Option ℕ) (xs : List ℕ) (q : Option ℕ)
    → has i xs ≡ false
    → Seg node p xs q
    → Seg (update node i m) p xs q
Seg-update node i m p [] q out h = tt
Seg-update node i m p (x ∷ xs) q out h =
    (ground arith, ground arith, Seg-update node i m (some x) xs q (ground arith) h.2)

-- A new node before the first.
pub Seg-set_prev :
    (node : ℕ → Meta) (p p' : Option ℕ) (x : ℕ) (xs : List ℕ) (q : Option ℕ)
    → has x xs ≡ false
    → Seg node p (x ∷ xs) q
    → Seg (update node x (set_prev p' (node x))) p' (x ∷ xs) q
Seg-set_prev node p p' x xs q out h =
    (ground arith, ground arith, Seg-update node x _ (some x) xs q out h.2)

has-last_of : (x : ℕ) (xs : List ℕ) (a : ℕ) → has a (x ∷ xs) ≡ false → last_of x xs ≢ a
has-last_of x [] a h = ground arith
has-last_of x (y ∷ ys) a h = has-last_of y ys a (ground arith)

pub update_ne {ℓ} : {A : Type ℓ} (f : ℕ → A) (i : ℕ) (a : A) (j : ℕ) → i ≢ j → update f i a j ≡ f j
update_ne f i a j h = ground arith

pub update_self {ℓ} : {A : Type ℓ} (f : ℕ → A) (i : ℕ) (a : A) → update f i a i ≡ a
update_self f i a = ground arith

-- A new node behind the last.
pub Seg-set_next :
    (node : ℕ → Meta) (p : Option ℕ) (x : ℕ) (xs : List ℕ) (q q' : Option ℕ)
    → Distinct (x ∷ xs)
    → Seg node p (x ∷ xs) q
    → Seg (update node (last_of x xs) (set_next q' (node (last_of x xs)))) p (x ∷ xs) q'
Seg-set_next node p x [] q q' d h = (ground arith, ground arith, tt)
Seg-set_next node p x (y ∷ ys) q q' d h =
    let other = update_ne node (last_of y ys) _ x (has-last_of y ys x d.0) in
    (
      ap (λ (m : Meta). m.prev) other ∙ h.0,
      ap (λ (m : Meta). m.next) other ∙ h.1,
      Seg-set_next node (some x) y ys q q' d.1 h.2,
    )

pub Seg-append :
    (node : ℕ → Meta) (p : Option ℕ) (xs ys : List ℕ) (q : Option ℕ)
    → Seg node p xs (first ys q)
    → Seg node (last xs p) ys q
    → Seg node p (xs ++ ys) q
Seg-append node p [] ys q h k = k
Seg-append node p (x ∷ []) ys q h k = (h.0, h.1, k)
Seg-append node p (x ∷ y ∷ xs) ys q h k = (h.0, h.1, Seg-append node (some x) (y ∷ xs) ys q h.2 k)

pub Seg-split :
    (node : ℕ → Meta) (p : Option ℕ) (xs ys : List ℕ) (q : Option ℕ)
    → Seg node p (xs ++ ys) q
    → Seg node p xs (first ys q) × Seg node (last xs p) ys q
Seg-split node p [] ys q h = (tt, h)
Seg-split node p (x ∷ []) ys q h = ((h.0, h.1, tt), h.2)
Seg-split node p (x ∷ y ∷ xs) ys q h =
    let (a, b) = Seg-split node (some x) (y ∷ xs) ys q h.2 in ((h.0, h.1, a), b)

pub has-append : (a : ℕ) (xs ys : List ℕ) → has a (xs ++ ys) ≡ has a xs || has a ys
has-append a [] ys = refl
has-append a (x ∷ xs) ys = ground (arith, has-append a xs ys)

-- Two parts of a list without repetition have none, and share no node.
pub Distinct-split :
    (xs ys : List ℕ)
    → Distinct (xs ++ ys)
    → Distinct xs × Distinct ys × ((a : ℕ) → has a xs ≡ true → has a ys ≡ false)
Distinct-split [] ys d = (tt, d, λ a h. absurd (ground arith))
Distinct-split (x ∷ xs) ys d =
    let (dx, dy, apart) = Distinct-split xs ys d.1 in
    (
      (ground (arith, has-append x xs ys, d.0), dx),
      dy,
      λ a h. ground (arith, has-append x xs ys, d.0, apart a, h),
    )

pub Distinct-append :
    (xs ys : List ℕ)
    → Distinct xs
    → Distinct ys
    → ((a : ℕ) → has a xs ≡ true → has a ys ≡ false)
    → Distinct (xs ++ ys)
Distinct-append [] ys dx dy apart = dy
Distinct-append (x ∷ xs) ys dx dy apart = (
  ground (arith, has-append x xs ys, dx.0, apart x),
  Distinct-append xs ys dx.1 dy λ a h. apart a (ground (arith, h)),
)

pub last_of-append :
    (x : ℕ) (xs : List ℕ) (y : ℕ) (ys : List ℕ) → last_of x (xs ++ (y ∷ ys)) ≡ last_of y ys
last_of-append x [] y ys = refl
last_of-append x (z ∷ xs) y ys = last_of-append z xs y ys

pub has-last_of_self : (x : ℕ) (xs : List ℕ) → has (last_of x xs) (x ∷ xs) ≡ true
has-last_of_self x [] = ground arith
has-last_of_self x (y ∷ ys) = ground (arith, has-last_of_self y ys)
