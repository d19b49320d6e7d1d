-- ===== src/Files/Duplicate.antt =====
-- dup, and close after it.
use octox.Base.{
  ℕ, zero, suc, ◌<◌, ◌≡◌, ◌≢◌, refl, sym, ap, subst, ◌∙◌, true, List, [], ◌∷◌, get_elem?, set, ◌==◌,
  arith, Option, none, some, Outcome, done, panicked,
}
use octox.Files.Defs.{File, Files, clone, drop_file}
use octox.Files.Counted.{Counted}
use octox.Files.Last.{drop_file-released}
use octox.Files.Descriptors.{Sys, file_of, arg_fd, one_up, fdalloc, dropping, dup_to, dup, close}

-- The same table, uses and counts, and nothing dropped.
pub record SameFiles (s t : Files) : Type 0 where
  pub table : t.table ≡ s.table
  pub live : (a : ℕ) → t.live a ≡ s.live a
  pub closing : (a : ℕ) → t.closing a ≡ s.closing a
  pub count : (a : ℕ) → t.count a ≡ s.count a
  pub closed : t.closed ≡ s.closed

abbrev pub SameIn : Files → Outcome Files → Type 0
SameIn s panicked = ⊥
SameIn s (done t) = SameFiles s t

clone-drop_file :
    (a : ℕ) (s : Files) → Counted s → s.live a ≢ 0 → SameIn s (drop_file a (clone a s))
unfolding clone
clone-drop_file a s h l =
    let exact = h.exact a in
    let entered = h.entered a l in
    let self : (a == a) ≡ true = ground arith in
    subst (SameIn s)
      (sym (drop_file-released a (clone a s) (ground (arith, self, exact, entered, l))))
      (record {
        table = refl;
        live = λ b. ground (arith, l);
        closing = λ b. ground arith;
        count = λ b. ground (arith, exact, entered, l);
        closed = refl;
      })

-- Every descriptor is in use.
abbrev pub Full : List (Option File) → Type 0
Full [] = Unit
Full (none ∷ xs) = ⊥
Full (some f ∷ xs) = Full xs

-- Every descriptor below is in use.
abbrev pub Below : ℕ → List (Option File) → Type 0
Below n xs = (m : ℕ) → m < n → file_of (get_elem? xs m) ≢ none

-- The lowest free descriptor gets the file, and its end gives the descriptors back as they were.
abbrev pub Entered : File → List (Option File) → Option (ℕ × List (Option File)) → Type 0
Entered f xs none = Full xs
Entered f xs (some (n, ys)) =
    (get_elem? xs n ≡ some none)
    × Below n xs
    × (get_elem? ys n ≡ some (some f))
    × (set ys n none ≡ xs)
    × ((m : ℕ) → m ≢ n → get_elem? ys m ≡ get_elem? xs m)

Entered-one_up :
    (f g : File) (xs : List (Option File)) (o : Option (ℕ × List (Option File)))
    → Entered f xs o
    → Entered f (some g ∷ xs) (one_up (some g) o)
Entered-one_up f g xs none h = h
Entered-one_up f g xs (some (n, ys)) (free, below, got, undo, others) =
    (free, lower, got, ap (λ l. some g ∷ l) undo, rest)
  where
    lower : Below (suc n) (some g ∷ xs)
    lower zero l e = ground (arith, e)
    lower (suc m) l e = below m (omega arith) e

    rest : (m : ℕ) → m ≢ suc n → get_elem? (some g ∷ ys) m ≡ get_elem? (some g ∷ xs) m
    rest zero ne = refl
    rest (suc m) ne = others m (λ e. ne (ap suc e))

pub fdalloc-Entered : (f : File) (xs : List (Option File)) → Entered f xs (fdalloc f xs)
unfolding fdalloc
fdalloc-Entered f [] = tt
fdalloc-Entered f (none ∷ xs) = (refl, (λ m l. absurd (omega arith)), refl, refl, other)
  where
    other : (m : ℕ) → m ≢ 0 → get_elem? (some f ∷ xs) m ≡ get_elem? (none ∷ xs) m
    other zero ne = absurd (ne refl)
    other (suc m) ne = refl
fdalloc-Entered f (some g ∷ xs) = Entered-one_up f g xs (fdalloc f xs) (fdalloc-Entered f xs)

arg_fd-some :
    (fd : ℕ) (f : File) (xs : List (Option File))
    → get_elem? xs fd ≡ some (some f)
    → arg_fd fd xs ≡ some (fd, f)
unfolding arg_fd
arg_fd-some fd f xs e = rw (e, arg_fd) refl

close-dropping :
    (fd : ℕ) (f : File) (s : Sys)
    → get_elem? s.ofile fd ≡ some (some f)
    → close fd s ≡ dropping (some 0) (set s.ofile fd none) (drop_file f.f s.files)
unfolding close
close-dropping fd f s e = rw (arg_fd-some fd f s.ofile e, close) refl

-- What `close` of the new descriptor leaves, and what `dup` without room leaves.
abbrev pub Restored : Sys → Outcome (Option ℕ × Sys) → Type 0
Restored s panicked = ⊥
Restored s (done (r, t)) = (t.ofile ≡ s.ofile) × SameFiles s.files t.files

-- The outcome of `dup` of a descriptor in use.
abbrev pub Duplicated : ℕ → Sys → Outcome (Option ℕ × Sys) → Type 0
Duplicated fd s panicked = ⊥
Duplicated fd s (done (none, t)) = Full s.ofile × (t.ofile ≡ s.ofile) × SameFiles s.files t.files
Duplicated fd s (done (some n, t)) =
    (get_elem? s.ofile n ≡ some none)
    × Below n s.ofile
    × (get_elem? t.ofile n ≡ get_elem? s.ofile fd)
    × (get_elem? t.ofile fd ≡ get_elem? s.ofile fd)
    × Restored s (close n t)

dup-dup_to :
    (fd : ℕ) (f : File) (s : Sys)
    → get_elem? s.ofile fd ≡ some (some f)
    → dup fd s ≡ dup_to f (record s { files = clone f.f s.files }) (fdalloc f s.ofile)
unfolding dup
dup-dup_to fd f s e = rw (arg_fd-some fd f s.ofile e, dup) refl

-- With the counts right, `dup` of a descriptor in use does not panic. It gives the lowest free
-- descriptor, which then refers to the same file as the old one, and `close` of it gives back the
-- descriptors, the table, the uses and the counts from before; or every descriptor is in use, and
-- nothing has changed.
pub dup-Duplicated :
    (fd : ℕ) (s : Sys) (f : File)
    → Counted s.files
    → get_elem? s.ofile fd ≡ some (some f)
    → s.files.live f.f ≢ 0
    → Duplicated fd s (dup fd s)
dup-Duplicated fd s f h e l =
    subst (Duplicated fd s) (sym (dup-dup_to fd f s e))
      (by_place (fdalloc f s.ofile) (fdalloc-Entered f s.ofile))
  where
    restored :
        (r : Option ℕ) (ofile : List (Option File))
        → ofile ≡ s.ofile
        → (o : Outcome Files) → SameIn s.files o
        → Restored s (dropping r ofile o)
    restored r ofile q panicked k = k
    restored r ofile q (done t) k = (q, k)

    full :
        Full s.ofile
        → (o : Outcome Files) → SameIn s.files o
        → Duplicated fd s (dropping none s.ofile o)
    full q panicked k = k
    full q (done t) k = (q, refl, k)

    by_place :
        (o : Option (ℕ × List (Option File)))
        → Entered f s.ofile o
        → Duplicated fd s (dup_to f (record s { files = clone f.f s.files }) o)
    by_place none q = full q (drop_file f.f (clone f.f s.files)) (clone-drop_file f.f s.files h l)
    by_place (some (n, ys)) (free, below, got, undo, others) = (
      free,
      below,
      got ∙ sym e,
      others fd (λ q. ground (arith, sym e ∙ (ap (get_elem? s.ofile) q ∙ free))),
      subst (Restored s)
          (sym (close-dropping n f (record { files = clone f.f s.files; ofile = ys }) got))
          (restored (some 0) _ undo (drop_file f.f (clone f.f s.files))
            (clone-drop_file f.f s.files h l)),
    )
