-- ===== src/Fs/Shared.antt =====
-- kernel/fs.rs: the end of a put, and when it loses an inode that is in use.
use octox.Base.{
  ℕ, suc, ◌≤◌, ◌≡◌, ◌≢◌, ◌⊎◌, refl, sym, ap, subst, ◌∙◌, true, List, [], ◌∷◌, ◌==◌, if◌then◌else◌,
  arith, Option, none, some, update, inl, inr, Bool-cases, Outcome, done, panicked,
}
use octox.Fs.Table.{ITable, is_named, search, got, get, put_check, taken_out, places, put_end}
use octox.Fs.Named.{named, empties, IsSound, search-some, named-same, Got, get-Got}

-- The end of a put leaves no place with the inode, and the others as they are.
places-out :
    (ip q : ℕ) (xs : List (Option ℕ))
    → places q (taken_out ip xs) ≡ (if q == ip then 0 else places q xs)
places-out ip q [] = ground arith
places-out ip q (none ∷ xs) = places-out ip q xs
places-out ip q (some r ∷ xs) =
    let ih = places-out ip q xs in
    elim (Bool-cases (r == ip)) [
      | inl e ↦ rw e (let me : r ≡ ip = ground (arith, e) in ground (arith, ih, me))
      | inr e ↦ rw e (ground (arith, ih, e))
    ]

named-out :
    (s t : ITable) (ip d i : ℕ) (xs : List (Option ℕ))
    → ((q : ℕ) → is_named t d i q ≡ is_named s d i q)
    → named t d i (taken_out ip xs) ≤ named s d i xs
named-out s t ip d i [] f = omega arith
named-out s t ip d i (none ∷ xs) f = named-out s t ip d i xs f
named-out s t ip d i (some r ∷ xs) f =
    let ih = named-out s t ip d i xs f in
    let here = f r in
    elim (Bool-cases (r == ip)) [
      | inl e ↦ rw e (ground (arith, ih))
      | inr e ↦ rw e (ground (arith, ih, here))
    ]

pub put_end-IsSound : (s : ITable) (ip : ℕ) → IsSound s → IsSound (put_end ip s)
unfolding put_end
put_end-IsSound s ip h = record {
  made = λ q w.
      (let old = h.made q in let out = places-out ip q s.slots in ground (arith, old, out, w));
  once = λ d i.
      let old = h.once d i in
      let out = named-out s (put_end ip s) ip d i s.slots (λ q. refl) in omega (arith, old, out);
}

places-named :
    (s : ITable) (dev inum ip : ℕ) (xs : List (Option ℕ))
    → is_named s dev inum ip ≡ true
    → places ip xs ≤ named s dev inum xs
places-named s dev inum ip [] e = omega arith
places-named s dev inum ip (none ∷ xs) e = places-named s dev inum ip xs e
places-named s dev inum ip (some q ∷ xs) e =
    let ih = places-named s dev inum ip xs e in
    elim (Bool-cases (q == ip)) [
      | inl w ↦
          let me : ip ≡ q = ground (arith, w) in
          let here = subst (λ x. is_named s dev inum x ≡ true) me e in ground (arith, ih, w, here)
      | inr w ↦ ground (arith, ih, w)
    ]

empties-out : (ip : ℕ) (xs : List (Option ℕ)) → places ip xs ≢ 0 → empties (taken_out ip xs) ≢ 0
empties-out ip [] ne = λ e. ne refl
empties-out ip (none ∷ xs) ne = λ e. absurd (omega (arith, e))
empties-out ip (some q ∷ xs) ne = elim (Bool-cases (q == ip)) [
  | inl e ↦ rw e (λ z. absurd (omega (arith, z)))
  | inr e ↦ rw e (empties-out ip xs (ground (arith, ne, e)))
]

-- Two inodes in memory for one on the disk.
abbrev pub Twice : (dev inum ip : ℕ) → Outcome (ℕ × ITable) → Type 0
Twice dev inum ip panicked = ⊥
Twice dev inum ip (done (q, t)) =
    (q ≢ ip) × (is_named t dev inum q ≡ true) × (is_named t dev inum ip ≡ true) × (t.count ip ≡ 1)

-- The table after a second get of an inode with one user.
abbrev pub with_two : ℕ → ITable → ITable
with_two ip s = record s { count = update s.count ip 3 }

-- Where the only user of an inode in the table puts it, and another process gets it between the look at the
-- count and the end of the put, this get gives the same inode; but the end of the put takes it from
-- the table all the same, and a third get gives another one of the same device and number while
-- the second user still has the first.
pub overlap-Twice :
    (s : ITable) (dev inum ip : ℕ)
    → IsSound s
    → search s dev inum s.slots ≡ some ip
    → s.count ip ≡ 2
    → (put_check ip s ≡ (true, s))
      × (get dev inum s ≡ done (ip, with_two ip s))
      × Twice dev inum ip (get dev inum (put_end ip (with_two ip s)))
unfolding get put_check put_end
overlap-Twice s dev inum ip h e two =
    let (n, p, m) = search-some s dev inum ip s.slots e in
    let last : (s.count ip == 2) ≡ true = ground (arith, two) in
    (
      rw last refl,
      ap (got s dev inum) e
          ∙ ap (λ c. done (ip, record s { count = update s.count ip (suc c) })) two,
      third n p (get dev inum (put_end ip (with_two ip s))) (
          get-Got (put_end ip (with_two ip s)) dev inum (put_end-IsSound (with_two ip s) ip sound)),
    )
  where
    sound : IsSound (with_two ip s)
    sound = record {
      made = h.made;
      once = λ d i.
          let old = h.once d i in
          let same = named-same s (with_two ip s) d i s.slots (λ q w. refl) in
          omega (arith, old, same);
    }

    other_of :
        is_named s dev inum ip ≡ true
        → places ip s.slots ≢ 0
        → (q : ℕ) → (places q (taken_out ip s.slots) ≢ 0) ⊎ (q ≡ s.next)
        → q ≢ ip
    other_of n p q (inl b) z = (let out = places-out ip q s.slots in ground (arith, out, z, b))
    other_of n p q (inr b) z = (let m = h.made ip p in omega (arith, m, b, z))

    third :
        is_named s dev inum ip ≡ true
        → places ip s.slots ≢ 0
        → (o : Outcome (ℕ × ITable)) → Got (put_end ip (with_two ip s)) dev inum o
        → Twice dev inum ip o
    third n p panicked (a, b) = empties-out ip s.slots p b
    third n p (done (q, t)) (a, b, c, f, g, k) =
        let other = other_of n p q g in
        let at = f ip (λ z. other (sym z)) in
        let one : places ip s.slots ≡ 1 =
          (let le = places-named s dev inum ip s.slots n in
            let most = h.once dev inum in omega (arith, le, most, p)) in
        (
          other,
          a,
          (let ed = at.2 in let ei = at.3 in rw (ed, ei) n),
          (let count = at.0 in ground (arith, count, one)),
        )
