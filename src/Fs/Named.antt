-- ===== src/Fs/Named.antt =====
-- kernel/fs.rs: an inode is in the table of inodes once, and what `get` does to the table.
use octox.Base.{
  ℕ, suc, ◌<◌, ◌≤◌, ◌≡◌, ◌≢◌, ◌⊎◌, refl, subst, true, ◌&&◌, List, [], ◌∷◌, ◌==◌, if◌then◌else◌,
  arith, Option, none, some, update, inl, inr, Bool-cases, Outcome, done, panicked,
}
use octox.Fs.Table.{ITable, is_named, search, fill_first, recycled, got, get, places}

-- In how many places of the table an inode of this device and number stands.
abbrev pub named : ITable → (dev inum : ℕ) → List (Option ℕ) → ℕ
named s dev inum [] = 0
named s dev inum (none ∷ xs) = named s dev inum xs
named s dev inum (some ip ∷ xs) =
    let rest = named s dev inum xs in if is_named s dev inum ip then suc rest else rest

abbrev pub empties : List (Option ℕ) → ℕ
empties [] = 0
empties (none ∷ xs) = suc (empties xs)
empties (some ip ∷ xs) = empties xs

-- What is in the table was made before, an inode of a device and number is there at most once, and each of
-- them counts its place and its users.
pub record IsSound (s : ITable) : Type 0 where
  pub made : (ip : ℕ) → places ip s.slots ≢ 0 → ip < s.next
  pub once : (dev inum : ℕ) → named s dev inum s.slots ≤ 1

search-none :
    (s : ITable) (dev inum : ℕ) (xs : List (Option ℕ))
    → search s dev inum xs ≡ none
    → named s dev inum xs ≡ 0
search-none s dev inum [] e = refl
search-none s dev inum (none ∷ xs) e = search-none s dev inum xs e
search-none s dev inum (some ip ∷ xs) e =
    let ih = search-none s dev inum xs in
    let by_name : search s dev inum (some ip ∷ xs) ≡ none → named s dev inum (some ip ∷ xs) ≡ 0 =
      elim (Bool-cases (is_named s dev inum ip)) [
        | inl q ↦ rw q (λ e. absurd (grind (arith, e)))
        | inr q ↦ rw q ih
      ] in
    by_name e

pub search-some :
    (s : ITable) (dev inum ip : ℕ) (xs : List (Option ℕ))
    → search s dev inum xs ≡ some ip
    → (is_named s dev inum ip ≡ true) × (places ip xs ≢ 0) × (named s dev inum xs ≢ 0)
search-some s dev inum ip [] e = absurd (grind (arith, e))
search-some s dev inum ip (none ∷ xs) e = search-some s dev inum ip xs e
search-some s dev inum ip (some q ∷ xs) e =
    let ih = search-some s dev inum ip xs in
    let by_name : search s dev inum (some q ∷ xs) ≡ some ip
        → (is_named s dev inum ip ≡ true)
          × (places ip (some q ∷ xs) ≢ 0)
          × (named s dev inum (some q ∷ xs) ≢ 0) =
      elim (Bool-cases (is_named s dev inum q)) [
        | inl w ↦ rw w (λ e.
            (let same : q ≡ ip = grind (arith, e) in
              (
                subst (λ x. is_named s dev inum x ≡ true) same w,
                ground (arith, same),
                ground (arith, w),
              )))
        | inr w ↦ rw w (λ e. (let (a, b, c) = ih e in (a, ground (arith, b), ground (arith, c, w))))
      ] in
    by_name e

-- A new inode in an empty place.
abbrev Filled : (ip : ℕ) → List (Option ℕ) → Option (List (Option ℕ)) → Type 0
Filled ip xs none = empties xs ≡ 0
Filled ip xs (some ys) =
    ((q : ℕ) → places q ys ≡ (if q == ip then suc (places q xs) else places q xs))
    × ((s : ITable) (dev inum : ℕ)
        → named s dev inum ys
          ≡ (if is_named s dev inum ip then suc (named s dev inum xs) else named s dev inum xs))

fill_first-Filled : (ip : ℕ) (xs : List (Option ℕ)) → Filled ip xs (fill_first ip xs)
fill_first-Filled ip [] = refl
fill_first-Filled ip (none ∷ xs) = (λ q. ground arith, λ s dev inum. refl)
fill_first-Filled ip (some r ∷ xs) = later (fill_first ip xs) (fill_first-Filled ip xs)
  where
    later :
        (o : Option (List (Option ℕ)))
        → Filled ip xs o
        → Filled ip (some r ∷ xs) (elim o as (λ _. Option (List (Option ℕ))) [
          | none ↦ none
          | some ys ↦ some (some r ∷ ys)
        ])
    later none f = f
    later (some ys) (f, g) = (
      λ q. (let old = f q in ground (arith, old)),
      λ s dev inum. (let old = g s dev inum in ground (arith, old)),
    )

-- The names of other inodes are those of the table before.
pub named-same :
    (s t : ITable) (dev inum : ℕ) (xs : List (Option ℕ))
    → ((ip : ℕ) → places ip xs ≢ 0 → is_named t dev inum ip ≡ is_named s dev inum ip)
    → named t dev inum xs ≡ named s dev inum xs
named-same s t dev inum [] f = refl
named-same s t dev inum (none ∷ xs) f = named-same s t dev inum xs f
named-same s t dev inum (some ip ∷ xs) f =
    let ih = named-same s t dev inum xs (λ q w. f q (ground (arith, w))) in
    let here = f ip (ground arith) in rw (ih, here) refl

-- What the get of an inode comes to.
abbrev pub Got : ITable → (dev inum : ℕ) → Outcome (ℕ × ITable) → Type 0
Got s dev inum panicked = (named s dev inum s.slots ≡ 0) × (empties s.slots ≡ 0)
Got s dev inum (done (ip, t)) =
    (is_named t dev inum ip ≡ true)
    × (places ip t.slots ≢ 0)
    × IsSound t
    × ((q : ℕ)
        → q ≢ ip
        → (t.count q ≡ s.count q)
          × (places q t.slots ≡ places q s.slots)
          × (t.dev q ≡ s.dev q)
          × (t.inum q ≡ s.inum q))
    × ((places ip s.slots ≢ 0) ⊎ (ip ≡ s.next))
    × (t.count ip ≡ (if named s dev inum s.slots == 0 then 2 else suc (s.count ip)))

pub get-Got : (s : ITable) (dev inum : ℕ) → IsSound s → Got s dev inum (get dev inum s)
unfolding get
get-Got s dev inum h = by_search (search s dev inum s.slots) refl
  where
    -- Other inodes keep their names.
    renamed :
        (d i ip : ℕ)
        → ip ≢ s.next
        → ((update s.dev s.next dev ip == d) && (update s.inum s.next inum ip == i))
          ≡ is_named s d i ip
    renamed d i ip ne = ground (arith, ne)

    alike :
        (d i : ℕ)
        → named s dev inum s.slots ≡ 0
        → ((dev == d) && (inum == i)) ≡ true
        → named s d i s.slots ≡ 0
    alike d i z e =
        let a : dev ≡ d = ground (arith, e) in
        let b : inum ≡ i = ground (arith, e) in
        subst (λ x. named s x i s.slots ≡ 0) a (subst (λ x. named s dev x s.slots ≡ 0) b z)

    by_fill :
        named s dev inum s.slots ≡ 0
        → (o : Option (List (Option ℕ))) → Filled s.next s.slots o
        → Got s dev inum (recycled s dev inum o)
    by_fill z none f = (z, f)
    by_fill z (some ys) (f, g) =
        let t : ITable = record {
          slots = ys;
          dev = update s.dev s.next dev;
          inum = update s.inum s.next inum;
          count = update s.count s.next 2;
          next = suc s.next;
        } in
        (
          ground arith,
          (let here = f s.next in ground (arith, here)),
          record {
            made = λ q w. (let old = h.made q in let new = f q in ground (arith, old, new, w));
            once = λ d i.
                let old = h.once d i in
                let new = g t d i in
                let same =
                  named-same s t d i s.slots
                    (λ q w. renamed d i q (λ r. (let m = h.made q w in omega (arith, m, r)))) in
                let free = alike d i z in ground (arith, old, new, same, free);
          },
          (λ q ne. (
            ground (arith, ne),
            (let new = f q in ground (arith, ne, new)),
            ground (arith, ne),
            ground (arith, ne),
          )),
          inr refl,
          ground (arith, z),
        )

    by_search : (o : Option ℕ) → search s dev inum s.slots ≡ o → Got s dev inum (got s dev inum o)
    by_search none e =
        by_fill (search-none s dev inum s.slots e) (fill_first s.next s.slots)
          (fill_first-Filled s.next s.slots)
    by_search (some ip) e =
        let (a, b, c) = search-some s dev inum ip s.slots e in
        (
          a,
          b,
          record {
            made = h.made;
            once = λ d i.
                let old = h.once d i in
                let same =
                  named-same s (record s { count = update s.count ip (suc (s.count ip)) }) d i
                    s.slots (λ q w. refl) in
                omega (arith, old, same);
          },
          (λ q ne. (ground (arith, ne), refl, refl, refl)),
          inl b,
          ground (arith, c),
        )
