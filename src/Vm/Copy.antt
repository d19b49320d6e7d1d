-- ===== src/Vm/Copy.antt =====
-- kernel/vm.rs: Uvm::copyin and Uvm::copyout. `tr` is `walkaddr` on the table, and memory is a byte at
-- each physical address.
use octox.Base.{
  ℕ, zero, suc, ◌+◌, ◌-◌, ◌%◌, ◌<◌, ◌≤◌, ◌≡◌, refl, sym, ap, ◌∙◌, false, List, [], ◌∷◌, ◌++◌, min,
  ◌==◌, leb, if◌then◌else◌, arith, Option, none, some, inl, inr, Bool-cases, update, Option-cases,
}
use mathlib.Core.List.{append-nil, append_assoc}
use octox.Vm.Defs.{pgsize, rounddown}

-- The bytes of a range of memory, and a write of bytes over one.
unfoldable pub bytes_at : (ℕ → ℕ) → (pa n : ℕ) → List ℕ
bytes_at mem pa zero = []
bytes_at mem pa (suc n) = mem pa ∷ bytes_at mem (suc pa) n

unfoldable pub overwrite : (ℕ → ℕ) → ℕ → List ℕ → (ℕ → ℕ)
overwrite mem pa [] = mem
overwrite mem pa (b ∷ bs) = overwrite (update mem pa b) (suc pa) bs

pub rounddown-bounds :
    (a : ℕ) → (rounddown a % 4096 ≡ 0) × (rounddown a ≤ a) × (a < rounddown a + 4096)
unfolding rounddown
rounddown-bounds a = (omega arith, omega arith, omega arith)

pub rounddown-add : (va0 off : ℕ) → va0 % 4096 ≡ 0 → off < 4096 → rounddown (va0 + off) ≡ va0
unfolding rounddown
rounddown-add va0 off al le = omega arith

abbrev pub read_byte : (ℕ → ℕ) → ℕ → Option ℕ → Option ℕ
read_byte mem off none = none
read_byte mem off (some pa) = some (mem (pa + off))

module _ (tr : ℕ → Option ℕ) where
  -- Uvm::copyin, with what is copied so far; the inner option is the result, the outer one fuel.
  unfoldable pub copyin_loop : ℕ → (ℕ → ℕ) → (len srcva : ℕ) → List ℕ → Option (Option (List ℕ))
  copyin_loop zero mem len srcva dst = if len == 0 then some (some dst) else none
  copyin_loop (suc k) mem len srcva dst =
      let va0 = rounddown srcva in
      let n = min (pgsize - (srcva - va0)) len in
      if len == 0 then some (some dst) else elim (tr va0) [
        | none ↦ some none
        | some pa0 ↦
            copyin_loop k mem (len - n) (va0 + pgsize) (dst ++ bytes_at mem (pa0 + (srcva - va0)) n)
      ]

  unfoldable pub copyin : (ℕ → ℕ) → (len srcva : ℕ) → Option (Option (List ℕ))
  copyin mem len srcva = copyin_loop len mem len srcva []

  -- The byte that the user sees at an address.
  abbrev pub user_byte : (ℕ → ℕ) → ℕ → Option ℕ
  user_byte mem a = read_byte mem (a % 4096) (tr (rounddown a))

  abbrev pub also : Option ℕ → Option (List ℕ) → Option (List ℕ)
  also (some b) (some bs) = some (b ∷ bs)
  also (some b) none = none
  also none o = none

  -- The bytes that the user sees from an address on, if all of them are mapped.
  unfoldable pub user_bytes : (ℕ → ℕ) → (n a : ℕ) → Option (List ℕ)
  user_bytes mem zero a = some []
  user_bytes mem (suc n) a = also (user_byte mem a) (user_bytes mem n (suc a))

  abbrev onto : List ℕ → Option (List ℕ) → Option (List ℕ)
  onto dst (some bs) = some (dst ++ bs)
  onto dst none = none

  onto_nil : (o : Option (List ℕ)) → o ≡ onto [] o
  onto_nil (some bs) = refl
  onto_nil none = refl

  also-onto :
      (b : ℕ) (bs : List ℕ) (o : Option (List ℕ)) → also (some b) (onto bs o) ≡ onto (b ∷ bs) o
  also-onto b bs (some cs) = refl
  also-onto b bs none = refl

  onto-onto : (xs ys : List ℕ) (o : Option (List ℕ)) → onto (xs ++ ys) o ≡ onto xs (onto ys o)
  onto-onto xs ys (some zs) = ap some (append_assoc xs ys zs)
  onto-onto xs ys none = refl

  user_byte-page :
      (mem : ℕ → ℕ) (va0 off pa0 : ℕ)
      → va0 % 4096 ≡ 0
      → off < 4096
      → tr va0 ≡ some pa0
      → user_byte mem (va0 + off) ≡ some (mem (pa0 + off))
  user_byte-page mem va0 off pa0 al le e =
      let page : rounddown (va0 + off) ≡ va0 = rounddown-add va0 off al le in
      let ofs : (va0 + off) % 4096 ≡ off = omega arith in
      ap (read_byte mem ((va0 + off) % 4096)) (ap tr page ∙ e) ∙ ap (λ o. some (mem (pa0 + o))) ofs

  -- A run of bytes of one page.
  pub user_bytes-page :
      (mem : ℕ → ℕ) (n m va0 off pa0 : ℕ)
      → va0 % 4096 ≡ 0
      → off + n ≤ 4096
      → tr va0 ≡ some pa0
      → user_bytes mem (n + m) (va0 + off)
        ≡ onto (bytes_at mem (pa0 + off) n) (user_bytes mem m (va0 + off + n))
  unfolding user_bytes bytes_at
  user_bytes-page mem zero m va0 off pa0 al le e =
      let same : va0 + off + 0 ≡ va0 + off = omega arith in
      let none_more : 0 + m ≡ m = omega arith in
      rw (same, none_more) (onto_nil (user_bytes mem m (va0 + off)))
  user_bytes-page mem (suc n) m va0 off pa0 al le e =
      let step : suc n + m ≡ suc (n + m) = omega arith in
      let next : va0 + suc off ≡ suc (va0 + off) = omega arith in
      let past : suc (va0 + off) + n ≡ va0 + off + suc n = omega arith in
      let place : pa0 + suc off ≡ suc (pa0 + off) = omega arith in
      let rest : user_bytes mem (n + m) (suc (va0 + off))
          ≡ onto (bytes_at mem (suc (pa0 + off)) n) (user_bytes mem m (va0 + off + suc n)) =
        rw (next, past, place) at (user_bytes-page mem n m va0 (suc off) pa0 al (omega arith) e) in
      ap (λ k. user_bytes mem k (va0 + off)) step
      ∙ (ap (λ o. also o (user_bytes mem (n + m) (suc (va0 + off))))
            (user_byte-page mem va0 off pa0 al (omega arith) e)
          ∙ (ap (also (some (mem (pa0 + off)))) rest ∙ also-onto _ _ _))

  -- A copy ends before a page of the range that is not mapped.
  user_bytes-unmapped :
      (mem : ℕ → ℕ) (n a : ℕ) → 0 < n → tr (rounddown a) ≡ none → user_bytes mem n a ≡ none
  unfolding user_bytes
  user_bytes-unmapped mem zero a h e = absurd (omega arith)
  user_bytes-unmapped mem (suc n) a h e =
      ap (λ o. also o (user_bytes mem n (suc a))) (ap (read_byte mem (a % 4096)) e)

  -- How much of a range lies in its first page.
  abbrev pub chunk : (len a : ℕ) → ℕ
  chunk len a = min (pgsize - (a - rounddown a)) len

  copyin_loop-none :
      (k : ℕ) (mem : ℕ → ℕ) (len srcva : ℕ) (dst : List ℕ)
      → 0 < len
      → tr (rounddown srcva) ≡ none
      → copyin_loop (suc k) mem len srcva dst ≡ some none
  unfolding copyin_loop
  copyin_loop-none k mem len srcva dst pos e =
      let more : (len == 0) ≡ false = ground (arith, pos) in rw (more, e) refl

  copyin_loop-some :
      (k : ℕ) (mem : ℕ → ℕ) (len srcva pa0 : ℕ) (dst : List ℕ)
      → 0 < len
      → tr (rounddown srcva) ≡ some pa0
      → copyin_loop (suc k) mem len srcva dst
        ≡ copyin_loop k mem
            (len - chunk len srcva)
            (rounddown srcva + pgsize)
            (dst ++ bytes_at mem (pa0 + (srcva - rounddown srcva)) (chunk len srcva))
  unfolding copyin_loop
  copyin_loop-some k mem len srcva pa0 dst pos e =
      let more : (len == 0) ≡ false = ground (arith, pos) in rw (more, e) refl

  -- What is left after the first page starts at the next one.
  after_page :
      (mem : ℕ → ℕ) (len a : ℕ)
      → user_bytes mem (len - chunk len a) (rounddown a + (a - rounddown a) + chunk len a)
        ≡ user_bytes mem (len - chunk len a) (rounddown a + pgsize)
  unfolding user_bytes
  after_page mem len a =
      let (al, low, off) = rounddown-bounds a in
      elim (Bool-cases (leb len (pgsize - (a - rounddown a)))) [
        | inl q ↦
            let nothing : len - chunk len a ≡ 0 = ground (arith, q, low, off) in rw nothing refl
        | inr q ↦
            let next : rounddown a + (a - rounddown a) + chunk len a ≡ rounddown a + pgsize =
              ground (arith, q, low, off) in
            ap (user_bytes mem (len - chunk len a)) next
      ]

  -- The first page of a range, and the pages after it.
  pub user_bytes-chunk :
      (mem : ℕ → ℕ) (len a pa0 : ℕ)
      → tr (rounddown a) ≡ some pa0
      → user_bytes mem len a
        ≡ onto
            (bytes_at mem (pa0 + (a - rounddown a)) (chunk len a))
            (user_bytes mem (len - chunk len a) (rounddown a + pgsize))
  unfolding user_bytes
  user_bytes-chunk mem len a pa0 e =
      let (al, low, off) = rounddown-bounds a in
      let whole : len ≡ chunk len a + (len - chunk len a) = omega arith in
      let here : a ≡ rounddown a + (a - rounddown a) = omega arith in
      let run =
        user_bytes-page mem (chunk len a) (len - chunk len a) (rounddown a) (a - rounddown a) pa0 al
          (omega arith) e in
      ap (λ n. user_bytes mem n a) whole
      ∙ (ap (user_bytes mem _) here ∙ (run ∙ ap (onto _) (after_page mem len a)))

  copyin_loop-user_bytes :
      (k : ℕ) (mem : ℕ → ℕ) (len srcva : ℕ) (dst : List ℕ)
      → len ≤ k
      → copyin_loop k mem len srcva dst ≡ some (onto dst (user_bytes mem len srcva))
  unfolding copyin_loop user_bytes
  copyin_loop-user_bytes k mem zero srcva dst le = stop k
    where
      stop : (n : ℕ) → copyin_loop n mem 0 srcva dst ≡ some (some (dst ++ []))
      stop zero = ap (λ l. some (some l)) (sym (append-nil dst))
      stop (suc n) = ap (λ l. some (some l)) (sym (append-nil dst))
  copyin_loop-user_bytes zero mem (suc len) srcva dst le = absurd (omega arith)
  copyin_loop-user_bytes (suc k) mem (suc len) srcva dst le =
      let (al, low, off) = rounddown-bounds srcva in
      elim (Option-cases (tr (rounddown srcva))) [
        | inl e ↦
            copyin_loop-none k mem (suc len) srcva dst (omega arith) e
            ∙ ap (λ o. some (onto dst o))
                (sym (user_bytes-unmapped mem (suc len) srcva (omega arith) e))
        | inr (pa0, e) ↦
            copyin_loop-some k mem (suc len) srcva pa0 dst (omega arith) e
            ∙ (copyin_loop-user_bytes k mem _ _ _ (omega arith)
                ∙ ap some (
                    onto-onto dst _ _
                    ∙ ap (onto dst) (sym (user_bytes-chunk mem (suc len) srcva pa0 e))))
      ]

  -- For every length, address and translation of pages, `copyin` ends within its fuel, with the bytes
  -- that the user sees one by one from the address on, and with an error when a page of one
  -- of them is not mapped for the user.
  pub copyin-user_bytes :
      (mem : ℕ → ℕ) (len srcva : ℕ) → copyin mem len srcva ≡ some (user_bytes mem len srcva)
  unfolding copyin
  copyin-user_bytes mem len srcva =
      copyin_loop-user_bytes len mem len srcva [] (omega arith) ∙ ap some (sym (onto_nil _))
