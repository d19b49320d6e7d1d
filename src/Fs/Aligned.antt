-- ===== src/Fs/Aligned.antt =====
-- kernel/fs.rs: IData::read from the start of a block, into memory of the kernel.
use octox.Base.{
  ℕ, zero, suc, ◌+◌, ◌-◌, ◌/◌, ◌%◌, ◌^◌, ◌<◌, ◌≤◌, ◌≡◌, ◌≢◌, ◌⊎◌, refl, sym, ap, ◌∙◌, true, false,
  List, [], ◌∷◌, ◌++◌, length, min, ltb, leb, arith, Option, some, inl, inr, Bool-cases, update,
}
use octox.Vm.Copy.{bytes_at, overwrite}
use octox.Fs.Defs.{SuperBlock, Disk, Addrs, bsize}
use octox.Fs.Bmap.{slot, index}
use octox.Fs.Read.{Mem, read_done, read_loop, read_loop-end, clamped, read, bmap-filled}

-- either_copyout for an address of the kernel.
abbrev pub to_kernel : Mem → ℕ → List ℕ → Option Mem
to_kernel mem dst bs = some (overwrite mem dst bs)

overwrite-append :
    (mem : Mem) (dst : ℕ) (xs ys : List ℕ)
    → overwrite mem dst (xs ++ ys) ≡ overwrite (overwrite mem dst xs) (dst + length xs) ys
unfolding overwrite
overwrite-append mem dst [] ys =
    let same : dst + 0 ≡ dst = omega arith in ap (λ p. overwrite mem p ys) (sym same)
overwrite-append mem dst (x ∷ xs) ys =
    let next : suc dst + length xs ≡ dst + suc (length xs) = omega arith in
    overwrite-append (update mem dst x) (suc dst) xs ys
    ∙ ap (λ p. overwrite (overwrite (update mem dst x) (suc dst) xs) p ys) next

module _ (addrs : Addrs) (d : Disk) where
  -- The contents of an inode, from a place on.
  unfoldable pub contents : (off n : ℕ) → List ℕ
  contents off zero = []
  contents off (suc n) = d (slot addrs d (index (off / 1024))) (off % 1024) ∷ contents (suc off) n

  length-contents : (off n : ℕ) → length (contents off n) ≡ n
  unfolding contents
  length-contents off zero = refl
  length-contents off (suc n) = ap suc (length-contents (suc off) n)

  contents-add : (off m n : ℕ) → contents off (m + n) ≡ contents off m ++ contents (off + m) n
  unfolding contents
  contents-add off zero n =
      let a : 0 + n ≡ n = omega arith in let b : off + 0 ≡ off = omega arith in rw (a, b) refl
  contents-add off (suc m) n =
      let a : suc m + n ≡ suc (m + n) = omega arith in
      let b : suc off + m ≡ off + suc m = omega arith in
      ap (contents off) a
      ∙ ap (λ l. d (slot addrs d (index (off / 1024))) (off % 1024) ∷ l)
          (contents-add (suc off) m n ∙ ap (λ p. contents (suc off) m ++ contents p n) b)

  -- The bytes of one block.
  bytes_at-contents :
      (base o m : ℕ)
      → base % 1024 ≡ 0
      → o + m ≤ 1024
      → bytes_at (d (slot addrs d (index (base / 1024)))) o m ≡ contents (base + o) m
  unfolding bytes_at contents
  bytes_at-contents base o zero al le = refl
  bytes_at-contents base o (suc m) al le =
      let a : (base + o) / 1024 ≡ base / 1024 = omega (arith, al, le) in
      let b : (base + o) % 1024 ≡ o = omega (arith, al, le) in
      let c : base + suc o ≡ suc (base + o) = omega arith in
      rw (a, b)
        (ap (λ l. d (slot addrs d (index (base / 1024))) o ∷ l)
          (bytes_at-contents base (suc o) m al (omega arith) ∙ ap (λ p. contents p m) c))

  -- The inode has a block for every place.
  abbrev pub Present : (off n : ℕ) → Type 0
  Present off n =
      (p : ℕ) → off ≤ p → p < off + n → (slot addrs d (index (p / 1024)) ≢ 0) × (p / 1024 < 268)

  read_loop-round :
      (k : ℕ) (sb : SuperBlock) (tot n off dst : ℕ) (mem : Mem)
      → tot < n
      → off % 1024 ≡ 0
      → Present off (n - tot)
      → read_loop to_kernel (suc k) sb tot n off dst mem addrs d
        ≡ read_loop to_kernel k sb
            (tot + min (n - tot) 1024)
            n
            (off + min (n - tot) 1024)
            (dst + min (n - tot) 1024)
            (overwrite mem dst (contents off (min (n - tot) 1024)))
            addrs
            d
  unfolding read_loop
  read_loop-round k sb tot n off dst mem lt al here =
      let more : ltb tot n ≡ true = ground (arith, lt) in
      let (ne, small) = here off (omega arith) (omega (arith, lt)) in
      let m = min (n - tot) 1024 in
      let whole : min (n - tot) (bsize - off % bsize) ≡ m = omega (arith, al) in
      let start : leb (off % bsize) m ≡ true = ground (arith, al, lt) in
      let bytes : bytes_at (d (slot addrs d (index (off / bsize)))) (off % bsize) (m - off % bsize)
          ≡ contents off m =
        ap (λ o. bytes_at (d (slot addrs d (index (off / bsize)))) o (m - o)) al
        ∙ (bytes_at-contents off 0 (m - 0) al (omega arith)
            ∙ (ap (λ p. contents p (m - 0)) (plus_zero off) ∙ ap (contents off) (minus_zero m))) in
      rw (more, bmap-filled to_kernel sb addrs d (off / bsize) small ne, whole, start, bytes) refl
    where
      plus_zero : (x : ℕ) → x + 0 ≡ x
      plus_zero x = omega arith

      minus_zero : (x : ℕ) → x - 0 ≡ x
      minus_zero x = omega arith

  -- Nothing is left to read.
  read_loop-over :
      (k : ℕ) (sb : SuperBlock) (tot n off dst : ℕ) (mem : Mem)
      → tot ≤ n
      → n ≤ tot
      → read_loop to_kernel k sb tot n off dst mem addrs d
        ≡ read_done n (overwrite mem dst (contents off (n - tot))) addrs d
  unfolding contents overwrite
  read_loop-over k sb tot n off dst mem le over =
      let same : tot ≡ n = omega (arith, le, over) in
      let nothing : n - tot ≡ 0 = omega (arith, over) in
      read_loop-end to_kernel k sb tot n off dst mem addrs d over
      ∙ (ap (λ (t : ℕ). read_done t mem addrs d) same
          ∙ ap (λ z. read_done n (overwrite mem dst (contents off z)) addrs d) (sym nothing))

  read_loop-contents :
      (k : ℕ) (sb : SuperBlock) (tot n off dst : ℕ) (mem : Mem)
      → tot ≤ n
      → n ≤ tot + k
      → (off % 1024 ≡ 0) ⊎ (n ≤ tot)
      → Present off (n - tot)
      → read_loop to_kernel k sb tot n off dst mem addrs d
        ≡ read_done n (overwrite mem dst (contents off (n - tot))) addrs d
  read_loop-contents k sb tot n off dst mem le fuel (inr over) here =
      read_loop-over k sb tot n off dst mem le over
  read_loop-contents zero sb tot n off dst mem le fuel (inl al) here =
      read_loop-over zero sb tot n off dst mem le (omega (arith, fuel))
  read_loop-contents (suc k) sb tot n off dst mem le fuel (inl al) here =
      elim (Bool-cases (ltb tot n)) [
        | inr q ↦ read_loop-over (suc k) sb tot n off dst mem le (ground (arith, q))
        | inl q ↦
            let lt : tot < n = ground (arith, q) in
            let m = min (n - tot) 1024 in
            let parts : n - tot ≡ m + (n - (tot + m)) = omega (arith, lt) in
            let len = length-contents off m in
            read_loop-round k sb tot n off dst mem lt al here
            ∙ (read_loop-contents k sb (tot + m) n (off + m) (dst + m)
                  (overwrite mem dst (contents off m)) (omega (arith, lt)) (omega (arith, lt, fuel))
                  (next m refl al) (λ p a b. here p (omega (arith, a)) (omega (arith, b, lt)))
                ∙ ap (λ (z : Mem). read_done n z addrs d)
                    (ap
                        (λ l.
                          overwrite (overwrite mem dst (contents off m)) (dst + l)
                            (contents (off + m) (n - (tot + m))))
                        (sym len)
                      ∙ (sym (
                            overwrite-append mem dst (contents off m)
                              (contents (off + m) (n - (tot + m))))
                          ∙ ap (overwrite mem dst) (
                              sym (contents-add off m (n - (tot + m)))
                              ∙ ap (contents off) (sym parts)))))
      ]
    where
      next :
          (m : ℕ) → m ≡ min (n - tot) 1024 → off % 1024 ≡ 0 → ((off + m) % 1024 ≡ 0) ⊎ (n ≤ tot + m)
      next m e al' = elim (Bool-cases (leb (n - tot) 1024)) [
        | inl q ↦ inr (ground (arith, q, e))
        | inr q ↦ inl (ground (arith, q, e, al'))
      ]

  -- A read into memory of the kernel from the start of a block, of a range
  -- that ends below 2^64 and whose part in the file has a block at every place of it,
  -- ends within its fuel: it copies the bytes of the contents that lie in the file, in order,
  -- reports their number, and leaves the inode and the disk as they were.
  pub read-contents :
      (sb : SuperBlock) (size off n dst : ℕ) (mem : Mem)
      → off ≤ size
      → off % 1024 ≡ 0
      → off + n < 2 ^ 64
      → Present off (clamped to_kernel size off n)
      → read to_kernel sb size off n dst mem addrs d
        ≡ read_done
            (clamped to_kernel size off n)
            (overwrite mem dst (contents off (clamped to_kernel size off n)))
            addrs
            d
  unfolding read
  read-contents sb size off n dst mem inside al range here =
      let start : ltb size off ≡ false = ground (arith, inside) in
      let no_overflow : leb (2 ^ 64) (off + n) ≡ false = ground (arith, range) in
      let whole : clamped to_kernel size off n - 0 ≡ clamped to_kernel size off n = omega arith in
      rw (start, no_overflow)
        (read_loop-contents (clamped to_kernel size off n) sb 0 (clamped to_kernel size off n) off
            dst mem (omega arith) (omega arith) (inl al)
            (λ p a b. here p a (omega (arith, b, whole)))
          ∙ ap
              (λ z.
                read_done (clamped to_kernel size off n) (overwrite mem dst (contents off z)) addrs
                  d)
              whole)
