-- ===== src/Fs/Contents.antt =====
-- kernel/fs.rs: IData::bmap on the blocks of the contents of an inode.
use octox.Base.{
  ℕ, ◌+◌, ◌-◌, ◌<◌, ◌≤◌, ◌≡◌, ◌≢◌, sym, ap, subst, ◌∙◌, true, false, ◌==◌, ltb, arith, some, inl,
  inr, Bool-cases, Outcome, done, panicked, ◌>>=◌,
}
use octox.Fs.Defs.{SuperBlock, Disk, Addrs, get32, indirect, some_block, bmap}
use octox.Fs.Balloc.{free}
use octox.Fs.Bmap.{slot, slot-low, slot-word, index, IsInode, Filled, direct-Filled}
use octox.Fs.Indirect.{
  index_bound, index_inj, indirect-Filled, BmapPost, direct-again, indirect-again, bmap-direct,
  bmap-indirect, bmap-none, NoFree-Scarce, Filled-stays, low-BmapPost,
}

module _ (sb : SuperBlock) (h : sb.size < 8192) where
  second-BmapPost :
      (addrs a1 : Addrs) (d d1 : Disk) (bn b : ℕ)
      → 12 ≤ bn
      → bn < 268
      → Filled sb h 12 addrs d (done (b, a1, d1))
      → (o : Outcome (ℕ × Addrs × Disk)) → Filled sb h (13 + (bn - 12)) a1 d1 o
      → BmapPost sb h addrs d bn (some_block o)
  second-BmapPost addrs a1 d d1 bn b le lt (nz1, here1, same1, q1, rest1, old1) panicked p =
      λ m n pm lm fm pn ln fn. only m pm lm fm ∙ sym (only n pn ln fn)
    where
      only : (m : ℕ) → 0 < m → m ≤ sb.size → free sb d m ≡ true → m ≡ b
      only m pm lm fm = elim (Bool-cases (m == b)) [
        | inl e ↦ ground (arith, e)
        | inr e ↦
            let clash : true ≡ false =
              sym fm
              ∙ (sym (rest1 m (λ z. ground (arith, e, z)) (omega (arith, h, lm))) ∙ p m pm lm) in
            absurd (ground (arith, clash))
      ]
  second-BmapPost addrs a1 d d1 bn b le lt f1 (done (a, a2, d2)) f2 =
      let (nz1, here1, same1, q1, rest1, old1) = f1 in
      let (nz, here, same, q, rest, old) = f2 in
      let place : index bn ≡ 13 + (bn - 12) = ground (arith, le) in
      let root : a2 12 ≡ b =
        sym (slot-low a2 d2 12 (omega arith))
        ∙ (same 12 (omega arith) (λ e. omega (arith, e)) ∙ here1) in
      let nz12 : a2 12 ≢ 0 = λ z. nz1 (sym root ∙ z) in
      let back : 13 + (bn - 12) - 13 ≡ bn - 12 = omega arith in
      let word : get32 (d2 (a2 12)) (bn - 12) ≡ a =
        ap (get32 (d2 (a2 12))) (sym back)
        ∙ (sym (slot-word a2 d2 (13 + (bn - 12)) (omega arith) nz12) ∙ here) in
      (
        lt,
        nz,
        ap (slot a2 d2) place ∙ here,
        (λ k l full.
            let kept = Filled-stays sb h 12 addrs a1 d d1 b f1 k l full in
            Filled-stays sb h (13 + (bn - 12)) a1 a2 d1 d2 a f2 k l (λ z. full (sym kept ∙ z))
            ∙ kept),
        (λ m l ne.
            same (index m) (index_bound m l) (λ e. ne (index_inj m bn (e ∙ sym place)))
            ∙ same1 (index m) (index_bound m l) (λ e. ground (arith, e))),
        q,
        bmap-indirect sb h a2 d2 bn le lt
            ∙ (ap (λ o. some_block (o >>= indirect sb (bn - 12))) (direct-again sb h a2 d2 12 nz12)
                ∙ (ap some_block
                      (indirect-again sb h a2 d2 (a2 12) (bn - 12) (λ z. nz (sym word ∙ z)))
                    ∙ ap (λ (x : ℕ). done (some (x, a2, d2))) word)),
      )

  first-BmapPost :
      (addrs : Addrs) (d : Disk) (bn : ℕ)
      → 12 ≤ bn
      → bn < 268
      → (o : Outcome (ℕ × Addrs × Disk)) → Filled sb h 12 addrs d o
      → BmapPost sb h addrs d bn (some_block (o >>= indirect sb (bn - 12)))
  first-BmapPost addrs d bn le lt panicked p = NoFree-Scarce sb h d p
  first-BmapPost addrs d bn le lt (done (b, a1, d1)) f =
      let (nz, here, same, q, rest, old) = f in
      let root : a1 12 ≡ b = sym (slot-low a1 d1 12 (omega arith)) ∙ here in
      subst (λ x. BmapPost sb h addrs d bn (some_block (indirect sb (bn - 12) (x, a1, d1)))) root
        (second-BmapPost addrs a1 d d1 bn b le lt f _
          (indirect-Filled sb h a1 d1 (bn - 12) (omega (arith, le, lt)) (λ z. nz (sym root ∙ z)) q))

  -- On a file system of fewer than 8192 blocks and an inode whose blocks are taken and different, `bmap`
  -- of a block of the contents gives a block that stands at its place from then on, and gives it
  -- again when asked again without any change. The other blocks of the contents are as
  -- they were, and the blocks of the inode are still taken and different. It gives an error
  -- only past the largest file, and, where LOG.write returns, panics only when at most one block is
  -- free. "Taken" and "free" are said of the bits that balloc reads, in the block `bblock`.
  bmap-BmapPost :
      (addrs : Addrs) (d : Disk) (bn : ℕ)
      → IsInode sb (slot addrs d) d
      → BmapPost sb h addrs d bn (bmap sb addrs d bn)
  bmap-BmapPost addrs d bn q = elim (Bool-cases (ltb bn 12)) [
    | inl e ↦
        let lt : bn < 12 = ground (arith, e) in
        subst (BmapPost sb h addrs d bn) (sym (bmap-direct sb h addrs d bn lt))
          (low-BmapPost sb h addrs d bn lt _ (direct-Filled sb h addrs d bn (omega (arith, lt)) q))
    | inr e ↦ elim (Bool-cases (ltb bn 268)) [
      | inl f ↦
          let le : 12 ≤ bn = ground (arith, e) in
          let lt : bn < 268 = ground (arith, f) in
          subst (BmapPost sb h addrs d bn) (sym (bmap-indirect sb h addrs d bn le lt))
            (first-BmapPost addrs d bn le lt _ (direct-Filled sb h addrs d 12 (omega arith) q))
      | inr f ↦
          subst (BmapPost sb h addrs d bn) (sym (bmap-none sb h addrs d bn (ground (arith, f))))
            (ground (arith, f))
    ]
  ]
