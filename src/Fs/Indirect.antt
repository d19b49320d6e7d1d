-- ===== src/Fs/Indirect.antt =====
-- kernel/fs.rs: the whole of IData::bmap.
use octox.Base.{
  ℕ, ◌+◌, ◌-◌, ◌/◌, ◌%◌, ◌<◌, ◌≤◌, ◌≡◌, ◌≢◌, refl, sym, ap, subst, ◌∙◌, true, false, ◌==◌, ltb, leb,
  arith, Option, none, some, inl, inr, update, Bool-cases, Outcome, done, panicked, ◌>>=◌,
}
use octox.Fs.Defs.{
  bit_clear, SuperBlock, Disk, Addrs, bblock, get32, set32, balloc, direct, in_block, indirect,
  some_block, bmap,
}
use octox.Fs.Bits.{get32-set32_self, get32-set32_else}
use octox.Fs.Balloc.{free, Alloced, balloc-Alloced, size-bblock}
use octox.Fs.Bmap.{slot, slot-low, slot-word, index, IsInode, IsInode-extend, NoFree, Filled}

pub index_bound : (m : ℕ) → m < 268 → index m < 269
index_bound m l = ground (arith, l)

pub index_inj : (m n : ℕ) → index m ≡ index n → m ≡ n
index_inj m n e = ground (arith, e)

module _ (sb : SuperBlock) (h : sb.size < 8192) where
  pub indirect-Filled :
      (addrs : Addrs) (d : Disk) (j : ℕ)
      → j < 256
      → addrs 12 ≢ 0
      → IsInode sb (slot addrs d) d
      → Filled sb h (13 + j) addrs d (indirect sb j (addrs 12, addrs, d))
  unfolding indirect
  indirect-Filled addrs d j lj nz12 q = elim (Bool-cases (get32 (d (addrs 12)) j == 0)) [
    | inl e ↦ rw (e, Filled) (by_alloc (ground (arith, e)) (balloc sb d) (balloc-Alloced sb d h))
    | inr e ↦
        rw (e, Filled)
          (
            (λ z. ground (arith, e, z)),
            slot_j d,
            (λ k l ne. refl),
            q,
            (λ m ne l. refl),
            λ full. sym (slot_j d),
          )
  ]
    where
      slot_j : (d1 : Disk) → slot addrs d1 (13 + j) ≡ get32 (d1 (addrs 12)) j
      slot_j d1 =
          let back : 13 + j - 13 ≡ j = omega arith in
          slot-word addrs d1 (13 + j) (omega arith) nz12 ∙ ap (get32 (d1 (addrs 12))) back

      low : addrs 12 ≤ sb.size
      low = subst (λ m. m ≤ sb.size) (slot-low addrs d 12 (omega arith)) (q.small 12 (omega arith))

      off_map : addrs 12 ≢ bblock sb 0
      off_map w = let bm = size-bblock sb 0 h in let l = low in omega (arith, w, l, bm)

      by_alloc :
          get32 (d (addrs 12)) j ≡ 0
          → (o : Outcome (ℕ × Disk)) → Alloced sb d o
          → Filled sb h (13 + j) addrs d (in_block addrs (addrs 12) j o)
      by_alloc empty panicked p = p
      by_alloc empty (done (a, d')) (pos, small, was, is, rest, zeroed, others) =
          let d'' = update d' (addrs 12) (set32 (d' (addrs 12)) j a) in
          let self : (addrs 12 == addrs 12) ≡ true = ground arith in
          let map_else : (addrs 12 == bblock sb 0) ≡ false = ground (arith, off_map) in
          let bits : d'' (bblock sb 0) ≡ d' (bblock sb 0) = rw map_else refl in
          let block = slot-low addrs d 12 (omega arith) in
          let old : addrs 12 ≢ a = λ w.
            (let clash : true ≡ false =
                sym was
                ∙ (ap (free sb d) (sym w ∙ sym block)
                    ∙ q.taken 12 (omega arith) (λ v. nz12 (sym block ∙ v))) in
              ground (arith, clash)) in
          let written : d'' (addrs 12) ≡ set32 (d' (addrs 12)) j a = rw self refl in
          let here : slot addrs d'' (13 + j) ≡ a =
            slot_j d'' ∙ (ap (λ f. get32 f j) written ∙ get32-set32_self (d' (addrs 12)) j a) in
          let same : (k : ℕ) → k < 269 → k ≢ 13 + j → slot addrs d'' k ≡ slot addrs d k = λ k l ne.
            elim (Bool-cases (leb k 12)) [
              | inl e ↦
                  slot-low addrs d'' k (ground (arith, e))
                  ∙ sym (slot-low addrs d k (ground (arith, e)))
              | inr e ↦
                  let lt : 12 < k = ground (arith, e) in
                  slot-word addrs d'' k lt nz12
                  ∙ (ap (λ f. get32 f (k - 13)) written
                      ∙ (get32-set32_else (d' (addrs 12)) j (k - 13) a
                            (λ z. ne (omega (arith, z, lt)))
                          ∙ (ap (λ f. get32 f (k - 13)) (others (addrs 12) old off_map)
                              ∙ sym (slot-word addrs d k lt nz12))))
            ] in
          let as_before : (m : ℕ) → free sb d'' m ≡ free sb d' m =
            λ m. ap (λ (f : ℕ → ℕ). bit_clear (f (m / 8)) (m % 8)) bits in
          (
            (λ z. omega (arith, z, pos)),
            here,
            same,
            IsInode-extend sb h _ _ d d'' (13 + j) a q here same pos small was (as_before a ∙ is)
                (λ m ne l. as_before m ∙ rest m ne l),
            (λ m ne l. as_before m ∙ rest m ne l),
            λ full. absurd (full (slot_j d ∙ empty)),
          )

  -- At most one block is free.
  abbrev pub Scarce : Disk → Type 0
  Scarce d =
      (m n : ℕ)
      → 0 < m
      → m ≤ sb.size
      → free sb d m ≡ true
      → 0 < n
      → n ≤ sb.size
      → free sb d n ≡ true
      → m ≡ n

  -- What `bmap` gives: the block stands at its place, and again when asked again; whatever was there
  -- before stays, the other blocks of the contents are as they were, and the blocks are still
  -- different and taken.
  abbrev pub BmapPost : Addrs → Disk → ℕ → Outcome (Option (ℕ × Addrs × Disk)) → Type 0
  BmapPost addrs d bn panicked = Scarce d
  BmapPost addrs d bn (done none) = 268 ≤ bn
  BmapPost addrs d bn (done (some (a, addrs', d'))) =
      (bn < 268)
      × (a ≢ 0)
      × (slot addrs' d' (index bn) ≡ a)
      × ((k : ℕ) → k < 269 → slot addrs d k ≢ 0 → slot addrs' d' k ≡ slot addrs d k)
      × ((m : ℕ) → m < 268 → m ≢ bn → slot addrs' d' (index m) ≡ slot addrs d (index m))
      × IsInode sb (slot addrs' d') d'
      × (bmap sb addrs' d' bn ≡ done (some (a, addrs', d')))

  pub direct-again :
      (addrs : Addrs) (d : Disk) (i : ℕ)
      → addrs i ≢ 0
      → direct sb addrs d i ≡ done (addrs i, addrs, d)
  unfolding direct
  direct-again addrs d i ne = let full : (addrs i == 0) ≡ false = ground (arith, ne) in rw full refl

  pub indirect-again :
      (addrs : Addrs) (d : Disk) (b j : ℕ)
      → get32 (d b) j ≢ 0
      → indirect sb j (b, addrs, d) ≡ done (get32 (d b) j, addrs, d)
  unfolding indirect
  indirect-again addrs d b j ne =
      let full : (get32 (d b) j == 0) ≡ false = ground (arith, ne) in rw full refl

  pub bmap-direct :
      (addrs : Addrs) (d : Disk) (bn : ℕ)
      → bn < 12
      → bmap sb addrs d bn ≡ some_block (direct sb addrs d bn)
  unfolding bmap
  bmap-direct addrs d bn lt = let low : ltb bn 12 ≡ true = ground (arith, lt) in rw low refl

  pub bmap-indirect :
      (addrs : Addrs) (d : Disk) (bn : ℕ)
      → 12 ≤ bn
      → bn < 268
      → bmap sb addrs d bn ≡ some_block (direct sb addrs d 12 >>= indirect sb (bn - 12))
  unfolding bmap
  bmap-indirect addrs d bn le lt =
      let high : ltb bn 12 ≡ false = ground (arith, le) in
      let word : ltb (bn - 12) 256 ≡ true = ground (arith, le, lt) in rw (high, word) refl

  pub bmap-none : (addrs : Addrs) (d : Disk) (bn : ℕ) → 268 ≤ bn → bmap sb addrs d bn ≡ done none
  unfolding bmap
  bmap-none addrs d bn le =
      let high : ltb bn 12 ≡ false = ground (arith, le) in
      let word : ltb (bn - 12) 256 ≡ false = ground (arith, le) in rw (high, word) refl

  pub NoFree-Scarce : (d : Disk) → NoFree sb h d → Scarce d
  NoFree-Scarce d p m n pm lm fm pn ln fn =
      let clash : true ≡ false = sym fm ∙ p m pm lm in absurd (ground (arith, clash))

  -- The places that were filled stay, and those other than the new one.
  pub Filled-stays :
      (i : ℕ) (addrs addrs' : Addrs) (d d' : Disk) (a : ℕ)
      → Filled sb h i addrs d (done (a, addrs', d'))
      → (k : ℕ) → k < 269
      → slot addrs d k ≢ 0
      → slot addrs' d' k ≡ slot addrs d k
  Filled-stays i addrs addrs' d d' a (nz, here, same, q, rest, old) k l full =
      elim (Bool-cases (k == i)) [
        | inl e ↦
            let me : k ≡ i = ground (arith, e) in
            ap (slot addrs' d') me
            ∙ (here ∙ (old (λ z. full (ap (slot addrs d) me ∙ z)) ∙ ap (slot addrs d) (sym me)))
        | inr e ↦ same k l (λ z. ground (arith, e, z))
      ]

  pub low-BmapPost :
      (addrs : Addrs) (d : Disk) (bn : ℕ)
      → bn < 12
      → (o : Outcome (ℕ × Addrs × Disk)) → Filled sb h bn addrs d o
      → BmapPost addrs d bn (some_block o)
  low-BmapPost addrs d bn lt panicked p = NoFree-Scarce d p
  low-BmapPost addrs d bn lt (done (a, addrs', d')) f =
      let (nz, here, same, q, rest, old) = f in
      let low : ltb bn 12 ≡ true = ground (arith, lt) in
      let place : index bn ≡ bn = rw low refl in
      let stored : addrs' bn ≡ a = sym (slot-low addrs' d' bn (omega arith)) ∙ here in
      (
        omega (arith, lt),
        nz,
        ap (slot addrs' d') place ∙ here,
        Filled-stays bn addrs addrs' d d' a f,
        (λ m l ne. same (index m) (index_bound m l) (λ e. ne (index_inj m bn (e ∙ sym place)))),
        q,
        bmap-direct addrs' d' bn lt
            ∙ (ap some_block (direct-again addrs' d' bn (λ z. nz (sym stored ∙ z)))
                ∙ ap (λ (x : ℕ). done (some (x, addrs', d'))) stored),
      )
