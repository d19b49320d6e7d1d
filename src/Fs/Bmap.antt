-- ===== src/Fs/Bmap.antt =====
-- kernel/fs.rs: IData::bmap keeps the blocks of an inode apart.
use octox.Base.{
  ℕ, suc, ◌-◌, ◌<◌, ◌≤◌, ◌≡◌, ◌≢◌, refl, sym, ap, subst, ◌∙◌, true, false, ◌==◌, ltb, leb,
  if◌then◌else◌, arith, inl, inr, update, Bool-cases, Outcome, done, panicked,
}
use octox.Fs.Defs.{SuperBlock, Disk, Addrs, bblock, get32, balloc, in_addrs, direct}
use octox.Fs.Bits.{get32-zero}
use octox.Fs.Balloc.{free, Alloced, balloc-Alloced, size-bblock}

-- The block numbers of an inode: 12 direct ones, the indirect block, and the words of it.
abbrev pub slot : Addrs → Disk → ℕ → ℕ
slot addrs d k =
    if leb k 12 then addrs k else if addrs 12 == 0 then 0 else get32 (d (addrs 12)) (k - 13)

-- The place of block `bn` of the contents.
abbrev pub index : ℕ → ℕ
index bn = if ltb bn 12 then bn else suc bn

-- The blocks of an inode are taken, on the disk and different.
pub record IsInode (sb : SuperBlock) (at : ℕ → ℕ) (d : Disk) : Type 0 where
  pub taken : (k : ℕ) → k < 269 → at k ≢ 0 → free sb d (at k) ≡ false
  pub small : (k : ℕ) → k < 269 → at k ≤ sb.size
  pub apart : (k j : ℕ) → k < 269 → j < 269 → k ≢ j → at k ≢ 0 → at k ≢ at j

pub slot-low : (addrs : Addrs) (d : Disk) (k : ℕ) → k ≤ 12 → slot addrs d k ≡ addrs k
slot-low addrs d k le = let low : leb k 12 ≡ true = ground (arith, le) in rw low refl

slot-none : (addrs : Addrs) (d : Disk) (k : ℕ) → 12 < k → addrs 12 ≡ 0 → slot addrs d k ≡ 0
slot-none addrs d k lt e =
    let high : leb k 12 ≡ false = ground (arith, lt) in
    let empty : (addrs 12 == 0) ≡ true = ground (arith, e) in rw (high, empty) refl

pub slot-word :
    (addrs : Addrs) (d : Disk) (k : ℕ)
    → 12 < k
    → addrs 12 ≢ 0
    → slot addrs d k ≡ get32 (d (addrs 12)) (k - 13)
slot-word addrs d k lt ne =
    let high : leb k 12 ≡ false = ground (arith, lt) in
    let full : (addrs 12 == 0) ≡ false = ground (arith, ne) in rw (high, full) refl

pub update_self : (f : ℕ → ℕ) (i a : ℕ) → update f i a i ≡ a
update_self f i a = let self : (i == i) ≡ true = ground arith in rw self refl

pub update_else : (f : ℕ → ℕ) (i a k : ℕ) → i ≢ k → update f i a k ≡ f k
update_else f i a k ne = let other : (i == k) ≡ false = ground (arith, ne) in rw other refl

module _ (sb : SuperBlock) (h : sb.size < 8192) where
  -- A place that was empty gets a block that was free.
  pub IsInode-extend :
      (at at' : ℕ → ℕ) (d d' : Disk) (i a : ℕ)
      → IsInode sb at d
      → at' i ≡ a
      → ((k : ℕ) → k < 269 → k ≢ i → at' k ≡ at k)
      → 0 < a
      → a ≤ sb.size
      → free sb d a ≡ true
      → free sb d' a ≡ false
      → ((m : ℕ) → m ≢ a → m < 8192 → free sb d' m ≡ free sb d m)
      → IsInode sb at' d'
  IsInode-extend at at' d d' i a q here others pos le was is rest = record {
    taken = λ k l ne. elim (Bool-cases (k == i)) [
      | inl e ↦ let me : k ≡ i = ground (arith, e) in ap (λ m. free sb d' m) (ap at' me ∙ here) ∙ is
      | inr e ↦
          let other : k ≢ i = λ z. ground (arith, e, z) in
          let same = others k l other in
          let nz : at k ≢ 0 = λ z. ne (same ∙ z) in
          ap (λ m. free sb d' m) same
          ∙ (rest (at k) (fresh k l nz) (omega (arith, q.small k l, h)) ∙ q.taken k l nz)
    ];
    small = λ k l. elim (Bool-cases (k == i)) [
      | inl e ↦
          let me : k ≡ i = ground (arith, e) in subst (λ m. m ≤ sb.size) (sym (ap at' me ∙ here)) le
      | inr e ↦
          subst (λ m. m ≤ sb.size) (sym (others k l (λ z. ground (arith, e, z)))) (q.small k l)
    ];
    apart = λ k j lk lj ne nz same. elim (Bool-cases (k == i)) [
      | inl e ↦
          let me : k ≡ i = ground (arith, e) in
          let oj = others j lj (λ z. ne (me ∙ sym z)) in
          let new : at j ≡ a = sym oj ∙ (sym same ∙ (ap at' me ∙ here)) in
          fresh j lj (λ z. omega (arith, z, new, pos)) new
      | inr e ↦
          let ok = others k lk (λ z. ground (arith, e, z)) in
          elim (Bool-cases (j == i)) [
            | inl f ↦
                let me : j ≡ i = ground (arith, f) in
                fresh k lk (λ z. nz (ok ∙ z)) (sym ok ∙ (same ∙ (ap at' me ∙ here)))
            | inr f ↦
                q.apart k j lk lj ne (λ z. nz (ok ∙ z))
                  (sym ok ∙ (same ∙ others j lj (λ z. ground (arith, f, z))))
          ]
    ];
  }
    where
      fresh : (k : ℕ) → k < 269 → at k ≢ 0 → at k ≢ a
      fresh k l nz e =
          let clash : true ≡ false = sym was ∙ (ap (λ m. free sb d m) (sym e) ∙ q.taken k l nz) in
          ground (arith, clash)

  -- No block is free.
  abbrev pub NoFree : Disk → Type 0
  NoFree d = (m : ℕ) → 0 < m → m ≤ sb.size → free sb d m ≡ false

  -- A block at the place `i`, the other places as before.
  abbrev pub Filled : ℕ → Addrs → Disk → Outcome (ℕ × Addrs × Disk) → Type 0
  Filled i addrs d panicked = NoFree d
  Filled i addrs d (done (a, addrs', d')) =
      (a ≢ 0)
      × (slot addrs' d' i ≡ a)
      × ((k : ℕ) → k < 269 → k ≢ i → slot addrs' d' k ≡ slot addrs d k)
      × IsInode sb (slot addrs' d') d'
      × ((m : ℕ) → m ≢ a → m < 8192 → free sb d' m ≡ free sb d m)
      × (slot addrs d i ≢ 0 → a ≡ slot addrs d i)

  pub direct-Filled :
      (addrs : Addrs) (d : Disk) (i : ℕ)
      → i ≤ 12
      → IsInode sb (slot addrs d) d
      → Filled i addrs d (direct sb addrs d i)
  unfolding direct
  direct-Filled addrs d i le q = elim (Bool-cases (addrs i == 0)) [
    | inl e ↦ rw (e, Filled) (by_alloc (ground (arith, e)) (balloc sb d) (balloc-Alloced sb d h))
    | inr e ↦
        rw (e, Filled)
          (
            (λ z. ground (arith, e, z)),
            slot-low addrs d i le,
            (λ k l ne. refl),
            q,
            (λ m ne l. refl),
            λ full. sym (slot-low addrs d i le),
          )
  ]
    where
      -- The words of the indirect block are as before; a new one has none.
      words :
          (a : ℕ) (d' : Disk)
          → addrs i ≡ 0
          → a ≢ 0
          → free sb d a ≡ true
          → d' a ≡ (λ i. 0)
          → ((b : ℕ) → b ≢ a → b ≢ bblock sb 0 → d' b ≡ d b)
          → (k : ℕ) → 12 < k
          → slot (update addrs i a) d' k ≡ slot addrs d k
      words a d' empty nz was zeroed others k lt = elim (Bool-cases (i == 12)) [
        | inl e ↦
            let last : i ≡ 12 = ground (arith, e) in
            let here : update addrs i a 12 ≡ a =
              ap (update addrs i a) (sym last) ∙ update_self addrs i a in
            slot-word (update addrs i a) d' k lt (λ z. nz (sym here ∙ z))
            ∙ (ap (λ b. get32 (d' b) (k - 13)) here
                ∙ (ap (λ f. get32 f (k - 13)) zeroed
                    ∙ (get32-zero (k - 13)
                        ∙ sym (slot-none addrs d k lt (ap addrs (sym last) ∙ empty)))))
        | inr e ↦
            let same : update addrs i a 12 ≡ addrs 12 =
              update_else addrs i a 12 (λ z. ground (arith, e, z)) in
            elim (Bool-cases (addrs 12 == 0)) [
              | inl z ↦
                  let none_yet : addrs 12 ≡ 0 = ground (arith, z) in
                  slot-none (update addrs i a) d' k lt (same ∙ none_yet)
                  ∙ sym (slot-none addrs d k lt none_yet)
              | inr z ↦
                  let nz12 : addrs 12 ≢ 0 = λ w. ground (arith, z, w) in
                  let block = slot-low addrs d 12 (omega arith) in
                  let old : addrs 12 ≢ a = λ w.
                    (let clash : true ≡ false =
                        sym was
                        ∙ (ap (free sb d) (sym w ∙ sym block)
                            ∙ q.taken 12 (omega arith) (λ v. nz12 (sym block ∙ v))) in
                      ground (arith, clash)) in
                  let low : addrs 12 ≤ sb.size =
                    subst (λ m. m ≤ sb.size) block (q.small 12 (omega arith)) in
                  let bm = size-bblock sb 0 h in
                  let off_map : addrs 12 ≢ bblock sb 0 = λ w. omega (arith, w, low, bm) in
                  slot-word (update addrs i a) d' k lt (λ w. nz12 (sym same ∙ w))
                  ∙ (ap (λ b. get32 (d' b) (k - 13)) same
                      ∙ (ap (λ f. get32 f (k - 13)) (others (addrs 12) old off_map)
                          ∙ sym (slot-word addrs d k lt nz12)))
            ]
      ]

      by_alloc :
          addrs i ≡ 0
          → (o : Outcome (ℕ × Disk)) → Alloced sb d o
          → Filled i addrs d (in_addrs addrs i o)
      by_alloc empty panicked p = p
      by_alloc empty (done (a, d')) (pos, small, was, is, rest, zeroed, others) =
          let nz : a ≢ 0 = λ z. omega (arith, z, pos) in
          let here = slot-low (update addrs i a) d' i le ∙ update_self addrs i a in
          let same : (k : ℕ) → k < 269 → k ≢ i → slot (update addrs i a) d' k ≡ slot addrs d k =
            λ k l ne. elim (Bool-cases (leb k 12)) [
              | inl e ↦
                  let low : k ≤ 12 = ground (arith, e) in
                  slot-low (update addrs i a) d' k low
                  ∙ (update_else addrs i a k (λ z. ne (sym z)) ∙ sym (slot-low addrs d k low))
              | inr e ↦ words a d' empty nz was zeroed others k (ground (arith, e))
            ] in
          (
            nz,
            here,
            same,
            IsInode-extend _ _ d d' i a q here same pos small was is rest,
            rest,
            λ full. absurd (full (slot-low addrs d i le ∙ empty)),
          )
