-- ===== src/Virtio/Chain.antt =====
-- The chain of a request: what `rw` formats is what it frees when the request is done.
use octox.Base.{
  ℕ, suc, ◌<◌, ◌%◌, ◌≡◌, ◌≢◌, refl, ap, ◌∙◌, Bool, true, false, ◌==◌, arith, none, inl, inr,
  Bool-cases, update, done,
}
use octox.Virtio.Defs.{
  Disk, num, VirtqDesc, desc_head, finished, free_desc, free_chain, put_back, format, publish,
  submit, finish, u16_max,
}
use octox.Virtio.Alloc.{Three, take3}

free_chain-more :
    (k i : ℕ) (d : Disk)
    → i < num
    → d.free i ≡ false
    → (d.desc i).chained ≡ true
    → free_chain (suc k) i d ≡ free_chain k (d.desc i).next (put_back i d)
unfolding free_chain free_desc
free_chain-more k i d b f c = ground (arith, b, f, c)

free_chain-last :
    (k i : ℕ) (d : Disk)
    → i < num
    → d.free i ≡ false
    → (d.desc i).chained ≡ false
    → free_chain (suc k) i d ≡ finished (put_back i d)
unfolding free_chain free_desc
free_chain-last k i d b f c = ground (arith, b, f, c)

-- The descriptors of a request are linked from the first to the third.
pub record Linked (d : Disk) (i0 i1 i2 : ℕ) : Type 0 where
  pub bounds : (i0 < num) × (i1 < num) × (i2 < num)
  pub taken : (d.free i0 ≡ false) × (d.free i1 ≡ false) × (d.free i2 ≡ false)
  pub apart : (i0 ≢ i1) × (i0 ≢ i2) × (i1 ≢ i2)
  pub head : d.desc i0 ≡ desc_head i0 i1
  pub body : ((d.desc i1).chained ≡ true) × ((d.desc i1).next ≡ i2)
  pub tail : (d.desc i2).chained ≡ false

abbrev pub put3 : (i0 i1 i2 : ℕ) → Disk → Disk
put3 i0 i1 i2 d = put_back i2 (put_back i1 (put_back i0 d))

module _ {d : Disk} {i0 i1 i2 : ℕ} (l : Linked d i0 i1 i2) where
  free_chain-Linked : free_chain num i0 d ≡ finished (put3 i0 i1 i2 d)
  free_chain-Linked =
      let head_next = ap (λ (v : VirtqDesc). v.next) l.head in
      let first =
        free_chain-more 7 i0 d l.bounds.0 l.taken.0 (ap (λ (v : VirtqDesc). v.chained) l.head) in
      let second =
        free_chain-more 6 i1 (put_back i0 d) l.bounds.1 (ground (arith, l.taken.1, l.apart.0))
          (ground (arith, l.body.0, l.apart.0)) in
      let third =
        free_chain-last 5 i2 (put_back i1 (put_back i0 d)) l.bounds.2
          (ground (arith, l.taken.2, l.apart.1, l.apart.2))
          (ground (arith, l.tail, l.apart.1, l.apart.2)) in
      let body_next : ((put_back i0 d).desc i1).next ≡ i2 = ground (arith, l.body.1, l.apart.0) in
      first
      ∙ ap (λ j. free_chain 7 j (put_back i0 d)) head_next
      ∙ second
      ∙ ap (λ j. free_chain 6 j (put_back i1 (put_back i0 d))) body_next
      ∙ third

  finish-Linked :
      (e : Disk) × (finish i0 d ≡ finished e)
      × ((j : ℕ) → e.free j ≡ (put3 i0 i1 i2 d).free j)
      × (e.info_buf i0 ≡ none)
  unfolding finish
  finish-Linked = (
    record (put3 i0 i1 i2 d) { info_buf = update d.info_buf i0 none },
    rw (free_chain-Linked, finish),
    λ j. refl,
    ground arith,
  )

module _ {d : Disk} {i0 i1 i2 : ℕ} (write : Bool) (b blockno : ℕ) (t : Three d i0 i1 i2) where
  abbrev formatted : Disk
  formatted = format write b blockno i0 i1 i2 (take3 i0 i1 i2 d)

  format-Linked : Linked formatted i0 i1 i2
  unfolding format
  format-Linked = record {
    bounds = t.bounds;
    taken = (ground arith, ground arith, ground arith);
    apart = t.apart;
    head = ground (arith, t.apart.0, t.apart.1);
    body = (ground (arith, t.apart.2), ground (arith, t.apart.2));
    tail = ground arith;
  }

  abbrev published : Disk
  published = record formatted {
    avail_ring = update d.avail_ring (d.avail_idx % num) i0;
    avail_idx = suc d.avail_idx;
  }

  submit-published :
      d.avail_idx < u16_max → submit write b blockno i0 i1 i2 (take3 i0 i1 i2 d) ≡ done published
  unfolding submit publish format
  submit-published h = ground (arith, h)

  published-Linked : Linked published i0 i1 i2
  unfolding format
  published-Linked =
      let l = format-Linked in
      record {
        bounds = l.bounds;
        taken = l.taken;
        apart = l.apart;
        head = l.head;
        body = l.body;
        tail = l.tail;
      }

  put3-free : (j : ℕ) → (put3 i0 i1 i2 published).free j ≡ d.free j
  unfolding format
  put3-free j = elim (Bool-cases (i0 == j)) [
    | inl q ↦ let same : i0 ≡ j = ground arith in ground (arith, t.were_free.0, ap d.free same)
    | inr q ↦ elim (Bool-cases (i1 == j)) [
      | inl r ↦ let same : i1 ≡ j = ground arith in ground (arith, t.were_free.1, ap d.free same)
      | inr r ↦ elim (Bool-cases (i2 == j)) [
        | inl u ↦ let same : i2 ≡ j = ground arith in ground (arith, t.were_free.2, ap d.free same)
        | inr u ↦ ground (arith, q, r, u)
      ]
    ]
  ]

-- A request that was given three different free descriptors is submitted while the 16-bit index has
-- room; and were its wait over at once, the descriptors that `finish` frees, from the first on along the chain, are these
-- three: the loop ends, nothing panics, and exactly what was free before is free again.
finish-submit :
    {d : Disk} {i0 i1 i2 : ℕ} (write : Bool) (b blockno : ℕ)
    → Three d i0 i1 i2
    → d.avail_idx < u16_max
    → (d' : Disk) × (submit write b blockno i0 i1 i2 (take3 i0 i1 i2 d) ≡ done d')
      × ((e : Disk) × (finish i0 d' ≡ finished e)
          × ((j : ℕ) → e.free j ≡ d.free j)
          × (e.info_buf i0 ≡ none))
finish-submit write b blockno t h =
    let (e, f, same, gone) = finish-Linked (published-Linked write b blockno t) in
    (
      published write b blockno t,
      submit-published write b blockno t h,
      (e, f, (λ j. same j ∙ put3-free write b blockno t j), gone),
    )
