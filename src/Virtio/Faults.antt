-- ===== src/Virtio/Faults.antt =====
-- What goes wrong with requests: descriptors given back by mistake, and a wait without an end.
use octox.Base.{
  ℕ, zero, suc, ◌<◌, ◌≡◌, refl, sym, ap, ◌∙◌, Bool, true, false, ◌==◌, ltb, if◌then◌else◌, arith,
  Option, none, some, inl, inr, Bool-cases, update, Outcome, done, panicked, ◌>>=◌,
}
use octox.Virtio.Defs.{
  Disk, num, u16_max, Ran, finished, panics, no_fuel, complete, intr_one, intr_loop, intr, put_back,
  free_desc, free_chain, take_desc, alloc3_desc, Alloc3, ok, err, give_up, free_below, format,
  publish, submit, waiting, finish,
}
use octox.Virtio.Alloc.{alloc_desc-cases}

-- A result that, if it is one, has the requests in flight `f`.
abbrev Keeps : (ℕ → Option ℕ) → Ran → Type 0
Keeps f (finished d) = d.info_buf ≡ f
Keeps f panics = Unit
Keeps f no_fuel = Unit

abbrev KeepsDone : (ℕ → Option ℕ) → Outcome Disk → Type 0
KeepsDone f (done d) = d.info_buf ≡ f
KeepsDone f panicked = Unit

module _ (f : ℕ → Option ℕ) where
  Keeps-if : (b : Bool) (x y : Ran) → Keeps f x → Keeps f y → Keeps f (if b then x else y)
  Keeps-if true x y h k = h
  Keeps-if false x y h k = k

  KeepsDone-if :
      (b : Bool) (x y : Outcome Disk)
      → KeepsDone f x
      → KeepsDone f y
      → KeepsDone f (if b then x else y)
  KeepsDone-if true x y h k = h
  KeepsDone-if false x y h k = k

  Keeps-next :
      (o : Outcome Disk) (next : Disk → Ran)
      → KeepsDone f o
      → ((d : Disk) → d.info_buf ≡ f → Keeps f (next d))
      → Keeps f (elim o [ done d ↦ next d | panicked ↦ panics ])
  Keeps-next (done d) next h k = k d h
  Keeps-next panicked next h k = tt

  KeepsDone-bind :
      (o : Outcome Disk) (next : Disk → Outcome Disk)
      → KeepsDone f o
      → ((d : Disk) → d.info_buf ≡ f → KeepsDone f (next d))
      → KeepsDone f (o >>= next)
  KeepsDone-bind (done d) next h k = k d h
  KeepsDone-bind panicked next h k = tt

  free_desc-KeepsDone : (i : ℕ) (d : Disk) → d.info_buf ≡ f → KeepsDone f (free_desc i d)
  unfolding free_desc
  free_desc-KeepsDone i d h = KeepsDone-if _ (done (put_back i d)) panicked h tt

  free_below-KeepsDone : (i : ℕ) (d : Disk) → d.info_buf ≡ f → KeepsDone f (free_below i d)
  unfolding free_below
  free_below-KeepsDone zero d h = h
  free_below-KeepsDone (suc i) d h =
      KeepsDone-bind (free_below i d) (free_desc i) (free_below-KeepsDone i d h)
        (free_desc-KeepsDone i)

  free_chain-Keeps : (k i : ℕ) (d : Disk) → d.info_buf ≡ f → Keeps f (free_chain k i d)
  unfolding free_chain
  free_chain-Keeps zero i d h = tt
  free_chain-Keeps (suc k) i d h = Keeps-next (free_desc i d) _ (free_desc-KeepsDone i d h) λ d' q.
      Keeps-if (d.desc i).chained _ (finished d') (free_chain-Keeps k (d.desc i).next d' q) q

  intr_one-KeepsDone : (id : ℕ) (d : Disk) → d.info_buf ≡ f → KeepsDone f (intr_one id d)
  unfolding intr_one
  intr_one-KeepsDone id d h = KeepsDone-if _ _ panicked (by_buf (d.info_buf id)) tt
    where
      by_buf :
          (o : Option ℕ)
          → KeepsDone f (elim o [
            | some b ↦ if ltb d.used_idx u16_max then done (complete b d) else panicked
            | none ↦ panicked
          ])
      by_buf (some b) = KeepsDone-if _ (done (complete b d)) panicked h tt
      by_buf none = tt

  intr_loop-Keeps : (k : ℕ) (d : Disk) → d.info_buf ≡ f → Keeps f (intr_loop k d)
  unfolding intr_loop
  intr_loop-Keeps zero d h = Keeps-if _ (finished d) no_fuel h tt
  intr_loop-Keeps (suc k) d h = elim (Bool-cases (d.used_idx == d.device_idx)) [
    | inl t ↦ rw (t, Keeps) h
    | inr t ↦
        rw (t, Keeps)
          (Keeps-next (intr_one _ d) (intr_loop k) (intr_one-KeepsDone _ d h) (intr_loop-Keeps k))
  ]

abbrev KeepsAlloc : (ℕ → Option ℕ) → Outcome (Alloc3 × Disk) → Type 0
KeepsAlloc f (done (r, d)) = d.info_buf ≡ f
KeepsAlloc f panicked = Unit

module _ (f : ℕ → Option ℕ) where
  give_up-KeepsAlloc : (i : ℕ) (d : Disk) → d.info_buf ≡ f → KeepsAlloc f (give_up i d)
  unfolding give_up
  give_up-KeepsAlloc i d h = failed (free_below i d) (free_below-KeepsDone f i d h)
    where
      failed : (o : Outcome Disk) → KeepsDone f o → KeepsAlloc f (o >>= λ d'. done (err, d'))
      failed (done d') k = k
      failed panicked k = tt

  alloc3_desc-KeepsAlloc : (d : Disk) → d.info_buf ≡ f → KeepsAlloc f (alloc3_desc d)
  unfolding alloc3_desc
  alloc3_desc-KeepsAlloc d h = elim (alloc_desc-cases d) [
    | inr (e, _) ↦ rw (e, alloc3_desc, KeepsAlloc) (give_up-KeepsAlloc 0 d h)
    | inl (i0, e0, _, _) ↦ elim (alloc_desc-cases (take_desc i0 d)) [
      | inr (e, _) ↦ rw (e0, e, alloc3_desc, KeepsAlloc) (give_up-KeepsAlloc 1 (take_desc i0 d) h)
      | inl (i1, e1, _, _) ↦ elim (alloc_desc-cases (take_desc i1 (take_desc i0 d))) [
        | inr (e, _) ↦
            rw (e0, e1, e, alloc3_desc, KeepsAlloc)
              (give_up-KeepsAlloc 2 (take_desc i1 (take_desc i0 d)) h)
        | inl (i2, e2, _, _) ↦ rw (e0, e1, e2, alloc3_desc, KeepsAlloc) h
      ]
    ]
  ]

-- What may happen between two looks of a waiting process: another request is submitted, or does not
-- get its descriptors; the device writes to its part; the interrupt handler runs; a process whose
-- wait for the request `i` is over finishes it.
pub data Step (d d' : Disk) : Type 0 where
  submits :
      {e : Disk} {i0 i1 i2 : ℕ} (write : Bool) (b blockno : ℕ)
      → alloc3_desc d ≡ done (ok i0 i1 i2, e)
      → submit write b blockno i0 i1 i2 e ≡ done d'
      → Step d d'
  fails : alloc3_desc d ≡ done (err, d') → Step d d'
  device :
      (idx : ℕ) (ring status : ℕ → ℕ)
      → d' ≡ record d { device_idx = idx; device_ring = ring; info_status = status }
      → Step d d'
  interrupts : intr d ≡ finished d' → Step d d'
  finishes : (i : ℕ) → waiting i d ≡ false → finish i d ≡ finished d' → Step d d'

pub data Reach (d : Disk) : Disk → Type 0 where
  start : Reach d d
  later : {e e' : Disk} → Reach d e → Step e e' → Reach d e'

submit-info :
    (d d' : Disk) (write : Bool) (b blockno i0 i1 i2 : ℕ)
    → submit write b blockno i0 i1 i2 d ≡ done d'
    → d'.info_buf ≡ update d.info_buf i0 (some b)
unfolding submit publish format
submit-info d d' write b blockno i0 i1 i2 e = published (ltb d.avail_idx u16_max) _ refl e
  where
    published :
        (c : Bool) (x : Disk)
        → x.info_buf ≡ update d.info_buf i0 (some b)
        → (if c then done x else panicked) ≡ done d'
        → d'.info_buf ≡ update d.info_buf i0 (some b)
    published true x h q =
        let same : x ≡ d' = ground arith in ap (λ (y : Disk). y.info_buf) (sym same) ∙ h
    published false x h q = absurd (ground arith)

finish-info :
    (d d' : Disk) (j : ℕ) → finish j d ≡ finished d' → d'.info_buf ≡ update d.info_buf j none
unfolding finish
finish-info d d' j e = taken (free_chain num j d) (free_chain-Keeps d.info_buf num j d refl) e
  where
    taken :
        (r : Ran)
        → Keeps d.info_buf r
        → elim r [
          | finished x ↦ finished (record x { info_buf = update x.info_buf j none })
          | panics ↦ panics
          | no_fuel ↦ no_fuel
        ]
          ≡ finished d'
        → d'.info_buf ≡ update d.info_buf j none
    taken (finished x) h q =
        let same : record x { info_buf = update x.info_buf j none } ≡ d' = ground arith in
        ap (λ (y : Disk). y.info_buf) (sym same) ∙ ap (λ f. update f j none) h
    taken panics h q = absurd (ground arith)
    taken no_fuel h q = absurd (ground arith)

module _ (i : ℕ) where
  abbrev Waits : Disk → Type 0
  Waits d = waiting i d ≡ true

  Waits-same : (d d' : Disk) → d'.info_buf ≡ d.info_buf → Waits d → Waits d'
  unfolding waiting
  Waits-same d d' e h = rw e h

  submit-Waits :
      (d d' : Disk) (b i0 : ℕ) → d'.info_buf ≡ update d.info_buf i0 (some b) → Waits d → Waits d'
  unfolding waiting
  submit-Waits d d' b i0 e h = elim (Bool-cases (i0 == i)) [
    | inl t ↦ rw (e, waiting, t) refl
    | inr t ↦ rw (e, waiting, t) h
  ]

  finish-Waits :
      (d d' : Disk) (j : ℕ)
      → waiting j d ≡ false
      → d'.info_buf ≡ update d.info_buf j none
      → Waits d
      → Waits d'
  unfolding waiting
  finish-Waits d d' j n e h = elim (Bool-cases (j == i)) [
    | inl t ↦
        let same : j ≡ i = ground arith in
        absurd (ground (arith, sym n ∙ (ap (λ k. waiting k d) same ∙ h)))
    | inr t ↦ rw (e, waiting, t) h
  ]

  Step-Waits : (d d' : Disk) → Step d d' → Waits d → Waits d'
  unfolding intr
  Step-Waits d d' (submits {e} {i0} {i1} {i2} write b blockno a s) h =
      submit-Waits e d' b i0 (submit-info e d' write b blockno i0 i1 i2 s)
        (Waits-same d e (rw (a, KeepsAlloc) at (alloc3_desc-KeepsAlloc d.info_buf d refl)) h)
  Step-Waits d d' (fails a) h =
      Waits-same d d' (rw (a, KeepsAlloc) at (alloc3_desc-KeepsAlloc d.info_buf d refl)) h
  Step-Waits d d' (device idx ring status e) h = Waits-same d d' (ap (λ (x : Disk). x.info_buf) e) h
  Step-Waits d d' (interrupts e) h =
      Waits-same d d' (rw (e, Keeps) at (intr_loop-Keeps d.info_buf (suc u16_max) d refl)) h
  Step-Waits d d' (finishes j n e) h = finish-Waits d d' j n (finish-info d d' j e) h

-- A process that waits in `rw` for the end of its request never stops waiting, whatever the device,
-- the interrupt handler and the other processes do: the handler gives the buffer back, but it does not
-- take it from the request, which is what the wait is for.
pub Reach-waiting : {d d' : Disk} (i : ℕ) → waiting i d ≡ true → Reach d d' → waiting i d' ≡ true
Reach-waiting i h start = h
Reach-waiting i h (later {e} {e'} r s) = Step-Waits i e e' s (Reach-waiting i h r)

-- Where one descriptor alone is free, and not the first, `alloc3_desc` fails and gives back
-- descriptor 0, which it did not take: 0 is free although a request may be using it, and the free
-- one has been lost.
alloc3-one :
    (d : Disk) (x : ℕ)
    → 0 < x
    → x < num
    → ((j : ℕ) → j < num → d.free j ≡ (x == j))
    → (d' : Disk) × (alloc3_desc d ≡ done (err, d')) × (d'.free 0 ≡ true) × (d'.free x ≡ false)
unfolding alloc3_desc give_up free_below free_desc
alloc3-one d x pos lt only = elim (alloc_desc-cases d) [
  | inr (_, none_free) ↦ absurd (ground (arith, none_free x lt, only x lt))
  | inl (i, e, b, f) ↦ elim (alloc_desc-cases (take_desc i d)) [
    | inl (k, _, bk, fk) ↦ absurd (ground (arith, f, fk, only i b, only k bk))
    | inr (e1, _) ↦
        let same : x ≡ i = ground (arith, f, only i b) in
        let zero_taken : (take_desc i d).free 0 ≡ false =
          ground (arith, only 0 (omega arith), pos) in
        (
          put_back 0 (take_desc i d),
          rw (e, e1, alloc3_desc) (ground (arith, zero_taken)),
          refl,
          ground (arith, same, pos),
        )
  ]
]
