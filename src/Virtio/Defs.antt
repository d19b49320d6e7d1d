-- ===== src/Virtio/Defs.antt =====
-- kernel/virtio_disk.rs: the state of the driver and its operations under the lock of `DISK`. An
-- address in a descriptor is what it points to; a buffer is a number, and `owned` holds the `disk`
-- flags of the buffers. Registers of the device and memory fences are left out; what the device
-- writes (the used ring and the status bytes) is part of the state and changed by it at any time.
use octox.Base.{
  ℕ, zero, suc, ◌*◌, ◌%◌, Bool, true, false, not, ◌&&◌, List, ◌∷◌, ◌==◌, ltb, if◌then◌else◌, Option,
  none, some, update, Outcome, done, panicked, ◌>>=◌,
}

abbrev pub num : ℕ
num = 8

abbrev pub u16_max : ℕ
u16_max = 65535

abbrev pub bsize : ℕ
bsize = 1024

pub data Addr : Type 0 where
  null : Addr
  op : ℕ → Addr
  data_of : ℕ → Addr
  status_of : ℕ → Addr

-- VirtqDesc; its flags are the bits NEXT and WRITE.
pub record VirtqDesc : Type 0 where
  pub addr : Addr
  pub len : ℕ
  pub chained : Bool
  pub writable : Bool
  pub next : ℕ

-- VirtioBlkReq
pub record VirtioBlkReq : Type 0 where
  pub out : Bool
  pub reserved : ℕ
  pub sector : ℕ

-- What a process may sleep on: the free list, or the address of a variable of `rw` or of `intr`.
pub data Channel : Type 0 where
  free_list : Channel
  local : Channel

-- struct Disk
pub record Disk : Type 0 where
  pub desc : ℕ → VirtqDesc
  pub avail_idx : ℕ
  pub avail_ring : ℕ → ℕ
  pub device_idx : ℕ
  pub device_ring : ℕ → ℕ
  pub free : ℕ → Bool
  pub used_idx : ℕ
  pub info_buf : ℕ → Option ℕ
  pub info_status : ℕ → ℕ
  pub ops : ℕ → VirtioBlkReq
  pub owned : ℕ → Bool
  pub woken : List Channel

-- The first free descriptor of `k` from `i` on.
unfoldable pub first_free : (k i : ℕ) → (ℕ → Bool) → Option ℕ
first_free zero i f = none
first_free (suc k) i f = let rest = first_free k (suc i) f in if f i then some i else rest

abbrev pub take_desc : ℕ → Disk → Disk
take_desc i d = record d { free = update d.free i false }

unfoldable pub alloc_desc : Disk → Option (ℕ × Disk)
alloc_desc d = elim (first_free num 0 d.free) [ some i ↦ some (i, take_desc i d) | none ↦ none ]

abbrev pub cleared : VirtqDesc
cleared = record { addr = null; len = 0; chained = false; writable = false; next = 0 }

abbrev pub put_back : ℕ → Disk → Disk
put_back i d = record d {
  desc = update d.desc i cleared;
  free = update d.free i true;
  woken = free_list ∷ d.woken;
}

unfoldable pub free_desc : ℕ → Disk → Outcome Disk
free_desc i d = if ltb i num && not (d.free i) then done (put_back i d) else panicked

-- A loop comes to an end, panics, or is stopped for want of fuel.
pub data Ran : Type 0 where
  finished : Disk → Ran
  panics : Ran
  no_fuel : Ran

unfoldable pub free_chain : ℕ → ℕ → Disk → Ran
free_chain zero i d = no_fuel
free_chain (suc k) i d = elim (free_desc i d) [
  | done d' ↦ if (d.desc i).chained then free_chain k (d.desc i).next d' else finished d'
  | panicked ↦ panics
]

-- `for j in 0..i { self.free_desc(j) }`
unfoldable pub free_below : ℕ → Disk → Outcome Disk
free_below zero d = done d
free_below (suc i) d = free_below i d >>= free_desc i

-- What `alloc3_desc` returns.
pub data Alloc3 : Type 0 where
  ok : (i0 i1 i2 : ℕ) → Alloc3
  err : Alloc3

unfoldable pub give_up : ℕ → Disk → Outcome (Alloc3 × Disk)
give_up i d = free_below i d >>= λ d'. done (err, d')

unfoldable pub alloc3_desc : Disk → Outcome (Alloc3 × Disk)
alloc3_desc d = elim (alloc_desc d) [
  | none ↦ give_up 0 d
  | some (i0, d0) ↦ elim (alloc_desc d0) [
    | none ↦ give_up 1 d0
    | some (i1, d1) ↦ elim (alloc_desc d1) [
      | none ↦ give_up 2 d1
      | some (i2, d2) ↦ done (ok i0 i1 i2, d2)
    ]
  ]
]

-- The three descriptors of a request.
abbrev pub desc_head : (i0 i1 : ℕ) → VirtqDesc
desc_head i0 i1 = record { addr = op i0; len = 16; chained = true; writable = false; next = i1 }

abbrev pub desc_body : Bool → (b i2 : ℕ) → VirtqDesc
desc_body write b i2 = record {
  addr = data_of b;
  len = bsize;
  chained = true;
  writable = not write;
  next = i2;
}

abbrev pub desc_tail : ℕ → VirtqDesc
desc_tail i0 = record { addr = status_of i0; len = 1; chained = false; writable = true; next = 0 }

-- `rw` formats the request.
unfoldable pub format : Bool → (b blockno i0 i1 i2 : ℕ) → Disk → Disk
format write b blockno i0 i1 i2 d = record d {
  ops = update d.ops i0 (record { out = write; reserved = 0; sector = blockno * 2 });
  desc =
      update (update (update d.desc i0 (desc_head i0 i1)) i1 (desc_body write b i2)) i2
        (desc_tail i0);
  info_status = update d.info_status i0 255;
  owned = update d.owned b true;
  info_buf = update d.info_buf i0 (some b);
}

-- `rw` hands the chain to the device; the index is 16 bits wide and its overflow panics.
unfoldable pub publish : ℕ → Disk → Outcome Disk
publish i0 d =
    if ltb d.avail_idx u16_max
    then done (record d {
      avail_ring = update d.avail_ring (d.avail_idx % num) i0;
      avail_idx = suc d.avail_idx;
    })
    else panicked

-- `rw` up to its wait, once it has three descriptors.
unfoldable pub submit : Bool → (b blockno i0 i1 i2 : ℕ) → Disk → Outcome Disk
submit write b blockno i0 i1 i2 d = publish i0 (format write b blockno i0 i1 i2 d)

-- The test of the wait of `rw`: it goes on sleeping.
unfoldable pub waiting : ℕ → Disk → Bool
waiting i0 d = elim (d.info_buf i0) [ some b ↦ true | none ↦ false ]

-- `rw` after its wait: the chain is freed and the buffer is taken. The guard of the wait is no part of it: a
-- run gets here only from a state in which `waiting` is false, as the steps of Virtio.Faults say.
unfoldable pub finish : ℕ → Disk → Ran
finish i0 d = elim (free_chain num i0 d) [
  | finished d' ↦ finished (record d' { info_buf = update d'.info_buf i0 none })
  | panics ↦ panics
  | no_fuel ↦ no_fuel
]

-- The disk is done with the buffer `b`.
abbrev pub complete : ℕ → Disk → Disk
complete b d = record d {
  owned = update d.owned b false;
  woken = local ∷ d.woken;
  used_idx = suc d.used_idx;
}

-- One round of the loop of `intr`, for the entry `id` of the used ring.
unfoldable pub intr_one : ℕ → Disk → Outcome Disk
intr_one id d =
    if ltb id num && (d.info_status id == 0)
    then elim (d.info_buf id) [
      | some b ↦ if ltb d.used_idx u16_max then done (complete b d) else panicked
      | none ↦ panicked
    ]
    else panicked

unfoldable pub intr_loop : ℕ → Disk → Ran
intr_loop zero d = if d.used_idx == d.device_idx then finished d else no_fuel
intr_loop (suc k) d = elim (d.used_idx == d.device_idx) [
  | true ↦ finished d
  | false ↦ elim (intr_one (d.device_ring (d.used_idx % num)) d) [
    | done d' ↦ intr_loop k d'
    | panicked ↦ panics
  ]
]

-- `intr`; an index of 16 bits takes at most so many rounds.
unfoldable pub intr : Disk → Ran
intr d = intr_loop (suc u16_max) d
