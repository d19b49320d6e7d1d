-- ===== src/Virtio/Intr.antt =====
-- `intr`: the requests that the device has completed.
use octox.Base.{ℕ, ◌≤◌, ◌<◌, ◌%◌, ◌≡◌, false, some}
use octox.Virtio.Defs.{Disk, num, finished, intr_loop}

abbrev pub entry : Disk → ℕ → ℕ
entry d k = d.device_ring (k % num)

-- Entry `k` of the used ring names a request that was submitted and that succeeded.
pub record IsServed (d : Disk) (k : ℕ) : Type 0 where
  pub bound : entry d k < num
  pub ok : d.info_status (entry d k) ≡ 0
  pub buf : ℕ
  pub held : d.info_buf (entry d k) ≡ some buf

-- The outcome of the handler: every entry has been handled, the buffers are given back by the disk.
pub record Handled (d d' : Disk) : Type 0 where
  pub caught_up : d'.used_idx ≡ d.device_idx
  pub infos : d'.info_buf ≡ d.info_buf
  pub frees : d'.free ≡ d.free
  pub given_back :
      (k b : ℕ)
      → d.used_idx ≤ k
      → k < d.device_idx
      → d.info_buf (entry d k) ≡ some b
      → d'.owned b ≡ false
  pub no_more : (b : ℕ) → d.owned b ≡ false → d'.owned b ≡ false

abbrev AllServed : Disk → Type 0
AllServed d = (k : ℕ) → d.used_idx ≤ k → k < d.device_idx → IsServed d k

abbrev Result : ℕ → Disk → Type 0
Result n d = (d' : Disk) × (intr_loop n d ≡ finished d') × Handled d d'
