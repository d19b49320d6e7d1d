-- ===== src/Virtio/Tests.antt =====
-- Runs of the disk driver, and the theorems at such inputs.
use octox.Base.{◌≡◌, refl, true, false, [], ◌==◌, none, some, update}
use octox.Virtio.Defs.{Disk, cleared, waiting}
use octox.Virtio.Faults.{Step, Reach, Reach-waiting}

abbrev idle : Disk
idle = record {
  desc = λ i. cleared;
  avail_idx = 0;
  avail_ring = λ i. 0;
  device_idx = 0;
  device_ring = λ i. 0;
  free = λ i. true;
  used_idx = 0;
  info_buf = λ i. none;
  info_status = λ i. 0;
  ops = λ i. record { out = false; reserved = 0; sector = 0 };
  owned = λ i. false;
  woken = [];
}

-- The device has completed the request that starts at descriptor 2.
abbrev busy : Disk
busy = record idle {
  device_idx = 1;
  device_ring = λ i. 2;
  info_buf = update (λ i. none) 2 (some 5);
  owned = update (λ i. false) 5 true;
  free = λ i. 4 == i;
}

busy_waits : waiting 2 busy ≡ true
unfolding waiting
busy_waits = refl

-- The device completes one more request, and the handler runs or not: the wait goes on.
abbrev busier : Disk
busier = record busy {
  device_idx = 2;
  device_ring = busy.device_ring;
  info_status = busy.info_status;
}

busy-Reach : Reach busy busier
busy-Reach = Reach.later Reach.start (Step.device 2 busy.device_ring busy.info_status refl)

Reach-waiting_example : waiting 2 busier ≡ true
Reach-waiting_example = Reach-waiting 2 busy_waits busy-Reach
