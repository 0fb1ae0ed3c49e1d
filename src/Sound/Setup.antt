-- ===== src/Sound/Setup.antt =====
-- kernel/drivers/virtio.c: virtio_sound_init.
use capstone_myos.Prelude.{ℕ, Bool, true, false, ◌==◌, if◌then◌else◌, bit_and, bit_or}
use capstone_myos.Pmm.{Pmm, alloc_frame}
use capstone_myos.Sound.{Queue, Desc}

-- The registers of virtio_pci_common_cfg_t that the driver uses.
pub data Register : Type 0 where
  device_feature_select device_feature driver_feature_select driver_feature num_queues device_status
        queue_select queue_size queue_enable queue_notify_off queue_desc_low queue_avail_low
        queue_used_low :
      Register

abbrev pub Regs : Type 0
Regs = Register → ℕ

abbrev pub status_acknowledge : ℕ
status_acknowledge = 1

abbrev pub status_driver : ℕ
status_driver = 2

abbrev pub status_driver_ok : ℕ
status_driver_ok = 4

abbrev pub status_features_ok : ℕ
status_features_ok = 8

abbrev pub status_failed : ℕ
status_failed = 128

-- The rings that stand in three frames.
pub record Rings : Type 0 where
  pub desc_table : ℕ → Desc
  pub avail_idx : ℕ
  pub avail_ring : ℕ → ℕ

-- The ways out of the initialisation.
pub data InitResult : Type 0 where
  rejected no_control_queue live : InitResult

pub record Driver : Type 0 where
  pub regs : Regs
  pub pmm : Pmm
  pub queue0 : Queue
  pub queue2 : Queue

-- `react` is the device, and `found` what the memory at the frames of a queue holds.
module _ (react : Register → ℕ → Regs → Regs) (found : ℕ → ℕ → ℕ → Rings) where
  -- `device_status |= bit`.
  unfoldable pub set_status : ℕ → Regs → Regs
  set_status bit regs = react device_status (bit_or (regs device_status) bit) regs

  unfoldable pub begin_init : Regs → Regs
  begin_init regs =
      react device_feature_select 1
        (set_status status_driver (set_status status_acknowledge (react device_status 0 regs)))

  -- Whether the device still has the features, and the registers.
  unfoldable pub negotiate : Regs → Bool × Regs
  negotiate regs =
      let modern =
        set_status status_features_ok
          (react driver_feature 1 (react driver_feature_select 1 regs)) in
      if bit_and (regs device_feature) 1 == 0
      then (true, react driver_feature 0 (react driver_feature_select 0 regs))
      else if bit_and (modern device_status) status_features_ok == 0
      then (false, set_status status_failed modern)
      else (true, modern)

  -- Three frames, the queue over them, and the registers that tell the device.
  unfoldable pub make_queue : ℕ → Regs → Pmm → Queue × Regs × Pmm
  make_queue size regs p =
      let (desc, p1) = alloc_frame p in
      let (avail, p2) = alloc_frame p1 in
      let (used, p3) = alloc_frame p2 in
      let rings = found desc avail used in
      (
        record {
          desc_table = rings.desc_table;
          avail_idx = rings.avail_idx;
          avail_ring = rings.avail_ring;
          size = size;
          last_used_idx = 0;
          next_avail_idx = 0;
        },
        react queue_enable 1 (
            react queue_used_low used
              (react queue_avail_low avail (react queue_desc_low desc regs))),
        p3,
      )

  unfoldable pub make_queues : Driver → InitResult × Driver
  make_queues d =
      let r0 = react queue_select 0 d.regs in
      let (queue0, r1, p1) = make_queue (r0 queue_size) r0 d.pmm in
      let r2 = react queue_select 2 r1 in
      let (queue2, r3, p2) = make_queue (r2 queue_size) r2 p1 in
      if r0 queue_size == 0 then (no_control_queue, record d { regs = r0 }) else (
        live,
        record {
          regs = set_status status_driver_ok r3;
          pmm = p2;
          queue0 = queue0;
          queue2 = queue2;
        },
      )

  -- virtio_sound_init, without the mapping of the DMA buffer and the text.
  unfoldable pub virtio_sound_init : Driver → InitResult × Driver
  virtio_sound_init d =
      let (accepted, regs) = negotiate (begin_init d.regs) in
      if accepted
      then make_queues (record d { regs = regs })
      else (rejected, record d { regs = regs })
