-- ===== src/Virtio.antt =====
-- kernel/graph/drivers/virtio_gpu_pci/virtio_gpu_pci_driver.c: the state of the driver, and how it
-- puts a command into the queue and waits for the device. The registers of the device, the rings
-- and the commands lie in one memory of bytes. The device is an argument: the function `react` says
-- what it does to its own state and to the memory before the driver looks at what the device may
-- have written. The messages are left out.
use craybond_os.Base.{
  ℕ, zero, suc, ◌+◌, ◌*◌, ◌%◌, ◌^◌, Bool, true, false, ◌==◌, if◌then◌else◌, u8, u16, u32,
}
use craybond_os.Outcome.{Outcome, done, out_of_fuel, ◌>>=◌}
use craybond_os.Alloc.{Heap}
use craybond_os.Pci.{Pci}
use craybond_os.Mem.{Memory, read16, read64, write16, write32, write64}
pub mod Command
pub mod Setup
pub mod Queue
pub mod Wait
pub mod Display
pub mod Capabilities
mod Tests

-- The globals of the driver, those of the allocator and of the PCI bus, the memory and the device.
pub record Vgp (D : Type 0) : Type 0 where
  pub mem : Memory
  pub device : D
  pub heap : Heap
  pub pci : Pci
  pub common_cfg : ℕ
  pub notify_cfg : ℕ
  pub device_cfg : ℕ
  pub isr_cfg : ℕ
  pub notify_off_multiplier : ℕ
  pub display_width : ℕ
  pub display_height : ℕ
  pub framebuffer_memory : ℕ
  pub scanout_id : ℕ
  pub scanout_found : Bool
  pub default_width : ℕ
  pub default_height : ℕ
  pub virtqueue_base : ℕ
  pub virtqueue_avail : ℕ
  pub virtqueue_used : ℕ
  pub virtqueue_cmd : ℕ
  pub virtqueue_resp : ℕ
  pub virtqueue_disp_info : ℕ

-- `virtq_desc`: 16 bytes.
unfoldable pub write_desc : (desc addr len flags next : ℕ) → Memory → Memory
write_desc desc addr len flags next mem =
    write16 (desc + 14) next
      (write16 (desc + 12) flags (write32 (desc + 8) len (write64 desc addr mem)))

-- `virtq_avail`: the index at 2, the ring of 128 numbers at 4.
unfoldable pub push_avail : (avail : ℕ) → Memory → Memory
push_avail avail mem =
    let idx = read16 (avail + 2) mem in
    write16 (avail + 2) (idx + 1) (write16 (avail + 4 + 2 * (idx % 128)) 0 mem)

-- A command for the device, and where its answer goes.
pub record Request : Type 0 where
  pub cmd_addr : ℕ
  pub cmd_size : ℕ
  pub resp_addr : ℕ
  pub resp_size : ℕ
  pub flags : ℕ

-- The queue's registers, in the common configuration.
abbrev pub desc_of : {D : Type 0} → Vgp D → ℕ
desc_of s = read64 (s.common_cfg + 32) s.mem

abbrev pub avail_of : {D : Type 0} → Vgp D → ℕ
avail_of s = read64 (s.common_cfg + 40) s.mem

abbrev pub used_of : {D : Type 0} → Vgp D → ℕ
used_of s = read64 (s.common_cfg + 48) s.mem

-- The memory with the two descriptors and the new entry of the available ring.
unfoldable pub publish : {D : Type 0} → Request → Vgp D → Memory
unfolding write_desc push_avail
publish r s =
    let desc = desc_of s in
    let first = write_desc desc r.cmd_addr r.cmd_size (u8 r.flags) 1 s.mem in
    let second = write_desc (desc + 16) r.resp_addr r.resp_size 2 0 first in
    push_avail (avail_of s) second

module _ {D : Type 0} (react : D → Memory → D × Memory) where
  -- The device has its turn.
  unfoldable pub turn : Vgp D → Vgp D
  turn s = let (d, m) = react s.device s.mem in record s { device = d; mem = m }

  -- `while (last_used_idx == used->idx);`
  unfoldable pub wait_used : (polls used last : ℕ) → Vgp D → Outcome (Vgp D)
  unfolding turn
  wait_used zero used last s = out_of_fuel
  wait_used (suc n) used last s =
      let rest = wait_used n used last (turn s) in
      if read16 (used + 2) (turn s).mem == last then rest else done (turn s)

  unfoldable pub vgp_send_command : (polls : ℕ) → Request → Vgp D → Outcome (Vgp D)
  unfolding publish wait_used turn
  vgp_send_command polls r s =
      let notified = record s { mem = write16 s.notify_cfg 0 (publish r s) } in
      let seen = turn notified in wait_used polls (used_of s) (read16 (used_of s + 2) seen.mem) seen
