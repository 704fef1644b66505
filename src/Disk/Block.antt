-- ===== src/Disk/Block.antt =====
-- What `init_disk` of kernel/filesystem/disk.c finds in any device tree.
use craybond_os.Base.{
  ℕ, ◌≡◌, refl, ◌⊎◌, inl, inr, Bool, true, false, ◌==◌, List, if◌then◌else◌, arith, Bool-cases,
  ==→eq, leb, not, ◌&&◌,
}
use craybond_os.Outcome.{Outcome, done, ◌>>=◌}
use craybond_os.Kstring.{strcmp}
use craybond_os.Mem.{Memory}
use craybond_os.Ram.{DtbMatch, no_match}
use craybond_os.Ram.Scan.{Partly, returned, panicked, unfinished, Answer, dtb_scan-Answer}
use craybond_os.Disk.{
  Disk, device_id, handle_virito_node, find_virtio_blk, init_disk, virtio_mmio, reg_text,
  interrupts_text, be64,
}

module _ (mem : Memory) where
  -- A match that has found something is at the registers of a block device.
  IsBlock : DtbMatch → Type 0
  IsBlock m = (m.found ≡ 0) ⊎ (device_id mem m.reg_base ≡ 2)

  handle_virito_node-IsBlock :
      (name : List ℕ) (prop len : ℕ) (m : DtbMatch)
      → IsBlock m
      → IsBlock (handle_virito_node mem name prop len m)
  unfolding IsBlock handle_virito_node be64
  handle_virito_node-IsBlock name prop len m k =
      let hit = (strcmp name reg_text == 0) && leb 16 len in
      let irq = not (m.found == 0) && (strcmp name interrupts_text == 0) && leb 4 len in
      elim (Bool-cases hit) [
        | inl e ↦ elim (Bool-cases (device_id mem (be64 mem prop) == 2)) [
          | inl f ↦ rw (e, f) (inr (==→eq _ _ f))
          | inr f ↦ rw (e, f) (inl refl)
        ]
        | inr e ↦ elim (Bool-cases irq) [ inl f ↦ rw (e, f) k | inr f ↦ rw (e, f) k ]
      ]

  unfoldable found_block : (d : Disk) → Bool × DtbMatch → Disk
  found_block d r =
      let found : Disk = record {
        disk_device_address = r.1.reg_base;
        disk_device_size = r.1.reg_size;
        disk_device_interrupt = r.1.irq;
      } in
      if r.0 then found else d

  -- The variables are as they were, or those of a block device.
  abbrev pub Placed : (before after : Disk) → Type 0
  Placed before after = (after ≡ before) ⊎ (device_id mem after.disk_device_address ≡ 2)

  init_disk-done : (d : Disk) (r : Bool × DtbMatch) → Answer IsBlock r → Placed d (found_block d r)
  unfolding found_block IsBlock
  init_disk-done d (false, m) k = inl refl
  init_disk-done d (true, m) (inl e, inl f) = absurd (ground arith)
  init_disk-done d (true, m) (inl e, inr f) = absurd (f e)
  init_disk-done d (true, m) (inr e, k) = inr e

  init_disk-bind :
      (d : Disk) {o : Outcome (Bool × DtbMatch)}
      → Partly (Answer IsBlock) o
      → Partly (Placed d) (o >>= λ r. done (found_block d r))
  init_disk-bind d (returned k) = returned (init_disk-done d _ k)
  init_disk-bind d panicked = panicked
  init_disk-bind d unfinished = unfinished

  -- Whatever the device tree says, and whatever address its header is read from, when `init_disk`
  -- returns, either the variables of the disk are as they were, or the byte at the device's
  -- identification register is that of a block device.
  pub init_disk-Placed :
      (dtb hdr fuel names : ℕ) (d : Disk) → Partly (Placed d) (init_disk mem dtb hdr fuel names d)
  unfolding init_disk find_virtio_blk found_block IsBlock
  init_disk-Placed dtb hdr fuel names d = init_disk-bind d (
      dtb_scan-Answer IsBlock dtb mem names virtio_mmio (handle_virito_node mem) (inl refl)
        handle_virito_node-IsBlock hdr fuel no_match (inl refl))
