-- ===== src/Virtio/Command.antt =====
-- The commands of kernel/graph/drivers/virtio_gpu_pci/virtio_gpu_pci_driver.c: each is laid out in
-- the page `virtqueue_cmd` and sent with `vgp_send_command`. What the driver does with the type of
-- the answer is to print it.
use craybond_os.Base.{
  ℕ, zero, suc, ◌+◌, ◌*◌, Bool, true, false, ◌==◌, if◌then◌else◌, u32, Option, none, some,
}
use craybond_os.Outcome.{Outcome, done, ◌>>=◌}
use craybond_os.Mem.{Memory, read32, write8, write32, write64}
use craybond_os.Virtio.{Vgp, Request, vgp_send_command}

-- `virtio_gpu_ctrl_hdr`: 24 bytes.
unfoldable pub write_header : (cmd type : ℕ) → Memory → Memory
write_header cmd type mem =
    let flags = write32 (cmd + 4) 0 (write32 cmd type mem) in
    let ids = write32 (cmd + 16) 0 (write64 (cmd + 8) 0 flags) in
    write8 (cmd + 23) 0 (write8 (cmd + 22) 0 (write8 (cmd + 21) 0 (write8 (cmd + 20) 0 ids)))

-- `framebuffer_size`, of 32 bits.
abbrev pub framebuffer_size : {D : Type 0} → Vgp D → ℕ
framebuffer_size s = u32 (u32 (s.display_width * s.display_height) * 4)

-- `pmodes[i]` of `virtio_gpu_resp_display_info`: the first field, and the two of the size.
abbrev pub pmode : {D : Type 0} → Vgp D → ℕ → ℕ
pmode s i = s.virtqueue_disp_info + 24 + 24 * i

-- The loop over the scanouts, with the rounds that are left.
unfoldable pub find_scanout : {D : Type 0} → (rounds i : ℕ) → Vgp D → Option ℕ
find_scanout zero i s = none
find_scanout (suc n) i s =
    let rest = find_scanout n (i + 1) s in if read32 (pmode s i) s.mem == 0 then rest else some i

-- What follows the answer to GET_DISPLAY_INFO.
unfoldable pub take_scanout : {D : Type 0} → Option ℕ → Vgp D → Bool × Vgp D
take_scanout (some i) s =
    let width = read32 (pmode s i + 16) s.mem in
    let height = read32 (pmode s i + 20) s.mem in
    (
      true,
      record s {
        display_width = width;
        display_height = height;
        scanout_id = i;
        scanout_found = true;
      },
    )
take_scanout none s =
    let width = write32 (pmode s 0 + 16) s.default_width s.mem in
    (
      false,
      record s { mem = write32 (pmode s 0 + 20) s.default_height width; scanout_found = false },
    )

unfoldable pub use_display_info : {D : Type 0} → Vgp D → Bool × Vgp D
unfolding take_scanout
use_display_info s = take_scanout (find_scanout 16 0 s) s

-- The loop of `vgp_clear`.
unfoldable pub fill_words : (rounds fb color : ℕ) → Memory → Memory
fill_words zero fb color mem = mem
fill_words (suc n) fb color mem = fill_words n (fb + 4) color (write32 fb color mem)

module _ {D : Type 0} where
  -- The commands as they stand in the memory.
  unfoldable pub create_2d_command : Vgp D → Memory
  unfolding write_header
  create_2d_command s =
      let cmd = s.virtqueue_cmd in
      let format = write32 (cmd + 28) 1 (write32 (cmd + 24) 1 (write_header cmd 0x101 s.mem)) in
      write32 (cmd + 36) s.display_height (write32 (cmd + 32) s.display_width format)

  unfoldable pub attach_backing_command : Vgp D → Memory
  unfolding write_header
  attach_backing_command s =
      let cmd = s.virtqueue_cmd in
      let entry = cmd + 32 in
      let head = write32 (cmd + 28) 1 (write32 (cmd + 24) 1 (write_header cmd 0x106 s.mem)) in
      write32 (entry + 12) 0
        (write32 (entry + 8) (framebuffer_size s) (write64 entry s.framebuffer_memory head))

  unfoldable pub set_scanout_command : Vgp D → Memory
  unfolding write_header
  set_scanout_command s =
      let cmd = s.virtqueue_cmd in
      let corner = write32 (cmd + 28) 0 (write32 (cmd + 24) 0 s.mem) in
      let size = write32 (cmd + 36) s.display_height (write32 (cmd + 32) s.display_width corner) in
      write_header cmd 0x102 (write32 (cmd + 44) 1 (write32 (cmd + 40) s.scanout_id size))

  -- Its struct has no `virtio_gpu_ctrl_hdr`: five fields of its own stand in front of the
  -- rectangle.
  unfoldable pub transfer_command : Vgp D → Memory
  transfer_command s =
      let cmd = s.virtqueue_cmd in
      let head = write64 (cmd + 8) 0 (write32 (cmd + 4) 0 (write32 cmd 0x104 s.mem)) in
      let corner =
        write32 (cmd + 28) 0
          (write32 (cmd + 24) 0 (write32 (cmd + 20) 0 (write32 (cmd + 16) 1 head))) in
      write32 (cmd + 36) s.display_height (write32 (cmd + 32) s.display_width corner)

  unfoldable pub flush_command : Vgp D → Memory
  flush_command s =
      let cmd = s.virtqueue_cmd in
      let head = write64 (cmd + 8) 0 (write32 (cmd + 4) 0 (write32 cmd 0x103 s.mem)) in
      write32 (cmd + 20) 0 (write32 (cmd + 16) 1 head)

  abbrev pub request : Vgp D → (size : ℕ) → Request
  request s size = record {
    cmd_addr = s.virtqueue_cmd;
    cmd_size = size;
    resp_addr = s.virtqueue_resp;
    resp_size = 24;
    flags = 1;
  }

module _ {D : Type 0} (react : D → Memory → D × Memory) (polls : ℕ) where
  unfoldable pub vgp_get_display_info : Vgp D → Outcome (Bool × Vgp D)
  unfolding write_header use_display_info find_scanout
  vgp_get_display_info s = do
    let told = record s { mem = write_header s.virtqueue_cmd 0x100 s.mem }
    answered ←
        vgp_send_command react polls
          (record {
            cmd_addr = s.virtqueue_cmd;
            cmd_size = 24;
            resp_addr = s.virtqueue_disp_info;
            resp_size = 408;
            flags = 0;
          })
          told
    done (use_display_info answered)

  pub vgp_create_2d_resource : Vgp D → Outcome (Vgp D)
  unfolding create_2d_command
  vgp_create_2d_resource s =
      vgp_send_command react polls (request s 40) (record s { mem = create_2d_command s })

  unfoldable pub vgp_attach_backing : Vgp D → Outcome (Vgp D)
  unfolding attach_backing_command
  vgp_attach_backing s =
      vgp_send_command react polls (request s 48) (record s { mem = attach_backing_command s })

  unfoldable pub vgp_set_scanout : Vgp D → Outcome (Vgp D)
  unfolding set_scanout_command
  vgp_set_scanout s =
      vgp_send_command react polls (request s 48) (record s { mem = set_scanout_command s })

  unfoldable pub vgp_transfer_to_host : Vgp D → Outcome (Vgp D)
  unfolding transfer_command
  vgp_transfer_to_host s =
      vgp_send_command react polls (request s 40) (record s { mem = transfer_command s })

  unfoldable pub vgp_flush : Vgp D → Outcome (Vgp D)
  unfolding vgp_transfer_to_host flush_command
  vgp_flush s = do
    t ← vgp_transfer_to_host s
    vgp_send_command react polls (request t 24) (record t { mem = flush_command t })

  unfoldable pub vgp_clear : (color : ℕ) → Vgp D → Outcome (Vgp D)
  unfolding fill_words vgp_transfer_to_host vgp_flush
  vgp_clear color s = do
    let pixels = u32 (s.display_width * s.display_height)
    t ← vgp_transfer_to_host (record s { mem = fill_words pixels s.framebuffer_memory color s.mem })
    vgp_flush t
