-- ===== src/Virtio/Setup.antt =====
-- The start of kernel/graph/drivers/virtio_gpu_pci/virtio_gpu_pci_driver.c: the list of
-- capabilities, the status of the device, the queue, and `vgp_init`; and the driver as
-- kernel/graph/graphics.c calls it. A call that panics or does not end leaves no state, so that the
-- driver's state is an outcome.
use craybond_os.Base.{
  ℕ, zero, suc, ◌+◌, ◌-◌, ◌^◌, Bool, true, false, ◌&&◌, ◌||◌, ltb, ◌==◌, if◌then◌else◌, add64,
  bit_and, bit_or,
}
use craybond_os.Outcome.{Outcome, done, panic, out_of_fuel, ◌>>=◌}
use craybond_os.Alloc.{palloc}
use craybond_os.Mem.{Memory, read8, read16, read32, write8, write16, write32, write64}
use craybond_os.Pci.{pci_get_bar_address, find_pci_device}
use craybond_os.Screen.Gpu.{VirtioGpu}
use craybond_os.Virtio.{Vgp, turn}
use craybond_os.Virtio.Command.{
  framebuffer_size, vgp_get_display_info, vgp_create_2d_resource, vgp_attach_backing,
  vgp_set_scanout, vgp_transfer_to_host, vgp_flush, vgp_clear,
}

-- `virtio_pci_cap`: vendor, next, length, type and BAR at 0 to 4, the offset at 8; the multiplier
-- follows at 16.
unfoldable pub use_capability : {D : Type 0} → (cap_address val : ℕ) → Vgp D → Vgp D
use_capability cap_address val s =
    let cfg_type = read8 (cap_address + 3) s.mem in
    let place = add64 val (read32 (cap_address + 8) s.mem) in
    if cfg_type == 1
    then record s { common_cfg = place }
    else if cfg_type == 2
    then record s { notify_cfg = place; notify_off_multiplier = read32 (cap_address + 16) s.mem }
    else if cfg_type == 4
    then record s { device_cfg = place }
    else if cfg_type == 3
    then record s { isr_cfg = place }
    else s

module _ {D : Type 0} (react : D → Memory → D × Memory) where
  -- The size of the region is computed, but only printed.
  unfoldable pub vgp_setup_bars : (base bar : ℕ) → Vgp D → ℕ × Vgp D
  unfolding turn
  vgp_setup_bars base bar s =
      let (pci, bar_addr) = pci_get_bar_address s.pci base 0x10 bar in
      let probed = turn react (record s { pci = pci; mem = write32 bar_addr 0xFFFFFFFF s.mem }) in
      let bar_val = read32 bar_addr probed.mem in
      let placed = turn react (record probed { mem = write32 bar_addr 0x10010000 probed.mem }) in
      let cmd = bit_or (read32 (base + 4) placed.mem) 2 in
      if bar_val == 0 || bar_val == 0xFFFFFFFF then (0, probed) else (
        bit_and (read32 bar_addr placed.mem) (2 ^ 64 - 16),
        record placed { mem = write32 (base + 4) cmd placed.mem },
      )

  -- The body of the loop, for the capability at `cap_address`.
  unfoldable pub inspect_capability : (address cap_address : ℕ) → Vgp D → Vgp D
  unfolding vgp_setup_bars use_capability
  inspect_capability address cap_address s =
      let bar = read8 (cap_address + 4) s.mem in
      let (pci, target) = pci_get_bar_address s.pci address 0x10 bar in
      let looked = record s { pci = pci } in
      let val = bit_and (read32 target looked.mem) (2 ^ 32 - 16) in
      let (val', ready) =
        if ltb (read8 (cap_address + 3) looked.mem) 5 && val == 0
        then vgp_setup_bars address bar looked
        else (val, looked) in
      if read8 cap_address looked.mem == 9 then use_capability cap_address val' ready else looked

  unfoldable pub capability_loop : (fuel address offset : ℕ) → Vgp D → Outcome (Vgp D)
  capability_loop zero address offset s = out_of_fuel
  capability_loop (suc n) address offset s =
      let cap_address = add64 address offset in
      let s' = inspect_capability address cap_address s in
      let rest = capability_loop n address (read8 (cap_address + 1) s'.mem) s' in
      if offset == 0 then done s else rest

  unfoldable pub vgp_get_capabilities : (fuel address : ℕ) → Vgp D → Outcome (Vgp D)
  unfolding capability_loop inspect_capability
  vgp_get_capabilities fuel address s =
      capability_loop fuel address (read32 (address + 0x34) s.mem) s

  -- `common_cfg->device_status`
  abbrev pub status : Vgp D → ℕ
  status s = read8 (s.common_cfg + 20) s.mem

  unfoldable pub or_status : ℕ → Vgp D → Vgp D
  or_status bits s =
      let t = turn react s in
      record t { mem = write8 (t.common_cfg + 20) (bit_or (status t) bits) t.mem }

  -- `while (common_cfg->device_status != 0);`
  unfoldable pub wait_reset : (polls : ℕ) → Vgp D → Outcome (Vgp D)
  wait_reset zero s = out_of_fuel
  wait_reset (suc n) s =
      let t = turn react s in let rest = wait_reset n t in if status t == 0 then done t else rest

  -- The driver takes all features that the device offers.
  unfoldable pub negotiate : Vgp D → Vgp D
  unfolding or_status turn
  negotiate s =
      let asked = turn react (record s { mem = write32 s.common_cfg 0 s.mem }) in
      let features = read32 (asked.common_cfg + 4) asked.mem in
      let selected = write32 (asked.common_cfg + 8) 0 asked.mem in
      turn react
        (or_status 8 (record asked { mem = write32 (asked.common_cfg + 12) features selected }))

  unfoldable pub set_up_queue : (heap_bottom : ℕ) → Vgp D → Outcome (Vgp D)
  unfolding or_status turn
  set_up_queue heap_bottom s = do
    let c = s.common_cfg
    let t = turn react (record s { mem = write16 (c + 22) 0 s.mem })
    let sized = write16 (c + 24) (read16 (c + 24) t.mem) t.mem
    base ← palloc heap_bottom 4096 t.heap
    avail ← palloc heap_bottom 4096 base.1
    used ← palloc heap_bottom 4096 avail.1
    cmd ← palloc heap_bottom 4096 used.1
    resp ← palloc heap_bottom 4096 cmd.1
    info ← palloc heap_bottom 408 resp.1
    let placed = write64 (c + 48) used.0 (write64 (c + 40) avail.0 (write64 (c + 32) base.0 sized))
    done (
        or_status 4 (record t {
          mem = write16 (c + 28) 1 placed;
          heap = info.1;
          virtqueue_base = base.0;
          virtqueue_avail = avail.0;
          virtqueue_used = used.0;
          virtqueue_cmd = cmd.0;
          virtqueue_resp = resp.0;
          virtqueue_disp_info = info.0;
        }))

  unfoldable pub vgp_start : (heap_bottom polls : ℕ) → Vgp D → Outcome (Vgp D)
  unfolding wait_reset negotiate or_status set_up_queue
  vgp_start heap_bottom polls s = do
    reset ← wait_reset polls (record s { mem = write8 (s.common_cfg + 20) 0 s.mem })
    let t = negotiate (or_status 2 (or_status 1 reset))
    if bit_and (status t) 8 == 0 then done t else set_up_queue heap_bottom t

  -- The commands of `vgp_init`, after the start.
  unfoldable pub bring_up : (heap_bottom polls : ℕ) → Vgp D → Outcome (Vgp D)
  bring_up heap_bottom polls s = do
    info ← vgp_get_display_info react polls s
    let t = info.1
    fb ← palloc heap_bottom (framebuffer_size t) t.heap
    created ←
        vgp_create_2d_resource react polls (record t { framebuffer_memory = fb.0; heap = fb.1 })
    backed ← vgp_attach_backing react polls created
    transferred ← vgp_transfer_to_host react polls backed
    flushed ← vgp_flush react polls transferred
    if flushed.scanout_found then vgp_set_scanout react polls flushed else done flushed

  unfoldable pub vgp_init :
      (heap_bottom polls fuel : ℕ) → (width height : ℕ) → Vgp D → Outcome (Bool × Vgp D)
  unfolding vgp_get_capabilities vgp_start bring_up
  vgp_init heap_bottom polls fuel width height s =
      let (pci, address) = find_pci_device 0x1AF4 0x1050 s.mem s.pci in
      let t = record s { pci = pci; default_width = width; default_height = height } in
      if ltb 0 address
      then (vgp_get_capabilities fuel address t >>= λ found.
          vgp_start heap_bottom polls found >>= λ started.
          bring_up heap_bottom polls started >>= λ up. done (true, up))
      else done (false, t)

  unfoldable pub init_result : Outcome (Bool × Vgp D) → Bool × Outcome (Vgp D)
  init_result (done r) = (r.0, done r.1)
  init_result (panic m i) = (false, panic m i)
  init_result out_of_fuel = (false, out_of_fuel)

  -- The driver's drawing functions have no body.
  abbrev pub virtio_driver : (heap_bottom polls fuel : ℕ) → VirtioGpu (Outcome (Vgp D))
  virtio_driver heap_bottom polls fuel = record {
    vgp_init = λ w h v. init_result (v >>= vgp_init heap_bottom polls fuel w h);
    vgp_flush = λ v. v >>= vgp_flush react polls;
    vgp_clear = λ c v. v >>= vgp_clear react polls c;
    vgp_draw_pixel = λ x y c v. v;
    vgp_fill_rect = λ x y w h c v. v;
    vgp_draw_line = λ x y a b c v. v;
    vgp_draw_char = λ x y c color v. v;
  }
