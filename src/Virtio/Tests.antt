-- ===== src/Virtio/Tests.antt =====
-- The driver of kernel/graph/drivers/virtio_gpu_pci/virtio_gpu_pci_driver.c with devices that
-- answer late, at once, or not at all.
use craybond_os.Base.{
  ℕ, zero, suc, ◌+◌, ◌≤◌, ◌≡◌, refl, ◌≢◌, inl, arith, false, ◌==◌, if◌then◌else◌, [], ◌∷◌, ◌∙◌, sym,
}
use craybond_os.Outcome.{done, out_of_fuel}
use craybond_os.Mem.{Memory, read16, read32, read64, write16, write32, write64}
use craybond_os.Mem.Laws.{read16-write16}
use craybond_os.Pci.{init_pci}
use craybond_os.Virtio.{Vgp, Request, used_of, publish, turn, vgp_send_command}
use craybond_os.Virtio.Command.{use_display_info}
use craybond_os.Virtio.Setup.{vgp_get_capabilities}
use craybond_os.Virtio.Queue.{Published, publish-Published}
use craybond_os.Virtio.Wait.{
  turns, used_after, notified, vgp_send_command-returns, vgp_send_command-hangs,
}
use craybond_os.Virtio.Display.{DisplayInfo, use_display_info-DisplayInfo}
use craybond_os.Virtio.Capabilities.{Cap, placed, vgp_get_capabilities-placed}

-- The registers of a queue whose parts lie at 0x20000, 0x30000 and 0x40000.
abbrev registers : Memory
registers =
    write64 0x10030 0x40000 (write64 0x10028 0x30000 (write64 0x10020 0x20000 (λ (a : ℕ). 0)))

abbrev driver : Memory → Vgp ℕ
driver mem = record {
  mem = mem;
  device = 0;
  heap = record {
    mem = λ p. 0;
    temp_free_list = 0;
    next_free_temp = 0x1000;
    next_free_perm = 0x501000;
  };
  pci = record { pci_base = 0x4010000000 };
  common_cfg = 0x10000;
  notify_cfg = 0x11000;
  device_cfg = 0x12000;
  isr_cfg = 0x13000;
  notify_off_multiplier = 4;
  display_width = 800;
  display_height = 600;
  framebuffer_memory = 0;
  scanout_id = 0;
  scanout_found = false;
  default_width = 1024;
  default_height = 768;
  virtqueue_base = 0x20000;
  virtqueue_avail = 0x30000;
  virtqueue_used = 0x40000;
  virtqueue_cmd = 0x50000;
  virtqueue_resp = 0x51000;
  virtqueue_disp_info = 0x52000;
}

abbrev asked : Request
asked = record { cmd_addr = 0x50000; cmd_size = 40; resp_addr = 0x51000; resp_size = 24; flags = 1 }

publish-Published_example : Published asked (driver registers) (publish asked (driver registers))
unfolding read64 write64
publish-Published_example =
    publish-Published asked (driver registers)
      (record {
        cmd_addr_word = omega arith;
        cmd_size_word = omega arith;
        resp_addr_word = omega arith;
        resp_size_word = omega arith;
      })
      (inl (omega arith))

-- Answers in its third turn.
abbrev late : ℕ → Memory → ℕ × Memory
late d m = (d + 1, if d == 2 then write16 0x40002 1 m else m)

-- Has always answered.
abbrev eager : ℕ → Memory → ℕ × Memory
eager d m = (d, write16 0x40002 1 m)

late_same :
    (i : ℕ)
    → i ≤ 1
    → used_after late (used_of (driver registers)) (suc i) (notified late asked (driver registers))
      ≡ used_after late (used_of (driver registers)) 1 (notified late asked (driver registers))
unfolding used_after turns turn notified publish read16 write16 read64 write64 write32
late_same zero h = refl
late_same (suc zero) h = refl
late_same (suc (suc i)) h = absurd (omega arith)

late_changed :
    used_after late (used_of (driver registers)) 3 (notified late asked (driver registers))
    ≢ used_after late (used_of (driver registers)) 1 (notified late asked (driver registers))
unfolding used_after turns turn notified publish read16 write16 read64 write64 write32
late_changed = λ e. absurd (omega (arith, e))

vgp_send_command-returns_example :
    vgp_send_command late 5 asked (driver registers)
    ≡ done (turns late 3 (notified late asked (driver registers)))
vgp_send_command-returns_example =
    vgp_send_command-returns late 5 1 asked (driver registers) (omega arith) late_same late_changed

eager_one : (used i : ℕ) (s : Vgp ℕ) → used ≡ 0x40000 → used_after eager used (suc i) s ≡ 1
unfolding used_after turns turn
eager_one used zero s e = rw e (read16-write16 s.mem 0x40002 1)
eager_one used (suc i) s e = eager_one used i (turn eager s) e

eager_used : used_of (driver registers) ≡ 0x40000
unfolding read64 write64
eager_used = refl

vgp_send_command-hangs_example : vgp_send_command eager 100 asked (driver registers) ≡ out_of_fuel
vgp_send_command-hangs_example = vgp_send_command-hangs eager 100 asked (driver registers) (λ i.
    eager_one _ i (notified eager asked (driver registers)) eager_used
    ∙ sym (eager_one _ 0 (notified eager asked (driver registers)) eager_used))

use_display_info-DisplayInfo_example :
    DisplayInfo
      (driver (write32 0x52030 1 (λ (a : ℕ). 0)))
      (use_display_info (driver (write32 0x52030 1 (λ (a : ℕ). 0))))
use_display_info-DisplayInfo_example =
    use_display_info-DisplayInfo (driver (write32 0x52030 1 (λ (a : ℕ). 0)))

-- One capability, at 0x40 of the configuration space at 0x100: the common configuration, 0x2000
-- bytes into the region of the first BAR.
abbrev config_space : Memory
config_space = write32 0x148 0x2000 (
    write16 0x142 0x110
      (write16 0x140 9 (write32 0x134 0x40 (write32 0x110 0x10000004 (λ (a : ℕ). 0)))))

abbrev common_cap : Cap
common_cap = record {
  vndr = 9;
  next = 0;
  cfg_type = 1;
  bar = 0;
  offset = 0x2000;
  multiplier = 0;
  base = 0x10000000;
}

vgp_get_capabilities-placed_example :
    vgp_get_capabilities late 3 0x100 (driver config_space)
    ≡ done (placed (common_cap ∷ []) (driver config_space))
unfolding init_pci write32 read32
vgp_get_capabilities-placed_example =
    vgp_get_capabilities-placed late 3 0x100 (common_cap ∷ []) (driver config_space) refl
      (omega arith)
      (
        omega arith,
        record {
          vndr_read = refl;
          next_read = refl;
          type_read = refl;
          bar_read = refl;
          offset_read = refl;
          multiplier_read = refl;
          base_read = refl;
          base_set = omega arith;
        },
        refl,
      )
