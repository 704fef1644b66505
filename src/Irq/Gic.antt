-- ===== src/Irq/Gic.antt =====
-- The registers of the interrupt controller after `gic_init` of kernel/gic.c.
use craybond_os.Base.{ℕ, ◌%◌, ◌^◌, ◌<◌, ◌≡◌, refl, arith, bit_or}
use craybond_os.Mem.{Memory, read8, read16, read32, write8, write16, write32}
use craybond_os.Irq.{set_up_timer_line, gic_init}

-- Both parts of the controller are on, the timer's interrupt is enabled beside those that were,
-- goes to the first processor, and has the highest priority; the mask lets 0xF0 and what is more
-- urgent through.
pub record Enabled (mem mem' : Memory) : Type 0 where
  pub distributor : mem' 0x08000000 ≡ 1
  pub interface : mem' 0x08010000 ≡ 1
  pub line : read32 0x08000100 mem' ≡ bit_or (read32 0x08000100 mem) (2 ^ 30) % 2 ^ 32
  pub target : read32 0x0800081C mem' ≡ 2 ^ 16
  pub priority : read32 0x0800041C mem' ≡ 0
  pub mask : read16 0x08010004 mem' ≡ 0xF0
  pub others : (b : ℕ) → b < 0x08000000 → mem' b ≡ mem b

-- `gic_init` enables the timer's interrupt and keeps the enabled ones of its group of 32; no byte
-- below the controller changes.
pub gic_init-Enabled : (mem : Memory) → Enabled mem (gic_init mem)
unfolding gic_init set_up_timer_line read32 write32 read16 write16 read8 write8
gic_init-Enabled mem = record {
  distributor = refl;
  interface = refl;
  line = omega arith;
  target = refl;
  priority = refl;
  mask = refl;
  others = λ b h. ground arith;
}
