-- ===== src/Mem.antt =====
-- The accesses to memory and to the registers of devices of kernel/ram_e.c, over a memory of bytes,
-- the lowest byte of a number first.
use craybond_os.Base.{ℕ, ◌+◌, ◌*◌, ◌/◌, ◌^◌, ◌==◌, if◌then◌else◌, u8}
pub mod Laws

abbrev pub Memory : Type 0
Memory = ℕ → ℕ

unfoldable pub read8 : ℕ → Memory → ℕ
read8 addr mem = mem addr

unfoldable pub write8 : (addr value : ℕ) → Memory → Memory
write8 addr value mem p = if p == addr then u8 value else mem p

unfoldable pub read16 : ℕ → Memory → ℕ
unfolding read8
read16 addr mem = read8 addr mem + 2 ^ 8 * read8 (addr + 1) mem

unfoldable pub write16 : (addr value : ℕ) → Memory → Memory
unfolding write8
write16 addr value mem = write8 (addr + 1) (value / 2 ^ 8) (write8 addr value mem)

unfoldable pub read32 : ℕ → Memory → ℕ
unfolding read16
read32 addr mem = read16 addr mem + 2 ^ 16 * read16 (addr + 2) mem

unfoldable pub write32 : (addr value : ℕ) → Memory → Memory
unfolding write16
write32 addr value mem = write16 (addr + 2) (value / 2 ^ 16) (write16 addr value mem)

unfoldable pub read64 : ℕ → Memory → ℕ
unfolding read32
read64 addr mem = read32 addr mem + 2 ^ 32 * read32 (addr + 4) mem

unfoldable pub write64 : (addr value : ℕ) → Memory → Memory
unfolding write32
write64 addr value mem = write32 (addr + 4) (value / 2 ^ 32) (write32 addr value mem)

unfoldable pub write : (addr value : ℕ) → Memory → Memory
unfolding write64
write addr value mem = write64 addr value mem

unfoldable pub read : ℕ → Memory → ℕ
unfolding read64
read addr mem = read64 addr mem
