-- ===== src/Paging/Init.antt =====
-- `mmu_init` of kernel/mmu.c, less the registers of the processor: the tables before the processor
-- uses them.
use craybond_os.Base.{ℕ, zero, suc, ◌+◌, ◌*◌, ◌/◌, ◌^◌, leb, if◌then◌else◌, add64}
use craybond_os.Outcome.{Outcome, done, out_of_fuel, ◌>>=◌}
use craybond_os.Alloc.{Heap}
use craybond_os.Paging.{clear_table, mmu_map_2mb, mmu_map_4kb}
pub mod Identity
pub mod Pages
pub mod Kernel

-- From an address up to a last one.
pub record Range : Type 0 where
  pub first : ℕ
  pub last : ℕ

-- What `mmu_init` asks the other parts for: the addresses of the kernel and of the shared code,
-- those of the device tree, and those of the disk.
pub record Layout : Type 0 where
  pub kernel : Range
  pub shared : Range
  pub tree : Range
  pub disk : Range

abbrev pub uart : Range
uart = record { first = 0x09000000; last = 0x09000000 }

abbrev pub gic : Range
gic = record { first = 0x08000000; last = 0x08012000 }

module _ (heap_bottom page_table_l1 : ℕ) where
  -- `for (addr = first; addr <= last; addr += GRANULE_2MB)`
  unfoldable pub map_blocks : ℕ → (first last attr_index : ℕ) → Heap → Outcome Heap
  map_blocks zero first last attr_index h = out_of_fuel
  map_blocks (suc fuel) first last attr_index h =
      if leb first last
      then (mmu_map_2mb heap_bottom page_table_l1 first first attr_index h >>= λ h1.
          map_blocks fuel (add64 first 0x200000) last attr_index h1)
      else done h

  module _ (uxn : ℕ → ℕ) (unset : ℕ) where
    -- `for (addr = first; addr <= last; addr += GRANULE_4KB)`
    unfoldable pub map_range : ℕ → (first last attr_index level : ℕ) → Heap → Outcome Heap
    map_range zero first last attr_index level h = out_of_fuel
    map_range (suc fuel) first last attr_index level h =
        if leb first last
        then (mmu_map_4kb heap_bottom page_table_l1 uxn unset first first attr_index level h
            >>= λ (report, h1). map_range fuel (add64 first 0x1000) last attr_index level h1)
        else done h

    unfoldable pub mmu_init : ℕ → Layout → Heap → Outcome Heap
    unfolding map_blocks map_range
    mmu_init fuel l h = do
      let cleared : Heap = record h { mem = clear_table 512 0 page_table_l1 h.mem }
      h1 ← map_blocks fuel l.kernel.first l.kernel.last 1 cleared
      h2 ← map_range fuel uart.first uart.last 0 1 h1
      h3 ← map_range fuel gic.first gic.last 0 1 h2
      h4 ← map_range fuel l.shared.first l.shared.last 1 2 h3
      h5 ← map_range fuel l.tree.first l.tree.last 1 1 h4
      map_range fuel l.disk.first l.disk.last 0 1 h5
