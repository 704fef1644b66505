-- ===== src/Ram/Size.antt =====
-- `calc_ram` of kernel/ram_e.c: the memory that is left for processes. kernel/linker.ld aligns
-- `kfull_end` to 2 MB.
use native.Mathlib.Nat.{mod-eq_of_lt}
use craybond_os.Base.{
  ◌⊎◌, ℕ, ◌+◌, ◌-◌, ◌*◌, ◌/◌, ◌%◌, ◌^◌, ◌≤◌, ◌<◌, ◌≡◌, refl, some, add64, sub64, bit_and,
  bit_and_field, arith, ◌∙◌, ap,
}
use craybond_os.Outcome.{done}
use craybond_os.Ram.{Ram, get_memory_region, set_ram, calc_ram}

-- Whole blocks of 2 MB, from the end of the kernel to the last that ends within the region.
pub record IsUserRam (base size kfull_end : ℕ) (r : Ram) : Type 0 where
  pub region : (r.total_ram_start ≡ base) × (r.total_ram_size ≡ size)
  pub start : r.calculated_ram_start ≡ kfull_end
  pub end_aligned : r.calculated_ram_end % 2 ^ 21 ≡ 0
  pub end_inside : r.calculated_ram_end ≤ base + size
  pub end_near : base + size < r.calculated_ram_end + 2 ^ 21
  pub consistent :
      (r.calculated_ram_start + r.calculated_ram_size ≡ r.calculated_ram_end)
      ⊎ (r.calculated_ram_end < r.calculated_ram_start)

round_down : (x : ℕ) → x < 2 ^ 64 → bit_and x (2 ^ 64 - 2 ^ 21) ≡ x / 2 ^ 21 * 2 ^ 21
round_down x less = bit_and_field 43 21 x ∙ omega arith

-- With the kernel's end on a block of 2 MB, as it is linked: when the search of the device tree
-- comes back with a region, `calc_ram` gives the processes the whole blocks of 2 MB from the end of
-- the kernel to the last that ends within the region, with their size, if there is any.
pub calc_ram-IsUserRam :
    (dtb : ℕ) (mem : ℕ → ℕ) (hdr fuel names kfull_end base size : ℕ) (r : Ram)
    → get_memory_region dtb mem hdr fuel names ≡ done (some (base, size))
    → kfull_end % 2 ^ 21 ≡ 0
    → kfull_end + 1 < 2 ^ 64
    → base + size < 2 ^ 64
    → (s : Ram) × (calc_ram dtb mem hdr fuel names kfull_end r ≡ done s)
      × IsUserRam base size kfull_end s
unfolding calc_ram set_ram
calc_ram-IsUserRam dtb mem hdr fuel names kfull_end base size r e aligned low fits =
    let a : add64 kfull_end 1 ≡ kfull_end + 1 = mod-eq_of_lt low in
    let b : add64 base size ≡ base + size = mod-eq_of_lt fits in
    let start = bit_and (add64 kfull_end 1) (2 ^ 64 - 2 ^ 21) in
    let limit = bit_and (add64 base size) (2 ^ 64 - 2 ^ 21) in
    let c : start ≡ (kfull_end + 1) / 2 ^ 21 * 2 ^ 21 =
      ap (λ x. bit_and x (2 ^ 64 - 2 ^ 21)) a ∙ round_down (kfull_end + 1) low in
    let d : limit ≡ (base + size) / 2 ^ 21 * 2 ^ 21 =
      ap (λ x. bit_and x (2 ^ 64 - 2 ^ 21)) b ∙ round_down (base + size) fits in
    (
      record {
        total_ram_start = base;
        total_ram_size = size;
        calculated_ram_start = start;
        calculated_ram_end = limit;
        calculated_ram_size = sub64 limit start;
      },
      rw e refl,
      record {
        region = (refl, refl);
        start = omega arith;
        end_aligned = omega arith;
        end_inside = omega arith;
        end_near = omega arith;
        consistent = ground arith;
      },
    )
