-- ===== src/Loader/Tests.antt =====
-- Runs of shared/process_loader.c on single instructions and on a short program.
use craybond_os.Base.{ℕ, ◌+◌, ◌*◌, ◌<◌, ◌≡◌, inl, inr, refl, ◌==◌, if◌then◌else◌, u32, arith}
use craybond_os.Loader.{
  Move, at, read32, relocate_instr, relocate_branch, relocate_cond, relocate_adrp, relocate_code,
}
use craybond_os.Loader.Arm.{branch_target, cond_target, adrp_target, Inside, IsMove}
use craybond_os.Loader.Branch.{IsRelocated, relocate_branch-IsRelocated}
use craybond_os.Loader.Cond.{InCopy, relocate_cond-escapes}
use craybond_os.Loader.Adrp.{SameAdrp, relocate_adrp-internal}
use craybond_os.Loader.Copy.{IsOutside, relocate_code-copies}

abbrev near : Move
near = record {
  src_base = 0x10000;
  dst_base = 0x20000;
  size = 0x100;
  src_data_base = 0x40000;
  dst_data_base = 0x50000;
  data_size = 0x1000;
}

-- The data of this program lie 1 MB behind its code.
abbrev far : Move
far = record near { src_data_base = 0x110000 }

near-IsMove : IsMove near
near-IsMove = record {
  src_fits = omega arith;
  dst_fits = omega arith;
  src_aligned = refl;
  dst_aligned = refl;
}

-- A program of zeroes and one branch, in bytes.
abbrev bytes : ℕ → ℕ
bytes x = if x == 0x10003 then 0x14 else if x == 0x10001 then 0x80 else 0

relocate_branch-IsRelocated_example :
    IsRelocated branch_target near 1 0x14008000 (relocate_branch near 1 0x14008000)
unfolding branch_target
relocate_branch-IsRelocated_example =
    relocate_branch-IsRelocated near 1 0x14008000 near-IsMove (omega arith) (omega arith)
      (λ e. inl (omega arith))

relocate_cond-escapes_example :
    let reached = cond_target (at 0x20000 16) (relocate_cond near 16 0x54FFFF80) in
    (reached ≡ 0x10030) × Inside near reached × (¬ InCopy near reached)
unfolding cond_target
relocate_cond-escapes_example =
    relocate_cond-escapes near 16 0x54FFFF80 near-IsMove (omega arith) (omega arith) (omega arith)
      (omega arith) (inl (omega arith)) (omega arith, omega arith) (inr (omega arith))

relocate_adrp-internal_example :
    SameAdrp 0x90000180 (relocate_adrp near 1 0x90000180)
    × (adrp_target (at 0x20000 1) (relocate_adrp near 1 0x90000180) ≡ 0x50000)
unfolding adrp_target
relocate_adrp-internal_example =
    relocate_adrp-internal near 1 0x90000180 (omega arith) (inl (omega arith)) refl
      (inl (omega arith))

relocate_code-copies_example :
    ((k : ℕ)
      → k < 64
      → read32 (relocate_code near bytes) (0x20000 + k * 4)
        ≡ u32 (relocate_instr near k (read32 bytes (0x10000 + k * 4))))
    × ((x : ℕ) → IsOutside 0x20000 0x100 x → relocate_code near bytes x ≡ bytes x)
relocate_code-copies_example = relocate_code-copies near bytes (inl (omega arith))
