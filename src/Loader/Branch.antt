-- ===== src/Loader/Branch.antt =====
-- `relocate_code` of shared/process_loader.c on B and BL.
use craybond_os.Base.{
  ◌⊎◌, ℕ, ◌+◌, ◌*◌, ◌/◌, ◌%◌, ◌^◌, ◌<◌, ◌≡◌, inl, inr, refl, add64, sub64, sar64, sext32, bit_and,
  bit_or, arith, bit_and_field, bit_and_mask, bit_or_fields, ◌∙◌, Bool-cases,
}
use craybond_os.Loader.{Move, at, is_internal, branch_offset, relocate_branch}
use craybond_os.Loader.Arm.{
  signed, branch_target, Inside, in_copy, IsNear, IsMove, is_internal-Inside, is_internal-outside,
}

pub branch_offset-signed :
    (instr : ℕ) → sext32 (branch_offset instr) ≡ (signed 26 (instr % 2 ^ 26) * 4) % 2 ^ 64
unfolding branch_offset
branch_offset-signed instr = ground arith

-- The new instruction: the operation of the old one and the displacement `rel`.
encode :
    (instr rel : ℕ)
    → instr < 2 ^ 32
    → bit_or (bit_and instr 0xFC000000) (bit_and rel 0x03FFFFFF)
      ≡ instr / 2 ^ 26 * 2 ^ 26 + rel % 2 ^ 26
encode instr rel word =
    rw (bit_and_field 6 26 instr, bit_and_mask 26 rel)
      (bit_or_fields 26 (instr / 2 ^ 26 % 2 ^ 6) (rel % 2 ^ 26) (omega arith) ∙ omega arith)

target_eq : (pc instr : ℕ) → add64 pc (sext32 (branch_offset instr)) ≡ branch_target pc instr
unfolding branch_target
target_eq pc instr = rw (branch_offset-signed instr) (omega arith)

branch_decode :
    (pc target op : ℕ)
    → pc < 2 ^ 64
    → target < 2 ^ 64
    → sub64 target pc % 4 ≡ 0
    → IsNear 27 pc target
    → branch_target pc (op * 2 ^ 26 + sar64 (sub64 target pc) 2 % 2 ^ 26) ≡ target
unfolding branch_target
branch_decode pc target op p t a near = ground arith

branch_fits : (pc instr : ℕ) → branch_target pc instr < 2 ^ 64
unfolding branch_target
branch_fits pc instr = omega arith

-- The displacement of an instruction that is moved along with its target stays right.
branch_along :
    (src dst i instr : ℕ)
    → src < 2 ^ 64
    → branch_target (at dst i) instr ≡ add64 dst (sub64 (branch_target (at src i) instr) src)
unfolding branch_target
branch_along src dst i instr s = ground arith

branch_aligned :
    (src dst i instr : ℕ)
    → src % 4 ≡ 0
    → dst % 4 ≡ 0
    → sub64 (branch_target (at src i) instr) (at dst i) % 4 ≡ 0
unfolding branch_target
branch_aligned src dst i instr s d = omega arith

-- What a relocated branch is to be: the same operation, with the target that goes with the move.
pub record IsRelocated (target : ℕ → ℕ → ℕ) (m : Move) (i instr new : ℕ) : Type 0 where
  pub operation : new / 2 ^ 26 ≡ instr / 2 ^ 26
  pub destination :
      let t = target (at m.src_base i) instr in
      (Inside m t × (target (at m.dst_base i) new ≡ in_copy m t))
      ⊎ ((¬ Inside m t) × (target (at m.dst_base i) new ≡ t))

-- B and BL, moved between aligned addresses, in a program that ends below 2 ^ 64: the operation
-- stays. A branch to an address of the program goes to the same place of the copy, and any other
-- branch, if its target is within 2 ^ 27 bytes of the copy, goes where it went.
pub relocate_branch-IsRelocated :
    (m : Move) (i instr : ℕ)
    → IsMove m
    → m.src_base + m.size < 2 ^ 64
    → instr < 2 ^ 32
    → ((¬ Inside m (branch_target (at m.src_base i) instr))
        → IsNear 27 (at m.dst_base i) (branch_target (at m.src_base i) instr))
    → IsRelocated branch_target m i instr (relocate_branch m i instr)
unfolding relocate_branch
relocate_branch-IsRelocated m i instr move fits word near =
    let t = branch_target (at m.src_base i) instr in
    elim (Bool-cases (is_internal m t)) [
      | inl e ↦
          let inside = is_internal-Inside m t fits e in
          rw (target_eq (at m.src_base i) instr, e)
            (record {
              operation = refl;
              destination = inl (
                inside,
                branch_along m.src_base m.dst_base i instr move.src_fits
                    ∙ omega (arith, inside.0, move.dst_fits, branch_fits (at m.src_base i) instr),
              );
            })
      | inr e ↦
          let outside = is_internal-outside m t fits e in
          rw
            (
              target_eq (at m.src_base i) instr,
              e,
              encode instr (sar64 (sub64 t (at m.dst_base i)) 2) word,
            )
            (record {
              operation = omega arith;
              destination = inr (
                outside,
                branch_decode (at m.dst_base i) t (instr / 2 ^ 26) (omega arith)
                    (branch_fits (at m.src_base i) instr)
                    (branch_aligned m.src_base m.dst_base i instr move.src_aligned move.dst_aligned)
                    (near outside),
              );
            })
    ]
