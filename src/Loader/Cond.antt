-- ===== src/Loader/Cond.antt =====
-- `relocate_code` of shared/process_loader.c on B.cond. The field of the displacement has 19
-- bits; the code shifts by 6.
use craybond_os.Base.{
  ◌⊎◌, ℕ, ◌+◌, ◌*◌, ◌/◌, ◌%◌, ◌^◌, ◌≤◌, ◌<◌, ◌≡◌, refl, true, false, u32, add64, sub64, shl32,
  sar32, sext32, bit_and, bit_or, arith, bit_and_field, bit_and_mask, bit_or_fields, ◌∙◌, subst,
  bit_and_concat, bit_or_concat, bit_or-zero,
}
use craybond_os.Loader.{Move, at, is_internal, cond_offset, relocate_cond}
use craybond_os.Loader.Arm.{cond_target, Inside, IsNear, IsMove}

-- The field of the displacement, and the address that the code takes for the target.
abbrev pub imm19 : ℕ → ℕ
imm19 instr = instr / 2 ^ 5 % 2 ^ 19

abbrev pub taken : ℕ → ℕ → ℕ
taken pc instr = add64 pc (imm19 instr * 4)

cond_offset-imm : (instr : ℕ) → sext32 (cond_offset instr) ≡ imm19 instr * 4
unfolding cond_offset
cond_offset-imm instr = rw (bit_and_mask 19 (instr / 2 ^ 5)) (ground arith)

-- `instr & ~0xFFFFE0`, and the field put in place.
keep :
    (instr : ℕ)
    → instr < 2 ^ 32
    → bit_and instr 0xFF00001F ≡ instr / 2 ^ 24 * 2 ^ 19 * 2 ^ 5 + instr % 2 ^ 5
keep instr word =
    let split : instr / 2 ^ 5 * 2 ^ 5 + instr % 2 ^ 5 ≡ instr = omega arith in
    subst (λ x. bit_and x 0xFF00001F ≡ instr / 2 ^ 24 * 2 ^ 19 * 2 ^ 5 + instr % 2 ^ 5) split
      (bit_and_concat 5 (instr / 2 ^ 5) (instr % 2 ^ 5) (0xFF * 2 ^ 19) 31 (omega arith)
          (omega arith)
        ∙ omega (arith, bit_and_field 8 19 (instr / 2 ^ 5), bit_and_mask 5 (instr % 2 ^ 5)))

pub set_imm19 :
    (instr field : ℕ)
    → instr < 2 ^ 32
    → field < 2 ^ 19
    → bit_or (bit_and instr 0xFF00001F) (field * 2 ^ 5)
      ≡ instr / 2 ^ 24 * 2 ^ 24 + field * 2 ^ 5 + instr % 2 ^ 5
set_imm19 instr field word less = rw (keep instr word) (
    subst
      (λ x.
        bit_or (instr / 2 ^ 24 * 2 ^ 19 * 2 ^ 5 + instr % 2 ^ 5) x
        ≡ instr / 2 ^ 24 * 2 ^ 24 + field * 2 ^ 5 + instr % 2 ^ 5)
      (omega arith)
      (bit_or_concat 5 (instr / 2 ^ 24 * 2 ^ 19) (instr % 2 ^ 5) field 0 (omega arith) (omega arith)
        ∙ omega (arith, bit_or_fields 19 (instr / 2 ^ 24) field less, bit_or-zero (instr % 2 ^ 5))))

encode :
    (instr rel : ℕ)
    → instr < 2 ^ 32
    → bit_or (bit_and instr 0xFF00001F) (shl32 (bit_and rel 0x7FFFF) 5)
      ≡ instr / 2 ^ 24 * 2 ^ 24 + rel % 2 ^ 19 * 2 ^ 5 + instr % 2 ^ 5
encode instr rel word =
    let e : shl32 (rel % 2 ^ 19) 5 ≡ rel % 2 ^ 19 * 2 ^ 5 = omega arith in
    rw (bit_and_mask 19 rel, e) (set_imm19 instr (rel % 2 ^ 19) word (omega arith))

-- The new field is right for the true target, since 2 ^ 21 bytes are 2 ^ 19 words.
field_eq :
    (src dst instr : ℕ)
    → src < 2 ^ 64
    → dst < 2 ^ 64
    → sar32 (u32 (sub64 (taken src instr) dst)) 2 % 2 ^ 19
      ≡ sub64 (cond_target src instr) dst / 4 % 2 ^ 19
unfolding cond_target
field_eq src dst instr s d = ground arith

cond_decode :
    (pc target instr top low : ℕ)
    → pc < 2 ^ 64
    → target < 2 ^ 64
    → sub64 target pc % 4 ≡ 0
    → IsNear 20 pc target
    → low < 2 ^ 5
    → cond_target pc (top * 2 ^ 24 + sub64 target pc / 4 % 2 ^ 19 * 2 ^ 5 + low) ≡ target
unfolding cond_target
cond_decode pc target instr top low p t a near l = ground arith

cond_along :
    (src dst i instr : ℕ)
    → src < 2 ^ 64
    → cond_target (at dst i) instr ≡ add64 dst (sub64 (cond_target (at src i) instr) src)
unfolding cond_target
cond_along src dst i instr s = ground arith

cond_aligned :
    (src dst i instr : ℕ)
    → src % 4 ≡ 0
    → dst % 4 ≡ 0
    → sub64 (cond_target (at src i) instr) (at dst i) % 4 ≡ 0
unfolding cond_target
cond_aligned src dst i instr s d = omega arith

cond_fits : (pc instr : ℕ) → cond_target pc instr < 2 ^ 64
unfolding cond_target
cond_fits pc instr = omega arith

-- The condition of the branch and its operation stay.
pub record SameCond (instr new : ℕ) : Type 0 where
  pub operation : new / 2 ^ 24 ≡ instr / 2 ^ 24
  pub condition : new % 2 ^ 5 ≡ instr % 2 ^ 5

pub relocate_cond-external :
    (m : Move) (i instr : ℕ)
    → IsMove m
    → instr < 2 ^ 32
    → is_internal m (taken (at m.src_base i) instr) ≡ false
    → IsNear 20 (at m.dst_base i) (cond_target (at m.src_base i) instr)
    → SameCond instr (relocate_cond m i instr)
      × (cond_target (at m.dst_base i) (relocate_cond m i instr)
          ≡ cond_target (at m.src_base i) instr)
unfolding relocate_cond
relocate_cond-external m i instr move word e near =
    let t = cond_target (at m.src_base i) instr in
    rw
      (
        cond_offset-imm instr,
        e,
        encode instr (sar32 (u32 (sub64 (taken (at m.src_base i) instr) (at m.dst_base i))) 2) word,
        field_eq (at m.src_base i) (at m.dst_base i) instr (omega arith) (omega arith),
      )
      (
        record { operation = omega arith; condition = omega arith },
        cond_decode (at m.dst_base i) t instr (instr / 2 ^ 24) (instr % 2 ^ 5) (omega arith)
            (cond_fits (at m.src_base i) instr)
            (cond_aligned m.src_base m.dst_base i instr move.src_aligned move.dst_aligned) near
            (omega arith),
      )

relocate_cond-internal :
    (m : Move) (i instr : ℕ)
    → is_internal m (taken (at m.src_base i) instr) ≡ true
    → relocate_cond m i instr ≡ instr
unfolding relocate_cond
relocate_cond-internal m i instr e = rw (cond_offset-imm instr, e) refl

taken_forward : (pc instr : ℕ) → imm19 instr < 2 ^ 18 → taken pc instr ≡ cond_target pc instr
unfolding cond_target
taken_forward pc instr less = ground arith

taken_backward :
    (pc instr : ℕ) → 2 ^ 18 ≤ imm19 instr → add64 (cond_target pc instr) (2 ^ 21) ≡ taken pc instr
unfolding cond_target
taken_backward pc instr back = ground arith

past_end :
    (m : Move) (t u : ℕ)
    → m.size ≤ 2 ^ 20
    → m.src_base + 2 ^ 22 < 2 ^ 64
    → Inside m t
    → add64 t (2 ^ 21) ≡ u
    → is_internal m u ≡ false
past_end m t u small room inside far = ground (arith, inside.0, inside.1)

-- The address is one of the copy's.
abbrev pub InCopy : Move → ℕ → Type 0
InCopy m t = (m.dst_base ≤ t) × (t < m.dst_base + m.size)

-- B.cond with a backward displacement, to an address of a program of at most 2 ^ 20 bytes that
-- shares none with the copy: if the address is within 2 ^ 20 bytes of the copy, the copied branch
-- does not go to its place in the copy but leaves the copy for the old program.
pub relocate_cond-escapes :
    (m : Move) (i instr : ℕ)
    → IsMove m
    → instr < 2 ^ 32
    → 2 ^ 18 ≤ imm19 instr
    → m.size ≤ 2 ^ 20
    → m.src_base + 2 ^ 22 < 2 ^ 64
    → (m.src_base + m.size ≤ m.dst_base) ⊎ (m.dst_base + m.size ≤ m.src_base)
    → Inside m (cond_target (at m.src_base i) instr)
    → IsNear 20 (at m.dst_base i) (cond_target (at m.src_base i) instr)
    → let reached = cond_target (at m.dst_base i) (relocate_cond m i instr) in
      (reached ≡ cond_target (at m.src_base i) instr) × Inside m reached × (¬ InCopy m reached)
relocate_cond-escapes m i instr move word back small room apart inside near =
    let t = cond_target (at m.src_base i) instr in
    let u = taken (at m.src_base i) instr in
    let far : add64 t (2 ^ 21) ≡ u = taken_backward (at m.src_base i) instr back in
    let out : is_internal m u ≡ false = past_end m t u small room inside far in
    let same = (relocate_cond-external m i instr move word out near).1 in
    rw same (refl, inside, λ c. absurd (omega (arith, apart, inside.0, inside.1, c.0, c.1)))
