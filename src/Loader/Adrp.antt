-- ===== src/Loader/Adrp.antt =====
-- `relocate_code` of shared/process_loader.c on ADRP. The field of the displacement has 33 bits
-- after its shift by 12; the code shifts by 43.
use craybond_os.Base.{
  ℕ, ◌+◌, ◌-◌, ◌*◌, ◌/◌, ◌%◌, ◌^◌, ◌≤◌, ◌<◌, ◌≡◌, ◌⊎◌, refl, Bool, true, false, ltb, leb, ◌&&◌, u32,
  add64, sub64, shl64, sar64, bit_and, bit_or, arith, bit_and_field, bit_and_mask, bit_or_fields,
  ◌∙◌, ap, subst, bit_and_concat, bit_or_concat, bit_or-zero,
}
use craybond_os.Loader.{Move, at, page, adrp_offset, retarget_adrp, relocate_adrp}
use craybond_os.Loader.Arm.{signed, adrp_imm, adrp_target, IsNear}
use craybond_os.Loader.Cond.{set_imm19}

page_eq : (a : ℕ) → a < 2 ^ 64 → page a ≡ a / 2 ^ 12 * 2 ^ 12
page_eq a less = bit_and_field 52 12 a ∙ omega arith

fields_eq :
    (hi lo : ℕ)
    → hi < 2 ^ 19
    → lo < 4
    → bit_or (shl64 hi 14) (shl64 lo 12) ≡ hi * 2 ^ 14 + lo * 2 ^ 12
fields_eq hi lo h l =
    let e : shl64 hi 14 ≡ hi * 2 ^ 14 = omega arith in
    let d : shl64 lo 12 ≡ lo * 2 ^ 12 = omega arith in
    rw (e, d) (bit_or_fields 14 hi (lo * 2 ^ 12) (omega arith))

-- The displacement as the code reads it: 9 bits, with their sign.
pub adrp_offset-signed :
    (instr : ℕ) → adrp_offset instr ≡ (signed 9 (adrp_imm instr % 2 ^ 9) * 2 ^ 12) % 2 ^ 64
unfolding adrp_offset
adrp_offset-signed instr =
    rw
      (
        bit_and_mask 2 (instr / 2 ^ 29),
        bit_and_mask 19 (instr / 2 ^ 5),
        fields_eq (instr / 2 ^ 5 % 2 ^ 19) (instr / 2 ^ 29 % 4) (omega arith) (omega arith),
      )
      (ground arith)

-- `instr & ~0x60000000`, and the two bits put in place.
keep_low :
    (instr : ℕ)
    → instr < 2 ^ 32
    → bit_and instr 0x9FFFFFFF ≡ instr / 2 ^ 31 * 2 ^ 31 + instr % 2 ^ 29
keep_low instr word =
    let split : instr / 2 ^ 29 * 2 ^ 29 + instr % 2 ^ 29 ≡ instr = omega arith in
    subst (λ x. bit_and x 0x9FFFFFFF ≡ instr / 2 ^ 31 * 2 ^ 31 + instr % 2 ^ 29) split
      (bit_and_concat 29 (instr / 2 ^ 29) (instr % 2 ^ 29) 4 0x1FFFFFFF (omega arith) (omega arith)
        ∙ omega (arith, bit_and_field 1 2 (instr / 2 ^ 29), bit_and_mask 29 (instr % 2 ^ 29)))

set_immlo :
    (instr field : ℕ)
    → instr < 2 ^ 32
    → field < 4
    → bit_or (bit_and instr 0x9FFFFFFF) (field * 2 ^ 29)
      ≡ instr / 2 ^ 31 * 2 ^ 31 + field * 2 ^ 29 + instr % 2 ^ 29
set_immlo instr field word less =
    let split : instr / 2 ^ 31 * 4 * 2 ^ 29 + instr % 2 ^ 29
        ≡ instr / 2 ^ 31 * 2 ^ 31 + instr % 2 ^ 29 =
      omega arith in
    rw (keep_low instr word) (
      subst
        (λ x. bit_or x (field * 2 ^ 29) ≡ instr / 2 ^ 31 * 2 ^ 31 + field * 2 ^ 29 + instr % 2 ^ 29)
        split
        (subst
          (λ y.
            bit_or (instr / 2 ^ 31 * 4 * 2 ^ 29 + instr % 2 ^ 29) y
            ≡ instr / 2 ^ 31 * 2 ^ 31 + field * 2 ^ 29 + instr % 2 ^ 29)
          (omega arith)
          (bit_or_concat 29 (instr / 2 ^ 31 * 4) (instr % 2 ^ 29) field 0 (omega arith)
              (omega arith)
            ∙ omega (
              arith,
              bit_or_fields 2 (instr / 2 ^ 31) field less,
              bit_or-zero (instr % 2 ^ 29),
            ))))

-- The register and the operation of ADRP.
pub record SameAdrp (instr new : ℕ) : Type 0 where
  pub operation : new / 2 ^ 24 % 2 ^ 5 ≡ instr / 2 ^ 24 % 2 ^ 5
  pub top : new / 2 ^ 31 ≡ instr / 2 ^ 31
  pub register : new % 2 ^ 5 ≡ instr % 2 ^ 5

-- The instruction with the two fields put in place.
abbrev with_fields : (instr hi lo : ℕ) → ℕ
with_fields instr hi lo =
    instr / 2 ^ 31 * 2 ^ 31
    + lo * 2 ^ 29
    + instr / 2 ^ 24 % 2 ^ 5 * 2 ^ 24
    + hi * 2 ^ 5
    + instr % 2 ^ 5

with_fields-imm :
    (instr hi lo : ℕ) → hi < 2 ^ 19 → lo < 4 → adrp_imm (with_fields instr hi lo) ≡ hi * 4 + lo
with_fields-imm instr hi lo h l = omega arith

with_fields-SameAdrp :
    (instr hi lo : ℕ) → hi < 2 ^ 19 → lo < 4 → SameAdrp instr (with_fields instr hi lo)
with_fields-SameAdrp instr hi lo h l = record {
  operation = omega arith;
  top = omega arith;
  register = omega arith;
}

-- What the code makes of the displacement `offset` from page to page.
abbrev offset_of : Move → ℕ → ℕ → ℕ
offset_of m i target =
    sub64 (add64 m.dst_data_base (sub64 target m.src_data_base)) (page (at m.dst_base i))

set_fields :
    (instr hi lo : ℕ)
    → instr < 2 ^ 32
    → hi < 2 ^ 19
    → lo < 4
    → u32 (
        bit_or
          (bit_and (u32 (bit_or (bit_and instr 0x9FFFFFFF) (shl64 lo 29))) 0xFF00001F)
          (shl64 hi 5))
      ≡ with_fields instr hi lo
set_fields instr hi lo word h l =
    let a = instr / 2 ^ 31 * 2 ^ 31 + lo * 2 ^ 29 + instr % 2 ^ 29 in
    let e : shl64 lo 29 ≡ lo * 2 ^ 29 = omega arith in
    let d : shl64 hi 5 ≡ hi * 2 ^ 5 = omega arith in
    let c : u32 a ≡ a = omega arith in
    rw (e, d, set_immlo instr lo word l, c, set_imm19 a hi (omega arith) h) (omega arith)

retarget_adrp-fields :
    (m : Move) (i instr target : ℕ)
    → instr < 2 ^ 32
    → retarget_adrp m i instr target
      ≡ with_fields instr
          (sar64 (offset_of m i target) 14 % 2 ^ 19)
          (sar64 (offset_of m i target) 12 % 4)
unfolding retarget_adrp
retarget_adrp-fields m i instr target word =
    rw
      (
        bit_and_mask 19 (sar64 (offset_of m i target) 14),
        bit_and_mask 2 (sar64 (offset_of m i target) 12),
      )
      (set_fields instr (sar64 (offset_of m i target) 14 % 2 ^ 19)
        (sar64 (offset_of m i target) 12 % 4) word (omega arith) (omega arith))

adrp_decode :
    (pc new_target imm : ℕ)
    → pc < 2 ^ 64
    → new_target < 2 ^ 64
    → IsNear 32 (pc / 2 ^ 12 * 2 ^ 12) new_target
    → imm
      ≡ sar64 (sub64 new_target (pc / 2 ^ 12 * 2 ^ 12)) 14 % 2 ^ 19 * 4
        + sar64 (sub64 new_target (pc / 2 ^ 12 * 2 ^ 12)) 12 % 4
    → (pc / 2 ^ 12 * 2 ^ 12 + signed 21 imm * 2 ^ 12) % 2 ^ 64 ≡ new_target / 2 ^ 12 * 2 ^ 12
adrp_decode pc t imm p q near e = ground arith

-- The displacements that the code reads right: those of less than 1 MB.
abbrev pub IsShort : ℕ → Type 0
IsShort instr = (adrp_imm instr < 2 ^ 8) ⊎ (2 ^ 21 - 2 ^ 8 ≤ adrp_imm instr)

abbrev pub is_data : Move → ℕ → Bool
is_data m target = leb m.src_data_base target && ltb target (add64 m.src_data_base m.data_size)

-- Where a datum of the old program lies after the move.
abbrev pub moved_data : Move → ℕ → ℕ
moved_data m target = add64 m.dst_data_base (sub64 target m.src_data_base)

adrp_imm_lt : (instr : ℕ) → adrp_imm instr < 2 ^ 21
adrp_imm_lt instr = omega arith

short_eq :
    (q imm : ℕ)
    → imm < 2 ^ 21
    → (imm < 2 ^ 8) ⊎ (2 ^ 21 - 2 ^ 8 ≤ imm)
    → add64 q (signed 9 (imm % 2 ^ 9) * 2 ^ 12 % 2 ^ 64) ≡ (q + signed 21 imm * 2 ^ 12) % 2 ^ 64
short_eq q imm less s = ground arith

short_target :
    (pc instr : ℕ)
    → pc < 2 ^ 64
    → IsShort instr
    → add64 (page pc) (adrp_offset instr) ≡ adrp_target pc instr
unfolding adrp_target
short_target pc instr p short =
    rw (page_eq pc p, adrp_offset-signed instr)
      (short_eq (pc / 2 ^ 12 * 2 ^ 12) (adrp_imm instr) (adrp_imm_lt instr) short)

decode :
    (pc new new_target : ℕ)
    → pc < 2 ^ 64
    → new_target < 2 ^ 64
    → IsNear 32 (pc / 2 ^ 12 * 2 ^ 12) new_target
    → adrp_imm new
      ≡ sar64 (sub64 new_target (pc / 2 ^ 12 * 2 ^ 12)) 14 % 2 ^ 19 * 4
        + sar64 (sub64 new_target (pc / 2 ^ 12 * 2 ^ 12)) 12 % 4
    → adrp_target pc new ≡ new_target / 2 ^ 12 * 2 ^ 12
unfolding adrp_target
decode pc new t p q near e = adrp_decode pc t (adrp_imm new) p q near e

-- ADRP with a displacement of less than 1 MB to the program's data: register and operation stay,
-- and the copied instruction computes the page of the datum's new address, if that is within 2 ^ 32
-- bytes of the copied code.
pub relocate_adrp-internal :
    (m : Move) (i instr : ℕ)
    → instr < 2 ^ 32
    → IsShort instr
    → is_data m (adrp_target (at m.src_base i) instr) ≡ true
    → IsNear 32
        (at m.dst_base i / 2 ^ 12 * 2 ^ 12)
        (moved_data m (adrp_target (at m.src_base i) instr))
    → SameAdrp instr (relocate_adrp m i instr)
      × (adrp_target (at m.dst_base i) (relocate_adrp m i instr)
          ≡ moved_data m (adrp_target (at m.src_base i) instr) / 2 ^ 12 * 2 ^ 12)
unfolding relocate_adrp
relocate_adrp-internal m i instr word short inside near =
    let t = adrp_target (at m.src_base i) instr in
    let lo = sar64 (offset_of m i t) 12 % 4 in
    let hi = sar64 (offset_of m i t) 14 % 2 ^ 19 in
    rw
      (
        short_target (at m.src_base i) instr (omega arith) short,
        inside,
        retarget_adrp-fields m i instr t word,
      )
      (
        with_fields-SameAdrp instr hi lo (omega arith) (omega arith),
        decode (at m.dst_base i) (with_fields instr hi lo) (moved_data m t) (omega arith)
            (omega arith) near
            (with_fields-imm instr hi lo (omega arith) (omega arith)
              ∙ ap
                  (λ q.
                    sar64 (sub64 (moved_data m t) q) 14 % 2 ^ 19 * 4
                    + sar64 (sub64 (moved_data m t) q) 12 % 4)
                  (page_eq (at m.dst_base i) (omega arith))),
      )

far_eq :
    (q imm : ℕ)
    → 2 ^ 8 ≤ imm
    → imm < 2 ^ 9
    → add64 (add64 q (signed 9 (imm % 2 ^ 9) * 2 ^ 12 % 2 ^ 64)) (2 ^ 21)
      ≡ (q + signed 21 imm * 2 ^ 12) % 2 ^ 64
far_eq q imm far less = ground arith

far_target :
    (pc instr : ℕ)
    → pc < 2 ^ 64
    → 2 ^ 8 ≤ adrp_imm instr
    → adrp_imm instr < 2 ^ 9
    → add64 (add64 (page pc) (adrp_offset instr)) (2 ^ 21) ≡ adrp_target pc instr
unfolding adrp_target
far_target pc instr p far less =
    rw (page_eq pc p, adrp_offset-signed instr)
      (far_eq (pc / 2 ^ 12 * 2 ^ 12) (adrp_imm instr) far less)

not_data :
    (m : Move) (t u : ℕ)
    → m.data_size ≤ 2 ^ 21
    → m.src_data_base + 2 ^ 22 < 2 ^ 64
    → is_data m t ≡ true
    → add64 u (2 ^ 21) ≡ t
    → is_data m u ≡ false
not_data m t u small room inside e = ground arith

-- ADRP with a displacement of 1 MB up to 2 MB to the program's data, of at most 2 MB: the code
-- reads a displacement that is 2 MB less, does not find the target in the data, and copies the
-- instruction as it is.
pub relocate_adrp-unmoved :
    (m : Move) (i instr : ℕ)
    → 2 ^ 8 ≤ adrp_imm instr
    → adrp_imm instr < 2 ^ 9
    → m.data_size ≤ 2 ^ 21
    → m.src_data_base + 2 ^ 22 < 2 ^ 64
    → is_data m (adrp_target (at m.src_base i) instr) ≡ true
    → relocate_adrp m i instr ≡ instr
unfolding relocate_adrp
relocate_adrp-unmoved m i instr far less small room inside =
    rw
      (not_data m (adrp_target (at m.src_base i) instr)
        (add64 (page (at m.src_base i)) (adrp_offset instr)) small room inside
        (far_target (at m.src_base i) instr (omega arith) far less))
      refl
