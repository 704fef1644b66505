-- ===== src/Loader/Arm.antt =====
-- What the instructions that shared/process_loader.c rewrites mean to the processor: the address
-- that a branch goes to and the page that ADRP computes, as the Arm architecture defines them.
use craybond_os.Base.{
  ℕ, ◌+◌, ◌-◌, ◌*◌, ◌/◌, ◌%◌, ◌^◌, ◌<◌, ◌≤◌, ◌≡◌, ◌⊎◌, true, false, arith, ltb, if◌then◌else◌,
  sub64,
}
use craybond_os.Loader.{Move, is_internal}

-- A field of `w` bits, as a signed number, modulo 2 ^ 64.
abbrev pub signed : ℕ → ℕ → ℕ
signed w imm = if ltb imm (2 ^ (w - 1)) then imm else imm + (2 ^ 64 - 2 ^ w)

-- B and BL: `imm26` in bits 25 to 0.
unfoldable pub branch_target : ℕ → ℕ → ℕ
branch_target pc instr = (pc + signed 26 (instr % 2 ^ 26) * 4) % 2 ^ 64

-- B.cond: `imm19` in bits 23 to 5.
unfoldable pub cond_target : ℕ → ℕ → ℕ
cond_target pc instr = (pc + signed 19 (instr / 2 ^ 5 % 2 ^ 19) * 4) % 2 ^ 64

-- ADRP: `immlo` in bits 30 and 29, `immhi` in bits 23 to 5; the register gets a page's address.
abbrev pub adrp_imm : ℕ → ℕ
adrp_imm instr = instr / 2 ^ 5 % 2 ^ 19 * 4 + instr / 2 ^ 29 % 4

unfoldable pub adrp_target : ℕ → ℕ → ℕ
adrp_target pc instr = (pc / 2 ^ 12 * 2 ^ 12 + signed 21 (adrp_imm instr) * 2 ^ 12) % 2 ^ 64

-- The address is one of the program's.
abbrev pub Inside : Move → ℕ → Type 0
Inside m t = (m.src_base ≤ t) × (t < m.src_base + m.size)

-- The address that has taken the place of a program's address `t` in the copy.
abbrev pub in_copy : Move → ℕ → ℕ
in_copy m t = (m.dst_base + (t - m.src_base)) % 2 ^ 64

-- A target within `2 ^ w` bytes of `pc`, on either side.
abbrev pub IsNear : ℕ → ℕ → ℕ → Type 0
IsNear w pc target = (sub64 target pc < 2 ^ w) ⊎ (2 ^ 64 - 2 ^ w ≤ sub64 target pc)

-- Both copies of the code are at aligned addresses of the machine.
pub record IsMove (m : Move) : Type 0 where
  pub src_fits : m.src_base < 2 ^ 64
  pub dst_fits : m.dst_base < 2 ^ 64
  pub src_aligned : m.src_base % 4 ≡ 0
  pub dst_aligned : m.dst_base % 4 ≡ 0

-- The test of the code is right for a program that ends below 2 ^ 64.
pub is_internal-Inside :
    (m : Move) (t : ℕ) → m.src_base + m.size < 2 ^ 64 → is_internal m t ≡ true → Inside m t
is_internal-Inside m t fits e = ground arith

pub is_internal-outside :
    (m : Move) (t : ℕ) → m.src_base + m.size < 2 ^ 64 → is_internal m t ≡ false → ¬ Inside m t
is_internal-outside m t fits e (low, high) = ground arith
