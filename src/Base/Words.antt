-- ===== src/Base/Words.antt =====
-- Machine words as native numbers below a power of two: casts, wrapping addition and subtraction,
-- shifts.
use Prim.Native.Nat.{ℕ, ◌+◌, ◌-◌, ◌*◌, ◌/◌, ◌%◌, ◌^◌}
use craybond_os.Base.Tests.{ltb, if◌then◌else◌}

abbrev pub u8 : ℕ → ℕ
u8 n = n % 2 ^ 8

abbrev pub u16 : ℕ → ℕ
u16 n = n % 2 ^ 16

abbrev pub u32 : ℕ → ℕ
u32 n = n % 2 ^ 32

abbrev pub u64 : ℕ → ℕ
u64 n = n % 2 ^ 64

abbrev pub add32 : ℕ → ℕ → ℕ
add32 a b = (a + b) % 2 ^ 32

abbrev pub sub32 : ℕ → ℕ → ℕ
sub32 a b = (a + 2 ^ 32 - b) % 2 ^ 32

abbrev pub add64 : ℕ → ℕ → ℕ
add64 a b = (a + b) % 2 ^ 64

abbrev pub sub64 : ℕ → ℕ → ℕ
sub64 a b = (a + 2 ^ 64 - b) % 2 ^ 64

-- `x >> k`
abbrev pub shr : ℕ → ℕ → ℕ
shr x k = x / 2 ^ k

-- `x << k` on 32 and on 64 bits.
abbrev pub shl32 : ℕ → ℕ → ℕ
shl32 x k = x * 2 ^ k % 2 ^ 32

abbrev pub shl64 : ℕ → ℕ → ℕ
shl64 x k = x * 2 ^ k % 2 ^ 64

-- `x >> k` on the bits of an `int32_t` and of an `int64_t`, with the sign bit filled in.
abbrev pub sar32 : ℕ → ℕ → ℕ
sar32 x k = if ltb x (2 ^ 31) then x / 2 ^ k else 2 ^ 32 - 2 ^ (32 - k) + x / 2 ^ k

abbrev pub sar64 : ℕ → ℕ → ℕ
sar64 x k = if ltb x (2 ^ 63) then x / 2 ^ k else 2 ^ 64 - 2 ^ (64 - k) + x / 2 ^ k

-- The cast of an `int32_t` to 64 bits.
abbrev pub sext32 : ℕ → ℕ
sext32 x = if ltb x (2 ^ 31) then x else x + (2 ^ 64 - 2 ^ 32)
