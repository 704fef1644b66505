-- ===== src/Base/Bits.antt =====
-- `&` with a contiguous mask and `|` of disjoint fields, as arithmetic. The masks are the numbers
-- that the program writes, `(2 ^ w - 1) * 2 ^ k` for a field of `w` bits at bit `k`.
use Prim.Native.Nat.{
  ℕ, zero, suc, ◌+◌, ◌-◌, ◌*◌, ◌/◌, ◌%◌, ◌^◌, ◌≤◌, ◌<◌, min, max, digits, bit_and, bit_or,
  bit_and-bitwise, bit_or-bitwise,
}
use mathlib.Core.Path.{◌≡◌, refl, ap, sym, ◌∙◌}
use native.Mathlib.Omega.{arith}
use native.Mathlib.Nat.{pow-suc, one-le-pow}

-- Two amounts of fuel that are both enough give the same digits.
module _ (z : ℕ → ℕ) (f : ℕ → ℕ → ℕ) where
  spare : (k b : ℕ) → digits z f k 0 b ≡ z b
  spare zero b = refl
  spare (suc k) b = refl

  enough : (k l a b : ℕ) → a ≤ k → a ≤ l → digits z f k a b ≡ digits z f l a b
  enough k l zero b h g = spare k b ∙ sym (spare l b)
  enough zero l (suc a) b h g = absurd (omega arith)
  enough (suc k) zero (suc a) b h g = absurd (omega arith)
  enough (suc k) (suc l) (suc a) b h g =
      ap (λ d. d * 2 + f (suc a % 2) (b % 2))
        (enough k l (suc a / 2) (b / 2) (omega arith) (omega arith))

pub bit_and_split : (a b : ℕ) → bit_and a b ≡ bit_and (a / 2) (b / 2) * 2 + min (a % 2) (b % 2)
bit_and_split zero b = simp bit_and-bitwise (omega arith)
bit_and_split (suc a) b = simp bit_and-bitwise (
    ap (λ d. d * 2 + min (suc a % 2) (b % 2))
      (enough (λ _. zero) min a (suc a / 2) (suc a / 2) (b / 2) (omega arith) (omega arith)))

pub bit_or_split : (a b : ℕ) → bit_or a b ≡ bit_or (a / 2) (b / 2) * 2 + max (a % 2) (b % 2)
bit_or_split zero b = simp bit_or-bitwise (omega arith)
bit_or_split (suc a) b = simp bit_or-bitwise (
    ap (λ d. d * 2 + max (suc a % 2) (b % 2))
      (enough (λ y. y) max a (suc a / 2) (suc a / 2) (b / 2) (omega arith) (omega arith)))

and_nothing : (n a : ℕ) → a ≤ n → bit_and a 0 ≡ 0
and_nothing n zero h = refl
and_nothing zero (suc a) h = absurd (omega arith)
and_nothing (suc n) (suc a) h =
    omega (arith, bit_and_split (suc a) 0, and_nothing n (suc a / 2) (omega arith))

pub bit_and-zero : (a : ℕ) → bit_and a 0 ≡ 0
bit_and-zero a = and_nothing a a (omega arith)

or_nothing : (n a : ℕ) → a ≤ n → bit_or a 0 ≡ a
or_nothing n zero h = refl
or_nothing zero (suc a) h = absurd (omega arith)
or_nothing (suc n) (suc a) h =
    omega (arith, bit_or_split (suc a) 0, or_nothing n (suc a / 2) (omega arith))

twice_pow : (q k : ℕ) → q * 2 ^ suc k ≡ q * 2 ^ k * 2
twice_pow q k = omega (arith, ap (λ (t : ℕ). q * t) (pow-suc 2 k))

-- A low part below `2 ^ k` is what a mask of `k` ones keeps.
and_low : (k q r : ℕ) → r < 2 ^ k → bit_and (q * 2 ^ k + r) (2 ^ k - 1) ≡ r
and_low zero q r h = bit_and-zero (q * 1 + r) ∙ omega arith
and_low (suc k) q r h = ground (
  arith,
  twice_pow q k,
  pow-suc 2 k,
  one-le-pow k 2,
  bit_and_split (q * 2 ^ suc k + r) (2 ^ suc k - 1),
  and_low k q (r / 2) (omega (arith, pow-suc 2 k)),
)

pub bit_and_mask : (k a : ℕ) → bit_and a (2 ^ k - 1) ≡ a % 2 ^ k
bit_and_mask k a = ground (arith, one-le-pow k 2, and_low k (a / 2 ^ k) (a % 2 ^ k))

-- A mask that is shifted by `k` sees nothing of the lowest `k` bits.
and_shifted : (k q r b : ℕ) → r < 2 ^ k → bit_and (q * 2 ^ k + r) (b * 2 ^ k) ≡ bit_and q b * 2 ^ k
and_shifted zero q r b h = ground (arith)
and_shifted (suc k) q r b h = ground (
  arith,
  twice_pow q k,
  twice_pow b k,
  twice_pow (bit_and q b) k,
  pow-suc 2 k,
  bit_and_split (q * 2 ^ suc k + r) (b * 2 ^ suc k),
  and_shifted k q (r / 2) b (omega (arith, pow-suc 2 k)),
)

pub bit_and_field : (w k a : ℕ) → bit_and a ((2 ^ w - 1) * 2 ^ k) ≡ a / 2 ^ k % 2 ^ w * 2 ^ k
bit_and_field w k a = ground (
  arith,
  one-le-pow k 2,
  and_shifted k (a / 2 ^ k) (a % 2 ^ k) (2 ^ w - 1),
  bit_and_mask w (a / 2 ^ k),
)

-- `|` of a multiple of `2 ^ k` and a number below `2 ^ k` is their sum.
pub bit_or_fields : (k q r : ℕ) → r < 2 ^ k → bit_or (q * 2 ^ k) r ≡ q * 2 ^ k + r
bit_or_fields zero q r h = ground (arith, or_nothing q q)
bit_or_fields (suc k) q r h = ground (
  arith,
  twice_pow q k,
  pow-suc 2 k,
  bit_or_split (q * 2 ^ suc k) r,
  bit_or_fields k q (r / 2) (omega (arith, pow-suc 2 k)),
)

-- `&` and `|` work on the two parts of a number apart.
pub bit_and_concat :
    (k q r b c : ℕ)
    → r < 2 ^ k
    → c < 2 ^ k
    → bit_and (q * 2 ^ k + r) (b * 2 ^ k + c) ≡ bit_and q b * 2 ^ k + bit_and r c
bit_and_concat zero q r b c h g =
    let e : r ≡ 0 = omega arith in
    let d : c ≡ 0 = omega arith in
    let u : q * 2 ^ 0 + 0 ≡ q = omega arith in
    let v : b * 2 ^ 0 + 0 ≡ b = omega arith in rw (e, d, u, v) (omega (arith, bit_and-zero 0))
bit_and_concat (suc k) q r b c h g = ground (
  arith,
  twice_pow q k,
  twice_pow b k,
  twice_pow (bit_and q b) k,
  pow-suc 2 k,
  bit_and_split (q * 2 ^ suc k + r) (b * 2 ^ suc k + c),
  bit_and_split r c,
  bit_and_concat k q (r / 2) b (c / 2) (omega (arith, pow-suc 2 k)) (omega (arith, pow-suc 2 k)),
)

pub bit_or_concat :
    (k q r b c : ℕ)
    → r < 2 ^ k
    → c < 2 ^ k
    → bit_or (q * 2 ^ k + r) (b * 2 ^ k + c) ≡ bit_or q b * 2 ^ k + bit_or r c
bit_or_concat zero q r b c h g =
    let e : r ≡ 0 = omega arith in
    let d : c ≡ 0 = omega arith in
    let u : q * 2 ^ 0 + 0 ≡ q = omega arith in
    let v : b * 2 ^ 0 + 0 ≡ b = omega arith in
    rw (e, d, u, v) (omega (arith, or_nothing 0 0 (omega arith)))
bit_or_concat (suc k) q r b c h g = ground (
  arith,
  twice_pow q k,
  twice_pow b k,
  twice_pow (bit_or q b) k,
  pow-suc 2 k,
  bit_or_split (q * 2 ^ suc k + r) (b * 2 ^ suc k + c),
  bit_or_split r c,
  bit_or_concat k q (r / 2) b (c / 2) (omega (arith, pow-suc 2 k)) (omega (arith, pow-suc 2 k)),
)

pub bit_or-zero : (a : ℕ) → bit_or a 0 ≡ a
bit_or-zero a = or_nothing a a (omega arith)
