-- ===== src/Kstring/Decimal.antt =====
-- `%i` of `string_format_args` in kernel/kstring.c: the digits, and when the sign is written.
use mathlib.Core.List.{append_assoc, append-nil}
use craybond_os.Base.{
  ℕ, zero, suc, ◌+◌, ◌-◌, ◌*◌, ◌/◌, ◌%◌, ◌^◌, ◌≤◌, ◌<◌, ◌≡◌, refl, ◌≢◌, true, false, List, [], ◌∷◌,
  ◌++◌, arith, ltb, leb, ◌==◌, length, inl, inr, Bool-cases, ◌∙◌, ap, sym, u32, length-append,
  lt→ltb, ==_ne,
}
use craybond_os.Kstring.{append_max, decimal_loop, negate_int, put_int}
use native.Mathlib.Nat.{pow-suc}

-- The value of a text of decimal digits, after a value read before it.
unfoldable pub parse_decimal : ℕ → List ℕ → ℕ
parse_decimal acc [] = acc
parse_decimal acc (c ∷ cs) = parse_decimal (acc * 10 + (c - b'0')) cs

abbrev pub AllDigits : List ℕ → Type 0
AllDigits [] = Unit {0}
AllDigits (c ∷ cs) = (b'0' ≤ c) × (c ≤ b'9') × AllDigits cs

-- Within the limit of 255 bytes nothing is cut.
pub append_max-fits :
    (xs buf : List ℕ) → length buf + length xs ≤ 255 → append_max buf xs ≡ buf ++ xs
unfolding append_max
append_max-fits [] buf h = sym (append-nil buf)
append_max-fits (x ∷ xs) buf h = rw (lt→ltb (length buf) 255 (omega arith)) (
    append_max-fits xs (buf ++ (x ∷ [])) (omega (arith, length-append buf (x ∷ [])))
    ∙ append_assoc buf (x ∷ []) xs)

decimal_loop-parse :
    (k val : ℕ) (temp : List ℕ)
    → val < 10 ^ k
    → parse_decimal 0 (decimal_loop k val temp) ≡ parse_decimal val temp
unfolding decimal_loop parse_decimal
decimal_loop-parse zero val temp h = let e : val ≡ 0 = omega arith in rw e refl
decimal_loop-parse (suc k) val temp h = elim (Bool-cases (val / 10 == 0)) [
  | inl e ↦ rw e (ap (λ t. parse_decimal t temp) (ground arith))
  | inr e ↦ rw e (
      decimal_loop-parse k (val / 10) ((b'0' + val % 10) ∷ temp) (omega (arith, pow-suc 10 k))
      ∙ ap (λ t. parse_decimal t temp) (omega arith))
]

decimal_loop-AllDigits :
    (k val : ℕ) (temp : List ℕ) → AllDigits temp → AllDigits (decimal_loop k val temp)
unfolding decimal_loop
decimal_loop-AllDigits zero val temp h = h
decimal_loop-AllDigits (suc k) val temp h =
    let temp' = (b'0' + val % 10) ∷ temp in
    let h' : AllDigits temp' = (omega arith, omega arith, h) in
    elim (Bool-cases (val / 10 == 0)) [
      | inl e ↦ rw e h'
      | inr e ↦ rw e (decimal_loop-AllDigits k (val / 10) temp' h')
    ]

length-decimal_loop :
    (k val : ℕ) (temp : List ℕ) → length (decimal_loop k val temp) ≤ k + length temp
unfolding decimal_loop
length-decimal_loop zero val temp = omega arith
length-decimal_loop (suc k) val temp =
    ground (arith, length-decimal_loop k (val / 10) ((b'0' + val % 10) ∷ temp))

-- The digits of a 64-bit magnitude.
pub record IsDecimal (magnitude : ℕ) (ds : List ℕ) : Type 0 where
  pub value_of : parse_decimal 0 ds ≡ magnitude
  pub digits : AllDigits ds
  pub short : length ds ≤ 20

decimal : ℕ → List ℕ
decimal val = decimal_loop 20 val []

decimal-IsDecimal : (val : ℕ) → val < 2 ^ 64 → IsDecimal val (decimal val)
unfolding decimal parse_decimal
decimal-IsDecimal val h = record {
  value_of = decimal_loop-parse 20 val [] (omega arith);
  digits = decimal_loop-AllDigits 20 val [] tt;
  short = length-decimal_loop 20 val [];
}

negate_int-magnitude : (val : ℕ) → u32 val ≢ 2 ^ 31 → negate_int val ≡ 2 ^ 32 - u32 val
unfolding negate_int
negate_int-magnitude val h = rw (==_ne (u32 val) (2 ^ 31) h)

-- A value whose low 32 bits are not negative as an int is written in full, as a 64-bit number.
pub put_int-plain :
    (val : ℕ) (buf : List ℕ)
    → val < 2 ^ 64
    → u32 val < 2 ^ 31
    → length buf ≤ 235
    → (ds : List ℕ) × (put_int val buf ≡ buf ++ ds) × IsDecimal val ds
unfolding put_int decimal
put_int-plain val buf h low room =
    let d = decimal-IsDecimal val h in
    let sign : leb (2 ^ 31) (u32 val) ≡ false = ground arith in
    (decimal val, rw sign (append_max-fits (decimal val) buf (omega (arith, d.short))), d)

-- A negative int gets its sign if fewer than 20 bytes stand in the buffer.
pub put_int-negative :
    (val : ℕ) (buf : List ℕ)
    → 2 ^ 31 < u32 val
    → length buf < 20
    → (ds : List ℕ) × (put_int val buf ≡ buf ++ (b'-' ∷ ds)) × IsDecimal (2 ^ 32 - u32 val) ds
unfolding put_int decimal
put_int-negative val buf high room =
    let m = 2 ^ 32 - u32 val in
    let d = decimal-IsDecimal m (omega arith) in
    let sign : leb (2 ^ 31) (u32 val) ≡ true = ground arith in
    (
      decimal m,
      rw (sign, negate_int-magnitude val (omega arith), lt→ltb (length buf) 20 room)
          (append_max-fits (b'-' ∷ decimal m) buf (omega (arith, d.short))),
      d,
    )

-- Behind 20 bytes or more the sign of a negative int is lost: the text is that of its magnitude.
pub put_int-sign_lost :
    (val : ℕ) (buf : List ℕ)
    → 2 ^ 31 < u32 val
    → 20 ≤ length buf
    → put_int val buf ≡ put_int (2 ^ 32 - u32 val) buf
unfolding put_int
put_int-sign_lost val buf high full =
    let sign : leb (2 ^ 31) (u32 val) ≡ true = ground arith in
    let no_sign : leb (2 ^ 31) (u32 (2 ^ 32 - u32 val)) ≡ false = ground arith in
    let past : ltb (length buf) 20 ≡ false = ground arith in
    rw (sign, no_sign, past, negate_int-magnitude val (omega arith))
