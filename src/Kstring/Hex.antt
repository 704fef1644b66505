-- ===== src/Kstring/Hex.antt =====
-- `string_from_hex` of kernel/kstring.c, and a reader of hexadecimal digits.
use mathlib.Core.List.{append_assoc, append-nil}
use native.Mathlib.Nat.{pow-suc, one-le-pow, div-add-mod, add-mul-mod_self_right, mod-eq_of_lt}
use craybond_os.Base.{
  ℕ, zero, suc, ◌+◌, ◌-◌, ◌*◌, ◌/◌, ◌%◌, ◌^◌, ◌≤◌, ◌<◌, ◌≡◌, refl, ◌⊎◌, ◌≢◌, Bool, true, false, not,
  ◌&&◌, ◌||◌, List, [], ◌∷◌, ◌++◌, arith, ltb, ◌==◌, if◌then◌else◌, length, inl, inr, Bool-cases,
  ==→eq, ==_ne, ◌∙◌, ap, sym, bit_and, bit_and_mask, shr,
}
use craybond_os.Kstring.{Kstring, hex_char, hex_loop, string_from_hex}

unfoldable pub digit_value : ℕ → ℕ
digit_value c = if ltb c b'A' then c - b'0' else c - b'A' + 10

-- The value of a text of hexadecimal digits, after a value read before it.
unfoldable pub parse_hex : ℕ → List ℕ → ℕ
parse_hex acc [] = acc
parse_hex acc (c ∷ cs) = parse_hex (acc * 16 + digit_value c) cs

unfoldable pub is_hex : ℕ → Bool
is_hex c = (not (ltb c b'0') && ltb c (b'9' + 1)) || (not (ltb c b'A') && ltb c (b'F' + 1))

abbrev pub AllHex : List ℕ → Type 0
AllHex [] = Unit {0}
AllHex (c ∷ cs) = (is_hex c ≡ true) × AllHex cs

hex_char_lem :
    (n : ℕ)
    → n < 16
    → (digit_value (hex_char n) ≡ n) × (is_hex (hex_char n) ≡ true) × (hex_char n ≢ b'0' ⊎ (n ≡ 0))
unfolding digit_value hex_char is_hex
hex_char_lem n h = ground arith

hex_char-zero : hex_char 0 ≡ b'0'
unfolding hex_char
hex_char-zero = refl

-- The nibble that the round with `i = 4 * k` reads.
nibble : ℕ → ℕ → ℕ
nibble value k = value / 2 ^ (4 * k) % 16

nibble_lem : (value k : ℕ) → bit_and (shr value (4 * k)) 0xF ≡ nibble value k
unfolding nibble
nibble_lem value k = bit_and_mask 4 (value / 2 ^ (4 * k))

nibble-lt : (value k : ℕ) → nibble value k < 16
unfolding nibble
nibble-lt value k = omega arith

-- The text of the digits from nibble `k - 1` down, once a digit has been written.
digits_of : ℕ → ℕ → List ℕ
digits_of zero value = []
digits_of (suc k) value = hex_char (nibble value k) ∷ digits_of k value

hex_loop-started :
    (k value : ℕ) (buf : List ℕ) → hex_loop k value true buf ≡ buf ++ digits_of k value
unfolding hex_loop digits_of
hex_loop-started zero value buf = sym (append-nil buf)
hex_loop-started (suc k) value buf = rw (nibble_lem value k) (
    hex_loop-started k value (buf ++ (hex_char (nibble value k) ∷ []))
    ∙ append_assoc buf (hex_char (nibble value k) ∷ []) (digits_of k value))

-- The digits without the leading zeros: what is written from nibble `k - 1` down.
significant : ℕ → ℕ → List ℕ
significant zero value = []
significant (suc k) value =
    if nibble value k == 0 && not (k == 0) then significant k value else digits_of (suc k) value

hex_char_test : (n : ℕ) → n < 16 → (hex_char n == b'0') ≡ (n == 0)
unfolding hex_char
hex_char_test n h = ground arith

module _ (k value : ℕ) (buf : List ℕ) (c : ℕ) where
  significant_step :
      (z last : Bool)
      → hex_loop k value false buf ≡ buf ++ significant k value
      → hex_loop k value (not z || last) (if not z || last then buf ++ (c ∷ []) else buf)
        ≡ buf ++ (if z && not last then significant k value else c ∷ digits_of k value)
  significant_step true false ih = ih
  significant_step true true ih =
      hex_loop-started k value (buf ++ (c ∷ [])) ∙ append_assoc buf (c ∷ []) (digits_of k value)
  significant_step false last ih =
      hex_loop-started k value (buf ++ (c ∷ [])) ∙ append_assoc buf (c ∷ []) (digits_of k value)

hex_loop-significant :
    (k value : ℕ) (buf : List ℕ) → hex_loop k value false buf ≡ buf ++ significant k value
unfolding hex_loop significant digits_of
hex_loop-significant zero value buf = sym (append-nil buf)
hex_loop-significant (suc k) value buf =
    rw (nibble_lem value k, hex_char_test (nibble value k) (nibble-lt value k))
      (significant_step k value buf (hex_char (nibble value k)) (nibble value k == 0) (k == 0)
        (hex_loop-significant k value buf))

pow_step : (k : ℕ) → 2 ^ (4 * suc k) ≡ 2 ^ (4 * k) * 16
pow_step k =
    let e : 4 * suc k ≡ suc (suc (suc (suc (4 * k)))) = omega arith in
    rw e (
      omega (
        arith,
        pow-suc 2 (4 * k),
        pow-suc 2 (suc (4 * k)),
        pow-suc 2 (suc (suc (4 * k))),
        pow-suc 2 (suc (suc (suc (4 * k)))),
      ))

regroup : (v p q r a b : ℕ) → v ≡ p * q + r → q ≡ a * 16 + b → v ≡ b * p + r + a * (p * 16)
regroup v p q r a b e f = omega (arith, ap (λ (t : ℕ). p * t) f)

mod_split : (v p : ℕ) → 0 < p → v % (p * 16) ≡ v / p % 16 * p + v % p
mod_split v p h =
    let q = v / p in
    let low = q % 16 * p + v % p in
    let small : low < p * 16 = grind arith in
    let whole : v ≡ low + q / 16 * (p * 16) =
      regroup v p q (v % p) (q / 16) (q % 16) (sym (div-add-mod v p)) (omega arith) in
    ap (λ t. t % (p * 16)) whole ∙ add-mul-mod_self_right low (q / 16) (p * 16) ∙ mod-eq_of_lt small

nibble_eq : (value k : ℕ) → nibble value k ≡ value / 2 ^ (4 * k) % 16
unfolding nibble
nibble_eq value k = refl

parse_hex-cons :
    (acc c : ℕ) (cs : List ℕ) → parse_hex acc (c ∷ cs) ≡ parse_hex (acc * 16 + digit_value c) cs
unfolding parse_hex
parse_hex-cons acc c cs = refl

parse_hex-digits_of :
    (k acc value : ℕ) → parse_hex acc (digits_of k value) ≡ acc * 2 ^ (4 * k) + value % 2 ^ (4 * k)
unfolding parse_hex digits_of
parse_hex-digits_of zero acc value = omega arith
parse_hex-digits_of (suc k) acc value =
    let n = nibble value k in
    ap (λ d. parse_hex (acc * 16 + d) (digits_of k value)) (hex_char_lem n (nibble-lt value k)).0
    ∙ omega (
      arith,
      pow_step k,
      ap (λ t. acc * t) (pow_step k),
      ap (λ t. value % t) (pow_step k),
      mod_split value (2 ^ (4 * k)) (one-le-pow (4 * k) 2 (omega arith)),
      ap (λ t. t * 2 ^ (4 * k)) (nibble_eq value k),
      parse_hex-digits_of k (acc * 16 + n) value,
    )

AllHex-digits_of : (k value : ℕ) → AllHex (digits_of k value)
unfolding digits_of
AllHex-digits_of zero value = tt
AllHex-digits_of (suc k) value =
    ((hex_char_lem (nibble value k) (nibble-lt value k)).1, AllHex-digits_of k value)

length-digits_of : (k value : ℕ) → length (digits_of k value) ≡ k
unfolding digits_of
length-digits_of zero value = refl
length-digits_of (suc k) value = ap suc (length-digits_of k value)

-- What the loop may write after the prefix when `k` nibbles are left: at least one digit, at most
-- `k` digits, no needless zero in front.
abbrev pub IsShortest : List ℕ → Type 0
IsShortest [] = ⊥
IsShortest (c ∷ []) = Unit {0}
IsShortest (c ∷ d ∷ cs) = c ≢ b'0'

record Written (k value : ℕ) (ds : List ℕ) : Type 0 where
  value_of : parse_hex 0 ds ≡ value % 2 ^ (4 * k)
  digits : AllHex ds
  short : length ds ≤ k
  shortest : IsShortest ds

significant-suc :
    (k value : ℕ)
    → significant (suc k) value ≡ (
        if nibble value k == 0 && not (k == 0)
        then significant k value
        else digits_of (suc k) value)
unfolding significant
significant-suc k value = refl

skip_zero : (k value : ℕ) → nibble value k ≡ 0 → value % 2 ^ (4 * suc k) ≡ value % 2 ^ (4 * k)
skip_zero k value e =
    ap (λ t. value % t) (pow_step k)
    ∙ omega (
      arith,
      mod_split value (2 ^ (4 * k)) (one-le-pow (4 * k) 2 (omega arith)),
      ap (λ t. t * 2 ^ (4 * k)) (sym (nibble_eq value k) ∙ e),
    )

digits_of-IsShortest :
    (k value : ℕ) → (nibble value k ≢ 0 ⊎ (k ≡ 0)) → IsShortest (digits_of (suc k) value)
unfolding digits_of
digits_of-IsShortest zero value lead = tt
digits_of-IsShortest (suc k) value lead =
    ground (arith, hex_char_lem (nibble value (suc k)), nibble-lt value (suc k))

digits_of-Written :
    (k value : ℕ) → (nibble value k ≢ 0 ⊎ (k ≡ 0)) → Written (suc k) value (digits_of (suc k) value)
digits_of-Written k value lead = record {
  value_of = parse_hex-digits_of (suc k) 0 value ∙ omega arith;
  digits = AllHex-digits_of (suc k) value;
  short = omega (arith, length-digits_of (suc k) value);
  shortest = digits_of-IsShortest k value lead;
}

Written-suc :
    (k value : ℕ) {ds : List ℕ}
    → nibble value (suc k) ≡ 0
    → Written (suc k) value ds
    → Written (suc (suc k)) value ds
Written-suc k value e w = record {
  value_of = w.value_of ∙ sym (skip_zero (suc k) value e);
  digits = w.digits;
  short = omega arith;
  shortest = w.shortest;
}

significant-Written : (k value : ℕ) → Written (suc k) value (significant (suc k) value)
significant-Written zero value =
    rw (significant-suc 0 value) (elim (Bool-cases (nibble value 0 == 0)) [
      | inl e ↦ rw e (digits_of-Written 0 value (inr refl))
      | inr e ↦ rw e (digits_of-Written 0 value (inr refl))
    ])
significant-Written (suc k) value =
    rw (significant-suc (suc k) value) (elim (Bool-cases (nibble value (suc k) == 0)) [
      | inl e ↦
          rw (e, ==_ne (suc k) 0 (omega arith))
            (Written-suc k value (==→eq _ _ e) (significant-Written k value))
      | inr e ↦ rw e (digits_of-Written (suc k) value (inl (ground arith)))
    ])

-- What `string_from_hex` promises of the text that it returns.
pub record IsHexText (value : ℕ) (s : Kstring) : Type 0 where
  pub ds : List ℕ
  pub prefixed : s.text ≡ b'0' ∷ b'x' ∷ ds
  pub counted : s.len ≡ length s.text
  pub value_of : parse_hex 0 ds ≡ value
  pub digits : AllHex ds
  pub short : length ds ≤ 16
  pub shortest : IsShortest ds

-- For every 64-bit value `string_from_hex` returns "0x" and one to sixteen upper-case hexadecimal
-- digits that read back to the value, with no needless zero in front, and the length of that text.
pub string_from_hex-IsHexText :
    (value : ℕ) → value < 2 ^ 64 → IsHexText value (string_from_hex value)
unfolding string_from_hex
string_from_hex-IsHexText value h =
    let w = significant-Written 15 value in
    let e = hex_loop-significant 16 value (b'0' ∷ b'x' ∷ []) in
    record {
      ds = significant 16 value;
      prefixed = e;
      counted = refl;
      value_of = w.value_of ∙ omega arith;
      digits = w.digits;
      short = w.short;
      shortest = w.shortest;
    }
