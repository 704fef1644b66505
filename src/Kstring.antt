-- ===== src/Kstring.antt =====
-- The functions of kernel/kstring.c. A `const char *` is the list of the bytes at that address: a
-- read past the end of the list is the terminator 0, and a list may hold a 0 of its own, which ends
-- the text early. A buffer that the code fills by `buf[len++] = c` is the list of what it holds,
-- and `len` is its length; the blocks that `talloc` returns for the buffers are the subject of
-- Alloc.
use craybond_os.Base.{
  ℕ, zero, suc, ◌+◌, ◌-◌, ◌*◌, ◌/◌, ◌%◌, ◌^◌, Bool, true, false, ◌&&◌, ◌||◌, not, List, [], ◌∷◌,
  ◌++◌, ltb, leb, ◌==◌, if◌then◌else◌, length, get_or, u8, u32, add32, sub32, shr, bit_and,
}
mod Tests
pub mod Length
pub mod Compare
pub mod Contains
pub mod Hex
pub mod Decimal
pub mod Format

-- `kstring`: `data` points to bytes, `length` is the number that the creator counted.
pub record Kstring : Type 0 where
  pub text : List ℕ
  pub len : ℕ

unfoldable pub char_at : List ℕ → ℕ → ℕ
char_at s i = get_or s i 0

-- The `while` loop of `compute_length`, on fuel.
compute_length_loop : ℕ → List ℕ → ℕ → ℕ → ℕ
unfolding char_at
compute_length_loop zero s max_length len = len
compute_length_loop (suc fuel) s max_length len =
    let rest = compute_length_loop fuel s max_length (add32 len 1) in
    if (max_length == 0 || ltb len max_length) && not (char_at s len == 0) then rest else len

pub compute_length : List ℕ → ℕ → ℕ
unfolding compute_length_loop
compute_length s max_length = compute_length_loop (suc (length s)) s max_length 0

pub string_l : List ℕ → Kstring
string_l literal = record { text = literal; len = compute_length literal 0 }

unfoldable pub string_ca_max : List ℕ → ℕ → Kstring
string_ca_max array max_length = record { text = array; len = compute_length array max_length }

pub string_c : ℕ → Kstring
string_c c = record { text = c ∷ 0 ∷ []; len = 1 }

unfoldable pub hex_char : ℕ → ℕ
hex_char nibble = if ltb nibble 10 then b'0' + nibble else b'A' + (nibble - 10)

-- `for (int i = 60; i >= 0; i -= 4)`: with `suc k` rounds left, `i` is `4 * k`.
unfoldable pub hex_loop : ℕ → ℕ → Bool → List ℕ → List ℕ
hex_loop zero value started buf = buf
hex_loop (suc k) value started buf =
    let curr_char = hex_char (bit_and (shr value (4 * k)) 0xF) in
    let keep = started || (not (curr_char == b'0') || k == 0) in
    hex_loop k value keep (if keep then buf ++ (curr_char ∷ []) else buf)

unfoldable pub string_from_hex : ℕ → Kstring
unfolding hex_loop hex_char
string_from_hex value =
    let buf = hex_loop 16 value false (b'0' ∷ b'x' ∷ []) in record { text = buf; len = length buf }

-- The difference of two `unsigned char`, returned as the `unsigned int` that `bool` is here.
unfoldable pub strcmp : List ℕ → List ℕ → ℕ
strcmp [] [] = 0
strcmp [] (y ∷ ys) = sub32 0 y
strcmp (x ∷ xs) [] = sub32 x 0
strcmp (x ∷ xs) (y ∷ ys) =
    if not (x == 0) && not (y == 0)
    then if not (x == y) then sub32 x y else strcmp xs ys
    else sub32 x y

unfoldable pub string_equals : Kstring → Kstring → Bool
string_equals a b = strcmp a.text b.text == 0

-- The inner loop of `strcont`: whether it leaves `*q == 0`.
match_here : List ℕ → List ℕ → Bool
match_here p [] = true
match_here [] (q ∷ qs) = q == 0
match_here (p ∷ ps) (q ∷ qs) =
    if not (p == 0) && (not (q == 0) && p == q) then match_here ps qs else q == 0

unfoldable pub strcont : List ℕ → List ℕ → Bool
unfolding match_here
strcont [] b = false
strcont (x ∷ xs) b = if x == 0 then false else if match_here (x ∷ xs) b then true else strcont xs b

-- `for (j = 0; j < n && len < 255; j++) buf[len++] = src[j]`
unfoldable pub append_max : List ℕ → List ℕ → List ℕ
append_max buf [] = buf
append_max buf (x ∷ xs) = if ltb (length buf) 255 then append_max (buf ++ (x ∷ [])) xs else buf

-- The same for a `%s` argument, which ends at its terminator.
unfoldable pub append_str : List ℕ → List ℕ → List ℕ
append_str buf [] = buf
append_str buf (x ∷ xs) =
    if not (x == 0) && ltb (length buf) 255 then append_str (buf ++ (x ∷ [])) xs else buf

-- `do … while (val && temp_len < 20)`, with the rounds left. `temp` is held last digit first, as
-- the copy into `buf` reads it.
pub decimal_loop : ℕ → ℕ → List ℕ → List ℕ
decimal_loop zero val temp = temp
decimal_loop (suc k) val temp =
    let temp' = (b'0' + val % 10) ∷ temp in
    let rest = decimal_loop k (val / 10) temp' in if val / 10 == 0 then temp' else rest

-- `(uint64_t)(-(int)val)` of a negative `(int)val`. The least int has no negation; there the result
-- is that of two's complement.
negate_int : ℕ → ℕ
negate_int val = if u32 val == 2 ^ 31 then 2 ^ 64 - 2 ^ 31 else 2 ^ 32 - u32 val

-- `%i`: `len` is the length of `buf`, also in the test that guards the sign.
pub put_int : ℕ → List ℕ → List ℕ
unfolding decimal_loop negate_int append_max
put_int val buf =
    let negative = leb (2 ^ 31) (u32 val) in
    let temp = decimal_loop 20 (if negative then negate_int val else val) [] in
    append_max buf (if negative && ltb (length buf) 20 then b'-' ∷ temp else temp)

-- What a directive `%d` does with the buffer. `mem` gives the bytes at an address.
unfoldable pub put_directive : (mem : ℕ → List ℕ) → ℕ → ℕ → List ℕ → List ℕ
put_directive mem d val buf =
    if d == b'h'
    then append_max buf (string_from_hex val).text
    else if d == b'c'
    then buf ++ (u8 val ∷ [])
    else if d == b's'
    then append_str buf (mem val)
    else if d == b'i'
    then put_int val buf
    else buf ++ (b'%' ∷ d ∷ [])

abbrev pub takes_arg : ℕ → Bool
takes_arg d = d == b'h' || (d == b'c' || (d == b's' || d == b'i'))

-- The `for` loop over `fmt`, whose rest is the list. `idx` is `arg_index`.
pub format_loop : (mem : ℕ → List ℕ) (args : List ℕ) (count : ℕ) → List ℕ → ℕ → List ℕ → List ℕ
format_loop mem args count [] idx buf = buf
format_loop mem args count (c ∷ []) idx buf =
    if not (c == 0) && ltb (length buf) 255 then buf ++ (c ∷ []) else buf
format_loop mem args count (c ∷ d ∷ rest) idx buf =
    let plain = format_loop mem args count (d ∷ rest) idx (buf ++ (c ∷ [])) in
    let next =
      format_loop mem args count rest (if takes_arg d then idx + 1 else idx)
        (put_directive mem d (get_or args idx 0) buf) in
    if not (c == 0) && ltb (length buf) 255
    then if c == b'%' && not (d == 0) then (if leb count idx then buf else next) else plain
    else buf

pub string_format_args : (mem : ℕ → List ℕ) → List ℕ → List ℕ → ℕ → Kstring
unfolding format_loop put_directive string_from_hex put_int append_max append_str
string_format_args mem fmt args count =
    let buf = format_loop mem args count fmt 0 [] in record { text = buf; len = length buf }
