-- ===== src/Kstring/Tests.antt =====
-- Runs of the functions of kernel/kstring.c, and their theorems at concrete texts.
use Prim.Native.Char.{code}
use Prim.Native.String.{String}
use craybond_os.Base.{
  ℕ, ◌≤◌, ◌≡◌, ◌≢◌, ◌↔◌, refl, true, List, [], ◌∷◌, ◌++◌, arith, length, replicate,
}
use craybond_os.Kstring.{compute_length, string_from_hex, strcont, string_format_args}
use craybond_os.Kstring.Contains.{strcont_iff, Occurs}
use craybond_os.Kstring.Hex.{IsHexText, string_from_hex-IsHexText}
use craybond_os.Kstring.Format.{string_format_args-le, string_format_args-overrun, AllPlain}

abbrev codes : String → List ℕ
codes String.[] = []
codes (String.◌∷◌ c s) = code c ∷ codes s

abbrev no_mem : ℕ → List ℕ
no_mem p = []

hex_255 : string_from_hex 255 ≡ record { text = codes "0xFF"; len = 4 }
unfolding string_from_hex
hex_255 = refl

hex_zero : (string_from_hex 0).text ≡ codes "0x0"
unfolding string_from_hex
hex_zero = refl

prefix_length : compute_length (codes "Hello, World!") 5 ≡ 5
unfolding compute_length
prefix_length = refl

format_value :
    (string_format_args no_mem (codes "Value: %h (%i)") (255 ∷ 42 ∷ []) 2).text
    ≡ codes "Value: 0xFF (42)"
unfolding string_format_args
format_value = refl

format_missing_argument : (string_format_args no_mem (codes "100%!") [] 0).text ≡ codes "100"
unfolding string_format_args
format_missing_argument = refl

strcont_iff_example :
    (strcont (codes "memory@40000000") (codes "memory") ≡ true)
    ↔ ((codes "memory@40000000" ≢ []) × Occurs (codes "memory") (codes "memory@40000000"))
strcont_iff_example =
    strcont_iff (codes "memory@40000000") (codes "memory") (omega arith) (omega arith)

string_from_hex-IsHexText_example : IsHexText 0x1F00 (string_from_hex 0x1F00)
string_from_hex-IsHexText_example = string_from_hex-IsHexText 0x1F00 (omega arith)

string_format_args-le_example :
    let s = string_format_args no_mem (replicate 300 b'x') [] 0 in
    (s.len ≡ length s.text) × (s.len ≤ 256)
string_format_args-le_example = string_format_args-le no_mem (replicate 300 b'x') [] 0

plain_254 : AllPlain (replicate 254 b'x')
plain_254 = omega arith

string_format_args-overrun_example :
    (string_format_args no_mem (replicate 254 b'x' ++ (b'%' ∷ b'd' ∷ [])) (7 ∷ []) 1).len ≡ 256
string_format_args-overrun_example =
    string_format_args-overrun no_mem (replicate 254 b'x') (7 ∷ []) b'd' 1 plain_254 refl
      (omega arith) refl (omega arith)
