-- ===== src/Kstring/Format.antt =====
-- `string_format_args` of kernel/kstring.c: how long the text gets, and what it says.
use mathlib.Core.List.{append_assoc, append-nil}
use craybond_os.Base.{
  ℕ, ◌+◌, ◌≤◌, ◌<◌, ◌≡◌, refl, ◌≢◌, false, List, [], ◌∷◌, ◌++◌, arith, leb, ◌==◌, if◌then◌else◌,
  length, inl, inr, Bool-cases, ◌∙◌, ap, sym, length-append, get_or, u8, ==_ne, lt→ltb,
}
use craybond_os.Kstring.Compare.{visible}
use craybond_os.Kstring.Decimal.{append_max-fits}
use craybond_os.Kstring.{
  append_max, append_str, put_int, put_directive, takes_arg, format_loop, string_format_args,
  string_from_hex,
}

length-snoc : (buf : List ℕ) (c : ℕ) → length (buf ++ (c ∷ [])) ≡ length buf + 1
length-snoc buf c = length-append buf (c ∷ [])

append_max-le : (xs buf : List ℕ) → length buf ≤ 255 → length (append_max buf xs) ≤ 255
unfolding append_max
append_max-le [] buf h = h
append_max-le (x ∷ xs) buf h = ground (arith, length-snoc buf x, append_max-le xs (buf ++ (x ∷ [])))

append_str-le : (xs buf : List ℕ) → length buf ≤ 255 → length (append_str buf xs) ≤ 255
unfolding append_str
append_str-le [] buf h = h
append_str-le (x ∷ xs) buf h = ground (arith, length-snoc buf x, append_str-le xs (buf ++ (x ∷ [])))

put_int-le : (val : ℕ) (buf : List ℕ) → length buf ≤ 255 → length (put_int val buf) ≤ 255
unfolding put_int
put_int-le val buf h = append_max-le _ buf h

put_directive-le :
    (mem : ℕ → List ℕ) (d val : ℕ) (buf : List ℕ)
    → length buf < 255
    → length (put_directive mem d val buf) ≤ 256
unfolding put_directive
put_directive-le mem d val buf h = ground (
  arith,
  append_max-le (string_from_hex val).text buf,
  append_str-le (mem val) buf,
  put_int-le val buf,
  length-snoc buf (u8 val),
  length-append buf (b'%' ∷ d ∷ []),
)

format_loop-le :
    (mem : ℕ → List ℕ) (args : List ℕ) (count : ℕ) (fmt : List ℕ) (idx : ℕ) (buf : List ℕ)
    → length buf ≤ 256
    → length (format_loop mem args count fmt idx buf) ≤ 256
unfolding format_loop
format_loop-le mem args count [] idx buf h = h
format_loop-le mem args count (c ∷ []) idx buf h = ground (arith, length-snoc buf c)
format_loop-le mem args count (c ∷ d ∷ rest) idx buf h =
    let val = get_or args idx 0 in
    ground (
      arith,
      length-snoc buf c,
      put_directive-le mem d val buf,
      format_loop-le mem args count (d ∷ rest) idx (buf ++ (c ∷ [])),
      format_loop-le mem args count rest (if takes_arg d then idx + 1 else idx)
          (put_directive mem d val buf),
    )

-- The text that `string_format_args` returns has at most 256 bytes, whatever the format and the
-- arguments are, and `length` counts them.
pub string_format_args-le :
    (mem : ℕ → List ℕ) (fmt args : List ℕ) (count : ℕ)
    → let s = string_format_args mem fmt args count in (s.len ≡ length s.text) × (s.len ≤ 256)
unfolding string_format_args
string_format_args-le mem fmt args count =
    (refl, format_loop-le mem args count fmt 0 [] (omega arith))

-- A byte that the loop copies as it is, wherever it stands.
abbrev pub AllPlain : List ℕ → Type 0
AllPlain [] = Unit {0}
AllPlain (c ∷ cs) = (c ≢ 0) × (c ≢ b'%') × AllPlain cs

copy_step :
    (mem : ℕ → List ℕ) (args : List ℕ) (count c d : ℕ) (rest : List ℕ) (idx : ℕ) (buf : List ℕ)
    → c ≢ 0
    → c ≢ b'%'
    → length buf < 255
    → format_loop mem args count (c ∷ d ∷ rest) idx buf
      ≡ format_loop mem args count (d ∷ rest) idx (buf ++ (c ∷ []))
unfolding format_loop
copy_step mem args count c d rest idx buf nz np h =
    rw (==_ne c 0 nz, ==_ne c b'%' np, lt→ltb (length buf) 255 h)

-- Plain bytes in front of at least one more byte are copied.
format_loop-plain :
    (mem : ℕ → List ℕ) (args : List ℕ) (count : ℕ) (pre : List ℕ) (d : ℕ) (rest : List ℕ) (idx : ℕ)
    (buf : List ℕ)
    → AllPlain pre
    → length buf + length pre ≤ 255
    → format_loop mem args count (pre ++ (d ∷ rest)) idx buf
      ≡ format_loop mem args count (d ∷ rest) idx (buf ++ pre)
format_loop-plain mem args count [] d rest idx buf p h = rw (append-nil buf)
format_loop-plain mem args count (c ∷ []) d rest idx buf p h =
    copy_step mem args count c d rest idx buf p.0 p.1 (omega arith)
format_loop-plain mem args count (c ∷ e ∷ pre) d rest idx buf p h =
    copy_step mem args count c e (pre ++ (d ∷ rest)) idx buf p.0 p.1 (omega arith)
    ∙ format_loop-plain mem args count (e ∷ pre) d rest idx (buf ++ (c ∷ [])) p.2
        (omega (arith, length-snoc buf c))
    ∙ ap (format_loop mem args count (d ∷ rest) idx) (append_assoc buf (c ∷ []) (e ∷ pre))

last_nil :
    (mem : ℕ → List ℕ) (args : List ℕ) (count idx : ℕ) (buf : List ℕ)
    → format_loop mem args count [] idx buf ≡ buf
unfolding format_loop
last_nil mem args count idx buf = refl

last_step :
    (mem : ℕ → List ℕ) (args : List ℕ) (count c idx : ℕ) (buf : List ℕ)
    → c ≢ 0
    → length buf < 255
    → format_loop mem args count (c ∷ []) idx buf ≡ buf ++ (c ∷ [])
unfolding format_loop
last_step mem args count c idx buf nz h = rw (==_ne c 0 nz, lt→ltb (length buf) 255 h)

format_loop-copy :
    (mem : ℕ → List ℕ) (args : List ℕ) (count : ℕ) (xs : List ℕ) (idx : ℕ) (buf : List ℕ)
    → AllPlain xs
    → length buf + length xs ≤ 255
    → format_loop mem args count xs idx buf ≡ buf ++ xs
format_loop-copy mem args count [] idx buf p h = nothing ∙ sym (append-nil buf)
  where
    nothing : format_loop mem args count [] idx buf ≡ buf
    nothing = last_nil mem args count idx buf
format_loop-copy mem args count (c ∷ []) idx buf p h =
    last_step mem args count c idx buf p.0 (omega arith)
format_loop-copy mem args count (c ∷ d ∷ xs) idx buf p h =
    copy_step mem args count c d xs idx buf p.0 p.1 (omega arith)
    ∙ format_loop-copy mem args count (d ∷ xs) idx (buf ++ (c ∷ [])) p.2
        (omega (arith, length-snoc buf c))
    ∙ append_assoc buf (c ∷ []) (d ∷ xs)

-- A format of at most 255 bytes, none of them `%` or the terminator, is its own text.
pub string_format_args-plain :
    (mem : ℕ → List ℕ) (fmt args : List ℕ) (count : ℕ)
    → AllPlain fmt
    → length fmt ≤ 255
    → (string_format_args mem fmt args count).text ≡ fmt
unfolding string_format_args
string_format_args-plain mem fmt args count p h =
    format_loop-copy mem args count fmt 0 [] p (omega arith)

directive_step :
    (mem : ℕ → List ℕ) (args : List ℕ) (count d : ℕ) (rest : List ℕ) (idx : ℕ) (buf : List ℕ)
    → d ≢ 0
    → length buf < 255
    → idx < count
    → format_loop mem args count (b'%' ∷ d ∷ rest) idx buf
      ≡ format_loop mem args count rest
          (if takes_arg d then idx + 1 else idx)
          (put_directive mem d (get_or args idx 0) buf)
unfolding format_loop
directive_step mem args count d rest idx buf nz h more =
    let left : leb count idx ≡ false = ground arith in
    rw (==_ne d 0 nz, lt→ltb (length buf) 255 h, left)

-- One directive between plain texts: what it writes behind the first, then the second.
one_directive :
    (mem : ℕ → List ℕ) (pre : List ℕ) (d : ℕ) (post : List ℕ) (val : ℕ)
    → AllPlain pre
    → AllPlain post
    → d ≢ 0
    → length pre < 255
    → length (put_directive mem d val pre) + length post ≤ 255
    → (string_format_args mem (pre ++ (b'%' ∷ d ∷ post)) (val ∷ []) 1).text
      ≡ put_directive mem d val pre ++ post
unfolding string_format_args
one_directive mem pre d post val p q nz h room =
    format_loop-plain mem (val ∷ []) 1 pre b'%' (d ∷ post) 0 [] p (omega arith)
    ∙ directive_step mem (val ∷ []) 1 d post 0 pre nz h (omega arith)
    ∙ format_loop-copy mem (val ∷ []) 1 post (if takes_arg d then 0 + 1 else 0)
        (put_directive mem d val pre) q room

append_str-visible :
    (xs buf : List ℕ)
    → length buf + length (visible xs) ≤ 255
    → append_str buf xs ≡ buf ++ visible xs
unfolding append_str visible
append_str-visible [] buf h = sym (append-nil buf)
append_str-visible (x ∷ xs) buf h = elim (Bool-cases (x == 0)) [
  | inl e ↦ rw e (sym (append-nil buf))
  | inr e ↦
      rw (e, lt→ltb (length buf) 255 (ground arith))
        (append_str-visible xs (buf ++ (x ∷ [])) (ground (arith, length-snoc buf x))
          ∙ append_assoc buf (x ∷ []) (visible xs))
]

put_other :
    (mem : ℕ → List ℕ) (val : ℕ) (pre : List ℕ) (d : ℕ)
    → takes_arg d ≡ false
    → put_directive mem d val pre ≡ pre ++ (b'%' ∷ d ∷ [])
unfolding put_directive
put_other mem val pre d h = ground arith

-- What replaces `%h`, `%c` and `%s`: the hexadecimal text of the argument, its low byte, and the
-- text at the address that it is. A `%` before any other byte but `i` stays as it is.
abbrev pub directive_text : (mem : ℕ → List ℕ) → ℕ → ℕ → List ℕ
directive_text mem d val =
    if d == b'h'
    then (string_from_hex val).text
    else if d == b'c'
    then u8 val ∷ []
    else if d == b's'
    then visible (mem val)
    else b'%' ∷ d ∷ []

put_directive_lem :
    (mem : ℕ → List ℕ) (d val : ℕ) (pre : List ℕ)
    → d ≢ b'i'
    → length pre + length (directive_text mem d val) ≤ 255
    → put_directive mem d val pre ≡ pre ++ directive_text mem d val
unfolding put_directive
put_directive_lem mem d val pre ni room =
    ground (arith, append_max-fits (string_from_hex val).text pre, append_str-visible (mem val) pre)

-- A format with one directive other than `%i` between plain texts, whose whole text has at most 255
-- bytes: the first text, what replaces the directive, and the second text, with nothing cut.
pub string_format_args-directive :
    (mem : ℕ → List ℕ) (pre : List ℕ) (d : ℕ) (post : List ℕ) (val : ℕ)
    → AllPlain pre
    → AllPlain post
    → d ≢ 0
    → d ≢ b'i'
    → length pre < 255
    → length pre + length (directive_text mem d val) + length post ≤ 255
    → (string_format_args mem (pre ++ (b'%' ∷ d ∷ post)) (val ∷ []) 1).text
      ≡ (pre ++ directive_text mem d val) ++ post
string_format_args-directive mem pre d post val p q nz ni h room =
    let e = put_directive_lem mem d val pre ni (omega arith) in
    one_directive mem pre d post val p q nz h
      (omega (arith, ap length e, length-append pre (directive_text mem d val)))
    ∙ ap (λ t. t ++ post) e

-- With an argument left, after 254 plain bytes a `%` before a byte that names no directive adds two
-- bytes to the text, which then is as long as its block of 256 bytes, and not the 255 that the loop
-- is to keep to.
pub string_format_args-overrun :
    (mem : ℕ → List ℕ) (pre args : List ℕ) (d count : ℕ)
    → AllPlain pre
    → length pre ≡ 254
    → d ≢ 0
    → takes_arg d ≡ false
    → 0 < count
    → (string_format_args mem (pre ++ (b'%' ∷ d ∷ [])) args count).len ≡ 256
unfolding string_format_args
string_format_args-overrun mem pre args d count p full nz other left =
    ap length (
      format_loop-plain mem args count pre b'%' (d ∷ []) 0 [] p (omega arith)
      ∙ directive_step mem args count d [] 0 pre nz (omega arith) (omega arith)
      ∙ last_nil mem args count (if takes_arg d then 0 + 1 else 0)
          (put_directive mem d (get_or args 0 0) pre)
      ∙ put_other mem (get_or args 0 0) pre d other)
    ∙ length-append pre (b'%' ∷ d ∷ [])
    ∙ omega arith
