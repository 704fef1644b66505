-- ===== src/Kstring/Length.antt =====
-- `compute_length` of kernel/kstring.c against the recursive length of a C text.
use craybond_os.Base.{
  ℕ, zero, suc, ◌+◌, ◌^◌, ◌≤◌, ◌<◌, min, ◌≡◌, refl, false, List, [], ◌∷◌, arith, ◌==◌,
  if◌then◌else◌, length, get_or, inl, inr, Bool-cases,
}
use craybond_os.Kstring.{char_at, compute_length_loop, compute_length}

-- The number of bytes before the first terminator.
unfoldable pub strlen : List ℕ → ℕ
strlen [] = 0
strlen (x ∷ xs) = if x == 0 then 0 else suc (strlen xs)

pub strlen-le : (s : List ℕ) → strlen s ≤ length s
unfolding strlen
strlen-le [] = omega arith
strlen-le (x ∷ xs) = ground (arith, strlen-le xs)

-- Below `strlen` no byte is the terminator, and at `strlen` there is one.
char_at-strlen_below : (s : List ℕ) (i : ℕ) → i < strlen s → (get_or s i 0 == 0) ≡ false
unfolding strlen
char_at-strlen_below [] i h = absurd (omega arith)
char_at-strlen_below (x ∷ xs) zero h = ground arith
char_at-strlen_below (x ∷ xs) (suc i) h = ground (arith, char_at-strlen_below xs i)

char_at-strlen : (s : List ℕ) → get_or s (strlen s) 0 ≡ 0
unfolding strlen
char_at-strlen [] = refl
char_at-strlen (x ∷ xs) = elim (Bool-cases (x == 0)) [
  | inl e ↦ rw e (ground arith)
  | inr e ↦ rw e (char_at-strlen xs)
]

-- What `max_length` allows: 0 stands for no limit.
abbrev pub limit : ℕ → ℕ → ℕ
limit max_length n = if max_length == 0 then n else min max_length n

compute_length_loop-limit :
    (fuel : ℕ) (s : List ℕ) (m len : ℕ)
    → length s < 2 ^ 32
    → strlen s < fuel + len
    → len ≤ limit m (strlen s)
    → compute_length_loop fuel s m len ≡ limit m (strlen s)
unfolding compute_length_loop char_at
compute_length_loop-limit zero s m len small enough below = ground arith
compute_length_loop-limit (suc fuel) s m len small enough below = ground (
  arith,
  strlen-le s,
  char_at-strlen s,
  char_at-strlen_below s len,
  compute_length_loop-limit fuel s m (len + 1),
)

-- For a text in fewer than 2 ^ 32 bytes `compute_length` is the number of bytes before the
-- terminator, or `max_length` if that is not 0 and smaller.
pub compute_length-limit :
    (s : List ℕ) (max_length : ℕ)
    → length s < 2 ^ 32
    → compute_length s max_length
      ≡ (if max_length == 0 then strlen s else min max_length (strlen s))
unfolding compute_length
compute_length-limit s max_length small =
    compute_length_loop-limit (suc (length s)) s max_length 0 small (omega (arith, strlen-le s))
      (ground arith)
