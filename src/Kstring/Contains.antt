-- ===== src/Kstring/Contains.antt =====
-- `strcont` of kernel/kstring.c, beside the infixes of a list.
use craybond_os.Base.{
  ℕ, ◌≡◌, refl, ◌↔◌, ◌≢◌, true, List, [], ◌∷◌, ◌++◌, arith, inl, inr, Bool-cases, ap,
}
use craybond_os.Kstring.{match_here, strcont}

-- No byte is the terminator: the list is the whole text.
abbrev pub NoZero : List ℕ → Type 0
NoZero [] = Unit {0}
NoZero (x ∷ xs) = (x ≢ 0) × NoZero xs

-- `b` occurs in `a`, with what stands before and after it.
abbrev pub Occurs : List ℕ → List ℕ → Type 0
Occurs b a = (before : List ℕ) × (after : List ℕ) × (a ≡ before ++ (b ++ after))

match_here_sound :
    (p q : List ℕ) → NoZero q → match_here p q ≡ true → (after : List ℕ) × (p ≡ q ++ after)
unfolding match_here
match_here_sound p [] h e = (p, refl)
match_here_sound [] (q ∷ qs) h e = absurd (ground arith)
match_here_sound (p ∷ ps) (q ∷ qs) h e =
    let (after, t) = match_here_sound ps qs h.1 (ground arith) in (after, ground arith)

match_here-append : (q after : List ℕ) → NoZero q → match_here (q ++ after) q ≡ true
unfolding match_here
match_here-append [] [] h = refl
match_here-append [] (x ∷ xs) h = refl
match_here-append (q ∷ qs) after h = ground (arith, match_here-append qs after h.1)

strcont_sound : (a b : List ℕ) → NoZero b → strcont a b ≡ true → Occurs b a
unfolding strcont
strcont_sound [] b h e = cc
strcont_sound (x ∷ xs) b h e = elim (Bool-cases (match_here (x ∷ xs) b)) [
  | inl m ↦ let (after, t) = match_here_sound (x ∷ xs) b h m in ([], after, t)
  | inr m ↦
      let (before, after, t) = strcont_sound xs b h (ground arith) in
      (x ∷ before, after, ap (λ l. x ∷ l) t)
]

strcont-append :
    (before b after : List ℕ)
    → NoZero (before ++ (b ++ after))
    → NoZero b
    → b ≢ []
    → strcont (before ++ (b ++ after)) b ≡ true
unfolding strcont
strcont-append [] [] after nz h ne = absurd (ne refl)
strcont-append [] (q ∷ qs) after nz h ne = ground (arith, match_here-append (q ∷ qs) after)
strcont-append (x ∷ xs) b after nz h ne = ground (arith, strcont-append xs b after nz.1 h ne)

strcont-empty : (x : ℕ) (xs : List ℕ) → x ≢ 0 → strcont (x ∷ xs) [] ≡ true
unfolding strcont match_here
strcont-empty x [] h = ground arith
strcont-empty x (y ∷ ys) h = ground arith

strcont_complete : (a b : List ℕ) → NoZero a → NoZero b → a ≢ [] → Occurs b a → strcont a b ≡ true
strcont_complete [] b na nb ne o = absurd (ne refl)
strcont_complete (x ∷ xs) [] na nb ne o = strcont-empty x xs na.0
strcont_complete (x ∷ xs) (q ∷ qs) na nb ne (before, after, e) =
    rw e (strcont-append before (q ∷ qs) after (rw (← e) na) nb (λ f. cc))

strcont-not_empty : (a b : List ℕ) → strcont a b ≡ true → a ≢ []
unfolding strcont
strcont-not_empty [] b e f = cc
strcont-not_empty (x ∷ xs) b e f = cc

-- For texts with no terminator inside, `strcont` holds exactly when the first is not empty and the
-- second stands somewhere in it, as one run of bytes.
pub strcont_iff :
    (a b : List ℕ) → NoZero a → NoZero b → (strcont a b ≡ true) ↔ ((a ≢ []) × Occurs b a)
strcont_iff a b na nb = (
  (λ e. (strcont-not_empty a b e, strcont_sound a b nb e)),
  (λ h. strcont_complete a b na nb h.0 h.1),
)
