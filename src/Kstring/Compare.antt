-- ===== src/Kstring/Compare.antt =====
-- `strcmp` and `string_equals` of kernel/kstring.c.
use craybond_os.Base.{ℕ, ◌<◌, ◌≡◌, refl, ◌↔◌, List, [], ◌∷◌, arith, ◌==◌, if◌then◌else◌}
use craybond_os.Kstring.{strcmp}

-- The text that a C program sees: the bytes before the first terminator.
unfoldable pub visible : List ℕ → List ℕ
visible [] = []
visible (x ∷ xs) = if x == 0 then [] else x ∷ visible xs

abbrev pub AllBytes : List ℕ → Type 0
AllBytes [] = Unit {0}
AllBytes (x ∷ xs) = (x < 256) × AllBytes xs

strcmp_sound : (a b : List ℕ) → AllBytes a → AllBytes b → strcmp a b ≡ 0 → visible a ≡ visible b
unfolding strcmp visible
strcmp_sound [] [] ha hb e = refl
strcmp_sound [] (y ∷ ys) ha hb e = ground arith
strcmp_sound (x ∷ xs) [] ha hb e = ground arith
strcmp_sound (x ∷ xs) (y ∷ ys) ha hb e = ground (arith, strcmp_sound xs ys)

strcmp_complete : (a b : List ℕ) → visible a ≡ visible b → strcmp a b ≡ 0
unfolding strcmp visible
strcmp_complete [] [] e = refl
strcmp_complete [] (y ∷ ys) e = ground arith
strcmp_complete (x ∷ xs) [] e = ground arith
strcmp_complete (x ∷ xs) (y ∷ ys) e = ground (arith, strcmp_complete xs ys)

-- Over bytes `strcmp` returns 0 exactly when the two texts agree up to their terminators.
pub strcmp-zero_iff :
    (a b : List ℕ) → AllBytes a → AllBytes b → (strcmp a b ≡ 0) ↔ (visible a ≡ visible b)
strcmp-zero_iff a b ha hb = (strcmp_sound a b ha hb, strcmp_complete a b)
