-- ===== src/Alloc/Apart.antt =====
-- Disjoint blocks: taking one out of a list, putting one back, and the block that `first_fit`
-- takes.
use craybond_os.Base.{
  sym, ◌∙◌, subst, Option, ℕ, ◌≤◌, ◌≡◌, inl, inr, List, [], ◌∷◌, ◌++◌, arith, leb, some, none,
  Bool-cases,
}
use craybond_os.Alloc.Blocks.{Block, block, All, Apart, Disjoint, All-append, All-split}
use craybond_os.Alloc.Search.{
  first_fit, remaining, first_fit-nil, first_fit-hit, first_fit-miss, remaining-hit, remaining-miss,
}

none-ne-some : {c : Block} → ◌≡◌ {A = Option Block} none (some c) → ⊥
none-ne-some e = cc

some_eq : {b c : Block} → ◌≡◌ {A = Option Block} (some b) (some c) → b ≡ c
some_eq e = cc

Apart-sym : (b c : Block) → Apart b c → Apart c b
Apart-sym b c (inl h) = inr h
Apart-sym b c (inr h) = inl h

-- A block that gives up its end stays apart.
pub Apart-shrink :
    (b : Block) (n : ℕ) → n ≤ b.size → (c : Block) → Apart b c → Apart (block b.addr n) c
Apart-shrink b n h c (inl a) = inl (omega arith)
Apart-shrink b n h c (inr a) = inr a

pub Disjoint-insert :
    (xs : List Block) (b : Block) (ys : List Block)
    → All (Apart b) (xs ++ ys)
    → Disjoint (xs ++ ys)
    → Disjoint (xs ++ (b ∷ ys))
Disjoint-insert [] b ys p d = (p, d)
Disjoint-insert (x ∷ xs) b ys p d =
    let (l, r) = All-split (Apart x) xs ys d.0 in
    (All-append (Apart x) xs (b ∷ ys) l (Apart-sym b x p.0, r), Disjoint-insert xs b ys p.1 d.1)

pub Disjoint-remove :
    (xs : List Block) (b : Block) (ys : List Block)
    → Disjoint (xs ++ (b ∷ ys))
    → All (Apart b) (xs ++ ys) × Disjoint (xs ++ ys)
Disjoint-remove [] b ys d = d
Disjoint-remove (x ∷ xs) b ys d =
    let (l, r) = All-split (Apart x) xs (b ∷ ys) d.0 in
    let (p, e) = Disjoint-remove xs b ys d.1 in
    ((Apart-sym x b r.0, p), (All-append (Apart x) xs ys l r.1, e))

pub Disjoint-left : (xs ys : List Block) → Disjoint (xs ++ ys) → Disjoint xs
Disjoint-left [] ys d = tt
Disjoint-left (x ∷ xs) ys d = ((All-split (Apart x) xs ys d.0).0, Disjoint-left xs ys d.1)

-- The block that is taken, and those that remain, have what all had.
pub first_fit-All :
    (P : Block → Type 0) (n : ℕ) (bs live : List Block) (c : Block)
    → first_fit n bs ≡ some c
    → All P (bs ++ live)
    → (n ≤ c.size) × P c × All P (remaining n bs ++ live)
first_fit-All P n [] live c e p = absurd (none-ne-some (sym (first_fit-nil n) ∙ e))
first_fit-All P n (b ∷ bs) live c e p = elim (Bool-cases (leb n b.size)) [
  | inl t ↦
      let q : b ≡ c = some_eq (sym (first_fit-hit n b bs t) ∙ e) in
      rw (remaining-hit n b bs t)
        (subst (λ x. (n ≤ x.size) × P x × All P (bs ++ live)) q (ground arith, p.0, p.1))
  | inr t ↦
      let (m, pc, r) = first_fit-All P n bs live c (sym (first_fit-miss n b bs t) ∙ e) p.1 in
      rw (remaining-miss n b bs t) (m, pc, (p.0, r))
]

-- The block that is taken is apart from all others, and those stay disjoint.
pub first_fit-Disjoint :
    (n : ℕ) (bs live : List Block) (c : Block)
    → first_fit n bs ≡ some c
    → Disjoint (bs ++ live)
    → All (Apart c) (remaining n bs ++ live) × Disjoint (remaining n bs ++ live)
first_fit-Disjoint n [] live c e d = absurd (none-ne-some (sym (first_fit-nil n) ∙ e))
first_fit-Disjoint n (b ∷ bs) live c e d = elim (Bool-cases (leb n b.size)) [
  | inl t ↦
      let q : b ≡ c = some_eq (sym (first_fit-hit n b bs t) ∙ e) in
      rw (remaining-hit n b bs t)
        (subst (λ x. All (Apart x) (bs ++ live) × Disjoint (bs ++ live)) q d)
  | inr t ↦
      let e' = sym (first_fit-miss n b bs t) ∙ e in
      let (away, apart) = first_fit-Disjoint n bs live c e' d.1 in
      let (m, bc, r) = first_fit-All (Apart b) n bs live c e' d.0 in
      rw (remaining-miss n b bs t) ((Apart-sym b c bc, away), (r, apart))
]
