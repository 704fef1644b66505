-- ===== src/Ram/Compare.antt =====
-- `memcmp` and `memset` of kernel/ram_e.c.
use craybond_os.Base.{
  ℕ, zero, suc, ◌+◌, ◌-◌, ◌^◌, ◌≤◌, ◌<◌, ◌≡◌, ◌≢◌, ◌↔◌, refl, not, ◌==◌, if◌then◌else◌, sub32, u8,
  arith, inl, inr, ◌⊎◌, ◌∙◌, subst, eq_or_ne, ==_ne, ==_refl, ap, sym,
}
use craybond_os.Ram.{memcmp, memset, memset_loop}

-- The two blocks hold the same bytes.
abbrev pub IsSame : ℕ → (a b : ℕ) → (ℕ → ℕ) → Type 0
IsSame n a b mem = (k : ℕ) → k < n → mem (a + k) ≡ mem (b + k)

abbrev pub AreBytes : (ℕ → ℕ) → Type 0
AreBytes mem = (p : ℕ) → mem p < 2 ^ 8

memcmp_sound : (n a b : ℕ) (mem : ℕ → ℕ) → AreBytes mem → memcmp n a b mem ≡ 0 → IsSame n a b mem
unfolding memcmp
memcmp_sound zero a b mem bytes e k less = absurd (omega arith)
memcmp_sound (suc n) a b mem bytes e k less = elim (eq_or_ne (mem a) (mem b)) [
  | inr ne ↦
      let d : sub32 (mem a) (mem b) ≡ 0 =
        subst (λ t. (if not t then sub32 (mem a) (mem b) else memcmp n (a + 1) (b + 1) mem) ≡ 0)
          (==_ne (mem a) (mem b) ne) e in
      absurd (ne (omega (arith, bytes a, bytes b)))
  | inl same ↦
      let rest : memcmp n (a + 1) (b + 1) mem ≡ 0 =
        subst (λ t. (if not t then sub32 (mem a) (mem b) else memcmp n (a + 1) (b + 1) mem) ≡ 0)
          (ap (λ v. v == mem b) same ∙ ==_refl (mem b)) e in
      later k (memcmp_sound n (a + 1) (b + 1) mem bytes rest) same less
]
  where
    later :
        (k : ℕ)
        → ((j : ℕ) → j < n → mem (a + 1 + j) ≡ mem (b + 1 + j))
        → mem a ≡ mem b
        → k < suc n
        → mem (a + k) ≡ mem (b + k)
    later zero rest same less = ap mem (omega arith) ∙ same ∙ ap mem (omega arith)
    later (suc j) rest same less =
        let p : a + 1 + j ≡ a + suc j = omega arith in
        let q : b + 1 + j ≡ b + suc j = omega arith in
        ap mem (sym p) ∙ rest j (omega arith) ∙ ap mem q

memcmp_complete : (n a b : ℕ) (mem : ℕ → ℕ) → IsSame n a b mem → memcmp n a b mem ≡ 0
unfolding memcmp
memcmp_complete zero a b mem same = refl
memcmp_complete (suc n) a b mem same =
    let e : mem a ≡ mem b = ap mem (omega arith) ∙ same 0 (omega arith) ∙ ap mem (omega arith) in
    rw (e, ==_refl (mem b))
      (memcmp_complete n (a + 1) (b + 1) mem
        (λ k less. ap mem (omega arith) ∙ same (suc k) (omega arith) ∙ ap mem (omega arith)))

-- Over bytes `memcmp` returns 0 exactly when the two blocks hold the same bytes.
pub memcmp-zero_iff :
    (n a b : ℕ) (mem : ℕ → ℕ) → AreBytes mem → (memcmp n a b mem ≡ 0) ↔ IsSame n a b mem
memcmp-zero_iff n a b mem bytes = (memcmp_sound n a b mem bytes, memcmp_complete n a b mem)

-- `memset` sets the bytes of the block, and no others.
pub memset-bytes :
    (dest val count : ℕ) (mem : ℕ → ℕ)
    → ((k : ℕ) → k < count → memset dest val count mem (dest + k) ≡ u8 val)
      × ((p : ℕ) → (p < dest) ⊎ (dest + count ≤ p) → memset dest val count mem p ≡ mem p)
unfolding memset memset_loop
memset-bytes dest val zero mem = (λ k less. absurd (omega arith), λ p out. refl)
memset-bytes dest val (suc n) mem =
    let mem' : ℕ → ℕ = λ a. if a == dest then u8 val else mem a in
    let rest = memset-bytes (dest + 1) val n mem' in
    (
      λ k less. elim (eq_or_ne k 0) [
        | inl z ↦
            rest.1 (dest + k) (inl (omega arith))
            ∙ (let e : dest + k ≡ dest = omega arith in rw (e, ==_refl dest) refl)
        | inr nz ↦
            let e : dest + 1 + (k - 1) ≡ dest + k = omega arith in
            subst (λ p. memset (dest + 1) val n mem' p ≡ u8 val) e (rest.0 (k - 1) (omega arith))
      ],
      λ p out.
          (let ne : p ≢ dest = elim out [ inl q ↦ omega arith | inr q ↦ omega arith ] in
            rest.1 p (elim out [ inl q ↦ inl (omega arith) | inr q ↦ inr (omega arith) ])
            ∙ rw (==_ne p dest ne) refl),
    )
