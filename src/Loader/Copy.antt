-- ===== src/Loader/Copy.antt =====
-- The loop of `relocate_code` of shared/process_loader.c over the memory, and the loop of
-- `create_process` that copies the data.
use craybond_os.Base.{
  ℕ, zero, suc, ◌+◌, ◌-◌, ◌*◌, ◌/◌, ◌≤◌, ◌<◌, ◌≡◌, ◌≢◌, ◌⊎◌, inl, inr, refl, true, ltb, leb, ◌==◌,
  if◌then◌else◌, u32, arith, ◌∙◌, ap, subst, ==_refl, ==_ne, eq_or_ne,
}
use craybond_os.Loader.{
  Move, byte_of, read32, write32, relocate_instr, relocate_loop, relocate_code, copy_data,
}

-- Outside the `n` bytes from `a`.
abbrev pub IsOutside : ℕ → ℕ → ℕ → Type 0
IsOutside a n x = (x < a) ⊎ (a + n ≤ x)

abbrev pub IsApart : ℕ → ℕ → ℕ → ℕ → Type 0
IsApart a n b k = (a + n ≤ b) ⊎ (b + k ≤ a)

write32-other : (a w : ℕ) (mem : ℕ → ℕ) (x : ℕ) → IsOutside a 4 x → write32 a w mem x ≡ mem x
unfolding write32
write32-other a w mem x out = ground arith

write32-inside : (a w : ℕ) (mem : ℕ → ℕ) (k : ℕ) → k < 4 → write32 a w mem (a + k) ≡ byte_of w k
unfolding write32
write32-inside a w mem k less =
    let e : leb a (a + k) ≡ true = ground arith in
    let d : ltb (a + k) (a + 4) ≡ true = ground arith in
    let c : a + k - a ≡ k = omega arith in rw (e, d, c) refl

read32-write32 : (a w : ℕ) (mem : ℕ → ℕ) → read32 (write32 a w mem) a ≡ u32 w
unfolding read32
read32-write32 a w mem =
    let e : write32 a w mem a ≡ byte_of w 0 =
      subst (λ x. write32 a w mem x ≡ byte_of w 0) (omega arith)
        (write32-inside a w mem 0 (omega arith)) in
    rw
      (
        e,
        write32-inside a w mem 1 (omega arith),
        write32-inside a w mem 2 (omega arith),
        write32-inside a w mem 3 (omega arith),
      )
      (omega arith)

read32-same :
    (f g : ℕ → ℕ) (a : ℕ) → ((x : ℕ) → a ≤ x → x < a + 4 → f x ≡ g x) → read32 f a ≡ read32 g a
unfolding read32
read32-same f g a same = omega (
  arith,
  same a (omega arith) (omega arith),
  same (a + 1) (omega arith) (omega arith),
  same (a + 2) (omega arith) (omega arith),
  same (a + 3) (omega arith) (omega arith),
)

relocate_loop-other :
    (m : Move) (n i : ℕ) (mem : ℕ → ℕ) (x : ℕ)
    → IsOutside (m.dst_base + i * 4) (n * 4) x
    → relocate_loop m n i mem x ≡ mem x
unfolding relocate_loop
relocate_loop-other m zero i mem x out = refl
relocate_loop-other m (suc n) i mem x out =
    let w = relocate_instr m i (read32 mem (m.src_base + i * 4)) in
    relocate_loop-other m n (i + 1) (write32 (m.dst_base + i * 4) w mem) x
      (elim out [ inl p ↦ inl (omega arith) | inr p ↦ inr (omega arith) ])
    ∙ write32-other (m.dst_base + i * 4) w mem x
        (elim out [ inl p ↦ inl p | inr p ↦ inr (omega arith) ])

relocate_loop-copies :
    (m : Move) (n i : ℕ) (mem : ℕ → ℕ) (k : ℕ)
    → i ≤ k
    → k < i + n
    → IsApart m.src_base ((i + n) * 4) m.dst_base ((i + n) * 4)
    → read32 (relocate_loop m n i mem) (m.dst_base + k * 4)
      ≡ u32 (relocate_instr m k (read32 mem (m.src_base + k * 4)))
unfolding relocate_loop
relocate_loop-copies m zero i mem k low high apart = absurd (omega arith)
relocate_loop-copies m (suc n) i mem k low high apart =
    let w = relocate_instr m i (read32 mem (m.src_base + i * 4)) in
    let mem' = write32 (m.dst_base + i * 4) w mem in
    elim (eq_or_ne i k) [
      | inl e ↦
          subst
            (λ k.
              read32 (relocate_loop m n (i + 1) mem') (m.dst_base + k * 4)
              ≡ u32 (relocate_instr m k (read32 mem (m.src_base + k * 4))))
            e
            (read32-same (relocate_loop m n (i + 1) mem') mem' (m.dst_base + i * 4)
                (λ x p q. relocate_loop-other m n (i + 1) mem' x (inl (omega arith)))
              ∙ read32-write32 (m.dst_base + i * 4) w mem)
      | inr ne ↦
          relocate_loop-copies m n (i + 1) mem' k (omega arith) (omega arith)
            (elim apart [ inl p ↦ inl (omega arith) | inr p ↦ inr (omega arith) ])
          ∙ ap (λ v. u32 (relocate_instr m k v))
              (read32-same mem' mem (m.src_base + k * 4) (λ x p q.
                write32-other (m.dst_base + i * 4) w mem x
                  (elim apart [ inl r ↦ inl (omega arith) | inr r ↦ inr (omega arith) ])))
    ]

-- With the new code apart from the old, `relocate_code` puts the relocated instruction of each of
-- the old ones at the same place of the new code, and changes no other byte.
pub relocate_code-copies :
    (m : Move) (mem : ℕ → ℕ)
    → IsApart m.src_base m.size m.dst_base m.size
    → ((k : ℕ)
        → k < m.size / 4
        → read32 (relocate_code m mem) (m.dst_base + k * 4)
          ≡ u32 (relocate_instr m k (read32 mem (m.src_base + k * 4))))
      × ((x : ℕ) → IsOutside m.dst_base m.size x → relocate_code m mem x ≡ mem x)
unfolding relocate_code
relocate_code-copies m mem apart = (
  λ k less.
      relocate_loop-copies m (m.size / 4) 0 mem k (omega arith) (omega arith)
        (elim apart [ inl p ↦ inl (omega arith) | inr p ↦ inr (omega arith) ]),
  λ x out.
      relocate_loop-other m (m.size / 4) 0 mem x
        (elim out [ inl p ↦ inl (omega arith) | inr p ↦ inr (omega arith) ]),
)

copy_data-other :
    (data_base dest n i : ℕ) (mem : ℕ → ℕ) (x : ℕ)
    → IsOutside (dest + i) n x
    → copy_data data_base dest n i mem x ≡ mem x
unfolding copy_data
copy_data-other data_base dest zero i mem x out = refl
copy_data-other data_base dest (suc n) i mem x out =
    let p : x ≢ dest + i = (elim out [ inl q ↦ omega arith | inr q ↦ omega arith ]) in
    copy_data-other data_base dest n (i + 1)
      (λ y. if y == dest + i then mem (data_base + i) else mem y) x
      (elim out [ inl q ↦ inl (omega arith) | inr q ↦ inr (omega arith) ])
    ∙ rw (==_ne x (dest + i) p) refl

-- The loop of `create_process` that copies the data, with the copy apart from the data: each byte
-- is copied, and no byte outside the copy changes.
pub copy_data-copies :
    (data_base dest n i : ℕ) (mem : ℕ → ℕ)
    → IsApart data_base (i + n) dest (i + n)
    → ((k : ℕ)
        → i ≤ k
        → k < i + n
        → copy_data data_base dest n i mem (dest + k) ≡ mem (data_base + k))
      × ((x : ℕ) → IsOutside (dest + i) n x → copy_data data_base dest n i mem x ≡ mem x)
unfolding copy_data
copy_data-copies data_base dest zero i mem apart = (λ k p q. absurd (omega arith), λ x out. refl)
copy_data-copies data_base dest (suc n) i mem apart =
    let mem' : ℕ → ℕ = λ y. if y == dest + i then mem (data_base + i) else mem y in
    let rest =
      copy_data-copies data_base dest n (i + 1) mem'
        (elim apart [ inl p ↦ inl (omega arith) | inr p ↦ inr (omega arith) ]) in
    (
      λ k low high. elim (eq_or_ne i k) [
        | inl e ↦
            subst (λ k. copy_data data_base dest n (i + 1) mem' (dest + k) ≡ mem (data_base + k)) e
              (rest.1 (dest + i) (inl (omega arith)) ∙ rw (==_refl (dest + i)) refl)
        | inr ne ↦
            let other : data_base + k ≢ dest + i = elim apart [
              | inl q ↦ omega arith
              | inr q ↦ omega arith
            ] in
            rest.0 k (omega arith) (omega arith) ∙ rw (==_ne (data_base + k) (dest + i) other) refl
      ],
      copy_data-other data_base dest (suc n) i mem,
    )
