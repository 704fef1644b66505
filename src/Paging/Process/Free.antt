-- ===== src/Paging/Process/Free.antt =====
-- What the test of a page in `alloc_proc_mem` of kernel/process/proc_allocator.c says of the
-- tables.
use craybond_os.Base.{
  ℕ, zero, suc, ◌+◌, ◌*◌, ◌%◌, ◌^◌, ◌≤◌, ◌<◌, ◌≡◌, refl, ◌∙◌, ◌⊎◌, inl, inr, arith, bit_and,
  bit_and_field, leb, add64, not, if◌then◌else◌, Bool, true, false, Bool-cases, none, some,
}
use craybond_os.Alloc.{Heap}
use craybond_os.Paging.{frame_of, is_valid, is_mapped, is_free}
use craybond_os.Paging.Linked.{InRange}
use craybond_os.Paging.Tables.{is_end, translate, translate-invalid, translate-end, frame_of_lem}
use craybond_os.Paging.Write.{Reach, start, step}
use craybond_os.Paging.Walk.{path, path-InRange, reach-translate}

pub le_or_gt : (a b : ℕ) → (a ≤ b) ⊎ (b < a)
le_or_gt a b = elim (Bool-cases (leb a b)) [
  | inl e ↦ inl (ground arith)
  | inr e ↦ inr (ground arith)
]

-- The tables below `table` hold addresses and low bits only, and no block of 2 MB.
abbrev pub IsPlain : Heap → (table : ℕ) → Type 0
IsPlain h table =
    (idx : ℕ → ℕ)
    → InRange idx
    → (d f : ℕ) → Reach h.mem table idx (suc d) f
    → (h.mem (f + 8 * idx d) < 2 ^ 48)
      × (d ≡ 1 → is_valid (h.mem (f + 8 * idx d)) ≡ true → is_end 1 (h.mem (f + 8 * idx d)) ≡ false)

-- The address of one of the `n` pages from `v` on.
abbrev pub IsPage : (v n p : ℕ) → Type 0
IsPage v n p = (v ≤ p) × (p < v + n * 0x1000) × (p % 0x1000 ≡ 0)

-- `~0xFFF` takes the frame from an entry below 2 ^ 48.
mask_frame : (e : ℕ) → e < 2 ^ 48 → bit_and e 0xFFFFFFFFFFFFF000 ≡ frame_of e
mask_frame e low = bit_and_field 52 12 e ∙ omega (arith, frame_of_lem e)

module _ (hb table : ℕ) (h : Heap) (plain : IsPlain h table) where
  -- What the walk finds of a page, by the test.
  pub data Looked (idx : ℕ → ℕ) : Bool → Type 0 where
    free : translate h.mem 4 table idx ≡ none → Looked idx false
    used : (entry : ℕ) → translate h.mem 4 table idx ≡ some (0, entry) → Looked idx true

  module _ (v : ℕ) where
    abbrev idx : ℕ → ℕ
    idx = path 39 v

    -- The test from the table of depth 1, 2, 3 and 4 on.
    abbrev from_fourth : ℕ → Bool
    from_fourth f = is_valid (h.mem (f + 8 * idx 0))

    abbrev from_third : ℕ → Bool
    from_third f =
        let entry = h.mem (f + 8 * idx 1) in
        let rest = from_fourth (bit_and entry 0xFFFFFFFFFFFFF000) in
        if not (is_valid entry) then false else rest

    abbrev from_second : ℕ → Bool
    from_second f =
        let entry = h.mem (f + 8 * idx 2) in
        let rest = from_third (bit_and entry 0xFFFFFFFFFFFFF000) in
        if not (is_valid entry) then false else rest

    fourth-Looked : (f : ℕ) → Reach h.mem table idx 1 f → Looked idx (from_fourth f)
    fourth-Looked f r = elim (Bool-cases (is_valid (h.mem (f + 8 * idx 0)))) [
      | inl t ↦
          rw t
            (used (h.mem (f + 8 * idx 0)) (reach-translate r ∙ translate-end h.mem 0 f idx t refl))
      | inr t ↦ rw t (free (reach-translate r ∙ translate-invalid h.mem 0 f idx t))
    ]

    third-Looked : (f : ℕ) → Reach h.mem table idx 2 f → Looked idx (from_third f)
    third-Looked f r =
        let (low, no_block) = plain idx (path-InRange 39 v) 1 f r in
        elim (Bool-cases (is_valid (h.mem (f + 8 * idx 1)))) [
          | inl t ↦
              rw (t, mask_frame (h.mem (f + 8 * idx 1)) low)
                (fourth-Looked (frame_of (h.mem (f + 8 * idx 1))) (step r (t, no_block refl t)))
          | inr t ↦ rw t (free (reach-translate r ∙ translate-invalid h.mem 1 f idx t))
        ]

    second-Looked : (f : ℕ) → Reach h.mem table idx 3 f → Looked idx (from_second f)
    second-Looked f r =
        let (low, no_block) = plain idx (path-InRange 39 v) 2 f r in
        elim (Bool-cases (is_valid (h.mem (f + 8 * idx 2)))) [
          | inl t ↦
              rw (t, mask_frame (h.mem (f + 8 * idx 2)) low)
                (third-Looked (frame_of (h.mem (f + 8 * idx 2))) (step r (t, refl)))
          | inr t ↦ rw t (free (reach-translate r ∙ translate-invalid h.mem 2 f idx t))
        ]

    is_mapped-Looked : Looked idx (is_mapped hb table v h)
    unfolding is_mapped
    is_mapped-Looked =
        let (low, no_block) = plain idx (path-InRange 39 v) 3 table start in
        elim (Bool-cases (is_valid (h.mem (table + 8 * idx 3)))) [
          | inl t ↦
              rw (t, mask_frame (h.mem (table + 8 * idx 3)) low)
                (second-Looked (frame_of (h.mem (table + 8 * idx 3))) (step start (t, refl)))
          | inr t ↦ rw t (free (translate-invalid h.mem 3 table idx t))
        ]

  -- None of the `n` pages from `v` on is mapped.
  abbrev pub AllFree : (n v : ℕ) → Type 0
  AllFree n v = (p : ℕ) → IsPage v n p → translate h.mem 4 table (path 39 p) ≡ none

  -- One of them is.
  abbrev pub InUse : (n v : ℕ) → Type 0
  InUse n v =
      (p : ℕ) × IsPage v n p × (entry : ℕ) × (translate h.mem 4 table (path 39 p) ≡ some (0, entry))

  all_later :
      (n v : ℕ)
      → v % 0x1000 ≡ 0
      → translate h.mem 4 table (path 39 v) ≡ none
      → AllFree n (v + 0x1000)
      → AllFree (suc n) v
  all_later n v page here rest p (le, less, aligned) = elim (le_or_gt (v + 0x1000) p) [
    | inl later ↦ rest p (later, omega arith, aligned)
    | inr early ↦ let same : p ≡ v = omega arith in rw same here
  ]

  -- The two outcomes of the test of `n` pages.
  abbrev pub Tested : (n v : ℕ) → Bool → Type 0
  Tested n v b = (b ≡ true × AllFree n v) ⊎ (b ≡ false × InUse n v)

  pub is_free-Tested :
      (n v : ℕ) → v % 0x1000 ≡ 0 → v + n * 0x1000 < 2 ^ 64 → Tested n v (is_free hb table n v h)
  unfolding is_free
  is_free-Tested zero v page fits = inl (refl, λ p (le, less, aligned). absurd (omega arith))
  is_free-Tested (suc n) v page fits =
      let next : add64 v 0x1000 ≡ v + 0x1000 = omega arith in
      later (is_mapped hb table v h) (is_mapped-Looked v)
        (rw next (is_free-Tested n (v + 0x1000) (omega arith) (omega arith)))
    where
      later :
          (b : Bool)
          → Looked (path 39 v) b
          → Tested n (v + 0x1000) (is_free hb table n (add64 v 0x1000) h)
          → Tested (suc n) v (if b then false else is_free hb table n (add64 v 0x1000) h)
      later _ (used e t) rest = inr (refl, (v, (omega arith, omega arith, page), e, t))
      later _ (free t) (inl (e, all)) = inl (e, all_later n v page t all)
      later _ (free t) (inr (e, (p, (le, less, aligned), entry, u))) =
          inr (e, (p, (omega arith, omega arith, aligned), entry, u))
