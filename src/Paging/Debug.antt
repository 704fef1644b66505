-- ===== src/Paging/Debug.antt =====
-- `debug_mmu_address` of kernel/mmu.c, beside the processor's walk.
use craybond_os.Base.{
  ℕ, ◌+◌, ◌*◌, ◌/◌, ◌%◌, ◌≡◌, refl, Option, none, some, true, ◌==◌, not, arith, bit_and_mask,
  Bool-cases, subst, inl, inr, shr,
}
use craybond_os.Alloc.{Heap}
use craybond_os.Paging.{
  frame_of, is_valid, index, Found, l1_missing, l2_missing, l3_missing, l4_missing, block_entry,
  page_entry, debug_mmu_address,
}
use craybond_os.Paging.Tables.{is_end, translate}
use craybond_os.Paging.Walk.{path}

-- The entry of a report.
abbrev pub entry_of : Found → Option (ℕ × ℕ)
entry_of l1_missing = none
entry_of l2_missing = none
entry_of l3_missing = none
entry_of l4_missing = none
entry_of (block_entry e) = some (1, e)
entry_of (page_entry e) = some (0, e)

block_test : (e : ℕ) → is_valid e ≡ true → is_end 1 e ≡ not (is_valid (shr e 1))
block_test e valid =
    rw (bit_and_mask 2 e, bit_and_mask 1 (e / 2))
      (bits e (subst (λ x. not (x == 0) ≡ true) (bit_and_mask 1 e) valid))
  where
    bits : (e : ℕ) → not (e % 2 == 0) ≡ true → (e % 4 == 1) ≡ not (not (e / 2 % 2 == 0))
    bits e odd = ground arith

-- `debug_mmu_address` reports the entry that the walk by the indices of `mmu_map_4kb` ends at, and
-- a missing table or page exactly if that walk ends at none.
pub debug_mmu_address-translate :
    (hb root va : ℕ) (h : Heap)
    → entry_of (debug_mmu_address hb root va h) ≡ translate h.mem 4 root (path 37 va)
unfolding debug_mmu_address translate
debug_mmu_address-translate hb root va h =
    let l1 = h.mem (root + 8 * index va 37) in
    let l2 = h.mem (frame_of l1 + 8 * index va 30) in
    let l3 = h.mem (frame_of l2 + 8 * index va 21) in
    let l4 = h.mem (frame_of l3 + 8 * index va 12) in
    elim (Bool-cases (is_valid l1)) [
      | inr v1 ↦ rw v1 refl
      | inl v1 ↦ elim (Bool-cases (is_valid l2)) [
        | inr v2 ↦ rw (v1, v2) refl
        | inl v2 ↦ elim (Bool-cases (is_valid l3)) [
          | inr v3 ↦ rw (v1, v2, v3) refl
          | inl v3 ↦
              rw (v1, v2, v3, block_test l3 v3)
                (elim (Bool-cases (is_valid (shr l3 1))) [
                  | inr b ↦ rw b refl
                  | inl b ↦ elim (Bool-cases (is_valid l4)) [
                    | inl v4 ↦ rw (b, v4) refl
                    | inr v4 ↦ rw (b, v4) refl
                  ]
                ])
        ]
      ]
    ]
