-- ===== src/Paging/Page.antt =====
-- `mmu_map_4kb` of kernel/mmu.c from end to end, and the index that it takes for the first table.
use craybond_os.Base.{
  ℕ, ◌+◌, ◌*◌, ◌/◌, ◌^◌, ◌≤◌, ◌<◌, ◌≡◌, ◌≢◌, refl, Option, none, some, ◌==◌, if◌then◌else◌, arith,
  bit_and, bit_or, ◌∙◌, Bool-cases, inl, inr, sym, ap, subst, bit_and_mask,
}
use craybond_os.Outcome.{Outcome, done, ◌>>=◌, Ensures, returns, Ensures-bind, Ensures-map}
use craybond_os.Alloc.{Heap}
use craybond_os.Paging.{
  frame_of, is_valid, index, ensure_table, page_attr, permission_of, Mapped, mapped, already_mapped,
  higher_granularity, mmu_map_2mb, mmu_map_4kb, map_page,
}
use craybond_os.Paging.Tables.{translate, translate-end, invalid, ends, links, entry_case}
use craybond_os.Paging.Write.{step}
use craybond_os.Paging.Walk.{
  path, path-InRange, path_low, Walked, walk_step, reach-translate, IsPaged,
}
use craybond_os.Paging.Entry.{page_valid}
use craybond_os.Paging.Map.{MappedTo, walk_two, walk_write, map_2mb-own_path, l2_slot, l3_slot}

-- The report on a page that is mapped, by what the address was mapped to before.
abbrev pub report_of : Option (ℕ × ℕ) → Mapped
report_of none = mapped
report_of (some e) = already_mapped

-- The ways in which `mmu_map_4kb` may end. A block at the address stays, and so does every
-- translation; otherwise the page is mapped by the new entry.
pub data Map4kb (hb : ℕ) (depth : ℕ → ℕ) (h : Heap) (root : ℕ) (idx : ℕ → ℕ) (entry : ℕ)
    : Mapped × Heap → Type 0 where
  refused :
      {h' : Heap} (f block : ℕ)
      → translate h.mem 4 root idx ≡ some (1, block)
      → Walked hb depth h root idx 2 f h'
      → Map4kb hb depth h root idx entry (higher_granularity, h')
  page_mapped :
      {h' : Heap} {report : Mapped}
      → report ≡ report_of (translate h.mem 4 root idx)
      → MappedTo hb depth h root idx 0 entry h'
      → Map4kb hb depth h root idx entry (report, h')

translate_page :
    (mem : ℕ → ℕ) (f : ℕ) (idx : ℕ → ℕ)
    → (if is_valid (mem (f + 8 * idx 0)) then already_mapped else mapped)
      ≡ report_of (translate mem 1 f idx)
unfolding translate
translate_page mem f idx = elim (Bool-cases (is_valid (mem (f + 8 * idx 0)))) [
  | inl v ↦ rw v refl
  | inr v ↦ rw v refl
]

module _ (hb : ℕ) (depth : ℕ → ℕ) (h : Heap) (paged : IsPaged hb depth h) (root : ℕ)
    (top : depth root ≡ 4) (uxn : ℕ → ℕ) (unset : ℕ) (va pa attr_index level : ℕ) where
  abbrev idx : ℕ → ℕ
  idx = path 37 va

  -- The entry that `mmu_map_4kb` writes.
  abbrev pub new_entry : ℕ
  new_entry = bit_or (frame_of pa) (page_attr (uxn level) (permission_of unset level) attr_index)

  map_page-Map4kb :
      (l3_slot : ℕ) (h3 : Heap)
      → Walked hb depth h root idx 1 (frame_of (h3.mem l3_slot)) h3
      → Ensures
          (Map4kb hb depth h root idx new_entry)
          (map_page hb root uxn unset l3_slot (index va 12) pa attr_index level h3)
  unfolding map_page
  map_page-Map4kb l3_slot h3 w =
      let f = frame_of (h3.mem l3_slot) in
      returns (
        page_mapped
          (translate_page h3.mem f idx
            ∙ ap report_of
                (sym (reach-translate w.reach) ∙ w.same 3 root idx top (path-InRange 37 va)))
          (walk_write hb depth h paged root top idx (path-InRange 37 va) 0 f new_entry h3 w refl
            (page_valid pa (uxn level) (permission_of unset level) attr_index)))

  -- What `mmu_map_4kb` does from the entry of the third table on.
  abbrev from_third : ℕ → Heap → Outcome (Mapped × Heap)
  from_third slot h2 =
      if is_valid (h2.mem slot)
      then if bit_and (h2.mem slot) 3 == 1
        then done (higher_granularity, h2)
        else map_page hb root uxn unset slot (index va 12) pa attr_index level h2
      else ensure_table hb slot h2 >>= λ h3.
          map_page hb root uxn unset slot (index va 12) pa attr_index level h3

  third-Map4kb :
      (f : ℕ) (h2 : Heap)
      → Walked hb depth h root idx 2 f h2
      → Ensures (Map4kb hb depth h root idx new_entry) (from_third (f + 8 * idx 1) h2)
  third-Map4kb f h2 w =
      let range = path-InRange 37 va in
      let slot = f + 8 * idx 1 in
      elim (entry_case 1 (h2.mem slot)) [
        | invalid v ↦ rw v (
            Ensures-bind
              (walk_step hb depth h paged root idx top range 0 f h2 w (λ u. absurd (cc (u, v))))
              λ h3 w3. map_page-Map4kb slot h3 w3)
        | ends v e ↦
            rw (v, e)
              (returns (
                refused f (h2.mem slot)
                  (sym (w.same 3 root idx top range)
                    ∙ reach-translate w.reach
                    ∙ translate-end h2.mem 1 f idx v e)
                  w))
        | links link ↦
            rw (link.0, link.1)
              (map_page-Map4kb slot h2 (record {
                new_depth = w.new_depth;
                tables = w.tables;
                inside = w.inside;
                kept = w.kept;
                reach = step w.reach link;
                same = w.same;
              }))
      ]

  -- By the indices that `mmu_map_4kb` takes, of which the first is not the processor's.
  pub map_4kb-own_path :
      Ensures
        (Map4kb hb depth h root idx new_entry)
        (mmu_map_4kb hb root uxn unset va pa attr_index level h)
  unfolding mmu_map_4kb
  map_4kb-own_path =
      walk_two hb depth h paged root top 37 va (λ h1 h2. from_third (l3_slot root 37 va h1 h2) h2)
        λ h1 h2 w. third-Map4kb (frame_of (h2.mem (l2_slot root 37 va h1))) h2 w

  -- With well-formed tables below 2 ^ 48 that `page_table_l1` heads, and an address below 2 ^ 37,
  -- `mmu_map_4kb` ends. Unless it panics, for the processor's walk: if a block of 2 MB maps the
  -- address, the error is reported and no translation changes; otherwise the page is mapped by the
  -- new entry, the translations of all other pages are what they were, also those by other first
  -- tables, and the warning is given exactly for a page that was mapped.
  pub mmu_map_4kb-Map4kb :
      va < 2 ^ 37
      → Ensures
          (Map4kb hb depth h root (path 39 va) new_entry)
          (mmu_map_4kb hb root uxn unset va pa attr_index level h)
  mmu_map_4kb-Map4kb low =
      subst
        (λ walk.
          Ensures (Map4kb hb depth h root walk new_entry)
            (mmu_map_4kb hb root uxn unset va pa attr_index level h))
        (path_low va low) map_4kb-own_path

index_differs : (va : ℕ) → 2 ^ 37 ≤ va → va < 2 ^ 39 → index va 37 ≢ index va 39
index_differs va low high =
    omega (arith, bit_and_mask 9 (va / 2 ^ 37), bit_and_mask 9 (va / 2 ^ 39))

-- `mmu_map_2mb` takes bits 37 to 45 of the address for the index into the first table, where the
-- processor, set up for addresses of 48 bits, takes bits 39 to 47. For an address from 2 ^ 37 up to
-- 2 ^ 39 the processor's walk finds after `mmu_map_2mb` what it found before: the block that has
-- been mapped is not there.
pub mmu_map_2mb-misses :
    (hb : ℕ) (depth : ℕ → ℕ) (h : Heap) (root va pa attr_index : ℕ)
    → IsPaged hb depth h
    → depth root ≡ 4
    → 2 ^ 37 ≤ va
    → va < 2 ^ 39
    → Ensures
        (λ h'. translate h'.mem 4 root (path 39 va) ≡ translate h.mem 4 root (path 39 va))
        (mmu_map_2mb hb root va pa attr_index h)
mmu_map_2mb-misses hb depth h root va pa attr_index paged top low high =
    Ensures-map (map_2mb-own_path hb depth h paged root top va pa attr_index) (λ h' m.
      m.others root (path 39 va) top (path-InRange 39 va)
        (λ p. index_differs va low high (p.1 3 (omega arith) (omega arith))))
