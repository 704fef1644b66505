-- ===== src/Paging/Map.antt =====
-- The map functions of kernel/mmu.c and kernel/process/proc_allocator.c from end to end.
use craybond_os.Base.{
  ℕ, suc, ◌+◌, ◌*◌, ◌^◌, ◌<◌, ◌≡◌, ◌≢◌, refl, some, true, false, arith, bit_or, ◌∙◌, Bool-cases,
  inl, inr, sym, subst,
}
use craybond_os.Outcome.{Outcome, done, ◌>>=◌, Ensures, returns, Ensures-bind}
use craybond_os.Alloc.{Heap, update}
use craybond_os.Paging.{frame_of, is_valid, ensure_table, block_attr, mmu_map_2mb, proc_map_4kb}
use craybond_os.Paging.Linked.{InRange}
use craybond_os.Paging.Tables.{is_end, translate, translate-end}
use craybond_os.Paging.Write.{start, SamePath, written-IsTables, translate-written, translate-here}
use craybond_os.Paging.Walk.{
  path, path-InRange, path_low, Walked, walk_start, walk_step, reach-translate, IsPaged,
}
use craybond_os.Paging.Entry.{block_valid, block_end, proc_page_valid}

-- The walk by `idx` from `root` ends at the new entry, and no other walk, from whatever first
-- table, ends elsewhere than before. The tables are well formed again.
pub record MappedTo (hb : ℕ) (depth : ℕ → ℕ) (h : Heap) (root : ℕ) (idx : ℕ → ℕ) (d entry : ℕ)
    (h' : Heap) : Type 0 where
  pub new_depth : ℕ → ℕ
  pub paged : IsPaged hb new_depth h'
  pub kept : (g : ℕ) → depth g ≢ 0 → new_depth g ≡ depth g
  pub here : translate h'.mem 4 root idx ≡ some (d, entry)
  pub others :
      (root' : ℕ) (idx' : ℕ → ℕ)
      → depth root' ≡ 4
      → InRange idx'
      → ¬ SamePath root root' idx idx' d
      → translate h'.mem 4 root' idx' ≡ translate h.mem 4 root' idx'

-- The slots of the second and of the third table.
abbrev pub l2_slot : (root shift va : ℕ) → Heap → ℕ
l2_slot root shift va h1 = frame_of (h1.mem (root + 8 * path shift va 3)) + 8 * path shift va 2

abbrev pub l3_slot : (root shift va : ℕ) → Heap → Heap → ℕ
l3_slot root shift va h1 h2 = frame_of (h2.mem (l2_slot root shift va h1)) + 8 * path shift va 1

module _ (hb : ℕ) (depth : ℕ → ℕ) (h : Heap) (paged : IsPaged hb depth h) (root : ℕ)
    (top : depth root ≡ 4) where
  pub walk_write :
      (idx : ℕ → ℕ)
      → InRange idx
      → (d f v : ℕ) (h' : Heap) → Walked hb depth h root idx (suc d) f h'
      → is_end d v ≡ true
      → is_valid v ≡ true
      → MappedTo hb depth h root idx d v (record h' { mem = update h'.mem (f + 8 * idx d) v })
  walk_write idx range d f v h' w leaf valid =
      let top1 : w.new_depth root ≡ 4 = w.kept root (omega arith) ∙ top in
      let h2 : Heap = record h' { mem = update h'.mem (f + 8 * idx d) v } in
      record {
        new_depth = w.new_depth;
        paged = record {
          layout = paged.layout;
          low = paged.low;
          inside = w.inside;
          tables =
              written-IsTables w.new_depth h' w.tables root idx top1 range d f v w.reach leaf h2
                refl refl;
        };
        kept = w.kept;
        here = translate-here w.new_depth h' w.tables root idx top1 range d f v w.reach leaf valid;
        others = λ root' idx' top' range' other.
            translate-written w.new_depth h' w.tables root idx top1 range d f v w.reach leaf 4 root'
              (w.kept root' (omega arith) ∙ top') range' start other
            ∙ w.same 3 root' idx' top' range';
      }

  -- The first two tables, which every map function makes, and what follows them.
  pub walk_two :
      {A : Type 0} {P : A → Type 0} (shift va : ℕ) (rest : Heap → Heap → Outcome A)
      → ((h1 h2 : Heap)
          → Walked hb depth h root
              (path shift va)
              2
              (frame_of (h2.mem (l2_slot root shift va h1)))
              h2
          → Ensures P (rest h1 h2))
      → Ensures P (
          ensure_table hb (root + 8 * path shift va 3) h >>= λ h1.
          ensure_table hb (l2_slot root shift va h1) h1 >>= λ h2. rest h1 h2)
  walk_two shift va rest k =
      let idx = path shift va in
      let range = path-InRange shift va in
      let step = walk_step hb depth h paged root idx top range in
      Ensures-bind (step 2 root h (walk_start hb depth h paged root idx top range) (λ v. refl))
        λ h1 w1.
          Ensures-bind (step 1 (frame_of (h1.mem (root + 8 * idx 3))) h1 w1 (λ v. refl))
            λ h2 w2. k h1 h2 w2

  -- By the indices that `mmu_map_2mb` takes, of which the first is not the processor's.
  pub map_2mb-own_path :
      (va pa attr_index : ℕ)
      → Ensures
          (MappedTo hb depth h root (path 37 va) 1 (bit_or (frame_of pa) (block_attr attr_index)))
          (mmu_map_2mb hb root va pa attr_index h)
  unfolding mmu_map_2mb
  map_2mb-own_path va pa attr_index =
      let entry = bit_or (frame_of pa) (block_attr attr_index) in
      walk_two 37 va
        (λ h1 h2. done (record h2 { mem = update h2.mem (l3_slot root 37 va h1 h2) entry }))
        λ h1 h2 w. returns (
          walk_write (path 37 va) (path-InRange 37 va) 1 (frame_of (h2.mem (l2_slot root 37 va h1)))
            entry h2 w (block_end pa attr_index) (block_valid pa attr_index))

  -- With well-formed tables below 2 ^ 48 that `page_table_l1` heads, and an address below 2 ^ 37,
  -- `mmu_map_2mb` ends. Unless it panics, the processor's walk finds the address in the new block,
  -- and for all addresses outside the block, also by other first tables, it finds what it found
  -- before.
  pub mmu_map_2mb-MappedTo :
      (va pa attr_index : ℕ)
      → va < 2 ^ 37
      → Ensures
          (MappedTo hb depth h root (path 39 va) 1 (bit_or (frame_of pa) (block_attr attr_index)))
          (mmu_map_2mb hb root va pa attr_index h)
  mmu_map_2mb-MappedTo va pa attr_index low =
      subst
        (λ idx.
          Ensures (MappedTo hb depth h root idx 1 (bit_or (frame_of pa) (block_attr attr_index)))
            (mmu_map_2mb hb root va pa attr_index h))
        (path_low va low) (map_2mb-own_path va pa attr_index)

  -- The address is not mapped by a block.
  abbrev pub HasNoBlock : (ℕ → ℕ) → Type 0
  HasNoBlock idx = (entry : ℕ) → translate h.mem 4 root idx ≢ some (1, entry)

  no_block_here :
      (idx : ℕ → ℕ)
      → InRange idx
      → (f : ℕ) (h2 : Heap) → Walked hb depth h root idx 2 f h2
      → HasNoBlock idx
      → is_valid (h2.mem (f + 8 * idx 1)) ≡ true
      → is_end 1 (h2.mem (f + 8 * idx 1)) ≡ false
  no_block_here idx range f h2 w no_block valid =
      elim (Bool-cases (is_end 1 (h2.mem (f + 8 * idx 1)))) [
        | inr e ↦ e
        | inl e ↦ absurd (
            no_block (h2.mem (f + 8 * idx 1)) (
              sym (w.same 3 root idx top range)
              ∙ reach-translate w.reach
              ∙ translate-end h2.mem 1 f idx valid e))
      ]

  -- With well-formed tables below 2 ^ 48 that `mem_table_l1` heads, and no block at the address,
  -- `proc_map_4kb` ends. Unless it panics, the page is mapped by the new entry, and the
  -- translations of all other pages are what they were, also those by other first tables.
  pub proc_map_4kb-MappedTo :
      (va pa : ℕ)
      → HasNoBlock (path 39 va)
      → Ensures
          (MappedTo hb depth h root (path 39 va) 0 (bit_or (frame_of pa) 0x407))
          (proc_map_4kb hb root va pa h)
  unfolding proc_map_4kb
  proc_map_4kb-MappedTo va pa no_block =
      let idx = path 39 va in
      let range = path-InRange 39 va in
      let entry = bit_or (frame_of pa) 0x407 in
      walk_two 39 va
        (λ h1 h2. ensure_table hb (l3_slot root 39 va h1 h2) h2 >>= λ h3. done (record h3 {
          mem = update h3.mem (frame_of (h3.mem (l3_slot root 39 va h1 h2)) + 8 * idx 0) entry;
        }))
        λ h1 h2 w.
          (let f = frame_of (h2.mem (l2_slot root 39 va h1)) in
            Ensures-bind
              (walk_step hb depth h paged root idx top range 0 f h2 w
                (no_block_here idx range f h2 w no_block))
              λ h3 w3. returns (
                walk_write idx range 0 (frame_of (h3.mem (l3_slot root 39 va h1 h2))) entry h3 w3
                  refl (proc_page_valid pa)))
