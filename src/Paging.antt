-- ===== src/Paging.antt =====
-- The page tables: kernel/mmu.c maps pages in the tables of the processor, below `page_table_l1`,
-- and kernel/process/proc_allocator.c keeps tables of its own, below `mem_table_l1`, to find free
-- user memory. A table is 512 entries of 64 bits in the memory of the allocators; `palloc` gives
-- new ones.
use craybond_os.Base.{
  ℕ, zero, suc, ◌+◌, ◌-◌, ◌*◌, ◌/◌, ◌%◌, ◌^◌, Bool, true, false, not, ltb, leb, ◌==◌, if◌then◌else◌,
  u64, add64, sub64, shr, bit_and, bit_or,
}
use craybond_os.Outcome.{Outcome, done, out_of_fuel, ◌>>=◌}
use craybond_os.Alloc.{Heap, update, palloc}
pub mod Tables
pub mod Linked
pub mod Ensure
pub mod Write
pub mod Walk
pub mod Map
pub mod Page
pub mod Debug
pub mod Entry
pub mod Init
pub mod Process
mod Tests

abbrev pub frame_of : ℕ → ℕ
frame_of entry = bit_and entry 0xFFFFFFFFF000

-- `entry & 1`, as a test
abbrev pub is_valid : ℕ → Bool
is_valid entry = not (bit_and entry 1 == 0)

abbrev pub index : ℕ → ℕ → ℕ
index va shift = bit_and (shr va shift) 0x1FF

-- `for (int i = 0; i < PAGE_TABLE_ENTRIES; i++) table[i] = 0`, with the rounds left.
pub clear_table : ℕ → ℕ → ℕ → (ℕ → ℕ) → ℕ → ℕ
clear_table zero i table mem = mem
clear_table (suc n) i table mem = clear_table n (i + 1) table (update mem (table + 8 * i) 0)

-- What `mmu_map_4kb` reports. `higher_granularity` is the error, `already_mapped` the warning.
pub data Mapped : Type 0 where
  mapped already_mapped higher_granularity : Mapped

-- What `debug_mmu_address` reports.
pub data Found : Type 0 where
  l1_missing l2_missing l3_missing l4_missing : Found
  block_entry page_entry : ℕ → Found

-- The attributes of a block, and of a page. `(level == 1) << 54` shifts an int by more than its
-- width, which C leaves undefined: `uxn` stands for its value. For another level than 0, 1 and 2
-- the variable `permission` is not set: `unset` stands for its value.
abbrev pub block_attr : ℕ → ℕ
block_attr attr_index = bit_or (bit_or (2 ^ 10 + 3 * 2 ^ 8) (u64 (attr_index * 4))) 1

abbrev pub permission_of : ℕ → ℕ → ℕ
permission_of unset level =
    if level == 0 then 1 else if level == 1 then 0 else if level == 2 then 2 else unset

abbrev pub page_attr : ℕ → ℕ → ℕ → ℕ
page_attr uxn permission attr_index =
    bit_or
      (bit_or (bit_or (bit_or uxn (2 ^ 10 + 3 * 2 ^ 8)) (u64 (permission * 2 ^ 6)))
        (u64 (attr_index * 4)))
      3

module _ (heap_bottom : ℕ) where
  -- `if (!(*slot & 1))`: a new table, cleared, is linked into the entry.
  pub ensure_table : ℕ → Heap → Outcome Heap
  ensure_table slot h =
      if is_valid (h.mem slot)
      then done h
      else palloc heap_bottom 0x1000 h >>= λ (table, h1).
          let mem = clear_table 512 0 table h1.mem in
          done (record h1 { mem = update mem slot (bit_or (frame_of table) 3) })

  module _ (page_table_l1 : ℕ) where
    pub mmu_map_2mb : (va pa attr_index : ℕ) → Heap → Outcome Heap
    mmu_map_2mb va pa attr_index h =
        let l1_slot = page_table_l1 + 8 * index va 37 in
        ensure_table l1_slot h >>= λ h1.
        let l2_slot = frame_of (h1.mem l1_slot) + 8 * index va 30 in
        ensure_table l2_slot h1 >>= λ h2.
        let l3_slot = frame_of (h2.mem l2_slot) + 8 * index va 21 in
        done
          (record h2 { mem = update h2.mem l3_slot (bit_or (frame_of pa) (block_attr attr_index)) })

    module _ (uxn : ℕ → ℕ) (unset : ℕ) where
      -- The last part of `mmu_map_4kb`, from the entry of the third table on.
      pub map_page : (l3_slot l4_index pa attr_index level : ℕ) → Heap → Outcome (Mapped × Heap)
      map_page l3_slot l4_index pa attr_index level h =
          let l4_slot = frame_of (h.mem l3_slot) + 8 * l4_index in
          let report = if is_valid (h.mem l4_slot) then already_mapped else mapped in
          let attr = page_attr (uxn level) (permission_of unset level) attr_index in
          done (report, record h { mem = update h.mem l4_slot (bit_or (frame_of pa) attr) })

      pub mmu_map_4kb : (va pa attr_index level : ℕ) → Heap → Outcome (Mapped × Heap)
      unfolding map_page
      mmu_map_4kb va pa attr_index level h =
          let l1_slot = page_table_l1 + 8 * index va 37 in
          ensure_table l1_slot h >>= λ h1.
          let l2_slot = frame_of (h1.mem l1_slot) + 8 * index va 30 in
          ensure_table l2_slot h1 >>= λ h2.
          let l3_slot = frame_of (h2.mem l2_slot) + 8 * index va 21 in
          if is_valid (h2.mem l3_slot)
          then if bit_and (h2.mem l3_slot) 3 == 1
            then done (higher_granularity, h2)
            else map_page l3_slot (index va 12) pa attr_index level h2
          else ensure_table l3_slot h2 >>= λ h3.
              map_page l3_slot (index va 12) pa attr_index level h3

      -- `register_device_memory` and `register_proc_memory`, without the flushes of the TLB.
      pub register_device_memory : (va pa : ℕ) → Heap → Outcome (Mapped × Heap)
      register_device_memory va pa h = mmu_map_4kb va pa 0 1 h

      pub register_proc_memory : (va pa : ℕ) → Bool → Heap → Outcome (Mapped × Heap)
      register_proc_memory va pa kernel h = mmu_map_4kb va pa 1 (if kernel then 1 else 0) h

    pub debug_mmu_address : ℕ → Heap → Found
    debug_mmu_address va h =
        let l1 = h.mem (page_table_l1 + 8 * index va 37) in
        let l2 = h.mem (frame_of l1 + 8 * index va 30) in
        let l3_val = h.mem (frame_of l2 + 8 * index va 21) in
        let l4_val = h.mem (frame_of l3_val + 8 * index va 12) in
        if not (is_valid l1)
        then l1_missing
        else if not (is_valid l2)
        then l2_missing
        else if not (is_valid l3_val)
        then l3_missing
        else if not (is_valid (shr l3_val 1))
        then block_entry l3_val
        else if not (is_valid l4_val)
        then l4_missing
        else page_entry l4_val

  module _ (mem_table_l1 : ℕ) where
    pub proc_map_2mb : (va pa : ℕ) → Heap → Outcome Heap
    proc_map_2mb va pa h =
        let l1_slot = mem_table_l1 + 8 * index va 39 in
        ensure_table l1_slot h >>= λ h1.
        let l2_slot = frame_of (h1.mem l1_slot) + 8 * index va 30 in
        ensure_table l2_slot h1 >>= λ h2.
        let l3_slot = frame_of (h2.mem l2_slot) + 8 * index va 21 in
        done (record h2 { mem = update h2.mem l3_slot (bit_or (frame_of pa) 0x405) })

    pub proc_map_4kb : (va pa : ℕ) → Heap → Outcome Heap
    proc_map_4kb va pa h =
        let l1_slot = mem_table_l1 + 8 * index va 39 in
        ensure_table l1_slot h >>= λ h1.
        let l2_slot = frame_of (h1.mem l1_slot) + 8 * index va 30 in
        ensure_table l2_slot h1 >>= λ h2.
        let l3_slot = frame_of (h2.mem l2_slot) + 8 * index va 21 in
        ensure_table l3_slot h2 >>= λ h3.
        let l4_slot = frame_of (h3.mem l3_slot) + 8 * index va 12 in
        done (record h3 { mem = update h3.mem l4_slot (bit_or (frame_of pa) 0x407) })

    -- The test of one page in `alloc_proc_mem`. It masks an entry with `~0xFFF`.
    pub is_mapped : ℕ → Heap → Bool
    is_mapped v h =
        let l1 = h.mem (mem_table_l1 + 8 * index v 39) in
        let l2 = h.mem (bit_and l1 0xFFFFFFFFFFFFF000 + 8 * index v 30) in
        let l3 = h.mem (bit_and l2 0xFFFFFFFFFFFFF000 + 8 * index v 21) in
        let l4 = h.mem (bit_and l3 0xFFFFFFFFFFFFF000 + 8 * index v 12) in
        if not (is_valid l1)
        then false
        else if not (is_valid l2)
        then false
        else if not (is_valid l3)
        then false
        else is_valid l4

    -- The loop over the pages of a candidate, with the pages left.
    pub is_free : ℕ → ℕ → Heap → Bool
    is_free zero v h = true
    is_free (suc n) v h =
        let rest = is_free n (add64 v 0x1000) h in if is_mapped v h then false else rest

  module _ (page_table_l1 mem_table_l1 : ℕ) (uxn : ℕ → ℕ) (unset : ℕ) where
    pub map_pages : ℕ → ℕ → Bool → Heap → Outcome Heap
    map_pages zero v kernel h = done h
    map_pages (suc n) v kernel h = proc_map_4kb mem_table_l1 v v h >>= λ h1.
        register_proc_memory page_table_l1 uxn unset v v kernel h1 >>= λ (report, h2).
        map_pages n (add64 v 0x1000) kernel h2

    -- The loop over the candidates. `pages` is the size in pages.
    pub find_pages : ℕ → (va end pages : ℕ) → Bool → Heap → Outcome (ℕ × Heap)
    find_pages zero va end pages kernel h = out_of_fuel
    find_pages (suc fuel) va end pages kernel h =
        let rest = find_pages fuel (add64 va 0x1000) end pages kernel h in
        if leb (add64 va (pages * 0x1000)) end
        then if is_free mem_table_l1 pages va h
          then (map_pages pages va kernel h >>= λ h1. done (va, h1))
          else rest
        else done (0, h)

    -- `get_user_ram_start()` and `get_user_ram_end()` are `user_start` and `user_end`.
    pub alloc_proc_mem : ℕ → (user_start user_end size : ℕ) → Bool → Heap → Outcome (ℕ × Heap)
    alloc_proc_mem fuel user_start user_end size kernel h =
        let start = bit_and (add64 user_start 0xFFF) 0xFFFFFFFFFFFFF000 in
        let end = bit_and user_end 0xFFFFFFFFFFFFF000 in
        find_pages fuel start end (add64 size 0xFFF / 0x1000) kernel h
