-- ===== src/Alloc/Tests.antt =====
-- Runs of the allocators of kernel/ram_e.c, and their theorems at concrete heaps.
use craybond_os.Base.{ℕ, ◌+◌, ◌≡◌, ◌≢◌, refl, List, [], ◌∷◌, arith}
use craybond_os.Outcome.{out_of_fuel, Ensures}
use craybond_os.Alloc.Reuse.{talloc-double_free}
use craybond_os.Alloc.{Heap, update, align_up, talloc, temp_free}
use craybond_os.Alloc.Blocks.{Block, block}
use craybond_os.Alloc.Temp.{IsLayout, Valid, TallocResult, talloc-TallocResult, temp_free-Valid}
use craybond_os.Alloc.Perm.{pallocs, Served, pallocs-Served}

abbrev bottom : ℕ
bottom = 0x41100000

abbrev fresh_heap : Heap
fresh_heap = record {
  mem = λ a. 0;
  temp_free_list = 0;
  next_free_temp = bottom;
  next_free_perm = bottom + 0x500000;
}

-- One page in use at the bottom, one free page behind it.
abbrev used_heap : Heap
used_heap = record {
  mem = update (λ a. 0) (bottom + 0x1008) 0x1000;
  temp_free_list = bottom + 0x1000;
  next_free_temp = bottom + 0x2000;
  next_free_perm = bottom + 0x500000;
}

abbrev free_blocks : List Block
free_blocks = block (bottom + 0x1000) 0x1000 ∷ []

abbrev live_blocks : List Block
live_blocks = block bottom 0x1000 ∷ []

bottom-IsLayout : IsLayout bottom
bottom-IsLayout = omega arith

used_heap-Valid : Valid bottom free_blocks live_blocks used_heap
used_heap-Valid = record {
  chain = (refl, refl, refl);
  free_pages = omega arith;
  live_pages = omega arith;
  apart = omega arith;
  bump_on_page = omega arith;
  bump_above = omega arith;
  bump_below = omega arith;
}

rounds_up : align_up 18 ≡ 0x1000
unfolding align_up
rounds_up = refl

talloc-TallocResult_example :
    TallocResult bottom free_blocks live_blocks 256 used_heap (talloc bottom 2 256 used_heap)
talloc-TallocResult_example =
    talloc-TallocResult bottom free_blocks live_blocks used_heap bottom-IsLayout used_heap-Valid 256
      (omega arith) (omega arith) 2 (omega arith)

temp_free-Valid_example :
    Valid bottom (block bottom (align_up 256) ∷ free_blocks) [] (temp_free bottom 256 used_heap)
    × ((a : ℕ)
        → a ≢ bottom
        → a ≢ bottom + 8
        → (temp_free bottom 256 used_heap).mem a ≡ used_heap.mem a)
unfolding align_up
temp_free-Valid_example =
    temp_free-Valid bottom free_blocks [] [] (block bottom 0x1000) used_heap 256 used_heap-Valid
      (omega arith) (omega arith) (omega arith)

pallocs-Served_example :
    Ensures (λ r. Served bottom fresh_heap r.0 r.1) (pallocs bottom (4096 ∷ 408 ∷ []) fresh_heap)
pallocs-Served_example =
    pallocs-Served bottom bottom-IsLayout (4096 ∷ 408 ∷ []) fresh_heap (omega arith) (omega arith)

talloc-double_free_example :
    talloc bottom 1000 5000 (temp_free bottom 256 (temp_free bottom 256 used_heap)) ≡ out_of_fuel
unfolding align_up
talloc-double_free_example =
    talloc-double_free bottom bottom 256 5000 1000 used_heap (omega arith) (omega arith)
