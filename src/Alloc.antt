-- ===== src/Alloc.antt =====
-- The allocators of kernel/ram_e.c: `talloc` and `temp_free` over the list of free blocks, and
-- `palloc`. The memory is a function from the address of an aligned 64-bit word to its value, and a
-- `FreeBlock` at `p` has its `next` at `p` and its `size` at `p + 8`. The linker script puts
-- `heap_bottom` on a page boundary and `heap_limit` 0x1000000 bytes above it.
use craybond_os.Base.{
  ℕ, zero, suc, ◌+◌, ◌-◌, ◌^◌, Option, none, some, List, [], ◌∷◌, ltb, leb, ◌==◌, if◌then◌else◌,
  add64, bit_and,
}
pub mod Align
pub mod Blocks
pub mod Search
pub mod Apart
pub mod Temp
pub mod Perm
pub mod Reuse
mod Tests
use craybond_os.Outcome.{
  Outcome, done, panic, out_of_fuel, Panic, temp_overflow, perm_overflow, ◌>>=◌,
}

pub record Heap : Type 0 where
  pub mem : ℕ → ℕ
  pub temp_free_list : ℕ
  pub next_free_temp : ℕ
  pub next_free_perm : ℕ

-- `write64`
abbrev pub update : (ℕ → ℕ) → ℕ → ℕ → ℕ → ℕ
update mem p v q = if q == p then v else mem q

-- `(size + 0xFFF) & ~0xFFF` in 64 bits
unfoldable pub align_up : ℕ → ℕ
align_up n = bit_and (add64 n 0xFFF) (2 ^ 64 - 0x1000)

-- What the `FreeBlock** curr` of `talloc` points to.
pub data Slot : Type 0 where
  list_head : Slot
  next_of : ℕ → Slot

abbrev pub read_slot : Heap → Slot → ℕ
read_slot h list_head = h.temp_free_list
read_slot h (next_of p) = h.mem p

abbrev pub write_slot : Heap → Slot → ℕ → Heap
write_slot h list_head v = record h { temp_free_list = v }
write_slot h (next_of p) v = record h { mem = update h.mem p v }

-- The `while (*curr)` loop of `talloc`: the block that it unlinks, or none.
unfoldable pub find_block : ℕ → Slot → ℕ → Heap → Outcome (Option (ℕ × Heap))
find_block zero slot size h = out_of_fuel
find_block (suc k) slot size h =
    let curr = read_slot h slot in
    let rest = find_block k (next_of curr) size h in
    if curr == 0
    then done none
    else if leb size (h.mem (curr + 8))
    then done (some (curr, write_slot h slot (h.mem curr)))
    else rest

module _ (heap_bottom : ℕ) where
  -- `temp_start`
  abbrev pub temp_limit : ℕ
  temp_limit = add64 heap_bottom 0x500000

  abbrev pub heap_limit : ℕ
  heap_limit = add64 heap_bottom 0x1000000

  unfoldable pub bump_temp : ℕ → Heap → Outcome (ℕ × Heap)
  bump_temp size h =
      if ltb temp_limit (add64 h.next_free_temp size)
      then panic temp_overflow h.next_free_temp
      else done (h.next_free_temp, record h { next_free_temp = add64 h.next_free_temp size })

  unfoldable pub talloc : ℕ → ℕ → Heap → Outcome (ℕ × Heap)
  talloc fuel size h = do
    reused ← find_block fuel list_head (align_up size) h
    elim reused [ some r ↦ done r | none ↦ bump_temp (align_up size) h ]

  pub palloc : ℕ → Heap → Outcome (ℕ × Heap)
  palloc size h =
      let aligned_size = align_up size in
      let start = align_up h.next_free_perm in
      if ltb heap_limit (add64 start aligned_size)
      then panic perm_overflow heap_limit
      else done (start, record h { next_free_perm = add64 start aligned_size })

unfoldable pub temp_free : ℕ → ℕ → Heap → Heap
temp_free ptr size h =
    let mem = update (update h.mem (ptr + 8) (align_up size)) ptr h.temp_free_list in
    record h { mem = mem; temp_free_list = ptr }
