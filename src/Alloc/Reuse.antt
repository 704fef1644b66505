-- ===== src/Alloc/Reuse.antt =====
-- Calls of `talloc` after `temp_free` (kernel/ram_e.c), and calls outside the sizes that it is
-- meant for.
use craybond_os.Base.{
  ℕ, zero, suc, ◌+◌, ◌-◌, ◌^◌, ◌≤◌, ◌<◌, ◌≡◌, refl, ◌≢◌, arith, ltb, leb, ◌∙◌, add64, ==_ne,
  ==_refl, true, false, some, none,
}
use craybond_os.Outcome.{done, out_of_fuel}
use craybond_os.Alloc.{
  Heap, align_up, Slot, list_head, next_of, read_slot, write_slot, find_block, temp_limit,
  bump_temp, talloc, temp_free,
}
use craybond_os.Alloc.Align.{align_up_wraps}
use craybond_os.Alloc.Search.{find_block-zero, find_block-step, find_block-end}

module _ (hb size fuel : ℕ) (h : Heap) where
  talloc_of_found :
      {r : ℕ × Heap}
      → find_block fuel list_head (align_up size) h ≡ done (some r)
      → talloc hb fuel size h ≡ done r
  unfolding talloc
  talloc_of_found e = rw e

  talloc_of_none :
      find_block fuel list_head (align_up size) h ≡ done none
      → talloc hb fuel size h ≡ bump_temp hb (align_up size) h
  unfolding talloc
  talloc_of_none e = rw e

  talloc_of_loop :
      find_block fuel list_head (align_up size) h ≡ out_of_fuel
      → talloc hb fuel size h ≡ out_of_fuel
  unfolding talloc
  talloc_of_loop e = rw e

leb_refl : (n : ℕ) → leb n n ≡ true
leb_refl n = ground arith

module _ (p size : ℕ) (h : Heap) where
  size_word : (temp_free p size h).mem (p + 8) ≡ align_up size
  unfolding temp_free
  size_word = rw (==_ne (p + 8) p (omega arith), ==_refl (p + 8))

  next_word : (temp_free p size h).mem p ≡ h.temp_free_list
  unfolding temp_free
  next_word = rw (==_refl p)

  head_word : (temp_free p size h).temp_free_list ≡ p
  unfolding temp_free
  head_word = refl

  bump_word : (temp_free p size h).next_free_temp ≡ h.next_free_temp
  unfolding temp_free
  bump_word = refl

-- A block that has just been freed is the one that the next request for the same size gets, and the
-- free list and the bump pointer are then what they were before.
pub talloc-temp_free :
    (hb p size fuel : ℕ) (h : Heap)
    → p ≢ 0
    → (h' : Heap) × (talloc hb (suc fuel) size (temp_free p size h) ≡ done (p, h'))
      × (h'.temp_free_list ≡ h.temp_free_list)
      × (h'.next_free_temp ≡ h.next_free_temp)
talloc-temp_free hb p size fuel h nz =
    let g = temp_free p size h in
    let found =
      find_block-step fuel list_head (align_up size) g p (head_word p size h) nz
      ∙ rw (size_word p size h, leb_refl (align_up size)) refl in
    (
      write_slot g list_head (g.mem p),
      talloc_of_found hb size (suc fuel) g found,
      next_word p size h,
      bump_word p size h,
    )

-- A free block that is its own successor and is too small keeps the walk going for ever.
self_loop :
    (k n p : ℕ) (slot : Slot) (h : Heap)
    → read_slot h slot ≡ p
    → p ≢ 0
    → h.mem p ≡ p
    → leb n (h.mem (p + 8)) ≡ false
    → find_block k slot n h ≡ out_of_fuel
self_loop zero n p slot h at nz self small = find_block-zero slot n h
self_loop (suc k) n p slot h at nz self small =
    find_block-step k slot n h p at nz ∙ rw small (self_loop k n p (next_of p) h self nz self small)

-- After a block has been freed twice, a request for more than its size never ends, whatever the
-- fuel.
pub talloc-double_free :
    (hb p size wanted fuel : ℕ) (h : Heap)
    → p ≢ 0
    → align_up size < align_up wanted
    → talloc hb fuel wanted (temp_free p size (temp_free p size h)) ≡ out_of_fuel
talloc-double_free hb p size wanted fuel h nz more =
    let g = temp_free p size h in
    let small : leb (align_up wanted) (align_up size) ≡ false = ground arith in
    talloc_of_loop hb wanted fuel (temp_free p size g) (
      self_loop fuel (align_up wanted) p list_head (temp_free p size g) (head_word p size g) nz
        (next_word p size g ∙ head_word p size h) (rw (size_word p size g) small))

-- A request for more than 2 ^ 64 - 0x1000 bytes is rounded to 0: with an empty free list and the
-- bump pointer within its limit it succeeds, and reserves nothing.
pub talloc-wraps :
    (hb size fuel : ℕ) (h : Heap)
    → 2 ^ 64 - 0x1000 < size
    → size < 2 ^ 64
    → h.temp_free_list ≡ 0
    → h.next_free_temp < 2 ^ 64
    → h.next_free_temp ≤ temp_limit hb
    → talloc hb (suc fuel) size h ≡ done (h.next_free_temp, h)
unfolding bump_temp
talloc-wraps hb size fuel h big word empty in_word below =
    let same : add64 h.next_free_temp 0 ≡ h.next_free_temp = omega arith in
    let ok : ltb (temp_limit hb) h.next_free_temp ≡ false = ground arith in
    talloc_of_none hb size (suc fuel) h (find_block-end fuel list_head (align_up size) h empty)
    ∙ rw (align_up_wraps size big word, same, ok) refl
