-- ===== src/Alloc/Temp.antt =====
-- `talloc` and `temp_free` of kernel/ram_e.c: when a heap is valid, and what the two do to it.
use mathlib.Core.List.{append_assoc}
use craybond_os.Base.{
  ℕ, ◌+◌, ◌%◌, ◌^◌, ◌≤◌, ◌<◌, ◌≡◌, refl, ◌≢◌, inl, inr, List, [], ◌∷◌, ◌++◌, arith, ltb, length,
  false, none, some, Bool-cases, Option-cases, sym, subst, add64, ==_ne, ==_refl, ltb→lt,
}
use craybond_os.Outcome.{Outcome, done, panic, temp_overflow}
use craybond_os.Alloc.{Heap, update, align_up, list_head, temp_limit, bump_temp, talloc, temp_free}
use craybond_os.Alloc.Align.{align_up_bounds}
use craybond_os.Alloc.Blocks.{
  Block, block, All, Apart, Disjoint, Chain, IsPages, has_addr, not_mem_of_Apart, Chain-update,
  Chain-update_size, All-append, All-split, All-map,
}
use craybond_os.Alloc.Search.{
  first_fit, remaining, unlink, walk_none, walk_some, find_block_lem, unlink-Chain, unlink-bumps,
  unlink-Spared,
}
use craybond_os.Alloc.Apart.{
  Disjoint-insert, Disjoint-remove, Disjoint-left, Apart-shrink, first_fit-All, first_fit-Disjoint,
}

-- Where the linker script and the machine put the heap: on a page, within 48-bit addresses.
pub record IsLayout (heap_bottom : ℕ) : Type 0 where
  pub on_page : heap_bottom % 0x1000 ≡ 0
  pub not_null : 0 < heap_bottom
  pub low : heap_bottom ≤ 2 ^ 48

-- The free list holds `free`, and `live` is in use: all in whole pages below the bump pointer, and
-- no two of them share a byte.
pub record Valid (heap_bottom : ℕ) (free live : List Block) (h : Heap) : Type 0 where
  pub chain : Chain h.mem h.temp_free_list free
  pub free_pages : All (IsPages heap_bottom h.next_free_temp) free
  pub live_pages : All (IsPages heap_bottom h.next_free_temp) live
  pub apart : Disjoint (free ++ live)
  pub bump_on_page : h.next_free_temp % 0x1000 ≡ 0
  pub bump_above : heap_bottom ≤ h.next_free_temp
  pub bump_below : h.next_free_temp ≤ temp_limit heap_bottom

-- The ways in which `talloc size` may end.
pub data TallocResult (heap_bottom : ℕ) (free live : List Block) (size : ℕ) (h : Heap)
    : Outcome (ℕ × Heap) → Type 0 where
  -- The first free block that is large enough is taken off the list.
  reused :
      (b : Block) (h' : Heap)
      → first_fit (align_up size) free ≡ some b
      → size ≤ b.size
      → Valid heap_bottom (remaining (align_up size) free) (block b.addr (align_up size) ∷ live) h'
      → ((a : ℕ) → has_addr a free ≡ false → h'.mem a ≡ h.mem a)
      → TallocResult heap_bottom free live size h (done (b.addr, h'))
  -- No free block is, and the memory behind the bump pointer is handed out.
  fresh :
      (h' : Heap)
      → first_fit (align_up size) free ≡ none
      → Valid heap_bottom free (block h.next_free_temp (align_up size) ∷ live) h'
      → ((a : ℕ) → h'.mem a ≡ h.mem a)
      → TallocResult heap_bottom free live size h (done (h.next_free_temp, h'))
  -- Nor is there room: the kernel panics.
  full :
      first_fit (align_up size) free ≡ none
      → temp_limit heap_bottom < h.next_free_temp + align_up size
      → TallocResult heap_bottom free live size h (panic temp_overflow h.next_free_temp)

module _ (hb : ℕ) (free live : List Block) (h : Heap) (lay : IsLayout hb) (v : Valid hb free live h)
    (size : ℕ) (pos : 0 < size) (fits : size ≤ 2 ^ 63) where
  n : ℕ
  n = align_up size

  rounded : (n % 0x1000 ≡ 0) × (size ≤ n) × (n < size + 0x1000)
  unfolding n
  rounded = align_up_bounds size (omega arith)

  all_true : (bs : List Block) → All (λ _. Unit {0}) bs
  all_true [] = tt
  all_true (b ∷ bs) = (tt, all_true bs)

  all-IsPages : All (IsPages hb h.next_free_temp) (free ++ live)
  all-IsPages = All-append (IsPages hb h.next_free_temp) free live v.free_pages v.live_pages

  cut-IsPages :
      (b : Block)
      → n ≤ b.size
      → IsPages hb h.next_free_temp b
      → IsPages hb h.next_free_temp (block b.addr n)
  cut-IsPages b le p = record {
    aligned = p.aligned;
    whole = rounded.0;
    some_page = omega (arith, rounded);
    above = p.above;
    below = omega (arith, p.below);
  }

  reused-Valid :
      (b : Block)
      → first_fit n free ≡ some b
      → Valid hb (remaining n free) (block b.addr n ∷ live) (unlink list_head n free h)
  reused-Valid b e =
      let P = IsPages hb h.next_free_temp in
      let (le, pb, pages) = first_fit-All P n free live b e all-IsPages in
      let (left, right) = All-split P (remaining n free) live pages in
      let (away, disj) = first_fit-Disjoint n free live b e v.apart in
      let same = (unlink-bumps list_head n free h).0 in
      record {
        chain =
            unlink-Chain hb h.next_free_temp list_head n free h v.chain v.free_pages
              (Disjoint-left free live v.apart) tt;
        free_pages = rw same left;
        live_pages =
            subst (λ m. All (IsPages hb m) (block b.addr n ∷ live)) (sym same)
              (cut-IsPages b le pb, right);
        apart =
            Disjoint-insert (remaining n free) (block b.addr n) live
              (All-map (Apart b) (Apart (block b.addr n)) (Apart-shrink b n le)
                (remaining n free ++ live) away)
              disj;
        bump_on_page = rw same v.bump_on_page;
        bump_above = rw same v.bump_above;
        bump_below = rw same v.bump_below;
      }

  bumped : Heap
  bumped = record h { next_free_temp = h.next_free_temp + n }

  grown : (b : Block) → IsPages hb h.next_free_temp b → IsPages hb (h.next_free_temp + n) b
  grown b p = record {
    aligned = p.aligned;
    whole = p.whole;
    some_page = p.some_page;
    above = p.above;
    below = omega (arith, p.below);
  }

  fresh-Valid :
      h.next_free_temp + n ≤ temp_limit hb → Valid hb free (block h.next_free_temp n ∷ live) bumped
  unfolding bumped
  fresh-Valid room =
      let old = IsPages hb h.next_free_temp in
      let new = IsPages hb (h.next_free_temp + n) in
      record {
        chain = v.chain;
        free_pages = All-map old new grown free v.free_pages;
        live_pages = (
          record {
            aligned = v.bump_on_page;
            whole = rounded.0;
            some_page = omega (arith, rounded);
            above = v.bump_above;
            below = omega arith;
          },
          All-map old new grown live v.live_pages,
        );
        apart =
            Disjoint-insert free (block h.next_free_temp n) live
              (All-map old (Apart (block h.next_free_temp n)) (λ b p. inr p.below) (free ++ live)
                all-IsPages)
              v.apart;
        bump_on_page = omega (arith, rounded, v.bump_on_page);
        bump_above = omega (arith, v.bump_above);
        bump_below = room;
      }

  no_wrap : add64 h.next_free_temp n ≡ h.next_free_temp + n
  no_wrap = omega (arith, rounded, v.bump_below, lay.low)

  bump-result : first_fit n free ≡ none → TallocResult hb free live size h (bump_temp hb n h)
  unfolding bump_temp n bumped
  bump-result e = rw no_wrap (elim (Bool-cases (ltb (temp_limit hb) (h.next_free_temp + n))) [
    | inl t ↦ rw t (full e (ltb→lt _ _ t))
    | inr t ↦ rw t (fresh bumped e (fresh-Valid (ground arith)) (λ a. refl))
  ])

  -- On a valid heap, for a size above 0 and at most 2 ^ 63, and with fuel for one round more than
  -- there are free blocks, `talloc` ends in one of three ways. It reuses the first free block of at
  -- least the rounded size, which leaves the list. If there is none it hands out the memory at the
  -- bump pointer. If that would cross the limit, it panics. What it hands out is at least as large
  -- as asked for, lies in the temporary region in whole pages, and shares no byte with another
  -- block, free or in use. The memory outside the free blocks is not changed.
  pub talloc-TallocResult :
      (fuel : ℕ) → length free < fuel → TallocResult hb free live size h (talloc hb fuel size h)
  unfolding talloc n
  talloc-TallocResult fuel enough =
      let walk =
        find_block_lem hb h.next_free_temp lay.not_null fuel list_head n h free v.chain v.free_pages
          enough in
      rw walk (elim (Option-cases (first_fit n free)) [
        | inl e ↦ rw (walk_none list_head n h free e) (bump-result e)
        | inr (b, e) ↦ rw (walk_some list_head n h free b e) (
            reused b (unlink list_head n free h) e
              (omega (
                arith,
                rounded,
                (first_fit-All (λ _. Unit {0}) n free live b e (all_true (free ++ live))).0,
              ))
              (reused-Valid b e) (λ a out. unlink-Spared list_head n free h a out))
      ])

module _ (hb : ℕ) (free xs ys : List Block) (b : Block) (h : Heap) (size : ℕ) where
  -- A block in use, given back with a size that it covers, joins the free list in front; the blocks
  -- in use stay valid, and only the first two words of the block are written.
  pub temp_free-Valid :
      Valid hb free (xs ++ (b ∷ ys)) h
      → 0 < size
      → size ≤ 2 ^ 63
      → align_up size ≤ b.size
      → Valid hb (block b.addr (align_up size) ∷ free) (xs ++ ys) (temp_free b.addr size h)
        × ((a : ℕ) → a ≢ b.addr → a ≢ b.addr + 8 → (temp_free b.addr size h).mem a ≡ h.mem a)
  unfolding temp_free
  temp_free-Valid v pos fits cover =
      let s = align_up size in
      let p = b.addr in
      let P = IsPages hb h.next_free_temp in
      let round = align_up_bounds size (omega arith) in
      let (px, pby) = All-split P xs (b ∷ ys) v.live_pages in
      let pb = pby.0 in
      let py = pby.1 in
      let (away, disj) =
        Disjoint-remove (free ++ xs) b ys
          (subst Disjoint (sym (append_assoc free xs (b ∷ ys))) v.apart) in
      let away' = subst (All (Apart b)) (append_assoc free xs ys) away in
      let out =
        not_mem_of_Apart hb h.next_free_temp b free pb v.free_pages
          (All-split (Apart b) free (xs ++ ys) away').0 in
      let sized =
        Chain-update_size hb h.next_free_temp h.mem p s h.temp_free_list free pb.aligned
          v.free_pages out v.chain in
      let linked =
        Chain-update hb h.next_free_temp (update h.mem (p + 8) s) p h.temp_free_list
          h.temp_free_list free pb.aligned v.free_pages out sized in
      (
        record {
          chain =
              (refl, rw (==_ne (p + 8) p (omega arith), ==_refl (p + 8)), rw (==_refl p) linked);
          free_pages = (
            record {
              aligned = pb.aligned;
              whole = round.0;
              some_page = omega arith;
              above = pb.above;
              below = omega (arith, pb.below);
            },
            v.free_pages,
          );
          live_pages = All-append P xs ys px py;
          apart = (
            All-map (Apart b) (Apart (block p s)) (Apart-shrink b s cover) (free ++ (xs ++ ys))
                away',
            subst Disjoint (append_assoc free xs ys) disj,
          );
          bump_on_page = v.bump_on_page;
          bump_above = v.bump_above;
          bump_below = v.bump_below;
        },
        λ a n m. rw (==_ne a p n, ==_ne a (p + 8) m),
      )
