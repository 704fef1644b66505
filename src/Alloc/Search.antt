-- ===== src/Alloc/Search.antt =====
-- The walk of `talloc` over the free list (kernel/ram_e.c), beside the search in a list of blocks.
use craybond_os.Base.{
  ℕ, zero, suc, ◌+◌, ◌%◌, ◌<◌, ◌≡◌, refl, ◌≢◌, inl, inr, List, [], ◌∷◌, arith, leb, ◌==◌,
  if◌then◌else◌, length, true, false, Option, none, some, Bool-cases, ==_ne, ==_refl, ◌∙◌,
}
use craybond_os.Outcome.{done, out_of_fuel}
use craybond_os.Alloc.{Heap, Slot, list_head, next_of, read_slot, write_slot, find_block}
use craybond_os.Alloc.Blocks.{
  Block, All, Disjoint, Chain, IsPages, has_addr, not_mem_of_Apart, Chain-update,
}

-- The first block of at least `n` bytes.
unfoldable pub first_fit : ℕ → List Block → Option Block
first_fit n [] = none
first_fit n (b ∷ bs) = if leb n b.size then some b else first_fit n bs

-- The list without it.
unfoldable pub remaining : ℕ → List Block → List Block
remaining n [] = []
remaining n (b ∷ bs) = if leb n b.size then bs else b ∷ remaining n bs

pub first_fit-nil : (n : ℕ) → first_fit n [] ≡ none
unfolding first_fit
first_fit-nil n = refl

module _ (n : ℕ) (b : Block) (bs : List Block) where
  pub first_fit-hit : leb n b.size ≡ true → first_fit n (b ∷ bs) ≡ some b
  unfolding first_fit
  first_fit-hit e = rw e

  pub first_fit-miss : leb n b.size ≡ false → first_fit n (b ∷ bs) ≡ first_fit n bs
  unfolding first_fit
  first_fit-miss e = rw e

  pub remaining-hit : leb n b.size ≡ true → remaining n (b ∷ bs) ≡ bs
  unfolding remaining
  remaining-hit e = rw e

  pub remaining-miss : leb n b.size ≡ false → remaining n (b ∷ bs) ≡ b ∷ remaining n bs
  unfolding remaining
  remaining-miss e = rw e

-- The heap after the walk, by the blocks that it passes.
pub unlink : Slot → ℕ → List Block → Heap → Heap
unlink slot n [] h = h
unlink slot n (b ∷ bs) h =
    let rest = unlink (next_of b.addr) n bs h in
    if leb n b.size then write_slot h slot (h.mem b.addr) else rest

-- What a walk that starts at `slot` returns.
pub walk_result : Slot → ℕ → List Block → Heap → Option (ℕ × Heap)
walk_result slot n bs h = elim (first_fit n bs) [
  | none ↦ none
  | some c ↦ some (c.addr, unlink slot n bs h)
]

module _ (slot : Slot) (n : ℕ) (h : Heap) (bs : List Block) where
  pub walk_none : first_fit n bs ≡ none → walk_result slot n bs h ≡ none
  unfolding walk_result
  walk_none e = rw (e, walk_result)

  pub walk_some :
      (c : Block)
      → first_fit n bs ≡ some c
      → walk_result slot n bs h ≡ some (c.addr, unlink slot n bs h)
  unfolding walk_result
  walk_some c e = rw (e, walk_result)

module _ (slot : Slot) (n : ℕ) (h : Heap) (b : Block) (bs : List Block) where
  walk_hit :
      leb n b.size ≡ true
      → walk_result slot n (b ∷ bs) h ≡ some (b.addr, write_slot h slot (h.mem b.addr))
  unfolding walk_result first_fit unlink
  walk_hit e = ground arith

  walk_miss :
      leb n b.size ≡ false → walk_result slot n (b ∷ bs) h ≡ walk_result (next_of b.addr) n bs h
  unfolding walk_result first_fit unlink
  walk_miss e = ground arith

pub find_block-zero : (slot : Slot) (n : ℕ) (h : Heap) → find_block zero slot n h ≡ out_of_fuel
unfolding find_block
find_block-zero slot n h = refl

module _ (k : ℕ) (slot : Slot) (n : ℕ) (h : Heap) where
  pub find_block-end : read_slot h slot ≡ 0 → find_block (suc k) slot n h ≡ done none
  unfolding find_block
  find_block-end e = rw e

  pub find_block-step :
      (a : ℕ)
      → read_slot h slot ≡ a
      → a ≢ 0
      → find_block (suc k) slot n h ≡ (
          if leb n (h.mem (a + 8))
          then done (some (a, write_slot h slot (h.mem a)))
          else find_block k (next_of a) n h)
  unfolding find_block
  find_block-step a e nz = rw (e, ==_ne a 0 nz)

module _ (lo hi : ℕ) (pos : 0 < lo) where
  -- With fuel for one round more than there are blocks, the walk ends with its result.
  pub find_block_lem :
      (k : ℕ) (slot : Slot) (n : ℕ) (h : Heap) (bs : List Block)
      → Chain h.mem (read_slot h slot) bs
      → All (IsPages lo hi) bs
      → length bs < k
      → find_block k slot n h ≡ done (walk_result slot n bs h)
  find_block_lem zero slot n h bs c v fuel = absurd (omega arith)
  find_block_lem (suc k) slot n h [] c v fuel =
      unfold walk_result first_fit in find_block-end k slot n h c
  find_block_lem (suc k) slot n h (b ∷ bs) c v fuel =
      find_block-step k slot n h b.addr c.0 (omega (arith, v.0.above))
      ∙ rw c.1 (elim (Bool-cases (leb n b.size)) [
        | inl e ↦ rw (e, walk_hit slot n h b bs e)
        | inr e ↦
            rw (e, walk_miss slot n h b bs e)
              (find_block_lem k (next_of b.addr) n h bs c.2 v.1 (omega arith))
      ])

-- The slot is no word of the listed blocks.
abbrev pub Outside : Slot → List Block → Type 0
Outside list_head bs = Unit {0}
Outside (next_of p) bs = (p % 0x1000 ≡ 0) × (has_addr p bs ≡ false)

-- What the walk may change: the word of the slot, and the `next` words of the listed blocks.
abbrev pub Spared : Slot → List Block → ℕ → Type 0
Spared list_head bs a = has_addr a bs ≡ false
Spared (next_of p) bs a = ((a == p) ≡ false) × (has_addr a bs ≡ false)

pub unlink-Spared :
    (slot : Slot) (n : ℕ) (bs : List Block) (h : Heap) (a : ℕ)
    → Spared slot bs a
    → (unlink slot n bs h).mem a ≡ h.mem a
unfolding unlink
unlink-Spared slot n [] h a out = refl
unlink-Spared list_head n (b ∷ bs) h a out = ground (arith, unlink-Spared (next_of b.addr) n bs h a)
unlink-Spared (next_of p) n (b ∷ bs) h a out =
    ground (arith, unlink-Spared (next_of b.addr) n bs h a)

unlink-head :
    (p n : ℕ) (bs : List Block) (h : Heap)
    → (unlink (next_of p) n bs h).temp_free_list ≡ h.temp_free_list
unfolding unlink
unlink-head p n [] h = refl
unlink-head p n (b ∷ bs) h = ground (arith, unlink-head b.addr n bs h)

pub unlink-bumps :
    (slot : Slot) (n : ℕ) (bs : List Block) (h : Heap)
    → ((unlink slot n bs h).next_free_temp ≡ h.next_free_temp)
      × ((unlink slot n bs h).next_free_perm ≡ h.next_free_perm)
unfolding unlink
unlink-bumps slot n [] h = (refl, refl)
unlink-bumps list_head n (b ∷ bs) h = ground (arith, unlink-bumps (next_of b.addr) n bs h)
unlink-bumps (next_of p) n (b ∷ bs) h = ground (arith, unlink-bumps (next_of b.addr) n bs h)

not_mem_of_unaligned :
    (lo hi a : ℕ) (bs : List Block)
    → a % 0x1000 ≢ 0
    → All (IsPages lo hi) bs
    → has_addr a bs ≡ false
not_mem_of_unaligned lo hi a [] u v = refl
not_mem_of_unaligned lo hi a (b ∷ bs) u v =
    ground (arith, v.0.aligned, not_mem_of_unaligned lo hi a bs u v.1)

read_slot-kept :
    (slot : Slot) (n : ℕ) (b : Block) (bs : List Block) (h : Heap)
    → Outside slot (b ∷ bs)
    → read_slot (unlink (next_of b.addr) n bs h) slot ≡ read_slot h slot
read_slot-kept list_head n b bs h out = unlink-head b.addr n bs h
read_slot-kept (next_of p) n b bs h out =
    unlink-Spared (next_of b.addr) n bs h p (ground arith, ground arith)

unlink-hit :
    (slot : Slot) (n : ℕ) (b : Block) (bs : List Block) (h : Heap)
    → leb n b.size ≡ true
    → unlink slot n (b ∷ bs) h ≡ write_slot h slot (h.mem b.addr)
unfolding unlink
unlink-hit slot n b bs h e = rw e

unlink-miss :
    (slot : Slot) (n : ℕ) (b : Block) (bs : List Block) (h : Heap)
    → leb n b.size ≡ false
    → unlink slot n (b ∷ bs) h ≡ unlink (next_of b.addr) n bs h
unfolding unlink
unlink-miss slot n b bs h e = rw e

module _ (lo hi : ℕ) where
  write_slot-Chain :
      (slot : Slot) (bs : List Block) (h : Heap) (v : ℕ)
      → All (IsPages lo hi) bs
      → Outside slot bs
      → Chain h.mem v bs
      → Chain (write_slot h slot v).mem (read_slot (write_slot h slot v) slot) bs
  write_slot-Chain list_head bs h v p out ch = ch
  write_slot-Chain (next_of q) bs h v p out ch =
      rw (==_refl q) (Chain-update lo hi h.mem q v v bs out.0 p out.1 ch)

  -- Behind the slot stand the blocks without the one that was taken.
  pub unlink-Chain :
      (slot : Slot) (n : ℕ) (bs : List Block) (h : Heap)
      → Chain h.mem (read_slot h slot) bs
      → All (IsPages lo hi) bs
      → Disjoint bs
      → Outside slot bs
      → Chain (unlink slot n bs h).mem (read_slot (unlink slot n bs h) slot) (remaining n bs)
  unfolding remaining
  unlink-Chain slot n [] h ch v d out = unfold unlink in ch
  unlink-Chain slot n (b ∷ bs) h ch v d out = elim (Bool-cases (leb n b.size)) [
    | inl e ↦
        rw (unlink-hit slot n b bs h e, e)
          (write_slot-Chain slot bs h (h.mem b.addr) v.1 (inside slot out) ch.2)
    | inr e ↦
        rw (unlink-miss slot n b bs h e, e)
          (
            read_slot-kept slot n b bs h out ∙ ch.0,
            unlink-Spared (next_of b.addr) n bs h (b.addr + 8) (
              ==_ne (b.addr + 8) b.addr (omega arith),
              not_mem_of_unaligned lo hi (b.addr + 8) bs (omega (arith, v.0.aligned)) v.1,
            )
                ∙ ch.1,
            unlink-Chain (next_of b.addr) n bs h ch.2 v.1 d.1
                (v.0.aligned, not_mem_of_Apart lo hi b bs v.0 v.1 d.0),
          )
  ]
    where
      inside : (s : Slot) → Outside s (b ∷ bs) → Outside s bs
      inside list_head o = tt
      inside (next_of q) o = (o.0, ground arith)
