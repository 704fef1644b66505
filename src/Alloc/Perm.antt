-- ===== src/Alloc/Perm.antt =====
-- `palloc` of kernel/ram_e.c: one call, and any sequence of calls.
use craybond_os.Base.{
  ℕ, ◌+◌, ◌%◌, ◌^◌, ◌≤◌, ◌<◌, ◌≡◌, refl, inl, inr, List, [], ◌∷◌, arith, ltb, if◌then◌else◌,
  Bool-cases, add64, ltb→lt,
}
use craybond_os.Outcome.{
  Outcome, done, panic, perm_overflow, ◌>>=◌, Ensures, returns, panics, Ensures-bind,
}
use craybond_os.Alloc.{Heap, align_up, heap_limit, palloc}
use craybond_os.Alloc.Align.{align_up_bounds}
use craybond_os.Alloc.Blocks.{Block, block, All, Apart, Disjoint, All-map}
use craybond_os.Alloc.Temp.{IsLayout}

-- What one call leaves: only the bump pointer has moved.
abbrev pub bump : Heap → ℕ → ℕ → Heap
bump h start size = record h { next_free_perm = start + align_up size }

-- The two ways in which `palloc size` may end.
pub data PallocResult (hb size : ℕ) (h : Heap) : Outcome (ℕ × Heap) → Type 0 where
  got :
      (a : ℕ)
      → a ≡ align_up h.next_free_perm
      → a % 0x1000 ≡ 0
      → h.next_free_perm ≤ a
      → size ≤ align_up size
      → a + align_up size ≤ heap_limit hb
      → PallocResult hb size h (done (a, bump h a size))
  full :
      heap_limit hb < align_up h.next_free_perm + align_up size
      → PallocResult hb size h (panic perm_overflow (heap_limit hb))

module _ (hb : ℕ) (lay : IsLayout hb) (size : ℕ) (h : Heap) (fits : size ≤ 2 ^ 62)
    (below : h.next_free_perm ≤ heap_limit hb) where
  start : ℕ
  start = align_up h.next_free_perm

  sizes :
      (start % 0x1000 ≡ 0)
      × (h.next_free_perm ≤ start)
      × (size ≤ align_up size)
      × (add64 start (align_up size) ≡ start + align_up size)
  unfolding start
  sizes = omega (
    arith,
    align_up_bounds size (omega arith),
    align_up_bounds h.next_free_perm (omega (arith, lay.low)),
    lay.low,
  )

  -- `palloc` by the sum that does not wrap.
  palloc_eq : palloc hb size h ≡ (
      if ltb (heap_limit hb) (start + align_up size)
      then panic perm_overflow (heap_limit hb)
      else done (start, bump h start size))
  unfolding palloc start
  palloc_eq = rw sizes.3

  -- With the bump pointer inside the heap and a size of at most 2 ^ 62, `palloc` returns a block
  -- that starts on a page, not below the old bump pointer, and whose rounded size ends at the new
  -- bump pointer, inside the heap; no memory is written. It panics exactly when there is no room.
  pub palloc-PallocResult : PallocResult hb size h (palloc hb size h)
  unfolding start
  palloc-PallocResult =
      rw palloc_eq (elim (Bool-cases (ltb (heap_limit hb) (start + align_up size))) [
        | inl t ↦ rw t (full (ltb→lt _ _ t))
        | inr t ↦ rw t (got start refl sizes.0 sizes.1 sizes.2 (ground arith))
      ])

-- The calls `palloc(n)` for the sizes of a list, one after another.
pub pallocs : ℕ → List ℕ → Heap → Outcome (List Block × Heap)
pallocs hb [] h = done ([], h)
pallocs hb (n ∷ ns) h = do
  (a, h1) ← palloc hb n h
  (bs, h2) ← pallocs hb ns h1
  done (block a n ∷ bs, h2)

abbrev pub AllSizes : List ℕ → Type 0
AllSizes [] = Unit {0}
AllSizes (n ∷ ns) = (n ≤ 2 ^ 62) × AllSizes ns

abbrev pub Between : ℕ → ℕ → Block → Type 0
Between lo hi b = (b.addr % 0x1000 ≡ 0) × (lo ≤ b.addr) × (b.addr + b.size ≤ hi)

pub record Served (hb : ℕ) (h : Heap) (bs : List Block) (h' : Heap) : Type 0 where
  pub apart : Disjoint bs
  pub between : All (Between h.next_free_perm h'.next_free_perm) bs
  pub grows : h.next_free_perm ≤ h'.next_free_perm
  pub inside : h'.next_free_perm ≤ heap_limit hb

pub palloc-step :
    (hb size : ℕ) (h : Heap) {r : Outcome (ℕ × Heap)}
    → PallocResult hb size h r
    → Ensures
        (λ s.
          (s.1.next_free_perm ≤ heap_limit hb)
          × (h.next_free_perm ≤ s.0)
          × (s.0 % 0x1000 ≡ 0)
          × (s.0 + size ≤ s.1.next_free_perm))
        r
palloc-step hb size h (got a e page above le room) = returns (room, above, page, omega arith)
palloc-step hb size h (full over) = panics

-- Any sequence of calls of `palloc`, each for at most 2 ^ 62 bytes, ends. Unless it panics, the
-- blocks that it returns share no byte, start on pages, and lie between the bump pointers before
-- and after, inside the heap.
pub pallocs-Served :
    (hb : ℕ)
    → IsLayout hb
    → (ns : List ℕ) (h : Heap) → AllSizes ns
    → h.next_free_perm ≤ heap_limit hb
    → Ensures (λ r. Served hb h r.0 r.1) (pallocs hb ns h)
unfolding pallocs
pallocs-Served hb lay [] h small below =
    returns (record { apart = tt; between = tt; grows = omega arith; inside = below })
pallocs-Served hb lay (n ∷ ns) h small below =
    Ensures-bind (palloc-step hb n h (palloc-PallocResult hb lay n h small.0 below)) λ r p.
      Ensures-bind (pallocs-Served hb lay ns r.1 small.1 p.0) λ s q. returns (record {
        apart = (
          All-map (Between r.1.next_free_perm s.1.next_free_perm) (Apart (block r.0 n))
              (λ b w. inl (omega arith)) s.0 q.between,
          q.apart,
        );
        between = (
          (p.2, p.1, omega (arith, q.grows)),
          All-map (Between r.1.next_free_perm s.1.next_free_perm)
              (Between h.next_free_perm s.1.next_free_perm) (λ b w. (w.0, omega arith, w.2)) s.0
              q.between,
        );
        grows = omega (arith, q.grows);
        inside = q.inside;
      })
