-- ===== src/Paging/Process/Pages.antt =====
-- The loop of `alloc_proc_mem` of kernel/process/proc_allocator.c that maps pages, in its own
-- tables and in those of kernel/mmu.c.
use craybond_os.Base.{
  ℕ, zero, suc, ◌+◌, ◌*◌, ◌/◌, ◌%◌, ◌^◌, ◌≤◌, ◌<◌, ◌≡◌, ◌≢◌, refl, ◌∙◌, ◌⊎◌, inl, inr, arith, sym,
  bit_or, bit_and_mask, add64, if◌then◌else◌, Bool, none, some,
}
use craybond_os.Outcome.{Ensures, returns, Ensures-bind, Ensures-map}
use craybond_os.Alloc.{Heap}
use craybond_os.Paging.{
  frame_of, index, page_attr, permission_of, Mapped, map_pages, register_proc_memory,
}
use craybond_os.Paging.Tables.{translate}
use craybond_os.Paging.Write.{SamePath}
use craybond_os.Paging.Walk.{path, path-InRange, IsPaged}
use craybond_os.Paging.Map.{MappedTo, proc_map_4kb-MappedTo}
use craybond_os.Paging.Page.{Map4kb, refused, page_mapped, mmu_map_4kb-Map4kb}
use craybond_os.Paging.Process.Free.{IsPage, le_or_gt}

-- Addresses of different pages take different ways.
pages_apart :
    (r r' a b : ℕ)
    → a < 2 ^ 37
    → b < 2 ^ 37
    → a / 2 ^ 12 ≢ b / 2 ^ 12
    → ¬ SamePath r r' (path 39 a) (path 39 b) 0
pages_apart r r' a b ha hb ne p =
    let e : index a 12 ≡ index b 12 = p.1 0 (omega arith) (omega arith) in
    let f : index a 21 ≡ index b 21 = p.1 1 (omega arith) (omega arith) in
    let g : index a 30 ≡ index b 30 = p.1 2 (omega arith) (omega arith) in
    ne (
      omega (
        arith,
        bit_and_mask 9 (a / 2 ^ 12),
        bit_and_mask 9 (b / 2 ^ 12),
        bit_and_mask 9 (a / 2 ^ 21),
        bit_and_mask 9 (b / 2 ^ 21),
        bit_and_mask 9 (a / 2 ^ 30),
        bit_and_mask 9 (b / 2 ^ 30),
      ))

module _ (hb l1 table : ℕ) (uxn : ℕ → ℕ) (unset : ℕ) (kernel : Bool) where
  abbrev level : ℕ
  level = if kernel then 1 else 0

  -- The entry for the processor.
  abbrev pub process_entry : ℕ → ℕ
  process_entry p = bit_or (frame_of p) (page_attr (uxn level) (permission_of unset level) 1)

  -- What the processor finds of a page: the new entry, or a block of 2 MB that was there before.
  pub data IsShared (h h' : Heap) (p : ℕ) : Type 0 where
    new_page : translate h'.mem 4 l1 (path 39 p) ≡ some (0, process_entry p) → IsShared h h' p
    old_block :
        (block : ℕ)
        → translate h.mem 4 l1 (path 39 p) ≡ some (1, block)
        → translate h'.mem 4 l1 (path 39 p) ≡ some (1, block)
        → IsShared h h' p

  -- The `n` pages from `v` on are mapped in both tables, each to itself; other addresses below 2 ^
  -- 37 are mapped as before, by whatever first table, and the tables are well formed.
  pub record PagesMapped (depth : ℕ → ℕ) (h : Heap) (n v : ℕ) (h' : Heap) : Type 0 where
    pub new_depth : ℕ → ℕ
    pub paged : IsPaged hb new_depth h'
    pub kept : (g : ℕ) → depth g ≢ 0 → new_depth g ≡ depth g
    pub taken :
        (p : ℕ)
        → IsPage v n p
        → translate h'.mem 4 table (path 39 p) ≡ some (0, bit_or (frame_of p) 0x407)
    pub shared : (p : ℕ) → IsPage v n p → IsShared h h' p
    pub others :
        (root b : ℕ)
        → depth root ≡ 4
        → b < 2 ^ 37
        → (b < v) ⊎ (v + n * 0x1000 ≤ b)
        → translate h'.mem 4 root (path 39 b) ≡ translate h.mem 4 root (path 39 b)

  module _ (differ : l1 ≢ table) where
    module _ (depth : ℕ → ℕ) (h h1 : Heap) (v : ℕ) (page : v % 0x1000 ≡ 0) (low : v < 2 ^ 37)
        (top : depth table ≡ 4) (top1 : depth l1 ≡ 4)
        (m : MappedTo hb depth h table (path 39 v) 0 (bit_or (frame_of v) 0x407) h1) where
      -- One page, after `proc_map_4kb` and after `register_proc_memory`.
      one_page :
          (r : Mapped × Heap)
          → Map4kb hb m.new_depth h1 l1 (path 39 v) (process_entry v) r
          → PagesMapped depth h 1 v r.1
      one_page (_, h') (refused f block e w) = record {
        new_depth = w.new_depth;
        paged = record {
          layout = m.paged.layout;
          low = m.paged.low;
          inside = w.inside;
          tables = w.tables;
        };
        kept = λ g k. w.kept g (λ z. k (sym (m.kept g k) ∙ z)) ∙ m.kept g k;
        taken = λ p (le, less, aligned).
            (let same : p ≡ v = omega arith in
              rw same (w.same 3 table (path 39 v) top' (path-InRange 39 v) ∙ m.here));
        shared = λ p (le, less, aligned).
            (let same : p ≡ v = omega arith in
              rw same (
                old_block block (sym before ∙ e)
                  (w.same 3 l1 (path 39 v) top1' (path-InRange 39 v) ∙ e)));
        others = λ root b t small out.
            w.same 3 root (path 39 b) (m.kept root (omega arith) ∙ t) (path-InRange 39 b)
            ∙ m.others root (path 39 b) t (path-InRange 39 b)
                (pages_apart table root v b low small (ground arith));
      }
        where
          top' : m.new_depth table ≡ 4
          top' = m.kept table (omega arith) ∙ top

          top1' : m.new_depth l1 ≡ 4
          top1' = m.kept l1 (omega arith) ∙ top1

          before : translate h1.mem 4 l1 (path 39 v) ≡ translate h.mem 4 l1 (path 39 v)
          before = m.others l1 (path 39 v) top1 (path-InRange 39 v) (λ s. differ (sym s.0))
      one_page (_, h') (page_mapped e n) = record {
        new_depth = n.new_depth;
        paged = n.paged;
        kept = λ g k. n.kept g (λ z. k (sym (m.kept g k) ∙ z)) ∙ m.kept g k;
        taken = λ p (le, less, aligned).
            (let same : p ≡ v = omega arith in
              rw same (
                n.others table (path 39 v) (m.kept table (omega arith) ∙ top) (path-InRange 39 v)
                  (λ s. differ s.0)
                ∙ m.here));
        shared =
            λ p (le, less, aligned). (let same : p ≡ v = omega arith in rw same (new_page n.here));
        others = λ root b t small out.
            n.others root (path 39 b) (m.kept root (omega arith) ∙ t) (path-InRange 39 b)
              (pages_apart l1 root v b low small (ground arith))
            ∙ m.others root (path 39 b) t (path-InRange 39 b)
                (pages_apart table root v b low small (ground arith));
      }

    -- The first page and the pages after it.
    more_pages :
        (depth : ℕ → ℕ) (h h1 h' : Heap) (n v : ℕ)
        → v % 0x1000 ≡ 0
        → v + suc n * 0x1000 ≤ 2 ^ 37
        → depth table ≡ 4
        → depth l1 ≡ 4
        → (m : PagesMapped depth h 1 v h1) → PagesMapped m.new_depth h1 n (v + 0x1000) h'
        → PagesMapped depth h (suc n) v h'
    more_pages depth h h1 h' n v page fits top top1 m i = record {
      new_depth = i.new_depth;
      paged = i.paged;
      kept = λ g k. i.kept g (λ z. k (sym (m.kept g k) ∙ z)) ∙ m.kept g k;
      taken = λ p (le, less, aligned). elim (le_or_gt (v + 0x1000) p) [
        | inl later ↦ i.taken p (later, omega arith, aligned)
        | inr early ↦
            i.others table p (m.kept table (omega arith) ∙ top) (omega arith) (inl early)
            ∙ m.taken p (le, omega arith, aligned)
      ];
      shared = λ p (le, less, aligned). elim (le_or_gt (v + 0x1000) p) [
        | inl later ↦ shared_later p (omega arith) later (i.shared p (later, omega arith, aligned))
        | inr early ↦ shared_early p (omega arith) early (m.shared p (le, omega arith, aligned))
      ];
      others = λ root b t small out.
          i.others root b (m.kept root (omega arith) ∙ t) small (ground arith)
          ∙ m.others root b t small (ground arith);
    }
      where
        shared_later : (p : ℕ) → p < 2 ^ 37 → v + 0x1000 ≤ p → IsShared h1 h' p → IsShared h h' p
        shared_later p small later (new_page e) = new_page e
        shared_later p small later (old_block block e f) =
            old_block block (sym (m.others l1 p top1 small (inr (omega arith))) ∙ e) f

        shared_early : (p : ℕ) → p < 2 ^ 37 → p < v + 0x1000 → IsShared h h1 p → IsShared h h' p
        shared_early p small early (new_page e) =
            new_page (i.others l1 p (m.kept l1 (omega arith) ∙ top1) small (inl early) ∙ e)
        shared_early p small early (old_block block e f) =
            old_block block e (i.others l1 p (m.kept l1 (omega arith) ∙ top1) small (inl early) ∙ f)

    no_pages : (depth : ℕ → ℕ) (h : Heap) (v : ℕ) → IsPaged hb depth h → PagesMapped depth h 0 v h
    no_pages depth h v paged = record {
      new_depth = depth;
      paged = paged;
      kept = λ g k. refl;
      taken = λ p (le, less, aligned). absurd (omega arith);
      shared = λ p (le, less, aligned). absurd (omega arith);
      others = λ root b t small out. refl;
    }

    -- Free pages below 2 ^ 37 are mapped, or the allocator of the tables panics.
    pub map_pages-PagesMapped :
        (n v : ℕ) (depth : ℕ → ℕ) (h : Heap)
        → IsPaged hb depth h
        → depth table ≡ 4
        → depth l1 ≡ 4
        → v % 0x1000 ≡ 0
        → v + n * 0x1000 ≤ 2 ^ 37
        → ((p : ℕ) → IsPage v n p → translate h.mem 4 table (path 39 p) ≡ none)
        → Ensures (PagesMapped depth h n v) (map_pages hb l1 table uxn unset n v kernel h)
    unfolding map_pages register_proc_memory
    map_pages-PagesMapped zero v depth h paged top top1 page fits free =
        returns (no_pages depth h v paged)
    map_pages-PagesMapped (suc n) v depth h paged top top1 page fits free =
        let next : add64 v 0x1000 ≡ v + 0x1000 = omega arith in
        let here = free v (omega arith, omega arith, page) in
        Ensures-bind
          (proc_map_4kb-MappedTo hb depth h paged table top v v (λ entry e. absurd (cc (e, here))))
          λ h1 m.
            Ensures-bind
              (mmu_map_4kb-Map4kb hb m.new_depth h1 m.paged l1 (m.kept l1 (omega arith) ∙ top1) uxn
                unset v v 1 level (omega arith))
              λ r e.
                (let o = one_page depth h h1 v page (omega arith) top top1 m r e in
                  rw next (
                    Ensures-map
                      (map_pages-PagesMapped n (v + 0x1000) o.new_depth r.1 o.paged
                        (o.kept table (omega arith) ∙ top) (o.kept l1 (omega arith) ∙ top1)
                        (omega arith) (omega arith)
                        (λ p (le, less, aligned).
                          o.others table p top (omega arith) (inr (omega arith))
                          ∙ free p (omega arith, omega arith, aligned)))
                      (λ h' i. more_pages depth h r.1 h' n v page (omega arith) top top1 o i)))
