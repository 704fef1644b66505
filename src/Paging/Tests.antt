-- ===== src/Paging/Tests.antt =====
-- Maps of kernel/mmu.c and kernel/process/proc_allocator.c in a memory that holds two empty first
-- tables below the heap.
use craybond_os.Base.{
  false, zero, suc, subst, sym, ◌/◌, ◌*◌, ◌^◌, ◌<◌, ℕ, ◌+◌, ◌≡◌, ◌≢◌, refl, none, ◌==◌,
  if◌then◌else◌, arith, bit_or, ◌⊎◌, inl, inr, eq_or_ne, ==_ne,
}
use craybond_os.Outcome.{Ensures}
use craybond_os.Alloc.{Heap, update}
use craybond_os.Paging.{
  alloc_proc_mem, clear_table, frame_of, block_attr, page_attr, mmu_map_2mb, mmu_map_4kb,
}
use craybond_os.Paging.Tables.{IsLink, translate, IsTables}
use craybond_os.Paging.Walk.{path, IsPaged}
use craybond_os.Paging.Map.{MappedTo, mmu_map_2mb-MappedTo}
use craybond_os.Paging.Init.{Range, Layout, uart, gic, mmu_init}
use craybond_os.Paging.Init.Kernel.{IsApart, KernelMapped, mmu_init-KernelMapped}
use craybond_os.Paging.Process.Free.{IsPlain}
use craybond_os.Paging.Process.{FirstFit, alloc_proc_mem-FirstFit}
use craybond_os.Paging.Page.{Map4kb, mmu_map_4kb-Map4kb, mmu_map_2mb-misses}

abbrev bottom : ℕ
bottom = 0x41000000

abbrev root : ℕ
root = 0x40080000

abbrev root2 : ℕ
root2 = 0x40081000

abbrev empty : Heap
empty = record {
  mem = λ p. 0;
  temp_free_list = 0;
  next_free_temp = bottom;
  next_free_perm = bottom + 0x600000;
}

abbrev roots : ℕ → ℕ
roots f = if f == root then 4 else if f == root2 then 4 else 0

roots_cases : (f : ℕ) → roots f ≢ 0 → (f ≡ root) ⊎ (f ≡ root2)
roots_cases f ne = elim (eq_or_ne f root) [
  | inl p ↦ inl p
  | inr p ↦ elim (eq_or_ne f root2) [
    | inl q ↦ inr q
    | inr q ↦ absurd (ne (rw (==_ne f root p, ==_ne f root2 q) refl))
  ]
]

nothing : (d : ℕ) → ¬ IsLink d 0
nothing d (v, q) = absurd (cc v)

empty-IsTables : IsTables roots empty
empty-IsTables = record {
  page = λ f lf. elim (roots_cases f lf) [ inl p ↦ rw p refl | inr p ↦ rw p refl ];
  below = λ f lf. elim (roots_cases f lf) [ inl p ↦ omega arith | inr p ↦ omega arith ];
  down = λ d f i lf less link. absurd (nothing d link);
  unique = λ d e f g i j lf lg less lessj link linkj eq. absurd (nothing d link);
}

empty-IsPaged : IsPaged bottom roots empty
empty-IsPaged = record {
  layout = record { on_page = refl; not_null = omega arith; low = omega arith };
  low = omega arith;
  inside = omega arith;
  tables = empty-IsTables;
}

mmu_map_2mb-MappedTo_example :
    Ensures
      (MappedTo bottom roots empty root
        (path 39 0x40000000)
        1
        (bit_or (frame_of 0x40000000) (block_attr 1)))
      (mmu_map_2mb bottom root 0x40000000 0x40000000 1 empty)
mmu_map_2mb-MappedTo_example =
    mmu_map_2mb-MappedTo bottom roots empty empty-IsPaged root refl 0x40000000 0x40000000 1
      (omega arith)

mmu_map_4kb-Map4kb_example :
    Ensures
      (Map4kb bottom roots empty root
        (path 39 0x9000000)
        (bit_or (frame_of 0x9000000) (page_attr 0 0 0)))
      (mmu_map_4kb bottom root (λ level. 0) 0 0x9000000 0x9000000 0 1 empty)
mmu_map_4kb-Map4kb_example =
    mmu_map_4kb-Map4kb bottom roots empty empty-IsPaged root refl (λ level. 0) 0 0x9000000 0x9000000
      0 1 (omega arith)

mmu_map_2mb-misses_example :
    Ensures
      (λ h'. translate h'.mem 4 root (path 39 0x4000000000) ≡ none)
      (mmu_map_2mb bottom root 0x4000000000 0x40000000 1 empty)
unfolding translate
mmu_map_2mb-misses_example =
    mmu_map_2mb-misses bottom roots empty root 0x4000000000 0x40000000 1 empty-IsPaged refl
      (omega arith) (omega arith)

clear_table-zero :
    (n i table : ℕ) (mem : ℕ → ℕ)
    → ((x : ℕ) → mem x ≡ 0)
    → (x : ℕ) → clear_table n i table mem x ≡ 0
unfolding clear_table
clear_table-zero zero i table mem z x = z x
clear_table-zero (suc n) i table mem z x =
    clear_table-zero n (i + 1) table (update mem (table + 8 * i) 0) (λ y. ground (arith, z y)) x

cleared-IsPaged : IsPaged bottom roots (record empty { mem = clear_table 512 0 root empty.mem })
cleared-IsPaged =
    subst (λ (m : ℕ → ℕ). IsPaged bottom roots (record empty { mem = m }))
      (λ i x. sym (clear_table-zero 512 0 root empty.mem (λ y. refl) x) i) empty-IsPaged

abbrev ranges : Layout
ranges = record {
  kernel = record { first = 0x41000000; last = 0x42200000 };
  shared = record { first = 0x42400000; last = 0x42401000 };
  tree = record { first = 0x48000000; last = 0x48002000 };
  disk = record { first = 0x0A000000; last = 0x0A000200 };
}

below_kernel :
    (r : Range)
    → r.last / 2 ^ 21 < 0x41000000 / 2 ^ 21
    → r.last < r.first + 20 * 0x1000
    → IsApart ranges.kernel 20 r
below_kernel r less enough = record { low = omega arith; apart = inl less; enough = enough }

above_kernel :
    (r : Range)
    → 0x42200000 / 2 ^ 21 < r.first / 2 ^ 21
    → r.last < 2 ^ 37
    → r.last < r.first + 20 * 0x1000
    → IsApart ranges.kernel 20 r
above_kernel r less low enough = record { low = low; apart = inr less; enough = enough }

mmu_init-KernelMapped_example :
    Ensures
      (KernelMapped bottom root ranges.kernel)
      (mmu_init bottom root (λ level. 0) 0 21 ranges empty)
mmu_init-KernelMapped_example =
    mmu_init-KernelMapped bottom root (λ level. 0) 0 20 ranges roots empty cleared-IsPaged refl
      (omega arith) (omega arith) (below_kernel uart (omega arith) (omega arith))
      (below_kernel gic (omega arith) (omega arith))
      (above_kernel ranges.shared (omega arith) (omega arith) (omega arith))
      (above_kernel ranges.tree (omega arith) (omega arith) (omega arith))
      (below_kernel ranges.disk (omega arith) (omega arith))

empty_plain : (table : ℕ) → IsPlain empty table
empty_plain table idx range d f r = (omega arith, λ p v. absurd (cc v))

-- Three pages are asked for, of a memory that begins and ends within pages.
alloc_proc_mem-FirstFit_example :
    FirstFit bottom root root2
      (λ level. 0)
      0
      0x48000000
      3
      false
      roots
      empty
      (empty_plain root2)
      0x43001000
      (alloc_proc_mem bottom root root2
        (λ level. 0)
        0
        0x5001
        0x43000010
        0x48000123
        0x2001
        false
        empty)
alloc_proc_mem-FirstFit_example =
    alloc_proc_mem-FirstFit bottom root root2 (λ level. 0) 0 0x5000 0x43000010 0x48000123 0x2001
      false roots empty (empty_plain root2) empty-IsPaged refl refl (λ e. absurd (omega arith))
      (omega arith) (omega arith) (omega arith) (omega arith)
