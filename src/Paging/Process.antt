-- ===== src/Paging/Process.antt =====
-- The search of `alloc_proc_mem` of kernel/process/proc_allocator.c for free pages.
use craybond_os.Base.{
  ℕ, zero, suc, ◌+◌, ◌-◌, ◌*◌, ◌/◌, ◌%◌, ◌^◌, ◌≤◌, ◌<◌, ◌≡◌, ◌≢◌, refl, ◌∙◌, ◌⊎◌, inl, inr, arith,
  bit_and, bit_and_field, leb_le, leb_gt, add64, eq_or_ne, subst, Bool, true, false,
}
use craybond_os.Outcome.{Outcome, done, ◌>>=◌, Ensures, returns, Ensures-bind}
use craybond_os.Alloc.{Heap}
use craybond_os.Paging.{map_pages, find_pages, alloc_proc_mem}
use craybond_os.Paging.Walk.{IsPaged}
use craybond_os.Paging.Process.Free.{IsPlain, AllFree, InUse, is_free-Tested, le_or_gt}
use craybond_os.Paging.Process.Pages.{PagesMapped, map_pages-PagesMapped}
pub mod Free
pub mod Pages

-- `c` is reached from `va` by steps of one page.
abbrev pub IsStep : (va c : ℕ) → Type 0
IsStep va c = (va ≤ c) × ((c - va) % 0x1000 ≡ 0)

module _ (hb l1 table : ℕ) (uxn : ℕ → ℕ) (unset end pages : ℕ) (kernel : Bool) (depth : ℕ → ℕ)
    (h : Heap) (plain : IsPlain h table) where
  -- The first candidate from `va` on whose pages are all free is taken and its pages are mapped,
  -- unless the allocator of the tables panics, or there is none and nothing changes.
  pub data FirstFit (va : ℕ) (o : Outcome (ℕ × Heap)) : Type 0 where
    fits :
        (c : ℕ)
        → IsStep va c
        → c + pages * 0x1000 ≤ end
        → AllFree hb table h plain pages c
        → ((d : ℕ) → IsStep va d → d < c → InUse hb table h plain pages d)
        → Ensures (λ r. (r.0 ≡ c) × PagesMapped hb l1 table uxn unset kernel depth h pages c r.1) o
        → FirstFit va o
    full :
        ((d : ℕ) → IsStep va d → d + pages * 0x1000 ≤ end → InUse hb table h plain pages d)
        → o ≡ done (0, h)
        → FirstFit va o

  later :
      (va d : ℕ)
      → InUse hb table h plain pages va
      → IsStep va d
      → (IsStep (va + 0x1000) d → InUse hb table h plain pages d)
      → InUse hb table h plain pages d
  later va d used (le, e) rest = elim (eq_or_ne va d) [
    | inl p ↦ subst (InUse hb table h plain pages) p used
    | inr ne ↦ rest (omega arith, omega arith)
  ]

  skip :
      (va : ℕ) (o : Outcome (ℕ × Heap))
      → InUse hb table h plain pages va
      → FirstFit (va + 0x1000) o
      → FirstFit va o
  skip va o used (fits c s le free low e) =
      fits c (omega (arith, s.0), omega (arith, s.0, s.1)) le free
        (λ d t less. later va d used t (λ u. low d u less)) e
  skip va o used (full low e) = full (λ d t le. later va d used t (λ u. low d u le)) e

  module _ (paged : IsPaged hb depth h) (top : depth table ≡ 4) (top1 : depth l1 ≡ 4)
      (differ : l1 ≢ table) (low : end < 2 ^ 37) (small : pages * 0x1000 < 2 ^ 62) where
    take_pages :
        (va : ℕ)
        → va % 0x1000 ≡ 0
        → va + pages * 0x1000 ≤ end
        → AllFree hb table h plain pages va
        → FirstFit va (map_pages hb l1 table uxn unset pages va kernel h >>= λ h1. done (va, h1))
    take_pages va page le free =
        fits va (omega arith, omega arith) le free (λ d t less. absurd (omega (arith, t.0)))
          (Ensures-bind
            (map_pages-PagesMapped hb l1 table uxn unset kernel differ pages va depth h paged top
              top1 page (omega arith) free)
            λ h1 m. returns (refl, m))

    find_pages-FirstFit :
        (n va : ℕ)
        → va % 0x1000 ≡ 0
        → va < 2 ^ 63
        → end < va + pages * 0x1000 + n * 0x1000
        → FirstFit va (find_pages hb l1 table uxn unset (suc n) va end pages kernel h)
    unfolding find_pages
    find_pages-FirstFit zero va page c enough =
        let sum : add64 va (pages * 0x1000) ≡ va + pages * 0x1000 = omega arith in
        rw (sum, leb_gt (va + pages * 0x1000) end (omega arith))
          (full (λ d t le. absurd (omega (arith, t.0))) refl)
    find_pages-FirstFit (suc n) va page c enough =
        let sum : add64 va (pages * 0x1000) ≡ va + pages * 0x1000 = omega arith in
        elim (le_or_gt (va + pages * 0x1000) end) [
          | inr less ↦ rw (sum, leb_gt _ _ less) (full (λ d t le. absurd (omega (arith, t.0))) refl)
          | inl le ↦
              let next : add64 va 0x1000 ≡ va + 0x1000 = omega arith in
              elim (is_free-Tested hb table h plain pages va page (omega arith)) [
                | inl (e, free) ↦ rw (sum, leb_le _ _ le, e) (take_pages va page le free)
                | inr (e, used) ↦
                    rw (sum, leb_le _ _ le, e, next)
                      (skip va _ used (
                        find_pages-FirstFit n (va + 0x1000) (omega arith) (omega arith)
                          (omega arith)))
              ]
        ]

-- The start of the memory for processes, rounded up, its end, rounded down, and the size in pages.
abbrev pub first_page : (user_start : ℕ) → ℕ
first_page user_start = (user_start + 0xFFF) / 0x1000 * 0x1000

abbrev pub last_page : (user_end : ℕ) → ℕ
last_page user_end = user_end / 0x1000 * 0x1000

-- For two different first tables in well-formed tables below 2 ^ 48, of which the one of the
-- allocator leads to no block of 2 MB and to no entry of 2 ^ 48 or above, memory for processes that
-- starts below 2 ^ 62 and ends below 2 ^ 37, a size below 2 ^ 61, and one round more than there are
-- candidates, `alloc_proc_mem` ends its search. If no page of some run within the memory is mapped
-- by the table of the allocator, it takes the first such run: unless `palloc` panics, it returns
-- its address, and afterwards the table of the allocator maps each page of the run to itself, and
-- the processor finds each page in the new entry, or in a block of 2 MB that it found there before;
-- all other addresses below 2 ^ 37 are mapped as before. If every run has a mapped page, it returns
-- 0, and nothing changes.
pub alloc_proc_mem-FirstFit :
    (hb l1 table : ℕ) (uxn : ℕ → ℕ) (unset n user_start user_end size : ℕ) (kernel : Bool)
    (depth : ℕ → ℕ) (h : Heap) (plain : IsPlain h table)
    → IsPaged hb depth h
    → depth table ≡ 4
    → depth l1 ≡ 4
    → l1 ≢ table
    → user_start < 2 ^ 62
    → user_end < 2 ^ 37
    → size < 2 ^ 61
    → user_end < first_page user_start + size + n * 0x1000
    → FirstFit hb l1 table uxn unset
        (last_page user_end)
        ((size + 0xFFF) / 0x1000)
        kernel
        depth
        h
        plain
        (first_page user_start)
        (alloc_proc_mem hb l1 table uxn unset (suc n) user_start user_end size kernel h)
unfolding alloc_proc_mem
alloc_proc_mem-FirstFit hb l1 table uxn unset n user_start user_end size kernel depth h plain paged
      top top1 differ a b c enough =
    let first : bit_and (add64 user_start 0xFFF) 0xFFFFFFFFFFFFF000 ≡ first_page user_start =
      bit_and_field 52 12 (add64 user_start 0xFFF) ∙ omega arith in
    let last : bit_and user_end 0xFFFFFFFFFFFFF000 ≡ last_page user_end =
      bit_and_field 52 12 user_end ∙ omega arith in
    let pages : add64 size 0xFFF / 0x1000 ≡ (size + 0xFFF) / 0x1000 = omega arith in
    rw (first, last, pages)
      (find_pages-FirstFit hb l1 table uxn unset (last_page user_end) ((size + 0xFFF) / 0x1000)
        kernel depth h plain paged top top1 differ (omega arith) (omega arith) n
        (first_page user_start) (omega arith) (omega arith) (omega arith))
