-- ===== src/Paging/Init/Kernel.antt =====
-- What `mmu_init` of kernel/mmu.c makes of the kernel's own memory.
use craybond_os.Base.{ℕ, suc, ◌+◌, ◌*◌, ◌/◌, ◌^◌, ◌<◌, ◌≡◌, ◌∙◌, ◌⊎◌, some, arith}
use craybond_os.Outcome.{Ensures, Ensures-bind, Ensures-map}
use craybond_os.Alloc.{Heap}
use craybond_os.Paging.{clear_table}
use craybond_os.Paging.Tables.{translate}
use craybond_os.Paging.Walk.{path, IsPaged}
use craybond_os.Paging.Init.{Range, Layout, uart, gic, map_range, mmu_init}
use craybond_os.Paging.Init.Identity.{IsStart, own_block, map_blocks-Identity}
use craybond_os.Paging.Init.Pages.{map_range-Kept}

-- A range of pages that shares no block with the kernel, with the fuel for it.
pub record IsApart (kernel : Range) (n : ℕ) (r : Range) : Type 0 where
  pub low : r.last < 2 ^ 37
  pub apart : (r.last / 2 ^ 21 < kernel.first / 2 ^ 21) ⊎ (kernel.last / 2 ^ 21 < r.first / 2 ^ 21)
  pub enough : r.last < r.first + n * 0x1000

-- The tables are well formed, and each block of the kernel is mapped to itself, as memory.
pub record KernelMapped (hb root : ℕ) (kernel : Range) (h : Heap) : Type 0 where
  pub depth : ℕ → ℕ
  pub paged : IsPaged hb depth h
  pub top : depth root ≡ 4
  pub here :
      (b : ℕ)
      → IsStart kernel.first kernel.last b
      → translate h.mem 4 root (path 37 b) ≡ some (1, own_block 1 b)

module _ (hb root : ℕ) (uxn : ℕ → ℕ) (unset n : ℕ) (kernel : Range)
    (low : kernel.last < 2 ^ 37) where
  map_range-KernelMapped :
      (attr_index level : ℕ) (r : Range) (h : Heap)
      → IsApart kernel n r
      → KernelMapped hb root kernel h
      → Ensures
          (KernelMapped hb root kernel)
          (map_range hb root uxn unset (suc n) r.first r.last attr_index level h)
  map_range-KernelMapped attr_index level r h a k =
      Ensures-map
        (map_range-Kept hb root r.last a.low uxn unset attr_index level n k.depth h r.first k.paged
          k.top a.enough)
        (λ h' m. record {
          depth = m.new_depth;
          paged = m.paged;
          top = m.kept root (λ z. omega (arith, k.top)) ∙ k.top;
          here = λ b s.
              m.others b (omega (arith, s.1)) (ground (arith, s.0, s.1, a.apart)) ∙ k.here b s;
        })

-- The page tables of `mmu_init`: with the other ranges in other blocks than the kernel, all of them
-- below 2 ^ 37, and with the fuel for each range, `mmu_init` ends; unless it panics for lack of
-- memory, every block of 2 MB from the start of the kernel to its end is mapped to itself as normal
-- memory, and the tables are well formed.
pub mmu_init-KernelMapped :
    (hb root : ℕ) (uxn : ℕ → ℕ) (unset n : ℕ) (l : Layout) (depth : ℕ → ℕ) (h : Heap)
    → IsPaged hb depth (record h { mem = clear_table 512 0 root h.mem })
    → depth root ≡ 4
    → l.kernel.last < 2 ^ 37
    → l.kernel.last < l.kernel.first + n * 0x200000
    → IsApart l.kernel n uart
    → IsApart l.kernel n gic
    → IsApart l.kernel n l.shared
    → IsApart l.kernel n l.tree
    → IsApart l.kernel n l.disk
    → Ensures (KernelMapped hb root l.kernel) (mmu_init hb root uxn unset (suc n) l h)
unfolding mmu_init
mmu_init-KernelMapped hb root uxn unset n l depth h paged top low enough a1 a2 a3 a4 a5 =
    let cleared : Heap = record h { mem = clear_table 512 0 root h.mem } in
    let step = map_range-KernelMapped hb root uxn unset n l.kernel low in
    let start =
      Ensures-map
        (map_blocks-Identity hb root l.kernel.last 1 low n depth cleared l.kernel.first paged top
          enough)
        (λ h1 i. record {
          depth = i.new_depth;
          paged = i.paged;
          top = i.kept root (λ z. omega arith) ∙ top;
          here = i.here;
        }) in
    Ensures-bind {P = KernelMapped hb root l.kernel} start (λ h1 k1.
      Ensures-bind (step 0 1 uart h1 a1 k1) (λ h2 k2. Ensures-bind (step 0 1 gic h2 a2 k2) (λ h3 k3.
        Ensures-bind (step 1 2 l.shared h3 a3 k3)
          (λ h4 k4. Ensures-bind (step 1 1 l.tree h4 a4 k4) (λ h5 k5. step 0 1 l.disk h5 a5 k5)))))
