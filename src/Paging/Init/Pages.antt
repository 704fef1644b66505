-- ===== src/Paging/Init/Pages.antt =====
-- What a loop of `mmu_init` of kernel/mmu.c over pages of 4 KB leaves alone.
use craybond_os.Base.{
  ℕ, zero, suc, ◌+◌, ◌*◌, ◌^◌, ◌≤◌, ◌<◌, ◌≡◌, ◌≢◌, refl, ◌∙◌, inl, inr, arith, leb_le, leb_gt,
  add64, sym,
}
use craybond_os.Outcome.{Ensures, returns, Ensures-bind, Ensures-map}
use craybond_os.Alloc.{Heap}
use craybond_os.Paging.{Mapped}
use craybond_os.Paging.Tables.{translate}
use craybond_os.Paging.Walk.{path, path-InRange, IsPaged}
use craybond_os.Paging.Page.{Map4kb, refused, page_mapped, map_4kb-own_path}
use craybond_os.Paging.Init.{map_range}
use craybond_os.Paging.Init.Identity.{Outside, blocks_apart, le_or_gt}

-- The tables are well formed, and the translations in other blocks than those of the range stay.
pub record Kept (hb : ℕ) (depth : ℕ → ℕ) (h : Heap) (root first last : ℕ) (h' : Heap) : Type 0 where
  pub new_depth : ℕ → ℕ
  pub paged : IsPaged hb new_depth h'
  pub kept : (g : ℕ) → depth g ≢ 0 → new_depth g ≡ depth g
  pub others :
      (b : ℕ)
      → b < 2 ^ 37
      → Outside first last b
      → translate h'.mem 4 root (path 37 b) ≡ translate h.mem 4 root (path 37 b)

nothing_mapped :
    {hb root : ℕ} (depth : ℕ → ℕ) (h : Heap) (first last : ℕ)
    → IsPaged hb depth h
    → Kept hb depth h root first last h
nothing_mapped depth h first last paged = record {
  new_depth = depth;
  paged = paged;
  kept = λ g k. refl;
  others = λ b k o. refl;
}

module _ (hb root last : ℕ) (small : last < 2 ^ 37) where
  one_page :
      (depth : ℕ → ℕ) (h : Heap) (first entry : ℕ)
      → IsPaged hb depth h
      → depth root ≡ 4
      → first ≤ last
      → (r : Mapped × Heap) → Map4kb hb depth h root (path 37 first) entry r
      → Kept hb depth h root first first r.1
  one_page depth h first entry paged top le _ (refused f block e w) = record {
    new_depth = w.new_depth;
    paged = record { layout = paged.layout; low = paged.low; inside = w.inside; tables = w.tables };
    kept = w.kept;
    others = λ b k o. w.same 3 root (path 37 b) top (path-InRange 37 b);
  }
  one_page depth h first entry paged top le _ (page_mapped e m) = record {
    new_depth = m.new_depth;
    paged = m.paged;
    kept = m.kept;
    others = λ b k o.
        m.others root (path 37 b) top (path-InRange 37 b)
          (blocks_apart root first b 0 (omega arith) (omega arith) k (ground arith));
  }

  more_pages :
      (depth : ℕ → ℕ) (h h1 h' : Heap) (first : ℕ)
      → first ≤ last
      → (m : Kept hb depth h root first first h1)
      → Kept hb m.new_depth h1 root (first + 0x1000) last h'
      → Kept hb depth h root first last h'
  more_pages depth h h1 h' first le m i = record {
    new_depth = i.new_depth;
    paged = i.paged;
    kept = λ g k. i.kept g (λ z. k (sym (m.kept g k) ∙ z)) ∙ m.kept g k;
    others = λ b k o. i.others b k (ground arith) ∙ m.others b k (ground arith);
  }

  module _ (uxn : ℕ → ℕ) (unset attr_index level : ℕ) where
    pub map_range-Kept :
        (n : ℕ) (depth : ℕ → ℕ) (h : Heap) (first : ℕ)
        → IsPaged hb depth h
        → depth root ≡ 4
        → last < first + n * 0x1000
        → Ensures
            (Kept hb depth h root first last)
            (map_range hb root uxn unset (suc n) first last attr_index level h)
    unfolding map_range
    map_range-Kept zero depth h first paged top enough =
        rw (leb_gt first last (omega arith)) (returns (nothing_mapped depth h first last paged))
    map_range-Kept (suc n) depth h first paged top enough = elim (le_or_gt first last) [
      | inr less ↦ rw (leb_gt first last less) (returns (nothing_mapped depth h first last paged))
      | inl le ↦
          let next : add64 first 0x1000 ≡ first + 0x1000 = omega arith in
          rw (leb_le first last le, next)
            (Ensures-bind
              (map_4kb-own_path hb depth h paged root top uxn unset first first attr_index level)
              (λ r e.
                let m = one_page depth h first _ paged top le r e in
                Ensures-map
                  (map_range-Kept n m.new_depth r.1 (first + 0x1000) m.paged
                    (m.kept root (λ z. omega arith) ∙ top) (omega arith))
                  (λ h' i. more_pages depth h r.1 h' first le m i)))
    ]
