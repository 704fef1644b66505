-- ===== src/Paging/Walk.antt =====
-- The walk of the map functions of kernel/mmu.c and kernel/process/proc_allocator.c, which makes
-- the missing tables on the way.
use craybond_os.Base.{
  ℕ, zero, suc, ◌+◌, ◌*◌, ◌/◌, ◌^◌, ◌≤◌, ◌<◌, ◌≡◌, ◌≢◌, refl, true, false, arith, ◌∙◌, sym, subst,
  bit_and_mask,
}
use craybond_os.Outcome.{Ensures, Ensures-map}
use craybond_os.Alloc.{Heap, heap_limit}
use craybond_os.Alloc.Temp.{IsLayout}
use craybond_os.Paging.{frame_of, is_valid, index, ensure_table}
use craybond_os.Paging.Linked.{InRange}
use craybond_os.Paging.Ensure.{Ensured, ensure_table-Ensured}
use craybond_os.Paging.Tables.{is_end, IsLink, translate, translate-link, IsTables}
use craybond_os.Paging.Write.{Reach, start, step, Reach-depth}

-- The indices of an address by depth; `top` is the shift for the first table.
abbrev pub path : ℕ → ℕ → ℕ → ℕ
path top va zero = index va 12
path top va (suc zero) = index va 21
path top va (suc (suc zero)) = index va 30
path top va (suc (suc (suc d))) = index va top

index_lt : (va shift : ℕ) → index va shift < 512
index_lt va shift = rw (bit_and_mask 9 (va / 2 ^ shift)) (omega arith)

same_index : (va : ℕ) → va < 2 ^ 37 → index va 37 ≡ index va 39
same_index va low = omega (arith, bit_and_mask 9 (va / 2 ^ 37), bit_and_mask 9 (va / 2 ^ 39))

pub path-InRange : (top va : ℕ) → InRange (path top va)
path-InRange top va zero = index_lt va 12
path-InRange top va (suc zero) = index_lt va 21
path-InRange top va (suc (suc zero)) = index_lt va 30
path-InRange top va (suc (suc (suc d))) = index_lt va top

-- Below 2 ^ 37 the shifts 37 and 39 give the same index.
same_path : (va : ℕ) → va < 2 ^ 37 → (d : ℕ) → path 37 va d ≡ path 39 va d
same_path va low zero = refl
same_path va low (suc zero) = refl
same_path va low (suc (suc zero)) = refl
same_path va low (suc (suc (suc d))) = same_index va low

pub path_low : (va : ℕ) → va < 2 ^ 37 → path 37 va ≡ path 39 va
path_low va low i d = same_path va low d i

pub reach-translate :
    {mem : ℕ → ℕ} {root : ℕ} {idx : ℕ → ℕ} {d f : ℕ}
    → Reach mem root idx d f
    → translate mem 4 root idx ≡ translate mem d f idx
reach-translate start = refl
reach-translate {mem} {idx = idx} (step {d} {f} r link) =
    reach-translate r ∙ translate-link mem (suc d) f idx link

-- How far a map function has come: the walk has reached the table `f`, of depth `d`, and up to here
-- no translation has changed.
pub record Walked (hb : ℕ) (depth : ℕ → ℕ) (h : Heap) (root : ℕ) (idx : ℕ → ℕ) (d f : ℕ) (h' : Heap)
    : Type 0 where
  pub new_depth : ℕ → ℕ
  pub tables : IsTables new_depth h'
  pub inside : h'.next_free_perm ≤ heap_limit hb
  pub kept : (g : ℕ) → depth g ≢ 0 → new_depth g ≡ depth g
  pub reach : Reach h'.mem root idx d f
  pub same :
      (e g : ℕ) (idx : ℕ → ℕ)
      → depth g ≡ suc e
      → InRange idx
      → translate h'.mem (suc e) g idx ≡ translate h.mem (suc e) g idx

-- Where the memory of the allocators lies.
pub record IsPaged (hb : ℕ) (depth : ℕ → ℕ) (h : Heap) : Type 0 where
  pub layout : IsLayout hb
  pub low : heap_limit hb ≤ 2 ^ 48
  pub inside : h.next_free_perm ≤ heap_limit hb
  pub tables : IsTables depth h

pub Reach-kept :
    (depth : ℕ → ℕ) (h h' : Heap) {root : ℕ} {idx : ℕ → ℕ} {d f : ℕ}
    → IsTables depth h
    → depth root ≡ 4
    → InRange idx
    → ((g j : ℕ)
        → depth g ≢ 0
        → j < 512
        → is_valid (h.mem (g + 8 * j)) ≡ true
        → h'.mem (g + 8 * j) ≡ h.mem (g + 8 * j))
    → Reach h.mem root idx d f
    → Reach h'.mem root idx d f
Reach-kept depth h h' tables top range entries start = start
Reach-kept depth h h' {root} {idx} tables top range entries (step {d} {f} r link) =
    let lf = Reach-depth depth h tables top range r in
    let same = entries f (idx (suc d)) (omega arith) (range (suc d)) link.0 in
    subst (λ x. Reach h'.mem root idx (suc d) (frame_of x)) same
      (step (Reach-kept depth h h' tables top range entries r)
        (subst (IsLink (suc d)) (sym same) link))

module _ (hb : ℕ) (depth : ℕ → ℕ) (h : Heap) (paged : IsPaged hb depth h) (root : ℕ) (idx : ℕ → ℕ)
    (top : depth root ≡ 4) (range : InRange idx) where
  pub walk_start : Walked hb depth h root idx 4 root h
  walk_start = record {
    new_depth = depth;
    tables = paged.tables;
    inside = paged.inside;
    kept = λ g lg. refl;
    reach = start;
    same = λ e g idx lg range. refl;
  }

  walk_next :
      (d f : ℕ) (h1 h2 : Heap)
      → (w : Walked hb depth h root idx (suc (suc d)) f h1)
      → Ensured hb w.new_depth h1 d f (idx (suc d)) h2
      → Walked hb depth h root idx (suc d) (frame_of (h2.mem (f + 8 * idx (suc d)))) h2
  walk_next d f h1 h2 w e =
      let top1 : w.new_depth root ≡ 4 = w.kept root (omega arith) ∙ top in
      record {
        new_depth = e.new_depth;
        tables = e.tables;
        inside = e.inside;
        kept = λ g lg. (let k = w.kept g lg in e.kept g (λ z. lg (sym k ∙ z)) ∙ k);
        reach = step (Reach-kept w.new_depth h1 h2 w.tables top1 range e.entries w.reach) e.link;
        same = λ k g idx' lg range'.
            e.same (suc k) g idx' (w.kept g (omega arith) ∙ lg) range' ∙ w.same k g idx' lg range';
      }

  -- One `ensure_table` on the way.
  pub walk_step :
      (d f : ℕ) (h1 : Heap)
      → Walked hb depth h root idx (suc (suc d)) f h1
      → (is_valid (h1.mem (f + 8 * idx (suc d))) ≡ true
          → is_end (suc d) (h1.mem (f + 8 * idx (suc d))) ≡ false)
      → Ensures
          (λ h2. Walked hb depth h root idx (suc d) (frame_of (h2.mem (f + 8 * idx (suc d)))) h2)
          (ensure_table hb (f + 8 * idx (suc d)) h1)
  walk_step d f h1 w only_links =
      let top1 : w.new_depth root ≡ 4 = w.kept root (omega arith) ∙ top in
      Ensures-map
        (ensure_table-Ensured hb paged.layout w.new_depth h1 w.tables w.inside d f (idx (suc d))
          (Reach-depth w.new_depth h1 w.tables top1 range w.reach) (range (suc d)) paged.low
          only_links)
        (λ h2 e. walk_next d f h1 h2 w e)
