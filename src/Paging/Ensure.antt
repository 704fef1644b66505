-- ===== src/Paging/Ensure.antt =====
-- `ensure_table`: the part that kernel/mmu.c and kernel/process/proc_allocator.c repeat for each
-- table on the way to an entry.
use craybond_os.Base.{
  ℕ, zero, suc, ◌+◌, ◌*◌, ◌%◌, ◌^◌, ◌≤◌, ◌<◌, ◌≡◌, ◌≢◌, refl, true, false, arith, bit_or, ◌∙◌,
  Bool-cases, eq_or_ne, ==_refl, ==_ne, ◌⊎◌, inl, inr, sym, ap, subst,
}
use craybond_os.Outcome.{Outcome, done, ◌>>=◌, Ensures, returns, panics}
use craybond_os.Alloc.{Heap, update, align_up, heap_limit}
use craybond_os.Alloc.Temp.{IsLayout}
use craybond_os.Alloc.Perm.{PallocResult, got, full, bump, palloc-PallocResult}
use craybond_os.Paging.{frame_of, is_valid, clear_table, ensure_table}
use craybond_os.Paging.Linked.{IsLinked, InRange, translate-linked, with_table, linked-IsTables}
use craybond_os.Paging.Tables.{is_end, IsLink, translate, IsTables, link_frame, bit_or-IsLink}

pub update-other : (mem : ℕ → ℕ) (p v x : ℕ) → x ≢ p → update mem p v x ≡ mem x
update-other mem p v x ne = rw (==_ne x p ne) refl

pub update-same : (mem : ℕ → ℕ) (p v : ℕ) → update mem p v p ≡ v
update-same mem p v = rw (==_refl p) refl

clear_table-other :
    (n i table : ℕ) (mem : ℕ → ℕ) (x : ℕ)
    → (x < table + 8 * i) ⊎ (table + 8 * (i + n) ≤ x)
    → clear_table n i table mem x ≡ mem x
unfolding clear_table
clear_table-other zero i table mem x out = refl
clear_table-other (suc n) i table mem x out =
    clear_table-other n (i + 1) table (update mem (table + 8 * i) 0) x
      (elim out [ inl p ↦ inl (omega arith) | inr p ↦ inr (omega arith) ])
    ∙ update-other mem (table + 8 * i) 0 x (elim out [ inl p ↦ omega arith | inr p ↦ omega arith ])

clear_table-cleared :
    (n i table : ℕ) (mem : ℕ → ℕ) (k : ℕ)
    → i ≤ k
    → k < i + n
    → clear_table n i table mem (table + 8 * k) ≡ 0
unfolding clear_table
clear_table-cleared zero i table mem k low high = absurd (omega arith)
clear_table-cleared (suc n) i table mem k low high = elim (eq_or_ne i k) [
  | inl e ↦
      subst (λ k. clear_table n (i + 1) table (update mem (table + 8 * i) 0) (table + 8 * k) ≡ 0) e
        (clear_table-other n (i + 1) table (update mem (table + 8 * i) 0) (table + 8 * i)
            (inl (omega arith))
          ∙ update-same mem (table + 8 * i) 0)
  | inr ne ↦
      clear_table-cleared n (i + 1) table (update mem (table + 8 * i) 0) k (omega arith)
        (omega arith)
]

-- What `ensure_table` leaves behind for the entry `i` of the table `f`, of depth `suc (suc d)`.
pub record Ensured (hb : ℕ) (depth : ℕ → ℕ) (h : Heap) (d f i : ℕ) (h' : Heap) : Type 0 where
  pub new_depth : ℕ → ℕ
  pub tables : IsTables new_depth h'
  pub inside : h'.next_free_perm ≤ heap_limit hb
  pub kept : (g : ℕ) → depth g ≢ 0 → new_depth g ≡ depth g
  pub link : IsLink (suc d) (h'.mem (f + 8 * i))
  pub target : new_depth (frame_of (h'.mem (f + 8 * i))) ≡ suc d
  pub entries :
      (g j : ℕ)
      → depth g ≢ 0
      → j < 512
      → is_valid (h.mem (g + 8 * j)) ≡ true
      → h'.mem (g + 8 * j) ≡ h.mem (g + 8 * j)
  pub same :
      (e g : ℕ) (idx : ℕ → ℕ)
      → depth g ≡ e
      → InRange idx
      → translate h'.mem e g idx ≡ translate h.mem e g idx

one_page : align_up 0x1000 ≡ 0x1000
unfolding align_up
one_page = refl

module _ (hb : ℕ) (lay : IsLayout hb) (depth : ℕ → ℕ) (h : Heap) (tables : IsTables depth h)
    (inside : h.next_free_perm ≤ heap_limit hb) (d f i : ℕ) (level : depth f ≡ suc (suc d))
    (small : i < 512) where
  found_table : IsLink (suc d) (h.mem (f + 8 * i)) → Ensured hb depth h d f i h
  found_table link = record {
    new_depth = depth;
    tables = tables;
    inside = inside;
    kept = λ g lg. refl;
    link = link;
    target = tables.down (suc d) f i level small link;
    entries = λ g j lg less v. refl;
    same = λ e g idx lg range. refl;
  }

  -- The heap with the new table.
  abbrev linked_heap : ℕ → Heap → Heap
  linked_heap l h1 = record h1 {
    mem = update (clear_table 512 0 l h1.mem) (f + 8 * i) (bit_or (frame_of l) 3);
  }

  new_IsLinked :
      (l : ℕ) (h1 : Heap)
      → h1.mem ≡ h.mem
      → l % 0x1000 ≡ 0
      → l < 2 ^ 48
      → h.next_free_perm ≤ l
      → is_valid (h.mem (f + 8 * i)) ≡ false
      → IsLinked depth h.mem d f i l (linked_heap l h1).mem
  new_IsLinked l h1 keeps page low above v =
      let m = clear_table 512 0 l h1.mem in
      let e = bit_or (frame_of l) 3 in
      let here : update m (f + 8 * i) e (f + 8 * i) ≡ e = update-same m (f + 8 * i) e in
      record {
        was_invalid = v;
        link = subst (IsLink (suc d)) (sym here) (bit_or-IsLink d l);
        target = ap frame_of here ∙ link_frame l page low;
        empty = λ j less.
            update-other m (f + 8 * i) e (l + 8 * j) (omega (arith, tables.below f (omega arith)))
            ∙ clear_table-cleared 512 0 l h1.mem j (omega arith) (omega arith);
        same = λ g j lg less ne.
            update-other m (f + 8 * i) e (g + 8 * j) ne
            ∙ clear_table-other 512 0 l h1.mem (g + 8 * j) (inl (omega (arith, tables.below g lg)))
            ∙ ap (λ m. m (g + 8 * j)) keeps;
      }

  new_table :
      (l : ℕ) (h1 : Heap)
      → h1.mem ≡ h.mem
      → l % 0x1000 ≡ 0
      → h.next_free_perm ≤ l
      → h1.next_free_perm ≡ l + 0x1000
      → l + 0x1000 ≤ heap_limit hb
      → heap_limit hb ≤ 2 ^ 48
      → is_valid (h.mem (f + 8 * i)) ≡ false
      → Ensured hb depth h d f i (linked_heap l h1)
  new_table l h1 keeps page above next room low v =
      let h' = linked_heap l h1 in
      let linked = new_IsLinked l h1 keeps page (omega arith) above v in
      let new : depth l ≡ 0 = elim (eq_or_ne (depth l) 0) [
        | inl z ↦ z
        | inr ne ↦ omega (arith, tables.below l ne)
      ] in
      record {
        new_depth = with_table depth l (suc d);
        tables =
            linked-IsTables depth h h' tables d f i l level small new page linked above
              (omega arith);
        inside = omega arith;
        kept = λ g lg. (let away : g ≢ l = λ p. lg (ap depth p ∙ new) in rw (==_ne g l away) refl);
        link = linked.link;
        target = ap (with_table depth l (suc d)) linked.target ∙ rw (==_refl l) refl;
        entries = λ g j lg less valid.
            linked.same g j lg less (λ p. absurd (cc (v, valid, ap (λ x. is_valid (h.mem x)) p)));
        same = λ e g idx lg range.
            translate-linked depth h tables d f i l h'.mem level small linked e g idx lg range;
      }

  ensure_new :
      {r : Outcome (ℕ × Heap)}
      → heap_limit hb ≤ 2 ^ 48
      → is_valid (h.mem (f + 8 * i)) ≡ false
      → PallocResult hb 0x1000 h r
      → Ensures (Ensured hb depth h d f i) (r >>= λ (l, h1). done (linked_heap l h1))
  ensure_new low v (got a eq page above size room) = returns (
      new_table a (bump h a 0x1000) refl page above (omega (arith, one_page))
        (omega (arith, one_page)) low v)
  ensure_new low v (full over) = panics

  -- For an entry that is invalid or a link, in well-formed tables below 2 ^ 48, `ensure_table`
  -- ends: it panics, or the entry is a link to a table of the next depth, the tables are well
  -- formed, and no translation has changed.
  pub ensure_table-Ensured :
      heap_limit hb ≤ 2 ^ 48
      → (is_valid (h.mem (f + 8 * i)) ≡ true → is_end (suc d) (h.mem (f + 8 * i)) ≡ false)
      → Ensures (Ensured hb depth h d f i) (ensure_table hb (f + 8 * i) h)
  unfolding ensure_table
  ensure_table-Ensured low only_links = elim (Bool-cases (is_valid (h.mem (f + 8 * i)))) [
    | inl v ↦ rw v (returns (found_table (v, only_links v)))
    | inr v ↦ rw v (ensure_new low v (palloc-PallocResult hb lay 0x1000 h (omega arith) inside))
  ]
