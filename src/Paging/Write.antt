-- ===== src/Paging/Write.antt =====
-- The last step of the map functions of kernel/mmu.c and kernel/process/proc_allocator.c: a page or
-- a block is written into the entry that the walk has reached.
use craybond_os.Base.{
  ℕ, zero, suc, ◌+◌, ◌*◌, ◌≤◌, ◌<◌, ◌≡◌, ◌≢◌, refl, some, true, false, arith, ◌∙◌, eq_or_ne, ◌⊎◌,
  inl, inr, sym, ap, subst,
}
use craybond_os.Alloc.{Heap, update}
use craybond_os.Paging.{frame_of, is_valid}
use craybond_os.Paging.Ensure.{update-other, update-same}
use craybond_os.Paging.Linked.{InRange}
use craybond_os.Paging.Tables.{
  is_end, IsLink, translate, translate-end, translate-link, invalid, ends, links, entry_case,
  IsTables, same_slot,
}

-- The walk from `root` by the indices `idx` reaches the table `f`, of depth `d`.
pub data Reach (mem : ℕ → ℕ) (root : ℕ) (idx : ℕ → ℕ) : ℕ → ℕ → Type 0 where
  start : Reach mem root idx 4 root
  step :
      {d f : ℕ}
      → Reach mem root idx (suc (suc d)) f
      → IsLink (suc d) (mem (f + 8 * idx (suc d)))
      → Reach mem root idx (suc d) (frame_of (mem (f + 8 * idx (suc d))))

Reach-le : {mem : ℕ → ℕ} {root : ℕ} {idx : ℕ → ℕ} {d f : ℕ} → Reach mem root idx d f → d ≤ 4
Reach-le start = omega arith
Reach-le (step r link) = omega (arith, Reach-le r)

pub Reach-depth :
    (depth : ℕ → ℕ) (h : Heap) {root : ℕ} {idx : ℕ → ℕ} {d f : ℕ}
    → IsTables depth h
    → depth root ≡ 4
    → InRange idx
    → Reach h.mem root idx d f
    → depth f ≡ d
Reach-depth depth h tables top range start = top
Reach-depth depth h tables top range (step {d} {f} r link) =
    tables.down (suc d) f _ (Reach-depth depth h tables top range r) (range (suc d)) link

-- The two walks are the same down to the depth `d`.
abbrev pub SamePath : (root root' : ℕ) (idx idx' : ℕ → ℕ) → ℕ → Type 0
SamePath root root' idx idx' d = (root ≡ root') × ((k : ℕ) → d ≤ k → k < 4 → idx k ≡ idx' k)

SamePath-extend :
    (root root' : ℕ) (idx idx' : ℕ → ℕ) (d : ℕ)
    → SamePath root root' idx idx' (suc d)
    → idx d ≡ idx' d
    → SamePath root root' idx idx' d
SamePath-extend root root' idx idx' d (e, above) here = (
  e,
  λ k low high. elim (eq_or_ne d k) [
    | inl p ↦ subst (λ k. idx k ≡ idx' k) p here
    | inr p ↦ above k (omega arith) high
  ],
)

module _ (depth : ℕ → ℕ) (h : Heap) (tables : IsTables depth h) where
  -- Two walks reach the same table only by the same path.
  Reach-unique :
      {root root' : ℕ} {idx idx' : ℕ → ℕ} {d e f g : ℕ}
      → depth root ≡ 4
      → depth root' ≡ 4
      → InRange idx
      → InRange idx'
      → Reach h.mem root idx d f
      → Reach h.mem root' idx' e g
      → d ≡ e
      → f ≡ g
      → SamePath root root' idx idx' d
  Reach-unique top top' range range' start start de eq = (eq, λ k low high. absurd (omega arith))
  Reach-unique top top' range range' start (step r' link') de eq =
      absurd (omega (arith, Reach-le r'))
  Reach-unique top top' range range' (step r link) start de eq = absurd (omega (arith, Reach-le r))
  Reach-unique {root} {root'} {idx = idx} {idx' = idx'} top top' range range' (step {d} {f} r link)
        (step {d = e} {f = g} r' link') de eq =
      let (fg, ij) =
        tables.unique (suc d) (suc e) f g (idx (suc d)) (idx' (suc e))
          (Reach-depth depth h tables top range r) (Reach-depth depth h tables top' range' r')
          (range (suc d)) (range' (suc e)) link link' eq in
      SamePath-extend root root' idx idx' (suc d)
        (Reach-unique top top' range range' r r' (omega arith) fg) (ij ∙ ap idx' (sym de))

  module _ (root : ℕ) (idx : ℕ → ℕ) (top : depth root ≡ 4) (range : InRange idx) (d f v : ℕ)
      (reach : Reach h.mem root idx (suc d) f) (is_leaf : is_end d v ≡ true) where
    abbrev slot : ℕ
    slot = f + 8 * idx d

    abbrev after : ℕ → ℕ
    after = update h.mem slot v

    level : depth f ≡ suc d
    level = Reach-depth depth h tables top range reach

    -- An entry of a table: the written one, or one that has not changed.
    which :
        (g j : ℕ)
        → depth g ≢ 0
        → j < 512
        → ((g ≡ f) × (j ≡ idx d)) ⊎ (after (g + 8 * j) ≡ h.mem (g + 8 * j))
    which g j lg less = elim (eq_or_ne (g + 8 * j) slot) [
      | inl p ↦ inl (
          same_slot g f j (idx d) (tables.page g lg) (tables.page f (omega (arith, level))) less
            (range d) p)
      | inr p ↦ inr (update-other h.mem slot v (g + 8 * j) p)
    ]

    written : (g j : ℕ) → g ≡ f → j ≡ idx d → after (g + 8 * j) ≡ v
    written g j gf ji =
        ap (λ g. after (g + 8 * j)) gf ∙ ap (λ j. after (f + 8 * j)) ji ∙ update-same h.mem slot v

    -- The written entry is no link.
    no-IsLink : (e g j : ℕ) → depth g ≡ suc e → g ≡ f → j ≡ idx d → ¬ IsLink e (after (g + 8 * j))
    no-IsLink e g j lg gf ji (valid, not_end) =
        let de : e ≡ d = omega (arith, level, ap depth gf) in
        let q : is_end d v ≡ false =
          subst (λ x. is_end d x ≡ false) (written g j gf ji)
            (subst (λ e. is_end e (after (g + 8 * j)) ≡ false) de not_end) in
        absurd (cc (q, is_leaf))

    pub written-IsTables :
        (h' : Heap) → h'.mem ≡ after → h'.next_free_perm ≡ h.next_free_perm → IsTables depth h'
    written-IsTables h' m n =
        let old : (e g j : ℕ)
            → depth g ≡ suc e
            → j < 512
            → IsLink e (after (g + 8 * j))
            → after (g + 8 * j) ≡ h.mem (g + 8 * j) =
          λ e g j lg less link. elim (which g j (omega arith) less) [
            | inl p ↦ absurd (no-IsLink e g j lg p.0 p.1 link)
            | inr p ↦ p
          ] in
        record {
          page = tables.page;
          below = λ g lg. omega (arith, tables.below g lg);
          down = λ e g j lg less link.
              (let link' : IsLink e (after (g + 8 * j)) =
                  subst (λ m. IsLink e (m (g + 8 * j))) m link in
                let o = old e g j lg less link' in
                ap (λ m. depth (frame_of (m (g + 8 * j)))) m
                ∙ ap (λ x. depth (frame_of x)) o
                ∙ tables.down e g j lg less (subst (IsLink e) o link'));
          unique = λ e k g w i j lg lw less lessj link linkj eq.
              (let link' : IsLink e (after (g + 8 * i)) =
                  subst (λ m. IsLink e (m (g + 8 * i))) m link in
                let linkj' : IsLink k (after (w + 8 * j)) =
                  subst (λ m. IsLink k (m (w + 8 * j))) m linkj in
                let o = old e g i lg less link' in
                let oj = old k w j lw lessj linkj' in
                tables.unique e k g w i j lg lw less lessj (subst (IsLink e) o link')
                  (subst (IsLink k) oj linkj')
                  (sym (ap (λ m. frame_of (m (g + 8 * i))) m ∙ ap frame_of o)
                    ∙ eq
                    ∙ ap (λ m. frame_of (m (w + 8 * j))) m
                    ∙ ap frame_of oj));
        }

    -- A walk by another path finds what it found before.
    other_slot :
        {root' : ℕ} {idx' : ℕ → ℕ} (e g : ℕ)
        → depth root' ≡ 4
        → InRange idx'
        → Reach h.mem root' idx' (suc e) g
        → ¬ SamePath root root' idx idx' d
        → after (g + 8 * idx' e) ≡ h.mem (g + 8 * idx' e)
    other_slot {root'} {idx'} e g top' range' r other =
        let lg : depth g ≡ suc e = Reach-depth depth h tables top' range' r in
        elim (which g (idx' e) (omega arith) (range' e)) [
          | inl p ↦
              let de : d ≡ e = omega (arith, level, ap depth p.0) in
              absurd (
                other (
                  SamePath-extend root root' idx idx' d
                    (Reach-unique top top' range range' reach r (omega arith) (sym p.0))
                    (sym p.1 ∙ ap idx' (sym de))))
          | inr same ↦ same
        ]

    pub translate-written :
        {root' : ℕ} {idx' : ℕ → ℕ} (e g : ℕ)
        → depth root' ≡ 4
        → InRange idx'
        → Reach h.mem root' idx' e g
        → ¬ SamePath root root' idx idx' d
        → translate after e g idx' ≡ translate h.mem e g idx'
    unfolding translate
    translate-written zero g top' range' r other = refl
    translate-written {idx' = idx'} (suc zero) g top' range' r other =
        rw (other_slot 0 g top' range' r other) refl
    translate-written {idx' = idx'} (suc (suc e)) g top' range' r other =
        elim (entry_case (suc e) (h.mem (g + 8 * idx' (suc e)))) [
          | invalid v ↦ rw (other_slot (suc e) g top' range' r other, v) refl
          | ends v q ↦ rw (other_slot (suc e) g top' range' r other, v, q) refl
          | links link ↦
              rw (other_slot (suc e) g top' range' r other, link.0, link.1)
                (translate-written (suc e) (frame_of (h.mem (g + 8 * idx' (suc e)))) top' range'
                  (step r link) other)
        ]

    -- The walk by the same path finds the new entry.
    above_slot : (e g : ℕ) → depth g ≡ suc e → d < e → after (g + 8 * idx e) ≡ h.mem (g + 8 * idx e)
    above_slot e g lg less = elim (which g (idx e) (omega arith) (range e)) [
      | inl p ↦ absurd (omega (arith, level, ap depth p.0))
      | inr same ↦ same
    ]

    translate_reach :
        {e g : ℕ}
        → Reach h.mem root idx e g
        → d < e
        → translate after 4 root idx ≡ translate after e g idx
    translate_reach start less = refl
    translate_reach (step {d = e} {f = g} r link) less =
        let lg : depth g ≡ suc (suc e) = Reach-depth depth h tables top range r in
        let same = above_slot (suc e) g lg (omega arith) in
        translate_reach r (omega arith)
        ∙ translate-link after (suc e) g idx (subst (IsLink (suc e)) (sym same) link)
        ∙ ap (λ x. translate after (suc e) (frame_of x) idx) same

    pub translate-here : is_valid v ≡ true → translate after 4 root idx ≡ some (d, v)
    translate-here valid =
        let here : after slot ≡ v = update-same h.mem slot v in
        translate_reach reach (omega arith)
        ∙ translate-end after d f idx (subst (λ x. is_valid x ≡ true) (sym here) valid)
            (subst (λ x. is_end d x ≡ true) (sym here) is_leaf)
        ∙ ap (λ x. some (d, x)) here
