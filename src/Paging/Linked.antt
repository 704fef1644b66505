-- ===== src/Paging/Linked.antt =====
-- A link to a new, empty table, as kernel/mmu.c and kernel/process/proc_allocator.c put it into an
-- invalid entry.
use craybond_os.Base.{
  ℕ, zero, suc, ◌+◌, ◌*◌, ◌%◌, ◌≤◌, ◌<◌, ◌≡◌, ◌≢◌, refl, none, true, false, ◌==◌, if◌then◌else◌,
  arith, ◌∙◌, eq_or_ne, ==_refl, ==_ne, inl, inr, sym, ap, subst,
}
use craybond_os.Alloc.{Heap}
use craybond_os.Paging.{frame_of, is_valid}
use craybond_os.Paging.Tables.{
  IsLink, translate, translate-invalid, translate-link, invalid, ends, links, entry_case, IsTables,
  same_slot,
}

-- A memory in which the invalid entry `i` of the table `f` has become a link to an empty table `l`,
-- and the other entries of tables are as before.
pub record IsLinked (depth : ℕ → ℕ) (mem : ℕ → ℕ) (d f i l : ℕ) (mem' : ℕ → ℕ) : Type 0 where
  pub was_invalid : is_valid (mem (f + 8 * i)) ≡ false
  pub link : IsLink (suc d) (mem' (f + 8 * i))
  pub target : frame_of (mem' (f + 8 * i)) ≡ l
  pub empty : (j : ℕ) → j < 512 → mem' (l + 8 * j) ≡ 0
  pub same :
      (g j : ℕ) → depth g ≢ 0 → j < 512 → g + 8 * j ≢ f + 8 * i → mem' (g + 8 * j) ≡ mem (g + 8 * j)

abbrev pub InRange : (ℕ → ℕ) → Type 0
InRange idx = (d : ℕ) → idx d < 512

module _ (depth : ℕ → ℕ) (h : Heap) (tables : IsTables depth h) (d f i l : ℕ) (mem' : ℕ → ℕ)
    (level : depth f ≡ suc (suc d)) (small : i < 512)
    (linked : IsLinked depth h.mem d f i l mem') where
  empty_translate : (e : ℕ) (idx : ℕ → ℕ) → InRange idx → translate mem' e l idx ≡ none
  unfolding translate
  empty_translate zero idx range = refl
  empty_translate (suc e) idx range = rw (linked.empty (idx e) (range e)) refl

  at_slot :
      (idx : ℕ → ℕ)
      → InRange idx
      → idx (suc d) ≡ i
      → translate mem' (suc (suc d)) f idx ≡ translate h.mem (suc (suc d)) f idx
  at_slot idx range p =
      translate-link mem' (suc d) f idx
        (subst (λ j. IsLink (suc d) (mem' (f + 8 * j))) (sym p) linked.link)
      ∙ ap (λ j. translate mem' (suc d) (frame_of (mem' (f + 8 * j))) idx) p
      ∙ ap (λ x. translate mem' (suc d) x idx) linked.target
      ∙ empty_translate (suc d) idx range
      ∙ sym (
          translate-invalid h.mem (suc d) f idx
            (subst (λ j. is_valid (h.mem (f + 8 * j)) ≡ false) (sym p) linked.was_invalid))

  -- A new, empty table changes no translation.
  pub translate-linked :
      (e g : ℕ) (idx : ℕ → ℕ)
      → depth g ≡ e
      → InRange idx
      → translate mem' e g idx ≡ translate h.mem e g idx
  unfolding translate
  translate-linked zero g idx lg range = refl
  translate-linked (suc e) g idx lg range = elim (eq_or_ne (g + 8 * idx e) (f + 8 * i)) [
    | inl same ↦
        let (gf, ei) =
          same_slot g f (idx e) i (tables.page g (omega arith)) (tables.page f (omega arith))
            (range e) small same in
        let de : suc d ≡ e = omega (arith, ap depth gf) in
        subst (λ e. idx e ≡ i → translate mem' (suc e) g idx ≡ translate h.mem (suc e) g idx) de
          (λ p.
            subst (λ g. translate mem' (suc (suc d)) g idx ≡ translate h.mem (suc (suc d)) g idx)
              (sym gf) (at_slot idx range p))
          ei
    | inr other ↦ elim (entry_case e (h.mem (g + 8 * idx e))) [
      | invalid v ↦ rw (linked.same g (idx e) (omega arith) (range e) other, v) refl
      | ends v q ↦ rw (linked.same g (idx e) (omega arith) (range e) other, v, q) refl
      | links (v, q) ↦
          rw (linked.same g (idx e) (omega arith) (range e) other, v, q)
            (translate-linked e (frame_of (h.mem (g + 8 * idx e))) idx
              (tables.down e g (idx e) lg (range e) (v, q)) range)
    ]
  ]

-- The depths with one more table.
abbrev pub with_table : (ℕ → ℕ) → ℕ → ℕ → ℕ → ℕ
with_table depth l d x = if x == l then d else depth x

link_pos : (e x : ℕ) → IsLink e x → e ≢ 0
link_pos zero x (v, q) = λ _. absurd (cc q)
link_pos (suc e) x link = omega arith

zero_no-IsLink : (e : ℕ) (x : ℕ) → x ≡ 0 → ¬ IsLink e x
zero_no-IsLink e x z (v, q) =
    let w : is_valid 0 ≡ true = subst (λ y. is_valid y ≡ true) z v in absurd (cc w)

module _ (depth : ℕ → ℕ) (h h' : Heap) (tables : IsTables depth h) (d f i l : ℕ)
    (level : depth f ≡ suc (suc d)) (small : i < 512) (new : depth l ≡ 0) (page : l % 0x1000 ≡ 0)
    (linked : IsLinked depth h.mem d f i l h'.mem) where
  -- An entry of a table of the new depths: of the new table, the link to it, or an old one.
  data Origin (e g j : ℕ) : Type 0 where
    in_new : g ≡ l → Origin e g j
    the_link : g ≡ f → j ≡ i → e ≡ suc d → Origin e g j
    old :
        depth g ≡ suc e
        → g + 8 * j ≢ f + 8 * i
        → h'.mem (g + 8 * j) ≡ h.mem (g + 8 * j)
        → Origin e g j

  origin : (e g j : ℕ) → with_table depth l (suc d) g ≡ suc e → j < 512 → Origin e g j
  origin e g j lg less = elim (eq_or_ne g l) [
    | inl p ↦ in_new p
    | inr p ↦
        let lv : depth g ≡ suc e =
          subst (λ b. (if b then suc d else depth g) ≡ suc e) (==_ne g l p) lg in
        elim (eq_or_ne (g + 8 * j) (f + 8 * i)) [
          | inl same ↦
              let (gf, ji) =
                same_slot g f j i (tables.page g (omega arith)) (tables.page f (omega arith)) less
                  small same in
              the_link gf ji (omega (arith, ap depth gf))
          | inr other ↦ old lv other (linked.same g j (omega arith) less other)
        ]
  ]

  new_no-IsLink : (e g j : ℕ) → g ≡ l → j < 512 → ¬ IsLink e (h'.mem (g + 8 * j))
  new_no-IsLink e g j p less =
      zero_no-IsLink e (h'.mem (g + 8 * j)) (ap (λ g. h'.mem (g + 8 * j)) p ∙ linked.empty j less)

  old_frame :
      (e g j : ℕ)
      → depth g ≡ suc e
      → j < 512
      → h'.mem (g + 8 * j) ≡ h.mem (g + 8 * j)
      → IsLink e (h'.mem (g + 8 * j))
      → (depth (frame_of (h'.mem (g + 8 * j))) ≡ e) × (frame_of (h'.mem (g + 8 * j)) ≢ l)
  old_frame e g j lg less same link =
      let deep : depth (frame_of (h'.mem (g + 8 * j))) ≡ e =
        subst (λ x. IsLink e x → depth (frame_of x) ≡ e) (sym same) (tables.down e g j lg less)
          link in
      (deep, λ q. link_pos e (h'.mem (g + 8 * j)) link (omega (arith, ap depth q)))

  link_target : (g j : ℕ) → g ≡ f → j ≡ i → frame_of (h'.mem (g + 8 * j)) ≡ l
  link_target g j gf ji =
      ap (λ g. frame_of (h'.mem (g + 8 * j))) gf
      ∙ ap (λ j. frame_of (h'.mem (f + 8 * j))) ji
      ∙ linked.target

  pub linked-IsTables :
      h.next_free_perm ≤ l
      → l + 0x1000 ≤ h'.next_free_perm
      → IsTables (with_table depth l (suc d)) h'
  linked-IsTables above below = record {
    page = λ g lg. elim (eq_or_ne g l) [
      | inl p ↦ ap (λ x. x % 0x1000) p ∙ page
      | inr p ↦ tables.page g (subst (λ b. (if b then suc d else depth g) ≢ 0) (==_ne g l p) lg)
    ];
    below = λ g lg. elim (eq_or_ne g l) [
      | inl p ↦ omega arith
      | inr p ↦
          omega (
            arith,
            tables.below g (subst (λ b. (if b then suc d else depth g) ≢ 0) (==_ne g l p) lg),
          )
    ];
    down = λ e g j lg less link. elim (origin e g j lg less) [
      | in_new p ↦ absurd (new_no-IsLink e g j p less link)
      | the_link gf ji es ↦ rw (link_target g j gf ji, ==_refl l) (sym es)
      | old lv other same ↦
          let (deep, away) = old_frame e g j lv less same link in
          rw (==_ne (frame_of (h'.mem (g + 8 * j))) l away) deep
    ];
    unique = λ e k g m j n lg lm less lessn link linkn eq. elim (origin e g j lg less) [
      | in_new p ↦ absurd (new_no-IsLink e g j p less link)
      | the_link gf ji es ↦ elim (origin k m n lm lessn) [
        | in_new p ↦ absurd (new_no-IsLink k m n p lessn linkn)
        | the_link mf ni ks ↦ (gf ∙ sym mf, ji ∙ sym ni)
        | old lv other same ↦
            absurd ((old_frame k m n lv lessn same linkn).1 (sym eq ∙ link_target g j gf ji))
      ]
      | old lv other same ↦ elim (origin k m n lm lessn) [
        | in_new p ↦ absurd (new_no-IsLink k m n p lessn linkn)
        | the_link mf ni ks ↦
            absurd ((old_frame e g j lv less same link).1 (eq ∙ link_target m n mf ni))
        | old lv' other' same' ↦
            tables.unique e k g m j n lv lv' less lessn (subst (IsLink e) same link)
              (subst (IsLink k) same' linkn) (ap frame_of (sym same) ∙ eq ∙ ap frame_of same')
      ]
    ];
  }
