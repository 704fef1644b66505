-- ===== src/Paging/Tables.antt =====
-- What makes the page tables of kernel/mmu.c and kernel/process/proc_allocator.c well formed, and
-- the translation that the processor reads off them. The depth of a table is the number of tables
-- that a walk has still to read: 4 for the first table, 1 for a table of pages, and 0 for a frame
-- that is no table.
use craybond_os.Base.{
  ℕ, zero, suc, ◌+◌, ◌*◌, ◌/◌, ◌%◌, ◌^◌, ◌≤◌, ◌<◌, ◌≡◌, ◌≢◌, refl, Option, none, some, Bool, true,
  false, ◌==◌, if◌then◌else◌, arith, bit_and, bit_or, bit_and_mask, bit_and_field, bit_or_fields,
  Bool-cases, inl, inr,
}
use craybond_os.Alloc.{Heap}
use craybond_os.Paging.{frame_of, is_valid}

-- Whether a walk ends at a valid entry of a table of depth `suc d`: at a page, or at a block of 2
-- MB.
abbrev pub is_end : ℕ → ℕ → Bool
is_end zero entry = true
is_end (suc zero) entry = bit_and entry 3 == 1
is_end (suc (suc d)) entry = false

-- A link to a further table.
abbrev pub IsLink : ℕ → ℕ → Type 0
IsLink d entry = (is_valid entry ≡ true) × (is_end d entry ≡ false)

-- The entry that a walk from a table of depth `d` ends at, with what is left of the depth; `idx d`
-- is the index into the table of depth `suc d`.
unfoldable pub translate : (ℕ → ℕ) → ℕ → ℕ → (ℕ → ℕ) → Option (ℕ × ℕ)
translate mem zero f idx = none
translate mem (suc d) f idx =
    let entry = mem (f + 8 * idx d) in
    let rest = translate mem d (frame_of entry) idx in
    if is_valid entry then if is_end d entry then some (d, entry) else rest else none

module _ (mem : ℕ → ℕ) (d f : ℕ) (idx : ℕ → ℕ) where
  pub translate-invalid :
      is_valid (mem (f + 8 * idx d)) ≡ false → translate mem (suc d) f idx ≡ none
  unfolding translate
  translate-invalid e = rw e refl

  pub translate-end :
      is_valid (mem (f + 8 * idx d)) ≡ true
      → is_end d (mem (f + 8 * idx d)) ≡ true
      → translate mem (suc d) f idx ≡ some (d, mem (f + 8 * idx d))
  unfolding translate
  translate-end v e = rw (v, e) refl

  pub translate-link :
      IsLink d (mem (f + 8 * idx d))
      → translate mem (suc d) f idx ≡ translate mem d (frame_of (mem (f + 8 * idx d))) idx
  unfolding translate
  translate-link (v, e) = rw (v, e) refl

-- The three cases of an entry.
pub data EntryCase (d entry : ℕ) : Type 0 where
  invalid : is_valid entry ≡ false → EntryCase d entry
  ends : is_valid entry ≡ true → is_end d entry ≡ true → EntryCase d entry
  links : IsLink d entry → EntryCase d entry

pub entry_case : (d entry : ℕ) → EntryCase d entry
entry_case d entry = elim (Bool-cases (is_valid entry)) [
  | inr v ↦ invalid v
  | inl v ↦ elim (Bool-cases (is_end d entry)) [ inl e ↦ ends v e | inr e ↦ links (v, e) ]
]

-- Well-formed tables: they are frames below the bump pointer of `palloc`, a link leads to a table
-- of the next depth, and no two links lead to the same table.
pub record IsTables (depth : ℕ → ℕ) (h : Heap) : Type 0 where
  pub page : (f : ℕ) → depth f ≢ 0 → f % 0x1000 ≡ 0
  pub below : (f : ℕ) → depth f ≢ 0 → f + 0x1000 ≤ h.next_free_perm
  pub down :
      (d f i : ℕ)
      → depth f ≡ suc d
      → i < 512
      → IsLink d (h.mem (f + 8 * i))
      → depth (frame_of (h.mem (f + 8 * i))) ≡ d
  pub unique :
      (d e f g i j : ℕ)
      → depth f ≡ suc d
      → depth g ≡ suc e
      → i < 512
      → j < 512
      → IsLink d (h.mem (f + 8 * i))
      → IsLink e (h.mem (g + 8 * j))
      → frame_of (h.mem (f + 8 * i)) ≡ frame_of (h.mem (g + 8 * j))
      → (f ≡ g) × (i ≡ j)

pub frame_of_lem : (x : ℕ) → frame_of x ≡ x / 2 ^ 12 % 2 ^ 36 * 2 ^ 12
frame_of_lem x = bit_and_field 36 12 x

pub or_low :
    (x low : ℕ) → low < 2 ^ 12 → bit_or (frame_of x) low ≡ x / 2 ^ 12 % 2 ^ 36 * 2 ^ 12 + low
or_low x low less = rw (frame_of_lem x) (bit_or_fields 12 (x / 2 ^ 12 % 2 ^ 36) low less)

-- The entry that links to the table at `l`.
pub link_frame : (l : ℕ) → l % 0x1000 ≡ 0 → l < 2 ^ 48 → frame_of (bit_or (frame_of l) 3) ≡ l
link_frame l page less =
    rw (or_low l 3 (omega arith), frame_of_lem (l / 2 ^ 12 % 2 ^ 36 * 2 ^ 12 + 3)) (omega arith)

low_valid : (x : ℕ) → is_valid (bit_or (frame_of x) 3) ≡ true
low_valid x =
    let e : (x / 2 ^ 12 % 2 ^ 36 * 2 ^ 12 + 3) % 2 ^ 1 ≡ 1 = omega arith in
    rw (or_low x 3 (omega arith), bit_and_mask 1 (x / 2 ^ 12 % 2 ^ 36 * 2 ^ 12 + 3), e) refl

low_two : (x : ℕ) → bit_and (bit_or (frame_of x) 3) 3 ≡ 3
low_two x =
    rw (or_low x 3 (omega arith), bit_and_mask 2 (x / 2 ^ 12 % 2 ^ 36 * 2 ^ 12 + 3)) (omega arith)

pub bit_or-IsLink : (d l : ℕ) → IsLink (suc d) (bit_or (frame_of l) 3)
bit_or-IsLink zero l = (low_valid l, rw (low_two l) refl)
bit_or-IsLink (suc d) l = (low_valid l, refl)

pub same_slot :
    (f g i j : ℕ)
    → f % 0x1000 ≡ 0
    → g % 0x1000 ≡ 0
    → i < 512
    → j < 512
    → f + 8 * i ≡ g + 8 * j
    → (f ≡ g) × (i ≡ j)
same_slot f g i j p q a b e = (omega arith, omega arith)
