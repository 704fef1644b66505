-- ===== src/Paging/Init/Identity.antt =====
-- What `mmu_init` of kernel/mmu.c makes of the kernel's own memory.
use craybond_os.Base.{
  ℕ, zero, suc, ◌+◌, ◌-◌, ◌*◌, ◌/◌, ◌%◌, ◌^◌, ◌≤◌, ◌<◌, ◌≡◌, ◌≢◌, refl, ◌∙◌, ◌⊎◌, inl, inr, some,
  arith, bit_or, bit_and_mask, leb, leb_le, leb_gt, add64, eq_or_ne, sym, Bool-cases,
}
use craybond_os.Outcome.{Ensures, returns, Ensures-bind, Ensures-map}
use craybond_os.Alloc.{Heap}
use craybond_os.Paging.{frame_of, block_attr, index}
use craybond_os.Paging.Tables.{translate}
use craybond_os.Paging.Write.{SamePath}
use craybond_os.Paging.Walk.{path, path-InRange, IsPaged}
use craybond_os.Paging.Map.{MappedTo, map_2mb-own_path}
use craybond_os.Paging.Init.{map_blocks}

pub le_or_gt : (a b : ℕ) → (a ≤ b) ⊎ (b < a)
le_or_gt a b = elim (Bool-cases (leb a b)) [
  | inl e ↦ inl (ground arith)
  | inr e ↦ inr (ground arith)
]

-- Addresses of different blocks take different ways.
pub blocks_apart :
    (root a b d : ℕ)
    → d ≤ 1
    → a < 2 ^ 37
    → b < 2 ^ 37
    → a / 2 ^ 21 ≢ b / 2 ^ 21
    → ¬ SamePath root root (path 37 a) (path 37 b) d
blocks_apart root a b d low ha hb ne p =
    let e : index a 21 ≡ index b 21 = p.1 1 low (omega arith) in
    let f : index a 30 ≡ index b 30 = p.1 2 (omega arith) (omega arith) in
    ne (
      omega (
        arith,
        bit_and_mask 9 (a / 2 ^ 21),
        bit_and_mask 9 (b / 2 ^ 21),
        bit_and_mask 9 (a / 2 ^ 30),
        bit_and_mask 9 (b / 2 ^ 30),
      ))

-- The starts of the blocks from `first` on that `last` reaches.
abbrev pub IsStart : (first last b : ℕ) → Type 0
IsStart first last b = (first ≤ b) × (b ≤ last) × ((b - first) % 2 ^ 21 ≡ 0)

-- No address from `first` to `last` is in the block of `b`.
abbrev pub Outside : (first last b : ℕ) → Type 0
Outside first last b = (last / 2 ^ 21 < b / 2 ^ 21) ⊎ (b / 2 ^ 21 < first / 2 ^ 21)

-- The entry that maps a block to itself.
abbrev pub own_block : (attr_index b : ℕ) → ℕ
own_block attr_index b = bit_or (frame_of b) (block_attr attr_index)

-- The tables are well formed, and each block from `first` on that `last` reaches is mapped to
-- itself. The translations of other blocks stay.
pub record Identity (hb : ℕ) (depth : ℕ → ℕ) (h : Heap) (root first last attr_index : ℕ) (h' : Heap)
    : Type 0 where
  pub new_depth : ℕ → ℕ
  pub paged : IsPaged hb new_depth h'
  pub kept : (g : ℕ) → depth g ≢ 0 → new_depth g ≡ depth g
  pub here :
      (b : ℕ)
      → IsStart first last b
      → translate h'.mem 4 root (path 37 b) ≡ some (1, own_block attr_index b)
  pub others :
      (b : ℕ)
      → b < 2 ^ 37
      → Outside first last b
      → translate h'.mem 4 root (path 37 b) ≡ translate h.mem 4 root (path 37 b)

module _ (hb root last attr_index : ℕ) (small : last < 2 ^ 37) where
  no_blocks :
      (depth : ℕ → ℕ) (h : Heap) (first : ℕ)
      → IsPaged hb depth h
      → last < first
      → Identity hb depth h root first last attr_index h
  no_blocks depth h first paged less = record {
    new_depth = depth;
    paged = paged;
    kept = λ g k. refl;
    here = λ b s. absurd (omega (arith, s.0, s.1));
    others = λ b k o. refl;
  }

  more_blocks :
      (depth : ℕ → ℕ) (h h1 h' : Heap) (first : ℕ)
      → depth root ≡ 4
      → first ≤ last
      → (m : MappedTo hb depth h root (path 37 first) 1 (own_block attr_index first) h1)
      → Identity hb m.new_depth h1 root (first + 0x200000) last attr_index h'
      → Identity hb depth h root first last attr_index h'
  more_blocks depth h h1 h' first top le m i = record {
    new_depth = i.new_depth;
    paged = i.paged;
    kept = λ g k. i.kept g (λ z. k (sym (m.kept g k) ∙ z)) ∙ m.kept g k;
    here = λ b s. elim (eq_or_ne b first) [
      | inl e ↦ rw e (i.others first (omega arith) (inr (omega arith)) ∙ m.here)
      | inr ne ↦ i.here b (omega (arith, s.0, s.1, s.2), s.1, omega (arith, s.0, s.1, s.2))
    ];
    others = λ b k o.
        i.others b k (ground arith)
        ∙ m.others root (path 37 b) top (path-InRange 37 b)
            (blocks_apart root first b 1 (omega arith) (omega arith) k (ground arith));
  }

  pub map_blocks-Identity :
      (n : ℕ) (depth : ℕ → ℕ) (h : Heap) (first : ℕ)
      → IsPaged hb depth h
      → depth root ≡ 4
      → last < first + n * 0x200000
      → Ensures
          (Identity hb depth h root first last attr_index)
          (map_blocks hb root (suc n) first last attr_index h)
  unfolding map_blocks
  map_blocks-Identity zero depth h first paged top enough =
      rw (leb_gt first last (omega arith)) (returns (no_blocks depth h first paged (omega arith)))
  map_blocks-Identity (suc n) depth h first paged top enough = elim (le_or_gt first last) [
    | inr less ↦ rw (leb_gt first last less) (returns (no_blocks depth h first paged less))
    | inl le ↦
        let next : add64 first 0x200000 ≡ first + 0x200000 = omega arith in
        rw (leb_le first last le, next)
          (Ensures-bind (map_2mb-own_path hb depth h paged root top first first attr_index) (λ h1 m.
            Ensures-map
              (map_blocks-Identity n m.new_depth h1 (first + 0x200000) m.paged
                (m.kept root (λ z. omega arith) ∙ top) (omega arith))
              (λ h' i. more_blocks depth h h1 h' first top le m i)))
  ]
