-- ===== src/Alloc/Blocks.antt =====
-- Blocks of memory, the list of free blocks as the memory holds it, and disjointness.
use craybond_os.Base.{
  ℕ, ◌+◌, ◌%◌, ◌≤◌, ◌<◌, ◌≡◌, refl, ◌⊎◌, List, [], ◌∷◌, ◌++◌, arith, ◌==◌, Bool, false, ◌||◌,
}
use craybond_os.Alloc.{update}

pub record Block : Type 0 where
  pub addr : ℕ
  pub size : ℕ

abbrev pub block : ℕ → ℕ → Block
block a s = record { addr = a; size = s }

abbrev pub All : (Block → Type 0) → List Block → Type 0
All P [] = Unit {0}
All P (b ∷ bs) = P b × All P bs

-- Two blocks share no byte.
abbrev pub Apart : Block → Block → Type 0
Apart b c = (b.addr + b.size ≤ c.addr) ⊎ (c.addr + c.size ≤ b.addr)

abbrev pub Disjoint : List Block → Type 0
Disjoint [] = Unit {0}
Disjoint (b ∷ bs) = All (Apart b) bs × Disjoint bs

-- From `p` the `next` words lead through the blocks to the null pointer, and each holds its size.
abbrev pub Chain : (ℕ → ℕ) → ℕ → List Block → Type 0
Chain mem p [] = p ≡ 0
Chain mem p (b ∷ bs) = (p ≡ b.addr) × (mem (b.addr + 8) ≡ b.size) × Chain mem (mem b.addr) bs

-- A block that the temporary allocator has handed out: whole pages between `lo` and `hi`.
pub record IsPages (lo hi : ℕ) (b : Block) : Type 0 where
  pub aligned : b.addr % 0x1000 ≡ 0
  pub whole : b.size % 0x1000 ≡ 0
  pub some_page : 0 < b.size
  pub above : lo ≤ b.addr
  pub below : b.addr + b.size ≤ hi

abbrev pub has_addr : ℕ → List Block → Bool
has_addr a [] = false
has_addr a (b ∷ bs) = a == b.addr || has_addr a bs

pub All-append : (P : Block → Type 0) (xs ys : List Block) → All P xs → All P ys → All P (xs ++ ys)
All-append P [] ys p q = q
All-append P (x ∷ xs) ys p q = (p.0, All-append P xs ys p.1 q)

pub All-split : (P : Block → Type 0) (xs ys : List Block) → All P (xs ++ ys) → All P xs × All P ys
All-split P [] ys p = (tt, p)
All-split P (x ∷ xs) ys p = let (l, r) = All-split P xs ys p.1 in ((p.0, l), r)

-- A block that is apart from all others of the list may stand in front of it.
pub All-map :
    (P Q : Block → Type 0) → ((b : Block) → P b → Q b) → (xs : List Block) → All P xs → All Q xs
All-map P Q f [] p = tt
All-map P Q f (x ∷ xs) p = (f x p.0, All-map P Q f xs p.1)

-- Pages that are apart have different addresses.
pub not_mem_of_Apart :
    (lo hi : ℕ) (b : Block) (bs : List Block)
    → IsPages lo hi b
    → All (IsPages lo hi) bs
    → All (Apart b) bs
    → has_addr b.addr bs ≡ false
not_mem_of_Apart lo hi b [] v vs d = refl
not_mem_of_Apart lo hi b (c ∷ bs) v vs d = ground (arith, not_mem_of_Apart lo hi b bs v vs.1 d.1)

-- Writing a word that is no part of the listed blocks keeps the chain: the word of an aligned block
-- at another address.
pub Chain-update :
    (lo hi : ℕ) (mem : ℕ → ℕ) (a v p : ℕ) (bs : List Block)
    → a % 0x1000 ≡ 0
    → All (IsPages lo hi) bs
    → has_addr a bs ≡ false
    → Chain mem p bs
    → Chain (update mem a v) p bs
Chain-update lo hi mem a v p [] al vs out c = c
Chain-update lo hi mem a v p (b ∷ bs) al vs out c =
    let v0 = vs.0 in
    let here : (b.addr == a) ≡ false = ground arith in
    let size_word : (b.addr + 8 == a) ≡ false = ground (arith, v0.aligned) in
    (
      c.0,
      rw size_word c.1,
      rw here (Chain-update lo hi mem a v (mem b.addr) bs al vs.1 (ground arith) c.2),
    )

-- So does writing the size word of an aligned block that is not listed.
pub Chain-update_size :
    (lo hi : ℕ) (mem : ℕ → ℕ) (a v p : ℕ) (bs : List Block)
    → a % 0x1000 ≡ 0
    → All (IsPages lo hi) bs
    → has_addr a bs ≡ false
    → Chain mem p bs
    → Chain (update mem (a + 8) v) p bs
Chain-update_size lo hi mem a v p [] al vs out c = c
Chain-update_size lo hi mem a v p (b ∷ bs) al vs out c =
    let here : (b.addr == a + 8) ≡ false = ground (arith, vs.0.aligned) in
    let size_word : (b.addr + 8 == a + 8) ≡ false = ground arith in
    (
      c.0,
      rw size_word c.1,
      rw here (Chain-update_size lo hi mem a v (mem b.addr) bs al vs.1 (ground arith) c.2),
    )
