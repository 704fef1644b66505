-- ===== src/Mem/Laws.antt =====
-- Reading what has been written (kernel/ram_e.c), at the same place and elsewhere.
use craybond_os.Base.{ℕ, ◌+◌, ◌/◌, ◌%◌, ◌^◌, ◌≤◌, ◌<◌, ◌≡◌, ◌⊎◌, inr, arith}
use craybond_os.Mem.{Memory, read8, write8, read16, write16, read32, write32, read64, write64}

-- The `m` bytes at `a` and the `n` bytes at `b` have none in common.
abbrev pub NoOverlap : (a m b n : ℕ) → Type 0
NoOverlap a m b n = (a + m ≤ b) ⊎ (b + n ≤ a)

module _ (mem : Memory) where
  pub read8-write8 : (a v : ℕ) → read8 a (write8 a v mem) ≡ v % 2 ^ 8
  unfolding read8 write8
  read8-write8 a v = ground arith

  pub read16-write16 : (a v : ℕ) → read16 a (write16 a v mem) ≡ v % 2 ^ 16
  unfolding read16 write16
  read16-write16 a v = ground arith

  pub write8_apart : (a v b : ℕ) → NoOverlap a 1 b 1 → write8 a v mem b ≡ mem b
  unfolding write8
  write8_apart a v b h = ground arith

  pub write16_apart : (a v b : ℕ) → NoOverlap a 2 b 1 → write16 a v mem b ≡ mem b
  unfolding write16
  write16_apart a v b h = ground arith

pub write32_apart : (mem : Memory) (a v b : ℕ) → NoOverlap a 4 b 1 → write32 a v mem b ≡ mem b
unfolding write32
write32_apart mem a v b h = ground arith

pub write64_apart : (mem : Memory) (a v b : ℕ) → NoOverlap a 8 b 1 → write64 a v mem b ≡ mem b
unfolding write64
write64_apart mem a v b h = ground arith

-- Reads of memories that agree on the bytes.
pub read16_same :
    (m n : Memory) (a : ℕ) → ((i : ℕ) → i < 2 → m (a + i) ≡ n (a + i)) → read16 a m ≡ read16 a n
unfolding read16
read16_same m n a h = ground (arith, h 0 (omega arith), h 1 (omega arith))

pub read32_same :
    (m n : Memory) (a : ℕ) → ((i : ℕ) → i < 4 → m (a + i) ≡ n (a + i)) → read32 a m ≡ read32 a n
unfolding read32
read32_same m n a h =
    ground (arith, h 0 (omega arith), h 1 (omega arith), h 2 (omega arith), h 3 (omega arith))

pub read32-write32 : (mem : Memory) (a v : ℕ) → read32 a (write32 a v mem) ≡ v % 2 ^ 32
unfolding read32 write32
read32-write32 mem a v = ground arith

pub read64_same :
    (m n : Memory) (a : ℕ) → ((i : ℕ) → i < 8 → m (a + i) ≡ n (a + i)) → read64 a m ≡ read64 a n
unfolding read64
read64_same m n a h = ground (
  arith,
  read32_same m n a (λ i l. h i (omega arith)),
  read32_same m n (a + 4) (λ i l. ground (arith, h (4 + i) (omega arith))),
)

pub read64-write64 : (mem : Memory) (a v : ℕ) → read64 a (write64 a v mem) ≡ v % 2 ^ 64
unfolding read64 write64
read64-write64 mem a v =
    let low =
      read32_same (write32 (a + 4) (v / 2 ^ 32) (write32 a v mem)) (write32 a v mem) a
        (λ i l. write32_apart (write32 a v mem) (a + 4) (v / 2 ^ 32) (a + i) (inr (omega arith))) in
    rw (low, read32-write32 mem a v, read32-write32 (write32 a v mem) (a + 4) (v / 2 ^ 32))
      (omega arith)

-- A read next to a write.
module _ (mem : Memory) (a v b : ℕ) where
  pub read16-write16_apart : NoOverlap a 2 b 2 → read16 b (write16 a v mem) ≡ read16 b mem
  read16-write16_apart h =
      read16_same (write16 a v mem) mem b (λ i l. write16_apart mem a v (b + i) (ground arith))

  pub read16-write32_apart : NoOverlap a 4 b 2 → read16 b (write32 a v mem) ≡ read16 b mem
  read16-write32_apart h =
      read16_same (write32 a v mem) mem b (λ i l. write32_apart mem a v (b + i) (ground arith))

  pub read16-write64_apart : NoOverlap a 8 b 2 → read16 b (write64 a v mem) ≡ read16 b mem
  read16-write64_apart h =
      read16_same (write64 a v mem) mem b (λ i l. write64_apart mem a v (b + i) (ground arith))

  pub read32-write16_apart : NoOverlap a 2 b 4 → read32 b (write16 a v mem) ≡ read32 b mem
  read32-write16_apart h =
      read32_same (write16 a v mem) mem b (λ i l. write16_apart mem a v (b + i) (ground arith))

  pub read32-write32_apart : NoOverlap a 4 b 4 → read32 b (write32 a v mem) ≡ read32 b mem
  read32-write32_apart h =
      read32_same (write32 a v mem) mem b (λ i l. write32_apart mem a v (b + i) (ground arith))

  pub read32-write64_apart : NoOverlap a 8 b 4 → read32 b (write64 a v mem) ≡ read32 b mem
  read32-write64_apart h =
      read32_same (write64 a v mem) mem b (λ i l. write64_apart mem a v (b + i) (ground arith))

  pub read64-write16_apart : NoOverlap a 2 b 8 → read64 b (write16 a v mem) ≡ read64 b mem
  read64-write16_apart h =
      read64_same (write16 a v mem) mem b (λ i l. write16_apart mem a v (b + i) (ground arith))

  pub read64-write32_apart : NoOverlap a 4 b 8 → read64 b (write32 a v mem) ≡ read64 b mem
  read64-write32_apart h =
      read64_same (write32 a v mem) mem b (λ i l. write32_apart mem a v (b + i) (ground arith))

  pub read64-write64_apart : NoOverlap a 8 b 8 → read64 b (write64 a v mem) ≡ read64 b mem
  read64-write64_apart h =
      read64_same (write64 a v mem) mem b (λ i l. write64_apart mem a v (b + i) (ground arith))
