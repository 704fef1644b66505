-- ===== src/Dma.antt =====
-- kernel/dma.c, over a memory of bytes. `dma_write` has no body.
use craybond_os.Base.{
  eq_or_ne, subst, ap, ◌%◌, ◌^◌, ◌≤◌, ℕ, zero, suc, ◌+◌, ◌<◌, ◌≡◌, refl, inl, inr, arith, ◌∙◌,
}
use craybond_os.Mem.{Memory, read8, write8}
use craybond_os.Mem.Laws
use craybond_os.Mem.Laws.{NoOverlap, write8_apart}

-- The bytes left, and the index of the next one.
unfoldable pub dma_read_loop : ℕ → (dest i pointer : ℕ) → Memory → Memory
unfolding read8 write8
dma_read_loop zero dest i pointer mem = mem
dma_read_loop (suc n) dest i pointer mem =
    dma_read_loop n dest (i + 1) pointer (write8 (dest + i) (read8 (pointer + i) mem) mem)

unfoldable pub dma_read : (dest size pointer : ℕ) → Memory → Memory
unfolding dma_read_loop
dma_read dest size pointer mem = dma_read_loop size dest 0 pointer mem

dma_read_loop_apart :
    (n dest i pointer : ℕ) (mem : Memory) (b : ℕ)
    → NoOverlap (dest + i) n b 1
    → dma_read_loop n dest i pointer mem b ≡ mem b
unfolding dma_read_loop
dma_read_loop_apart zero dest i pointer mem b h = refl
dma_read_loop_apart (suc n) dest i pointer mem b h =
    dma_read_loop_apart n dest (i + 1) pointer _ b (ground arith)
    ∙ write8_apart mem (dest + i) (read8 (pointer + i) mem) b (ground arith)

-- The bytes beside the destination stay.
pub dma_read_apart :
    (dest size pointer : ℕ) (mem : Memory) (b : ℕ)
    → NoOverlap dest size b 1
    → dma_read dest size pointer mem b ≡ mem b
unfolding dma_read
dma_read_apart dest size pointer mem b h =
    dma_read_loop_apart size dest 0 pointer mem b (ground arith)

dma_read_loop-copies :
    (n dest i pointer k : ℕ) (mem : Memory)
    → i ≤ k
    → k < i + n
    → NoOverlap (dest + i) n (pointer + i) n
    → dma_read_loop n dest i pointer mem (dest + k) ≡ mem (pointer + k) % 2 ^ 8
unfolding dma_read_loop
dma_read_loop-copies zero dest i pointer k mem low high apart = absurd (omega arith)
dma_read_loop-copies (suc n) dest i pointer k mem low high apart = elim (eq_or_ne i k) [
  | inl e ↦
      subst (λ k. dma_read_loop (suc n) dest i pointer mem (dest + k) ≡ mem (pointer + k) % 2 ^ 8) e
        (dma_read_loop_apart n dest (i + 1) pointer _ (dest + i) (ground arith)
          ∙ Laws.read8-write8 mem (dest + i) (read8 (pointer + i) mem))
  | inr ne ↦
      dma_read_loop-copies n dest (i + 1) pointer k
        (write8 (dest + i) (read8 (pointer + i) mem) mem) (omega arith) (omega arith) (ground arith)
      ∙ ap (λ x. x % 2 ^ 8)
          (write8_apart mem (dest + i) (read8 (pointer + i) mem) (pointer + k) (ground arith))
]

-- With the two blocks apart, each byte of the source arrives.
pub dma_read-copies :
    (dest size pointer k : ℕ) (mem : Memory)
    → k < size
    → NoOverlap dest size pointer size
    → dma_read dest size pointer mem (dest + k) ≡ mem (pointer + k) % 2 ^ 8
unfolding dma_read
dma_read-copies dest size pointer k mem less apart =
    dma_read_loop-copies size dest 0 pointer k mem (omega arith) (omega arith) (ground arith)
