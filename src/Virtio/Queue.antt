-- ===== src/Virtio/Queue.antt =====
-- The queue of kernel/graph/drivers/virtio_gpu_pci/virtio_gpu_pci_driver.c: what the device finds
-- in the memory when it is notified, and when `vgp_send_command` returns.
use native.Mathlib.Nat.{mod-eq_of_lt}
use craybond_os.Base.{ℕ, ◌+◌, ◌*◌, ◌%◌, ◌^◌, ◌≤◌, ◌<◌, ◌≡◌, inl, inr, arith, ◌∙◌, ap, u8}
use craybond_os.Mem.{Memory, read16, read32, read64, write16, write32, write64}
use craybond_os.Mem.Laws
use craybond_os.Mem.Laws.{NoOverlap, write16_apart, write32_apart, write64_apart}
use craybond_os.Virtio.{Vgp, Request, write_desc, push_avail, desc_of, avail_of, publish}

-- A descriptor in the memory.
pub record IsDesc (mem : Memory) (desc addr len flags next : ℕ) : Type 0 where
  pub addr_read : read64 desc mem ≡ addr
  pub len_read : read32 (desc + 8) mem ≡ len
  pub flags_read : read16 (desc + 12) mem ≡ flags
  pub next_read : read16 (desc + 14) mem ≡ next

module _ (desc addr len flags next : ℕ) (mem : Memory) where
  after_addr : Memory
  after_addr = write64 desc addr mem

  after_len : Memory
  unfolding after_addr
  after_len = write32 (desc + 8) len after_addr

  after_flags : Memory
  unfolding after_len
  after_flags = write16 (desc + 12) flags after_len

  write_desc_apart :
      (b : ℕ) → NoOverlap desc 16 b 1 → write_desc desc addr len flags next mem b ≡ mem b
  unfolding write_desc after_flags
  write_desc_apart b h = ground (
    arith,
    write16_apart after_flags (desc + 14) next b,
    write16_apart after_len (desc + 12) flags b,
    write32_apart after_addr (desc + 8) len b,
    write64_apart mem desc addr b,
  )

  write_desc-IsDesc :
      addr < 2 ^ 64
      → len < 2 ^ 32
      → flags < 2 ^ 16
      → next < 2 ^ 16
      → IsDesc (write_desc desc addr len flags next mem) desc addr len flags next
  unfolding write_desc after_flags
  write_desc-IsDesc ha hl hf hn = record {
    addr_read =
        Laws.read64-write16_apart after_flags (desc + 14) next desc (inr (omega arith))
        ∙ Laws.read64-write16_apart after_len (desc + 12) flags desc (inr (omega arith))
        ∙ Laws.read64-write32_apart after_addr (desc + 8) len desc (inr (omega arith))
        ∙ Laws.read64-write64 mem desc addr
        ∙ mod-eq_of_lt ha;
    len_read =
        Laws.read32-write16_apart after_flags (desc + 14) next (desc + 8) (inr (omega arith))
        ∙ Laws.read32-write16_apart after_len (desc + 12) flags (desc + 8) (inr (omega arith))
        ∙ Laws.read32-write32 after_addr (desc + 8) len
        ∙ mod-eq_of_lt hl;
    flags_read =
        Laws.read16-write16_apart after_flags (desc + 14) next (desc + 12) (inr (omega arith))
        ∙ Laws.read16-write16 after_len (desc + 12) flags
        ∙ mod-eq_of_lt hf;
    next_read = Laws.read16-write16 after_flags (desc + 14) next ∙ mod-eq_of_lt hn;
  }

IsDesc-same :
    {m n : Memory} {desc addr len flags next : ℕ}
    → ((b : ℕ) → desc ≤ b → b < desc + 16 → n b ≡ m b)
    → IsDesc m desc addr len flags next
    → IsDesc n desc addr len flags next
IsDesc-same {m} {n} {desc} same d = record {
  addr_read =
      Laws.read64_same n m desc (λ i h. same (desc + i) (omega arith) (omega arith)) ∙ d.addr_read;
  len_read =
      Laws.read32_same n m (desc + 8) (λ i h. same (desc + 8 + i) (omega arith) (omega arith))
      ∙ d.len_read;
  flags_read =
      Laws.read16_same n m (desc + 12) (λ i h. same (desc + 12 + i) (omega arith) (omega arith))
      ∙ d.flags_read;
  next_read =
      Laws.read16_same n m (desc + 14) (λ i h. same (desc + 14 + i) (omega arith) (omega arith))
      ∙ d.next_read;
}

module _ (avail : ℕ) (mem : Memory) where
  push_avail_apart : (b : ℕ) → NoOverlap avail 260 b 1 → push_avail avail mem b ≡ mem b
  unfolding push_avail
  push_avail_apart b h =
      let idx = read16 (avail + 2) mem in
      let slot = avail + 4 + 2 * (idx % 128) in
      write16_apart (write16 slot 0 mem) (avail + 2) (idx + 1) b (ground arith)
      ∙ write16_apart mem slot 0 b (ground arith)

  push_avail-idx : read16 (avail + 2) (push_avail avail mem) ≡ (read16 (avail + 2) mem + 1) % 2 ^ 16
  unfolding push_avail
  push_avail-idx = Laws.read16-write16 _ (avail + 2) (read16 (avail + 2) mem + 1)

  push_avail-ring :
      read16 (avail + 4 + 2 * (read16 (avail + 2) mem % 128)) (push_avail avail mem) ≡ 0
  unfolding push_avail
  push_avail-ring =
      let idx = read16 (avail + 2) mem in
      let slot = avail + 4 + 2 * (idx % 128) in
      Laws.read16-write16_apart (write16 slot 0 mem) (avail + 2) (idx + 1) slot (inl (omega arith))
      ∙ Laws.read16-write16 mem slot 0

-- The memory `m` as the device finds it: the two descriptors, the new entry of the available ring
-- and its index, and nothing else changed.
pub record Published {D : Type 0} (r : Request) (s : Vgp D) (m : Memory) : Type 0 where
  pub command : IsDesc m (desc_of s) r.cmd_addr r.cmd_size (u8 r.flags) 1
  pub response : IsDesc m (desc_of s + 16) r.resp_addr r.resp_size 2 0
  pub entry : read16 (avail_of s + 4 + 2 * (read16 (avail_of s + 2) s.mem % 128)) m ≡ 0
  pub index : read16 (avail_of s + 2) m ≡ (read16 (avail_of s + 2) s.mem + 1) % 2 ^ 16
  pub others :
      (b : ℕ) → NoOverlap (desc_of s) 32 b 1 → NoOverlap (avail_of s) 260 b 1 → m b ≡ s.mem b

-- The addresses and the sizes fit into a descriptor.
pub record IsRequest (r : Request) : Type 0 where
  pub cmd_addr_word : r.cmd_addr < 2 ^ 64
  pub cmd_size_word : r.cmd_size < 2 ^ 32
  pub resp_addr_word : r.resp_addr < 2 ^ 64
  pub resp_size_word : r.resp_size < 2 ^ 32

module _ {D : Type 0} (r : Request) (s : Vgp D) where
  first_desc : Memory
  first_desc = write_desc (desc_of s) r.cmd_addr r.cmd_size (u8 r.flags) 1 s.mem

  both_descs : Memory
  unfolding first_desc
  both_descs = write_desc (desc_of s + 16) r.resp_addr r.resp_size 2 0 first_desc

  both_descs_apart : (b : ℕ) → NoOverlap (desc_of s) 32 b 1 → both_descs b ≡ s.mem b
  unfolding both_descs
  both_descs_apart b h =
      write_desc_apart (desc_of s + 16) r.resp_addr r.resp_size 2 0 first_desc b (ground arith)
      ∙ write_desc_apart (desc_of s) r.cmd_addr r.cmd_size (u8 r.flags) 1 s.mem b (ground arith)

  -- With the descriptor table apart from the available ring, the memory that the device is notified
  -- of holds the command and the place for its answer in the descriptors 0 and 1, an entry for
  -- descriptor 0 at the index of the available ring modulo 128, and the next index, modulo 2 ^ 16;
  -- no other byte has changed.
  pub publish-Published :
      IsRequest r → NoOverlap (desc_of s) 32 (avail_of s) 260 → Published r s (publish r s)
  unfolding publish both_descs
  publish-Published w apart =
      let a = avail_of s in
      let idx_same : read16 (a + 2) both_descs ≡ read16 (a + 2) s.mem =
        Laws.read16_same both_descs s.mem (a + 2)
          (λ i h. both_descs_apart (a + 2 + i) (ground arith)) in
      record {
        command =
            IsDesc-same
              (λ b h l.
                push_avail_apart a both_descs b (ground arith)
                ∙ write_desc_apart (desc_of s + 16) r.resp_addr r.resp_size 2 0 first_desc b
                    (inr (omega arith)))
              (write_desc-IsDesc (desc_of s) r.cmd_addr r.cmd_size (u8 r.flags) 1 s.mem
                w.cmd_addr_word w.cmd_size_word (omega arith) (omega arith));
        response =
            IsDesc-same (λ b h l. push_avail_apart a both_descs b (ground arith))
              (write_desc-IsDesc (desc_of s + 16) r.resp_addr r.resp_size 2 0 first_desc
                w.resp_addr_word w.resp_size_word (omega arith) (omega arith));
        entry = rw (← idx_same) (push_avail-ring a both_descs);
        index = push_avail-idx a both_descs ∙ ap (λ i. (i + 1) % 2 ^ 16) idx_same;
        others = λ b h l. push_avail_apart a both_descs b l ∙ both_descs_apart b h;
      }
