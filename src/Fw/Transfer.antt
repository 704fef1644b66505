-- ===== src/Fw/Transfer.antt =====
-- A transfer of kernel/fw/fw_cfg.c with a device that does what is documented.
use craybond_os.Base.{ℕ, suc, ◌+◌, ◌*◌, ◌/◌, ◌%◌, ◌^◌, ◌<◌, ◌≡◌, refl, ◌∙◌, ap₂, inr, arith}
use craybond_os.Outcome.{Outcome, done}
use craybond_os.Mem.{Memory, read32, write8, write16, write32, write64}
use craybond_os.Mem.Laws.{NoOverlap, write32_apart, write64_apart}
use craybond_os.Ram.{be32}
use craybond_os.Screen.Driver.{bswap32, bswap64}
use craybond_os.Fw.{Fw, fw_cfg_dma, ask, turn, is_finished, wait_finished, fw_cfg_dma_operation}

-- Numbers with their highest byte first, as the device reads them.
abbrev pub be64 : Memory → ℕ → ℕ
be64 mem p = be32 mem p * 2 ^ 32 + be32 mem (p + 4)

-- The structure at `a` says what to transfer, and the register says where it is.
pub record Asked (a dest size ctrl : ℕ) (mem : Memory) : Type 0 where
  pub place : be64 mem fw_cfg_dma ≡ a
  pub control : be32 mem a ≡ ctrl
  pub length : be32 mem (a + 4) ≡ size
  pub address : be64 mem (a + 8) ≡ dest

-- The file `key`, whose bytes are `item`, has been read from `from` on.
pub record Served {D : Type 0} (item : ℕ → ℕ) (position : D → ℕ × ℕ) (a dest size key from : ℕ)
    (mem : Memory) (r : D × Memory) : Type 0 where
  pub moved : position r.0 ≡ (key, from + size)
  pub content : (i : ℕ) → i < size → r.1 (dest + i) ≡ item (from + i)
  pub finished : read32 a r.1 ≡ 0
  pub others : (b : ℕ) → NoOverlap dest size b 1 → NoOverlap a 4 b 1 → r.1 b ≡ mem b

-- What the firmware configuration device documents of reading. It keeps the file that is selected
-- and the place up to which it is read.
pub record IsFwCfg {D : Type 0} (react : D → Memory → D × Memory) : Type 0 where
  pub item : (key offset : ℕ) → ℕ
  pub byte : (key offset : ℕ) → item key offset < 2 ^ 8
  pub position : D → ℕ × ℕ
  pub select :
      (d : D) (m : Memory) (a dest size key : ℕ)
      → Asked a dest size (key * 2 ^ 16 + 10) m
      → NoOverlap dest size a 16
      → Served (item key) position a dest size key 0 m (react d m)
  pub resume :
      (d : D) (m : Memory) (a dest size : ℕ)
      → Asked a dest size 2 m
      → NoOverlap dest size a 16
      → Served
          (item (position d).0)
          position
          a
          dest
          size
          (position d).0
          (position d).1
          m
          (react d m)

be32-write32_swapped : (m : Memory) (p w : ℕ) → be32 (write32 p w m) p ≡ bswap32 w
unfolding be32 write32 write16 write8
be32-write32_swapped m p w = ground arith

be32-write32 : (m : Memory) (p v : ℕ) → v < 2 ^ 32 → be32 (write32 p (bswap32 v) m) p ≡ v
be32-write32 m p v h = be32-write32_swapped m p (bswap32 v) ∙ omega arith

be32_same : (m n : Memory) (a : ℕ) → ((i : ℕ) → i < 4 → m (a + i) ≡ n (a + i)) → be32 m a ≡ be32 n a
unfolding be32
be32_same m n a h =
    ground (arith, h 0 (omega arith), h 1 (omega arith), h 2 (omega arith), h 3 (omega arith))

be32-write32_apart :
    (m : Memory) (p v a : ℕ) → NoOverlap p 4 a 4 → be32 (write32 p v m) a ≡ be32 m a
be32-write32_apart m p v a h =
    be32_same (write32 p v m) m a (λ i l. write32_apart m p v (a + i) (ground arith))

be32-write64_apart :
    (m : Memory) (p v a : ℕ) → NoOverlap p 8 a 4 → be32 (write64 p v m) a ≡ be32 m a
be32-write64_apart m p v a h =
    be32_same (write64 p v m) m a (λ i l. write64_apart m p v (a + i) (ground arith))

swap_high : (v : ℕ) → v < 2 ^ 64 → bswap32 (bswap64 v) ≡ v / 2 ^ 32
swap_high v h = omega arith

swap_low : (v : ℕ) → v < 2 ^ 64 → bswap32 (bswap64 v / 2 ^ 32) ≡ v % 2 ^ 32
swap_low v h = omega arith

be64-write64 : (m : Memory) (p v : ℕ) → v < 2 ^ 64 → be64 (write64 p (bswap64 v) m) p ≡ v
unfolding write64
be64-write64 m p v h =
    let w = bswap64 v in
    let low = write32 p w m in
    let first = be32-write32_apart low (p + 4) (w / 2 ^ 32) p (inr (omega arith)) in
    ap₂ (λ x y. x * 2 ^ 32 + y) (first ∙ be32-write32_swapped m p w ∙ swap_high v h)
      (be32-write32_swapped low (p + 4) (w / 2 ^ 32) ∙ swap_low v h)
    ∙ omega arith

-- The structure lies on the stack, apart from the register.
abbrev pub IsAccess : ℕ → Type 0
IsAccess a = NoOverlap a 16 fw_cfg_dma 8

ask-Asked :
    (a dest size ctrl : ℕ) (mem : Memory)
    → IsAccess a
    → a < 2 ^ 64
    → dest < 2 ^ 64
    → size < 2 ^ 32
    → ctrl < 2 ^ 32
    → Asked a dest size ctrl (ask a dest size ctrl mem)
unfolding ask
ask-Asked a dest size ctrl mem apart ha hd hs hc =
    let m1 = write32 a (bswap32 ctrl) mem in
    let m2 = write32 (a + 4) (bswap32 size) m1 in
    let m3 = write64 (a + 8) (bswap64 dest) m2 in
    let top = λ (b : ℕ) (h : NoOverlap fw_cfg_dma 8 b 4).
      be32-write64_apart m3 fw_cfg_dma (bswap64 a) b h in
    record {
      place = be64-write64 m3 fw_cfg_dma a ha;
      control =
          top a (ground arith)
          ∙ be32-write64_apart m2 (a + 8) (bswap64 dest) a (ground arith)
          ∙ be32-write32_apart m1 (a + 4) (bswap32 size) a (ground arith)
          ∙ be32-write32 mem a ctrl hc;
      length =
          top (a + 4) (ground arith)
          ∙ be32-write64_apart m2 (a + 8) (bswap64 dest) (a + 4) (ground arith)
          ∙ be32-write32 m1 (a + 4) size hs;
      address =
          ap₂ (λ x y. x * 2 ^ 32 + y) (top (a + 8) (ground arith)) (top (a + 8 + 4) (ground arith))
          ∙ be64-write64 m2 (a + 8) dest hd;
    }

ask_apart :
    (a dest size ctrl : ℕ) (mem : Memory) (b : ℕ)
    → NoOverlap a 16 b 1
    → NoOverlap fw_cfg_dma 8 b 1
    → ask a dest size ctrl mem b ≡ mem b
unfolding ask
ask_apart a dest size ctrl mem b h k =
    let m1 = write32 a (bswap32 ctrl) mem in
    let m2 = write32 (a + 4) (bswap32 size) m1 in
    let m3 = write64 (a + 8) (bswap64 dest) m2 in
    write64_apart m3 fw_cfg_dma (bswap64 a) b k
    ∙ write64_apart m2 (a + 8) (bswap64 dest) b (ground arith)
    ∙ write32_apart m1 (a + 4) (bswap32 size) b (ground arith)
    ∙ write32_apart mem a (bswap32 ctrl) b (ground arith)

-- The operation has come back, with the bytes of the file from `from` on at `dest`.
pub record Transferred {D : Type 0} (item : ℕ → ℕ) (position : D → ℕ × ℕ) (a dest size key from : ℕ)
    (s : Fw D) (o : Outcome (Fw D)) : Type 0 where
  pub after : Fw D
  pub result : o ≡ done after
  pub moved : position after.device ≡ (key, from + size)
  pub content : (i : ℕ) → i < size → after.mem (dest + i) ≡ item (from + i)
  pub same : after.checked ≡ s.checked
  pub others :
      (b : ℕ)
      → NoOverlap dest size b 1
      → NoOverlap a 16 b 1
      → NoOverlap fw_cfg_dma 8 b 1
      → after.mem b ≡ s.mem b

module _ {D : Type 0} (react : D → Memory → D × Memory) (polls a dest size ctrl key from : ℕ) where
  fw_cfg_dma_operation-Transferred :
      (item : ℕ → ℕ) (position : D → ℕ × ℕ) (s : Fw D)
      → Served item position a dest size key from
          (ask a dest size ctrl s.mem)
          (react s.device (ask a dest size ctrl s.mem))
      → Transferred item position a dest size key from s
          (fw_cfg_dma_operation react (suc polls) a dest size ctrl s)
  unfolding fw_cfg_dma_operation wait_finished turn is_finished
  fw_cfg_dma_operation-Transferred item position s k = record {
    after = turn react (record s { mem = ask a dest size ctrl s.mem });
    result = rw k.finished refl;
    moved = k.moved;
    content = k.content;
    same = refl;
    others = λ b h1 h2 h3. k.others b h1 (ground arith) ∙ ask_apart a dest size ctrl s.mem b h2 h3;
  }

module _ {D : Type 0} {react : D → Memory → D × Memory} (dev : IsFwCfg react)
    (polls a dest size : ℕ) (access : IsAccess a) (ha : a < 2 ^ 64) (hd : dest < 2 ^ 64)
    (hs : size < 2 ^ 32) (apart : NoOverlap dest size a 16) where
  pub select-Transferred :
      (key : ℕ) (s : Fw D)
      → key < 2 ^ 16
      → Transferred
          (dev.item key)
          dev.position
          a
          dest
          size
          key
          0
          s
          (fw_cfg_dma_operation react (suc polls) a dest size (key * 2 ^ 16 + 10) s)
  select-Transferred key s h =
      let ctrl = key * 2 ^ 16 + 10 in
      let m = ask a dest size ctrl s.mem in
      fw_cfg_dma_operation-Transferred react polls a dest size ctrl key 0 (dev.item key)
        dev.position s
        (dev.select s.device m a dest size key
          (ask-Asked a dest size ctrl s.mem access ha hd hs (omega arith)) apart)

  pub resume-Transferred :
      (s : Fw D)
      → let (key, from) = dev.position s.device in
        Transferred
          (dev.item key)
          dev.position
          a
          dest
          size
          key
          from
          s
          (fw_cfg_dma_operation react (suc polls) a dest size 2 s)
  resume-Transferred s =
      let m = ask a dest size 2 s.mem in
      let (key, from) = dev.position s.device in
      fw_cfg_dma_operation-Transferred react polls a dest size 2 key from (dev.item key)
        dev.position s
        (dev.resume s.device m a dest size
          (ask-Asked a dest size 2 s.mem access ha hd hs (omega arith)) apart)
