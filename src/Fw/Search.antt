-- ===== src/Fw/Search.antt =====
-- `fw_find_file` of kernel/fw/fw_cfg.c, which reads the directory of the files entry by entry.
use craybond_os.Base.{
  ℕ, zero, suc, ◌+◌, ◌*◌, ◌%◌, ◌^◌, ◌≤◌, ◌<◌, ◌≡◌, refl, ◌∙◌, ap, ap₂, sym, subst, ◌⊎◌, inl, inr,
  arith, Bool, true, false, ◌==◌, Bool-cases, ==→eq,
}
use craybond_os.Outcome.{Outcome, done}
use craybond_os.Kstring.{Kstring, strcmp, string_ca_max, string_equals}
use craybond_os.Mem.{Memory, read8, read16, read32, read64, write32}
use craybond_os.Mem.Laws
use craybond_os.Mem.Laws.{NoOverlap, write16_apart, write32_apart}
use craybond_os.Ram.{be32, text_at}
use craybond_os.Screen.Driver.{bswap32}
use craybond_os.Fw.{
  Fw, bswap16, fw_list_directory, fw_cfg_check, swap_entry, entry_name, fw_cfg_data,
  fw_cfg_dma_operation, fw_cfg_dma_read, find_loop, fw_find_file,
}
use craybond_os.Fw.Transfer.{IsFwCfg, IsAccess, Transferred, select-Transferred, resume-Transferred}

abbrev pub be16 : Memory → ℕ → ℕ
be16 m p = m p * 2 ^ 8 + m (p + 1)

be32_moved :
    (m n : Memory) (a b : ℕ) → ((i : ℕ) → i < 4 → m (a + i) ≡ n (b + i)) → be32 m a ≡ be32 n b
unfolding be32
be32_moved m n a b h =
    ground (arith, h 0 (omega arith), h 1 (omega arith), h 2 (omega arith), h 3 (omega arith))

text_at_moved :
    (k : ℕ) (m n : Memory) (a b : ℕ)
    → ((i : ℕ) → i < k → m (a + i) ≡ n (b + i))
    → text_at k m a ≡ text_at k n b
unfolding text_at
text_at_moved zero m n a b h = refl
text_at_moved (suc k) m n a b h =
    let first : m a ≡ n b = ground (arith, h 0 (omega arith)) in
    let rest =
      text_at_moved k m n (a + 1) (b + 1) (λ i l. ground (arith, h (suc i) (omega arith))) in
    rw (first, rest) refl

swap_read32 :
    (m : Memory) (p : ℕ) → ((i : ℕ) → i < 4 → m (p + i) < 2 ^ 8) → bswap32 (read32 p m) ≡ be32 m p
unfolding be32 read32 read16 read8
swap_read32 m p h =
    ground (arith, h 0 (omega arith), h 1 (omega arith), h 2 (omega arith), h 3 (omega arith))

swap_read16 :
    (m : Memory) (p : ℕ) → ((i : ℕ) → i < 2 → m (p + i) < 2 ^ 8) → bswap16 (read16 p m) ≡ be16 m p
unfolding read16 read8
swap_read16 m p h = ground (arith, h 0 (omega arith), h 1 (omega arith))

swap_entry_apart :
    (file : ℕ) (m : Memory) (b : ℕ) → NoOverlap file 6 b 1 → swap_entry file m b ≡ m b
unfolding swap_entry
swap_entry_apart file m b h =
    let sized = write32 file (bswap32 (read32 file m)) m in
    write16_apart sized (file + 4) (bswap16 (read16 (file + 4) sized)) b (ground arith)
    ∙ write32_apart m file (bswap32 (read32 file m)) b (ground arith)

swap_entry_size :
    (file : ℕ) (m : Memory) → read32 file (swap_entry file m) ≡ bswap32 (read32 file m)
unfolding swap_entry
swap_entry_size file m =
    let v = bswap32 (read32 file m) in
    let sized = write32 file v m in
    Laws.read32-write16_apart sized (file + 4) (bswap16 (read16 (file + 4) sized)) file
      (inr (omega arith))
    ∙ Laws.read32-write32 m file v
    ∙ omega arith

swap_entry_selector :
    (file : ℕ) (m : Memory) → read16 (file + 4) (swap_entry file m) ≡ bswap16 (read16 (file + 4) m)
unfolding swap_entry
swap_entry_selector file m =
    let v = bswap32 (read32 file m) in
    let sized = write32 file v m in
    Laws.read16-write16 sized (file + 4) (bswap16 (read16 (file + 4) sized))
    ∙ ap (λ x. bswap16 x % 2 ^ 16)
        (Laws.read16-write32_apart m file v (file + 4) (inl (omega arith)))
    ∙ omega arith

module _ (dir : ℕ → ℕ) (search : Kstring) where
  -- The name of the entry `k` of the directory, which begins behind the count, is the one that is
  -- searched.
  unfoldable pub matches : ℕ → Bool
  matches k = strcmp (text_at 56 dir (4 + 64 * k + 8)) search.text == 0

module _ (dir : ℕ → ℕ) (file : ℕ) where
  -- The size and the selector of the entry `k` are at `file`.
  pub record Entry (k : ℕ) (m : Memory) : Type 0 where
    pub size : read32 file m ≡ be32 dir (4 + 64 * k)
    pub selector : read16 (file + 4) m ≡ be16 dir (4 + 64 * k + 4)

  -- The last of the entries before `i`, if there is one, is the one at `file`.
  unfoldable pub LastRead : ℕ → Memory → Type 0
  LastRead i m = (i ≡ 0) ⊎ ((k : ℕ) × (i ≡ suc k) × Entry k m)

module _ (dir : ℕ → ℕ) (search : Kstring) (file : ℕ) where
  -- The outcome of the search among `n` entries from `i` on: the first that matches, or the last.
  pub data Found {D : Type 0} (i n : ℕ) : Outcome (Bool × Fw D) → Type 0 where
    found :
        (k : ℕ) {t : Fw D}
        → i ≤ k
        → k < i + n
        → matches dir search k ≡ true
        → ((j : ℕ) → i ≤ j → j < k → matches dir search j ≡ false)
        → Entry dir file k t.mem
        → Found i n (done (true, t))
    missing :
        {t : Fw D}
        → ((j : ℕ) → i ≤ j → j < i + n → matches dir search j ≡ false)
        → LastRead dir file (i + n) t.mem
        → Found i n (done (false, t))

  extend :
      (i k : ℕ)
      → matches dir search i ≡ false
      → ((j : ℕ) → i + 1 ≤ j → j < k → matches dir search j ≡ false)
      → (j : ℕ) → i ≤ j
      → j < k
      → matches dir search j ≡ false
  extend i k miss later j h l = elim (Bool-cases (j == i)) [
    | inl e ↦ rw (==→eq j i e) miss
    | inr ne ↦ later j (ground arith) l
  ]

  later :
      {D : Type 0} (i n : ℕ) {o : Outcome (Bool × Fw D)}
      → matches dir search i ≡ false
      → Found (i + 1) n o
      → Found i (suc n) o
  later i n miss (found k h l hit low e) =
      found k (omega arith) (omega arith) hit (extend i k miss low) e
  later i n miss (missing {t} low last) =
      missing (extend i (i + suc n) miss (λ j h l. low j h (omega arith)))
        (subst (λ x. LastRead dir file x t.mem) (omega arith) last)

module _ {D : Type 0} {react : D → Memory → D × Memory} (dev : IsFwCfg react) (polls a file : ℕ)
    (access : IsAccess a) (ha : a < 2 ^ 64) (hf : file < 2 ^ 64) (apart : NoOverlap file 64 a 16)
    (search : Kstring) where
  abbrev directory : ℕ → ℕ
  directory = dev.item fw_list_directory

  -- The next entry to be read is the entry `i`.
  abbrev At : ℕ → Fw D → Type 0
  At i s = dev.position s.device ≡ (fw_list_directory, 4 + 64 * i)

  abbrev swapped : Fw D → Fw D
  swapped t = record t { mem = swap_entry file t.mem }

  -- The file at `file` after one round, in the memory `m` that the device leaves.
  swap_entry-Entry :
      (i : ℕ) (m : Memory)
      → ((j : ℕ) → j < 64 → m (file + j) ≡ directory (4 + 64 * i + j))
      → Entry directory file i (swap_entry file m)
  swap_entry-Entry i m h =
      let byte = λ (j : ℕ) (l : j < 64).
        subst (λ x. x < 2 ^ 8) (sym (h j l)) (dev.byte fw_list_directory (4 + 64 * i + j)) in
      record {
        size =
            swap_entry_size file m
            ∙ swap_read32 m file (λ j l. byte j (omega arith))
            ∙ be32_moved m directory file (4 + 64 * i) (λ j l. h j (omega arith));
        selector =
            swap_entry_selector file m
            ∙ swap_read16 m (file + 4) (λ j l. ground (arith, byte (4 + j) (omega arith)))
            ∙ ap₂ (λ x y. x * 2 ^ 8 + y) (h 4 (omega arith)) (ground (arith, h 5 (omega arith)));
      }

  name_read :
      (i : ℕ) (m : Memory)
      → ((j : ℕ) → j < 64 → m (file + j) ≡ directory (4 + 64 * i + j))
      → string_equals (entry_name file (swap_entry file m)) search ≡ matches directory search i
  unfolding string_equals entry_name string_ca_max matches
  name_read i m h =
      ap (λ x. strcmp x search.text == 0)
        (text_at_moved 56 (swap_entry file m) directory (file + 8) (4 + 64 * i + 8) (λ j l.
          swap_entry_apart file m (file + 8 + j) (inl (omega arith))
          ∙ ground (arith, h (8 + j) (omega arith))))

  step-At :
      (i : ℕ) (s t : Fw D)
      → At i s
      → dev.position t.device ≡ (fw_list_directory, 4 + 64 * i + 64)
      → At (i + 1) (swapped t)
  step-At i s t h e = e ∙ ap (λ x. (fw_list_directory, x)) (omega arith)

  next_entry :
      (i : ℕ) (s : Fw D)
      → At i s
      → Transferred directory dev.position a file 64 fw_list_directory
          (4 + 64 * i)
          s
          (fw_cfg_dma_operation react (suc polls) a file 64 2 s)
  next_entry i s h =
      subst
        (λ p.
          Transferred (dev.item p.0) dev.position a file 64 p.0 p.1 s
            (fw_cfg_dma_operation react (suc polls) a file 64 2 s))
        h (resume-Transferred dev polls a file 64 access ha hf (omega arith) apart s)

  find_loop-Found :
      (n i : ℕ) (s : Fw D)
      → At i s
      → LastRead directory file i s.mem
      → Found directory search file i n (find_loop react (suc polls) a n search file s)
  unfolding find_loop LastRead
  find_loop-Found zero i s h last =
      missing (λ j l k. absurd (omega arith))
        (subst (λ x. LastRead directory file x s.mem) (omega arith) last)
  find_loop-Found (suc n) i s h last =
      let r = next_entry i s h in
      let e = swap_entry-Entry i r.after.mem r.content in
      let name = name_read i r.after.mem r.content in
      elim (Bool-cases (matches directory search i)) [
        | inl hit ↦
            rw (r.result, name, hit)
              (found i (omega arith) (omega arith) hit (λ j l k. absurd (omega arith)) e)
        | inr miss ↦
            rw (r.result, name, miss)
              (later directory search file i n miss (
                find_loop-Found n (i + 1) (swapped r.after) (step-At i s r.after h r.moved)
                  (inr (i, omega arith, e))))
      ]

  check_again :
      (s : Fw D)
      → (fw_cfg_check s).0 ≡ true
      → fw_cfg_check (fw_cfg_check s).1 ≡ (true, (fw_cfg_check s).1)
  unfolding fw_cfg_check
  check_again s h = elim (Bool-cases s.checked) [
    | inl e ↦ rw e refl
    | inr e ↦
        let now : (read64 fw_cfg_data s.mem == 0x554D4551) ≡ true = rw e at h in rw (e, now) refl
  ]

  -- With a device that does what is documented, `fw_find_file` ends, with the first entry of the
  -- directory that has the name, its size and its selector at `file`, or with false if none has it;
  -- at `file` then stands the last entry of the directory.
  pub fw_find_file-Found :
      (local : ℕ) (s : Fw D)
      → local < 2 ^ 64
      → NoOverlap local 4 a 16
      → (fw_cfg_check s).0 ≡ true
      → Found directory search file 0
          (be32 directory 0)
          (fw_find_file react (suc polls) a local search file s)
  unfolding fw_find_file fw_cfg_dma_read LastRead
  fw_find_file-Found local s hl free present =
      let t = (fw_cfg_check s).1 in
      let r =
        select-Transferred dev polls a local 4 access ha hl (omega arith) free fw_list_directory t
          (omega arith) in
      let byte = λ (j : ℕ) (l : j < 4).
        subst (λ x. x < 2 ^ 8) (sym (r.content j l)) (dev.byte fw_list_directory (0 + j)) in
      let count : bswap32 (read32 local r.after.mem) ≡ be32 directory 0 =
        swap_read32 r.after.mem local byte ∙ be32_moved r.after.mem directory local 0 r.content in
      rw (present, check_again s present, r.result, count)
        (find_loop-Found (be32 directory 0) 0 r.after r.moved (inl refl))
