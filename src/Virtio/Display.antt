-- ===== src/Virtio/Display.antt =====
-- The answer to GET_DISPLAY_INFO in kernel/graph/drivers/virtio_gpu_pci/virtio_gpu_pci_driver.c.
use craybond_os.Base.{
  ℕ, zero, suc, ◌+◌, ◌≤◌, ◌<◌, ◌≡◌, refl, inl, inr, arith, Bool, true, false, ◌==◌, Bool-cases,
  ==→eq, Option, none, some, if◌then◌else◌,
}
use craybond_os.Mem.{read32}
use craybond_os.Virtio.{Vgp}
use craybond_os.Virtio.Command.{pmode, find_scanout, take_scanout, use_display_info}

module _ {D : Type 0} (s : Vgp D) where
  pub enabled : ℕ → Bool
  enabled i = if read32 (pmode s i) s.mem == 0 then false else true

  -- What the loop finds of the scanouts from `i` on.
  pub data FirstEnabled (i n : ℕ) : Option ℕ → Type 0 where
    nothing : ((j : ℕ) → i ≤ j → j < i + n → enabled j ≡ false) → FirstEnabled i n none
    found :
        (k : ℕ)
        → i ≤ k
        → k < i + n
        → enabled k ≡ true
        → ((j : ℕ) → i ≤ j → j < k → enabled j ≡ false)
        → FirstEnabled i n (some k)

  enabled_later :
      (i k : ℕ)
      → enabled i ≡ false
      → ((j : ℕ) → i + 1 ≤ j → j < k → enabled j ≡ false)
      → (j : ℕ) → i ≤ j
      → j < k
      → enabled j ≡ false
  enabled_later i k off low j h l = elim (Bool-cases (j == i)) [
    | inl e ↦ rw (==→eq j i e) off
    | inr ne ↦ low j (ground arith) l
  ]

  later :
      {i n : ℕ} {o : Option ℕ}
      → enabled i ≡ false
      → FirstEnabled (i + 1) n o
      → FirstEnabled i (suc n) o
  later {i} {n} off (nothing low) =
      nothing (λ j h l. enabled_later i (i + suc n) off (λ j h l. low j h (omega arith)) j h l)
  later {i} {n} off (found k h l on low) =
      found k (omega arith) (omega arith) on (enabled_later i k off low)

  find_scanout-FirstEnabled : (n i : ℕ) → FirstEnabled i n (find_scanout n i s)
  unfolding find_scanout enabled
  find_scanout-FirstEnabled zero i = nothing (λ j h l. absurd (omega arith))
  find_scanout-FirstEnabled (suc n) i = elim (Bool-cases (read32 (pmode s i) s.mem == 0)) [
    | inl off ↦ rw off (later (rw off refl) (find_scanout-FirstEnabled n (i + 1)))
    | inr on ↦
        rw on (found i (omega arith) (omega arith) (rw on refl) (λ j h l. absurd (omega arith)))
  ]

  -- What the driver makes of the answer.
  pub data DisplayInfo : Bool × Vgp D → Type 0 where
    display :
        (k : ℕ) {t : Vgp D}
        → k < 16
        → enabled k ≡ true
        → ((j : ℕ) → j < k → enabled j ≡ false)
        → t ≡ record s {
          display_width = read32 (pmode s k + 16) s.mem;
          display_height = read32 (pmode s k + 20) s.mem;
          scanout_id = k;
          scanout_found = true;
        }
        → DisplayInfo (true, t)
    no_display :
        {t : Vgp D}
        → ((j : ℕ) → j < 16 → enabled j ≡ false)
        → t.scanout_found ≡ false
        → t.display_width ≡ s.display_width
        → t.display_height ≡ s.display_height
        → DisplayInfo (false, t)

  of_scan : {o : Option ℕ} → FirstEnabled 0 16 o → DisplayInfo (take_scanout o s)
  unfolding take_scanout
  of_scan (nothing low) = no_display (λ j h. low j (omega arith) (omega arith)) refl refl refl
  of_scan (found k h l on low) = display k (omega arith) on (λ j h. low j (omega arith) h) refl

  -- The driver takes the size and the number of the first of the 16 scanouts that is enabled. If
  -- none is, it reports failure and keeps the size that it had: the size asked for in `vgp_init` is
  -- not used.
  pub use_display_info-DisplayInfo : DisplayInfo (use_display_info s)
  unfolding use_display_info
  use_display_info-DisplayInfo = of_scan (find_scanout-FirstEnabled 16 0)
