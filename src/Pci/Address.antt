-- ===== src/Pci/Address.antt =====
-- `pci_make_addr` of kernel/pci.c: where the configuration space of a function lies.
use craybond_os.Base.{
  ℕ, ◌+◌, ◌*◌, ◌%◌, ◌^◌, ◌<◌, ◌≡◌, arith, bit_or, bit_or_fields, bit_and_mask, ◌∙◌, ap, shl64,
}
use craybond_os.Pci.{Pci, pci_make_addr}

-- The base leaves room for the numbers of bus, slot and function, as that of `find_pci` does.
pub record IsBase (s : Pci) : Type 0 where
  pub page : ℕ
  pub aligned : s.pci_base ≡ page * 2 ^ 28
  pub word : s.pci_base < 2 ^ 63

-- The address of a register is the sum of its parts.
pub pci_make_addr-sum :
    (s : Pci) (bus slot func offset : ℕ)
    → IsBase s
    → bus < 256
    → slot < 32
    → func < 8
    → pci_make_addr s bus slot func offset
      ≡ s.pci_base + bus * 2 ^ 20 + slot * 2 ^ 15 + func * 2 ^ 12 + offset % 2 ^ 12
unfolding pci_make_addr
pci_make_addr-sum s bus slot func offset b hb hs hf =
    let p = b.page in
    let e1 : bit_or s.pci_base (shl64 bus 20) ≡ (p * 2 ^ 8 + bus) * 2 ^ 20 = rw b.aligned (
      ap (bit_or (p * 2 ^ 28)) (omega arith)
      ∙ bit_or_fields 28 p (bus * 2 ^ 20) (omega arith)
      ∙ omega arith) in
    let e2 : bit_or ((p * 2 ^ 8 + bus) * 2 ^ 20) (shl64 slot 15)
        ≡ ((p * 2 ^ 8 + bus) * 2 ^ 5 + slot) * 2 ^ 15 =
      ap (bit_or ((p * 2 ^ 8 + bus) * 2 ^ 20)) (omega arith)
      ∙ bit_or_fields 20 (p * 2 ^ 8 + bus) (slot * 2 ^ 15) (omega arith)
      ∙ omega arith in
    let e3 : bit_or (((p * 2 ^ 8 + bus) * 2 ^ 5 + slot) * 2 ^ 15) (shl64 func 12)
        ≡ (((p * 2 ^ 8 + bus) * 2 ^ 5 + slot) * 2 ^ 3 + func) * 2 ^ 12 =
      ap (bit_or (((p * 2 ^ 8 + bus) * 2 ^ 5 + slot) * 2 ^ 15)) (omega arith)
      ∙ bit_or_fields 15 ((p * 2 ^ 8 + bus) * 2 ^ 5 + slot) (func * 2 ^ 12) (omega arith)
      ∙ omega arith in
    rw (e1, e2, e3, bit_and_mask 12 offset)
      (bit_or_fields 12 (((p * 2 ^ 8 + bus) * 2 ^ 5 + slot) * 2 ^ 3 + func) (offset % 2 ^ 12)
          (omega arith)
        ∙ omega (arith, b.aligned))
