-- ===== src/Pci.antt =====
-- kernel/pci.c: addresses in the configuration space, the search for a device, and the search for
-- the ACPI root pointer. The configuration space is a part of the memory; the messages are left
-- out.
use craybond_os.Base.{
  ℕ, zero, suc, ◌+◌, ◌*◌, ◌/◌, ◌%◌, ◌^◌, Bool, true, false, ◌&&◌, ◌||◌, ltb, leb, ◌==◌,
  if◌then◌else◌, Option, none, some, List, [], ◌∷◌, u8, u64, add64, shr, shl64, bit_and, bit_or,
}
use craybond_os.Mem.{Memory, read8, read32, read}
pub mod Address
pub mod Search
mod Tests

-- The global `pci_base`.
pub record Pci : Type 0 where
  pub pci_base : ℕ

unfoldable pub find_pci : Pci → Pci
find_pci s = record s { pci_base = 0x4010000000 }

-- `if (NINIT) find_pci()`
unfoldable pub init_pci : Pci → Pci
unfolding find_pci
init_pci s = if s.pci_base == 0 then find_pci s else s

unfoldable pub pci_make_addr : Pci → (bus slot func offset : ℕ) → ℕ
pci_make_addr s bus slot func offset =
    bit_or (bit_or (bit_or (bit_or s.pci_base (shl64 bus 20)) (shl64 slot 15)) (shl64 func 12))
      (bit_and offset 0xFFF)

unfoldable pub pci_get_bar_address : Pci → (base offset index : ℕ) → Pci × ℕ
unfolding init_pci
pci_get_bar_address s base offset index = (init_pci s, add64 (add64 base offset) (index * 4))

-- The `return` of an inner loop ends the outer ones.
abbrev pub or_else : Option ℕ → Option ℕ → Option ℕ
or_else none o = o
or_else (some a) o = some a

module _ (s : Pci) (mem : Memory) (vendor_id device_id : ℕ) where
  pub is_device : ℕ → Bool
  unfolding read
  is_device address =
      let vendor_device = read address mem in
      (bit_and vendor_device 0xFFFF == vendor_id)
      && (bit_and (shr vendor_device 16) 0xFFFF == device_id)

  -- The three loops, with the rounds that are left.
  pub scan_funcs : ℕ → (bus slot func : ℕ) → Option ℕ
  unfolding is_device pci_make_addr
  scan_funcs zero bus slot func = none
  scan_funcs (suc n) bus slot func =
      let address = pci_make_addr s bus slot func 0 in
      let rest = scan_funcs n bus slot (func + 1) in
      if is_device address then some address else rest

  pub scan_slots : ℕ → (bus slot : ℕ) → Option ℕ
  scan_slots zero bus slot = none
  scan_slots (suc n) bus slot =
      let rest = scan_slots n bus (slot + 1) in or_else (scan_funcs 8 bus slot 0) rest

  pub scan_buses : ℕ → (bus : ℕ) → Option ℕ
  scan_buses zero bus = none
  scan_buses (suc n) bus = let rest = scan_buses n (bus + 1) in or_else (scan_slots 32 bus 0) rest

pub address_or_null : Option ℕ → ℕ
address_or_null none = 0
address_or_null (some a) = a

pub find_pci_device : (vendor_id device_id : ℕ) → Memory → Pci → Pci × ℕ
unfolding address_or_null init_pci
find_pci_device vendor_id device_id mem s =
    let s' = init_pci s in (s', address_or_null (scan_buses s' mem vendor_id device_id 256 0))

-- `for (i = 0; i < n; i++) sum += p[i]` in a byte.
pub checksum : (n p : ℕ) → Memory → (sum : ℕ) → ℕ
unfolding read8
checksum zero p mem sum = sum
checksum (suc n) p mem sum = checksum n (p + 1) mem (u8 (sum + read8 p mem))

abbrev starts_with : List ℕ → ℕ → Memory → Bool
starts_with [] p mem = true
starts_with (c ∷ sig) p mem = mem p == c && starts_with sig (p + 1) mem

-- What stands before the `return candidate`.
pub is_rsdp : ℕ → Memory → Bool
unfolding checksum read8 read32
is_rsdp addr mem =
    starts_with (b'R' ∷ b'S' ∷ b'D' ∷ b' ' ∷ b'P' ∷ b'T' ∷ b'R' ∷ b' ' ∷ []) addr mem
    && (checksum 20 addr mem 0 == 0
        && (ltb (read8 (addr + 15) mem) 2 || checksum (read32 (addr + 20) mem) addr mem 0 == 0))

-- The loop of `find_rsdp`, with the rounds that are left.
pub find_rsdp_loop : (rounds addr : ℕ) → Memory → ℕ
unfolding is_rsdp
find_rsdp_loop zero addr mem = 0
find_rsdp_loop (suc n) addr mem =
    let rest = find_rsdp_loop n (addr + 16) mem in if is_rsdp addr mem then addr else rest

-- From 0xE0000 up to 0x100000 in steps of 16.
pub find_rsdp : Memory → ℕ
unfolding find_rsdp_loop
find_rsdp mem = find_rsdp_loop 0x2000 0xE0000 mem
