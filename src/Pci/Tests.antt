-- ===== src/Pci/Tests.antt =====
-- The search of kernel/pci.c on a configuration space with no device.
use craybond_os.Base.{◌≡◌, refl, arith}
use craybond_os.Mem.{Memory}
use craybond_os.Pci.{Pci, init_pci, find_pci_device, find_rsdp_loop}
use craybond_os.Pci.Address.{IsBase}
use craybond_os.Pci.Search.{IsFirst, matches, find_pci_device-IsFirst}

-- A read of an empty slot gives ones.
abbrev empty_slots : Memory
empty_slots a = 255

abbrev unknown_base : Pci
unknown_base = record { pci_base = 0 }

default_IsBase : IsBase (init_pci unknown_base)
unfolding init_pci
default_IsBase = record { page = 0x401; aligned = refl; word = omega arith }

find_pci_device-IsFirst_example :
    let r = find_pci_device 0x1AF4 0x1050 empty_slots unknown_base in
    (r.0.pci_base ≡ 0x4010000000) × IsFirst (matches r.0 empty_slots 0x1AF4 0x1050) r.0.pci_base r.1
find_pci_device-IsFirst_example =
    find_pci_device-IsFirst 0x1AF4 0x1050 empty_slots unknown_base (λ a. omega arith) default_IsBase

no_rsdp : find_rsdp_loop 3 0xE0000 empty_slots ≡ 0
unfolding find_rsdp_loop
no_rsdp = refl
