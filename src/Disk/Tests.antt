-- ===== src/Disk/Tests.antt =====
-- Runs of kernel/filesystem/disk.c on a device tree with one node, whose device is or is not a
-- disk.
use craybond_os.Base.{
  ℕ, ◌≡◌, refl, ◌==◌, if◌then◌else◌, List, [], ◌∷◌, get_or, ◌-◌, ◌*◌, ◌/◌, ◌%◌, ◌^◌,
}
use craybond_os.Outcome.{done}
use craybond_os.Kstring.{strcont, strcmp}
use craybond_os.Mem.{Memory, read32}
use craybond_os.Ram.{dtb_scan}
use craybond_os.Ram.Scan.{Partly}
use craybond_os.Disk.{Disk, init_disk}
use craybond_os.Disk.Block.{Placed, init_disk-Placed}

abbrev none_yet : Disk
none_yet = record { disk_device_address = 0; disk_device_size = 0; disk_device_interrupt = 0 }

-- A header, the node "virtio_mmio" with the properties "reg" and "interrupts", and the strings.
abbrev words : List ℕ
words =
    0xD00DFEED ∷ 0x90 ∷ 0x28 ∷ 0x70 ∷ 0 ∷ 0 ∷ 0 ∷ 0 ∷ 0 ∷ 0 ∷ 1 ∷ 0x76697274 ∷ 0x696F5F6D
    ∷ 0x6D696F00 ∷ 3 ∷ 16 ∷ 0 ∷ 0 ∷ 0x0A000000 ∷ 0 ∷ 0x200 ∷ 3 ∷ 4 ∷ 4 ∷ 48 ∷ 2 ∷ 9 ∷ 0 ∷ 0x72656700
    ∷ 0x696E7465 ∷ 0x72727570 ∷ 0x74730000 ∷ []

-- The device at 0x0A000000 has the number `id`.
abbrev machine : ℕ → Memory
machine id p =
    if p == 0x0A000008 then id else get_or words (p / 4) 0 / 2 ^ (8 * (3 - p % 4)) % 2 ^ 8

abbrev disk : Disk
disk = record {
  disk_device_address = 0x0A000000;
  disk_device_size = 0x200;
  disk_device_interrupt = 48;
}

init_disk-Placed_example :
    Partly (Placed (machine 2) none_yet) (init_disk (machine 2) 0 0 12 20 none_yet)
init_disk-Placed_example = init_disk-Placed (machine 2) 0 0 12 20 none_yet

init_disk-test : init_disk (machine 2) 0 0 12 20 none_yet ≡ done disk
unfolding init_disk strcont strcmp read32 dtb_scan
init_disk-test = refl

init_disk-other-test : init_disk (machine 1) 0 0 12 20 none_yet ≡ done none_yet
unfolding init_disk strcont strcmp read32 dtb_scan
init_disk-other-test = refl
