-- ===== src/Ram/Tests.antt =====
-- Runs of kernel/ram_e.c at concrete regions and blocks, and of kernel/dtb.c on a device tree with
-- one node.
use craybond_os.Base.{ℕ, ◌≡◌, refl, some, List, [], ◌∷◌, get_or, ◌-◌, ◌*◌, ◌/◌, ◌%◌, ◌^◌, arith}
use craybond_os.Outcome.{done}
use craybond_os.Kstring.{strcont, strcmp}
use craybond_os.Ram.{Ram, calc_ram, get_memory_region}
use craybond_os.Ram.Size.{IsUserRam, calc_ram-IsUserRam}

abbrev fresh : Ram
fresh = record {
  total_ram_start = 0;
  total_ram_size = 0;
  calculated_ram_start = 0;
  calculated_ram_end = 0;
  calculated_ram_size = 0;
}

-- A header, the node "memory" with the properties "reg" and "device_type", and the strings.
abbrev words : List ℕ
words =
    0xD00DFEED ∷ 0x90 ∷ 0x28 ∷ 0x70 ∷ 0 ∷ 0 ∷ 0 ∷ 0 ∷ 0 ∷ 0 ∷ 1 ∷ 0x6D656D6F ∷ 0x72790000 ∷ 3 ∷ 16
    ∷ 0 ∷ 0 ∷ 0x40000000 ∷ 0 ∷ 0x8000000 ∷ 3 ∷ 7 ∷ 4 ∷ 0x6D656D6F ∷ 0x72790000 ∷ 2 ∷ 9 ∷ 0
    ∷ 0x72656700 ∷ 0x64657669 ∷ 0x63655F74 ∷ 0x79706500 ∷ []

abbrev tree : ℕ → ℕ
tree p = get_or words (p / 4) 0 / 2 ^ (8 * (3 - p % 4)) % 2 ^ 8

region : get_memory_region 0 tree 0 10 20 ≡ done (some (0x40000000, 0x8000000))
unfolding get_memory_region strcont strcmp
region = refl

calc_ram-IsUserRam_example :
    (s : Ram) × (calc_ram 0 tree 0 10 20 0x42400000 fresh ≡ done s)
    × IsUserRam 0x40000000 0x8000000 0x42400000 s
calc_ram-IsUserRam_example =
    calc_ram-IsUserRam 0 tree 0 10 20 0x42400000 0x40000000 0x8000000 fresh region refl
      (omega arith) (omega arith)
