-- ===== src/Virtio/Capabilities.antt =====
-- The list of capabilities that `vgp_get_capabilities` of
-- kernel/graph/drivers/virtio_gpu_pci/virtio_gpu_pci_driver.c walks, on a device whose regions have
-- addresses already.
use craybond_os.Base.{
  ℕ, zero, suc, ◌+◌, ◌-◌, ◌*◌, ◌^◌, ◌<◌, ◌≡◌, refl, ◌≢◌, arith, Bool, true, false, ◌==◌, ◌&&◌,
  if◌then◌else◌, List, [], ◌∷◌, length, add64, bit_and, ltb, ==_ne,
}
use craybond_os.Outcome.{done}
use craybond_os.Mem.{Memory, read8, read32}
use craybond_os.Pci.{init_pci, pci_get_bar_address}
use craybond_os.Virtio.{Vgp}
use craybond_os.Virtio.Setup.{
  use_capability, inspect_capability, capability_loop, vgp_get_capabilities,
}

pub record Cap : Type 0 where
  pub vndr : ℕ
  pub next : ℕ
  pub cfg_type : ℕ
  pub bar : ℕ
  pub offset : ℕ
  pub multiplier : ℕ
  pub base : ℕ

-- The capability lies at `place`, and its region has the address `base`.
pub record IsCap (mem : Memory) (address place : ℕ) (c : Cap) : Type 0 where
  pub vndr_read : read8 place mem ≡ c.vndr
  pub next_read : read8 (place + 1) mem ≡ c.next
  pub type_read : read8 (place + 3) mem ≡ c.cfg_type
  pub bar_read : read8 (place + 4) mem ≡ c.bar
  pub offset_read : read32 (place + 8) mem ≡ c.offset
  pub multiplier_read : read32 (place + 16) mem ≡ c.multiplier
  pub base_read :
      bit_and (read32 (add64 (add64 address 0x10) (c.bar * 4)) mem) (2 ^ 32 - 16) ≡ c.base
  pub base_set : c.base ≢ 0

abbrev pub IsChain : Memory → (address offset : ℕ) → List Cap → Type 0
IsChain mem address offset [] = offset ≡ 0
IsChain mem address offset (c ∷ cs) =
    (offset ≢ 0) × IsCap mem address (add64 address offset) c × IsChain mem address c.next cs

abbrev is_type : ℕ → Cap → Bool
is_type type c = c.vndr == 9 && c.cfg_type == type

-- Where the last capability of a type places its structure; `d` if there is none.
pub last_place : (type d : ℕ) → List Cap → ℕ
last_place type d [] = d
last_place type d (c ∷ cs) =
    last_place type (if is_type type c then add64 c.base c.offset else d) cs

pub last_multiplier : (d : ℕ) → List Cap → ℕ
last_multiplier d [] = d
last_multiplier d (c ∷ cs) = last_multiplier (if is_type 2 c then c.multiplier else d) cs

module _ {D : Type 0} where
  -- The driver's state with the places that the list gives.
  pub placed : List Cap → Vgp D → Vgp D
  placed cs s = record s {
    common_cfg = last_place 1 s.common_cfg cs;
    notify_cfg = last_place 2 s.notify_cfg cs;
    notify_off_multiplier = last_multiplier s.notify_off_multiplier cs;
    isr_cfg = last_place 3 s.isr_cfg cs;
    device_cfg = last_place 4 s.device_cfg cs;
  }

  use_capability-placed :
      (s : Vgp D) (address place : ℕ) (c : Cap)
      → IsCap s.mem address place c
      → (if c.vndr == 9 then use_capability place c.base s else s) ≡ placed (c ∷ []) s
  unfolding use_capability placed last_place last_multiplier
  use_capability-placed s address place c k =
      rw (k.type_read, k.offset_read, k.multiplier_read) (ground arith)

and_false : (a : Bool) → (a && false) ≡ false
and_false true = refl
and_false false = refl

module _ {D : Type 0} (react : D → Memory → D × Memory) where
  inspect_capability-placed :
      (s : Vgp D) (address place : ℕ) (c : Cap)
      → init_pci s.pci ≡ s.pci
      → IsCap s.mem address place c
      → inspect_capability react address place s ≡ placed (c ∷ []) s
  unfolding inspect_capability pci_get_bar_address
  inspect_capability-placed s address place c init k =
      rw
        (
          init,
          k.bar_read,
          k.base_read,
          ==_ne c.base 0 k.base_set,
          and_false (ltb (read8 (place + 3) s.mem) 5),
          k.vndr_read,
        )
        (use_capability-placed s address place c k)

  capability_loop-placed :
      (n address offset : ℕ) (cs : List Cap) (s : Vgp D)
      → init_pci s.pci ≡ s.pci
      → length cs < n
      → IsChain s.mem address offset cs
      → capability_loop react n address offset s ≡ done (placed cs s)
  unfolding capability_loop placed last_place last_multiplier
  capability_loop-placed zero address offset cs s init h chain = absurd (omega arith)
  capability_loop-placed (suc n) address offset [] s init h chain = rw chain refl
  capability_loop-placed (suc n) address offset (c ∷ cs) s init h (more, k, chain) =
      rw
        (
          ==_ne offset 0 more,
          inspect_capability-placed s address (add64 address offset) c init k,
          k.next_read,
        )
        (capability_loop-placed n address c.next cs (placed (c ∷ []) s) init (omega arith) chain)

  -- On a device whose list of capabilities is `cs` and whose regions have addresses, with the base
  -- of the bus known and fuel for one round more than there are capabilities,
  -- `vgp_get_capabilities` ends: each of the four structures is where the last capability of its
  -- type places it, or where it was if there is none, the multiplier is that of the last
  -- notification capability, and nothing else has changed.
  pub vgp_get_capabilities-placed :
      (fuel address : ℕ) (cs : List Cap) (s : Vgp D)
      → init_pci s.pci ≡ s.pci
      → length cs < fuel
      → IsChain s.mem address (read32 (address + 0x34) s.mem) cs
      → vgp_get_capabilities react fuel address s ≡ done (placed cs s)
  unfolding vgp_get_capabilities
  vgp_get_capabilities-placed fuel address cs s init h chain =
      capability_loop-placed fuel address (read32 (address + 0x34) s.mem) cs s init h chain
