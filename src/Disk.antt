-- ===== src/Disk.antt =====
-- kernel/filesystem/disk.c: the search of the device tree for the disk. Memory, which holds the
-- device tree at `dtb` and the registers of the devices, is a function from addresses to bytes.
use craybond_os.Base.{
  ℕ, ◌+◌, ◌*◌, ◌^◌, ◌==◌, ◌&&◌, Bool, true, false, not, leb, if◌then◌else◌, List, [], ◌∷◌, u8,
  bit_or,
}
use craybond_os.Outcome.{Outcome, done, ◌>>=◌}
use craybond_os.Kstring.{strcmp}
use craybond_os.Mem.{Memory, read32}
use craybond_os.Ram.{DtbMatch, no_match, be32, dtb_scan}
pub mod Block
mod Tests

-- The static variables.
pub record Disk : Type 0 where
  pub disk_device_address : ℕ
  pub disk_device_size : ℕ
  pub disk_device_interrupt : ℕ

abbrev reg_text : List ℕ
reg_text = b'r' ∷ b'e' ∷ b'g' ∷ []

abbrev interrupts_text : List ℕ
interrupts_text = b'i' ∷ b'n' ∷ b't' ∷ b'e' ∷ b'r' ∷ b'r' ∷ b'u' ∷ b'p' ∷ b't' ∷ b's' ∷ []

abbrev pub virtio_mmio : List ℕ
virtio_mmio = b'v' ∷ b'i' ∷ b'r' ∷ b't' ∷ b'i' ∷ b'o' ∷ b'_' ∷ b'm' ∷ b'm' ∷ b'i' ∷ b'o' ∷ []

module _ (mem : Memory) where
  -- A number of 64 bits in the device tree.
  unfoldable be64 : ℕ → ℕ
  unfolding be32
  be64 p = bit_or (be32 mem p * 2 ^ 32) (be32 mem (p + 4))

  unfoldable pub device_id : (reg_base : ℕ) → ℕ
  device_id reg_base = u8 (read32 (reg_base + 8) mem)

  -- `prop` is the address of the property's payload. The result is ignored by `dtb_scan` and left
  -- out.
  unfoldable pub handle_virito_node : (propname : List ℕ) → (prop len : ℕ) → DtbMatch → DtbMatch
  unfolding be64 device_id
  handle_virito_node propname prop len m =
      if (strcmp propname reg_text == 0) && leb 16 len
      then record m {
        reg_base = be64 prop;
        reg_size = be64 (prop + 8);
        found = if device_id (be64 prop) == 2 then 1 else 0;
      }
      else if not (m.found == 0) && (strcmp propname interrupts_text == 0) && leb 4 len
      then record m { irq = be32 mem prop }
      else m

  unfoldable pub find_virtio_blk : (dtb hdr fuel names : ℕ) → Outcome (Bool × DtbMatch)
  unfolding handle_virito_node
  find_virtio_blk dtb hdr fuel names =
      dtb_scan dtb mem hdr fuel names virtio_mmio handle_virito_node no_match

  unfoldable pub init_disk : (dtb hdr fuel names : ℕ) → Disk → Outcome Disk
  unfolding find_virtio_blk
  init_disk dtb hdr fuel names d = do
    r ← find_virtio_blk dtb hdr fuel names
    let found : Disk = record {
      disk_device_address = r.1.reg_base;
      disk_device_size = r.1.reg_size;
      disk_device_interrupt = r.1.irq;
    }
    done (if r.0 then found else d)

pub get_disk_address : Disk → ℕ
get_disk_address d = d.disk_device_address

pub get_disk_size : Disk → ℕ
get_disk_size d = d.disk_device_size
