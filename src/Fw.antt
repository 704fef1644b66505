-- ===== src/Fw.antt =====
-- kernel/fw/fw_cfg.c: the files of the firmware, over a memory of bytes and any device. `react` is
-- one turn of the device, which it has with each look of the driver at its answer; `polls` is how
-- many looks the model takes. `access` and `local` are the addresses of the structure of a transfer
-- and of the variable `count`, on the stack.
use craybond_os.Base.{
  ℕ, zero, suc, ◌+◌, ◌*◌, ◌/◌, ◌%◌, ◌^◌, ◌==◌, Bool, true, false, if◌then◌else◌, u32, bit_and,
  bit_or,
}
use craybond_os.Outcome.{Outcome, done, out_of_fuel, ◌>>=◌}
use craybond_os.Kstring.{Kstring, string_ca_max, string_equals}
use craybond_os.Mem.{Memory, read16, read32, read64, write16, write32, write64}
use craybond_os.Ram.{text_at}
use craybond_os.Screen.Driver.{bswap32, bswap64}
pub mod Transfer
pub mod Search
pub mod Ramfb
mod Tests

abbrev pub fw_cfg_data : ℕ
fw_cfg_data = 0x09020000

abbrev pub fw_cfg_dma : ℕ
fw_cfg_dma = 0x09020010

abbrev pub fw_list_directory : ℕ
fw_list_directory = 0x19

-- `__builtin_bswap16`
abbrev pub bswap16 : ℕ → ℕ
bswap16 n = n % 2 ^ 8 * 2 ^ 8 + n / 2 ^ 8 % 2 ^ 8

pub record Fw (D : Type 0) : Type 0 where
  pub device : D
  pub mem : Memory
  pub checked : Bool

-- The structure of a transfer, and the register that starts it.
unfoldable pub ask : (access dest size ctrl : ℕ) → Memory → Memory
ask access dest size ctrl mem =
    let filled =
      write64 (access + 8) (bswap64 dest)
        (write32 (access + 4) (bswap32 size) (write32 access (bswap32 ctrl) mem)) in
    write64 fw_cfg_dma (bswap64 access) filled

unfoldable pub fw_cfg_check : {D : Type 0} → Fw D → Bool × Fw D
fw_cfg_check s =
    let now = read64 fw_cfg_data s.mem == 0x554D4551 in
    if s.checked then (true, s) else (now, record s { checked = now })

-- `size` and `selector` of the entry at `file`, turned into the order of the processor.
unfoldable pub swap_entry : (file : ℕ) → Memory → Memory
swap_entry file mem =
    let sized = write32 file (bswap32 (read32 file mem)) mem in
    write16 (file + 4) (bswap16 (read16 (file + 4) sized)) sized

-- The 56 bytes of a name hold its terminator.
unfoldable pub entry_name : (file : ℕ) → Memory → Kstring
entry_name file mem = string_ca_max (text_at 56 mem (file + 8)) 56

-- No bit but that of an error is left.
unfoldable pub is_finished : (access : ℕ) → Memory → Bool
is_finished access mem = bit_and (bswap32 (read32 access mem)) 0xFFFFFFFE == 0

module _ {D : Type 0} (react : D → Memory → D × Memory) where
  unfoldable pub turn : Fw D → Fw D
  turn s = let (d, m) = react s.device s.mem in record s { device = d; mem = m }

  unfoldable pub wait_finished : (access polls : ℕ) → Fw D → Outcome (Fw D)
  unfolding turn is_finished
  wait_finished access zero s = out_of_fuel
  wait_finished access (suc n) s =
      let rest = wait_finished access n (turn s) in
      if is_finished access (turn s).mem then done (turn s) else rest

module _ {D : Type 0} (react : D → Memory → D × Memory) (polls access : ℕ) where
  unfoldable pub fw_cfg_dma_operation : (dest size ctrl : ℕ) → Fw D → Outcome (Fw D)
  unfolding ask wait_finished
  fw_cfg_dma_operation dest size ctrl s =
      wait_finished react access polls (record s { mem = ask access dest size ctrl s.mem })

  unfoldable pub fw_cfg_dma_read : (dest size ctrl : ℕ) → Fw D → Outcome (Fw D)
  unfolding fw_cfg_dma_operation fw_cfg_check
  fw_cfg_dma_read dest size ctrl s =
      let (present, t) = fw_cfg_check s in
      if present
      then fw_cfg_dma_operation dest size (bit_or (bit_or (u32 (ctrl * 2 ^ 16)) 8) 2) t
      else done t

  unfoldable pub fw_cfg_dma_write : (dest size ctrl : ℕ) → Fw D → Outcome (Fw D)
  unfolding fw_cfg_dma_operation fw_cfg_check
  fw_cfg_dma_write dest size ctrl s =
      let (present, t) = fw_cfg_check s in
      if present
      then fw_cfg_dma_operation dest size (bit_or (bit_or (u32 (ctrl * 2 ^ 16)) 8) 16) t
      else done t

  -- The rounds left.
  unfoldable pub find_loop : ℕ → Kstring → (file : ℕ) → Fw D → Outcome (Bool × Fw D)
  unfolding fw_cfg_dma_operation swap_entry entry_name
  find_loop zero search file s = done (false, s)
  find_loop (suc n) search file s = fw_cfg_dma_operation file 64 2 s >>= λ t.
      let u : Fw D = record t { mem = swap_entry file t.mem } in
      let rest = find_loop n search file u in
      if string_equals (entry_name file u.mem) search then done (true, u) else rest

  unfoldable pub fw_find_file : (local : ℕ) → Kstring → (file : ℕ) → Fw D → Outcome (Bool × Fw D)
  unfolding fw_cfg_check fw_cfg_dma_read find_loop
  fw_find_file local search file s =
      let (present, t) = fw_cfg_check s in
      if present
      then (fw_cfg_dma_read local 4 fw_list_directory t >>= λ u.
          find_loop (bswap32 (read32 local u.mem)) search file u)
      else done (false, t)
