-- ===== src/Ram.antt =====
-- The part of kernel/ram_e.c on blocks of memory and on the size of the memory, and kernel/dtb.c,
-- which reads it from the device tree. Memory is a function from addresses to bytes; the device
-- tree lies at `dtb`, and its numbers have their highest byte first.
use craybond_os.Base.{
  ℕ, zero, suc, ◌+◌, ◌-◌, ◌*◌, ◌/◌, ◌^◌, Bool, true, false, not, ltb, leb, ◌==◌, ◌&&◌,
  if◌then◌else◌, List, [], ◌∷◌, Option, none, some, u8, u32, add64, sub32, sub64, bit_and, bit_or,
}
use craybond_os.Outcome.{Outcome, done, out_of_fuel, ◌>>=◌}
use craybond_os.Kstring.{strcmp, strcont}
pub mod Size
pub mod Scan
pub mod Compare
mod Tests

-- The rounds left, and the address of the next byte.
pub memset_loop : ℕ → ℕ → ℕ → (ℕ → ℕ) → ℕ → ℕ
memset_loop zero ptr val mem = mem
memset_loop (suc count) ptr val mem =
    memset_loop count (ptr + 1) val (λ a. if a == ptr then u8 val else mem a)

pub memset : (dest val count : ℕ) → (ℕ → ℕ) → ℕ → ℕ
unfolding memset_loop
memset dest val count mem = memset_loop count dest val mem

-- An `int`, by its bits.
pub memcmp : ℕ → (a b : ℕ) → (ℕ → ℕ) → ℕ
memcmp zero a b mem = 0
memcmp (suc n) a b mem =
    let rest = memcmp n (a + 1) (b + 1) mem in
    if not (mem a == mem b) then sub32 (mem a) (mem b) else rest

-- A number of 32 bits in the device tree.
unfoldable pub be32 : (ℕ → ℕ) → ℕ → ℕ
be32 mem p = mem p * 2 ^ 24 + mem (p + 1) * 2 ^ 16 + mem (p + 2) * 2 ^ 8 + mem (p + 3)

-- `dtb_match_t`, less the field `compatible`, which nothing sets.
pub record DtbMatch : Type 0 where
  pub reg_base : ℕ
  pub reg_size : ℕ
  pub irq : ℕ
  pub found : ℕ

abbrev pub no_match : DtbMatch
no_match = record { reg_base = 0; reg_size = 0; irq = 0; found = 0 }

-- The bytes of the text at `p`, up to its terminator, of at most as many bytes as the fuel says.
unfoldable pub text_at : ℕ → (ℕ → ℕ) → ℕ → List ℕ
text_at zero mem p = []
text_at (suc fuel) mem p =
    let rest = text_at fuel mem (p + 1) in if mem p == 0 then [] else mem p ∷ rest

name_length : ℕ → (ℕ → ℕ) → ℕ → ℕ → ℕ
name_length zero mem p skip = skip
name_length (suc fuel) mem p skip =
    let rest = name_length fuel mem p (skip + 1) in if mem (p + skip) == 0 then skip else rest

module _ (dtb : ℕ) (mem : ℕ → ℕ) where
  -- `hdr` is the variable of that name, 0 at the start. The second part of a result is its new
  -- value.
  unfoldable pub dtb_get_header : (hdr : ℕ) → Bool × ℕ
  unfolding be32
  dtb_get_header hdr = let set = if hdr == 0 then dtb else hdr in (be32 mem set == 0xD00DFEED, set)

  -- The start and the size. On success the function ends without a `return`.
  unfoldable pub dtb_addresses : (hdr : ℕ) → Option (ℕ × ℕ) × ℕ
  unfolding be32 dtb_get_header
  dtb_addresses hdr =
      let (valid, set) = dtb_get_header hdr in
      (if valid then some (dtb, be32 mem (set + 4)) else none, set)

  abbrev after_name : ℕ → ℕ → ℕ
  after_name fuel p = p + bit_and (name_length fuel mem p 0 + 4) 0xFFFFFFFC / 4 * 4

  -- The loop of `dtb_scan`, from the token at `p`. The names have at most `names` bytes. `handler`
  -- gets the property's name, the address of its payload and the length.
  unfoldable pub scan_loop :
      ℕ
      → (names strings : ℕ) → List ℕ
      → (List ℕ → ℕ → ℕ → DtbMatch → DtbMatch)
      → (p : ℕ) → (active : Bool) → DtbMatch
      → Outcome (Bool × DtbMatch)
  unfolding be32 name_length text_at
  scan_loop zero names strings search handler p active m = out_of_fuel
  scan_loop (suc fuel) names strings search handler p active m =
      let token = be32 mem p in
      let q = p + 4 in
      let len = be32 mem q in
      let propname = text_at names mem (strings + be32 mem (q + 4)) in
      let prop = q + 8 in
      let begin_node =
        scan_loop fuel names strings search handler (after_name names q)
          (strcont (text_at names mem q) search) m in
      let after_prop =
        scan_loop fuel names strings search handler (prop + u32 (len + 3) / 4 * 4) active
          (handler propname prop len m) in
      let end_node = scan_loop fuel names strings search handler q false no_match in
      let other = scan_loop fuel names strings search handler q active m in
      if token == 9
      then done (false, m)
      else if token == 1
      then begin_node
      else if token == 3 && active
      then after_prop
      else if token == 2
      then if active && not (m.found == 0) then done (true, m) else end_node
      else other

  -- The offsets of the two blocks are read through `hdr`, which nothing here sets.
  unfoldable pub dtb_scan :
      (hdr fuel names : ℕ)
      → List ℕ
      → (List ℕ → ℕ → ℕ → DtbMatch → DtbMatch)
      → DtbMatch
      → Outcome (Bool × DtbMatch)
  unfolding scan_loop be32
  dtb_scan hdr fuel names search handler m =
      scan_loop fuel names (dtb + be32 mem (hdr + 12)) search handler (dtb + be32 mem (hdr + 8))
        false m

  -- The comma in the second test drops the result of the first `strcmp`.
  pub handle_mem_node : ℕ → (propname : List ℕ) → (prop len : ℕ) → DtbMatch → DtbMatch
  unfolding be32 text_at
  handle_mem_node names propname prop len m =
      if (strcmp propname (b'r' ∷ b'e' ∷ b'g' ∷ []) == 0) && leb 16 len
      then record m {
        reg_base = bit_or (be32 mem prop * 2 ^ 32) (be32 mem (prop + 4));
        reg_size = bit_or (be32 mem (prop + 8) * 2 ^ 32) (be32 mem (prop + 12));
      }
      else if strcmp (text_at names mem prop) (b'm' ∷ b'e' ∷ b'm' ∷ b'o' ∷ b'r' ∷ b'y' ∷ []) == 0
      then record m { found = 1 }
      else m

  -- The base and the size, or nothing.
  pub get_memory_region : (hdr fuel names : ℕ) → Outcome (Option (ℕ × ℕ))
  unfolding dtb_scan handle_mem_node
  get_memory_region hdr fuel names =
      dtb_scan hdr fuel names (b'm' ∷ b'e' ∷ b'm' ∷ b'o' ∷ b'r' ∷ b'y' ∷ []) (handle_mem_node names)
        no_match
      >>= λ (found, m). done (if found then some (m.reg_base, m.reg_size) else none)

-- The variables of ram_e.c that `calc_ram` sets.
pub record Ram : Type 0 where
  pub total_ram_start : ℕ
  pub total_ram_size : ℕ
  pub calculated_ram_start : ℕ
  pub calculated_ram_end : ℕ
  pub calculated_ram_size : ℕ

-- What `calc_ram` makes of the region that it has been told.
pub set_ram : (kfull_end : ℕ) → Option (ℕ × ℕ) → Ram → Ram
set_ram kfull_end none r = r
set_ram kfull_end (some (base, size)) r =
    let start = bit_and (add64 kfull_end 1) (2 ^ 64 - 2 ^ 21) in
    let limit = bit_and (add64 base size) (2 ^ 64 - 2 ^ 21) in
    record {
      total_ram_start = base;
      total_ram_size = size;
      calculated_ram_start = start;
      calculated_ram_end = limit;
      calculated_ram_size = sub64 limit start;
    }

module _ (dtb : ℕ) (mem : ℕ → ℕ) (hdr fuel names kfull_end : ℕ) where
  pub calc_ram : Ram → Outcome Ram
  unfolding get_memory_region
  calc_ram r =
      get_memory_region dtb mem hdr fuel names >>= λ found. done (set_ram kfull_end found r)

  -- `calcvar`: the value is worked out when it is first asked for.
  calcvar : (Ram → ℕ) → Ram → Outcome (ℕ × Ram)
  calcvar var r = if var r == 0 then (calc_ram r >>= λ r1. done (var r1, r1)) else done (var r, r)

  pub get_total_ram : Ram → Outcome (ℕ × Ram)
  unfolding calcvar
  get_total_ram r = calcvar (λ s. s.total_ram_size) r

  pub get_total_user_ram : Ram → Outcome (ℕ × Ram)
  unfolding calcvar
  get_total_user_ram r = calcvar (λ s. s.calculated_ram_size) r

  pub get_user_ram_start : Ram → Outcome (ℕ × Ram)
  unfolding calcvar
  get_user_ram_start r = calcvar (λ s. s.calculated_ram_start) r

  pub get_user_ram_end : Ram → Outcome (ℕ × Ram)
  unfolding calcvar
  get_user_ram_end r = calcvar (λ s. s.calculated_ram_end) r
