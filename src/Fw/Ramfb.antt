-- ===== src/Fw/Ramfb.antt =====
-- `rfb_init` of kernel/graph/drivers/ramfb_driver/ramfb_driver.c together with the search for its
-- file in kernel/fw/fw_cfg.c.
use craybond_os.Base.{
  ℕ, suc, ◌+◌, ◌*◌, ◌^◌, ◌≤◌, ◌<◌, ◌≡◌, ◌≢◌, sym, ◌∙◌, inl, inr, arith, Bool, true, false, [], ◌∷◌,
  Option,
}
use craybond_os.Outcome.{Outcome, done, ◌>>=◌, Ensures, returns, Ensures-bind}
use craybond_os.Alloc.{Heap, heap_limit}
use craybond_os.Alloc.Temp.{IsLayout}
use craybond_os.Kstring.{Kstring}
use craybond_os.Mem.{Memory, read16}
use craybond_os.Mem.Laws.{NoOverlap}
use craybond_os.Ram.{be32}
use craybond_os.Screen.{Rfb}
use craybond_os.Screen.Driver.{FbStructure, rfb_init, Initialised, rfb_init-Initialised}
use craybond_os.Fw.{Fw, fw_list_directory, fw_cfg_check, fw_find_file}
use craybond_os.Fw.Transfer.{IsFwCfg, IsAccess}
use craybond_os.Fw.Search.{be16, matches, LastRead, Found, found, missing, fw_find_file-Found}

-- "etc/ramfb"
abbrev pub ramfb_name : Kstring
ramfb_name = record {
  text = b'e' ∷ b't' ∷ b'c' ∷ b'/' ∷ b'r' ∷ b'a' ∷ b'm' ∷ b'f' ∷ b'b' ∷ [];
  len = 9;
}

-- What `rfb_init` leaves: the driver's result with the description for the firmware, and the
-- firmware.
abbrev pub Setup : Type 0 → Type 0
Setup D = (Bool × Rfb × Heap × Option FbStructure) × Fw D

-- The result of the search is not looked at. The transfer of the description at the end is left
-- out. `file` is the address of the variable of that name.
unfoldable pub find_and_init :
    {D : Type 0} (react : D → Memory → D × Memory) (polls access local file hb w h : ℕ)
    → Rfb
    → Heap
    → Fw D
    → Outcome (Setup D)
find_and_init react polls access local file hb w h rfb heap s =
    fw_find_file react polls access local ramfb_name file s >>= λ t.
    (rfb_init hb (read16 (file + 4) t.1.mem) w h rfb heap >>= λ r. done (r, t.1))

-- The frame buffer is set up and described.
abbrev pub IsSetup : {D : Type 0} (hb w h : ℕ) → Heap → Setup D → Type 0
IsSetup hb w h heap r = Initialised hb w h heap r.0

-- The size of the screen is small enough for its frame buffer, and the heap is in order.
pub record CanInit (hb w h : ℕ) (heap : Heap) : Type 0 where
  pub layout : IsLayout hb
  pub inside : heap.next_free_perm ≤ heap_limit hb
  pub narrow : w < 2 ^ 30
  pub low : h < 2 ^ 32
  pub small : w * h * 4 < 2 ^ 32

module _ {D : Type 0} (dir : ℕ → ℕ) (file count hb w h : ℕ) (rfb : Rfb) (heap : Heap)
    (can : CanInit hb w h heap) where
  init_with :
      (selector : ℕ) (t : Fw D)
      → selector ≢ 0
      → Ensures (IsSetup hb w h heap) (rfb_init hb selector w h rfb heap >>= λ r. done (r, t))
  init_with selector t ne =
      Ensures-bind
        (rfb_init-Initialised hb selector w h rfb heap can.layout can.inside ne can.narrow can.low
          can.small)
        (λ r i. returns i)

  init_last :
      (o : Outcome (Bool × Fw D))
      → Found dir ramfb_name file 0 (suc count) o
      → ((k : ℕ) → k < suc count → matches dir ramfb_name k ≡ false)
      → be16 dir (4 + 64 * count + 4) ≢ 0
      → Ensures
          (IsSetup hb w h heap)
          (o >>= λ t. (rfb_init hb (read16 (file + 4) t.1.mem) w h rfb heap >>= λ r. done (r, t.1)))
  unfolding LastRead
  init_last _ (found k low less hit before e) none ne = absurd (cc (hit, none k (omega arith)))
  init_last _ (missing {t} all (inl z)) none ne = absurd (omega arith)
  init_last _ (missing {t} all (inr (k, e, entry))) none ne =
      let same : k ≡ count = omega arith in
      init_with (read16 (file + 4) t.mem) t (λ z. ne (rw (sym same) (sym entry.selector ∙ z)))

-- If the directory has entries, but none with the name "etc/ramfb", and the selector of its last
-- entry is not 0, `rfb_init` does not fail: unless it panics, it sets the frame buffer up and makes
-- the description for the firmware.
pub find_and_init-wrong_file :
    {D : Type 0} {react : D → Memory → D × Memory} (dev : IsFwCfg react)
    (polls a local file count hb w h : ℕ) (rfb : Rfb) (heap : Heap) (s : Fw D)
    → IsAccess a
    → a < 2 ^ 64
    → file < 2 ^ 64
    → local < 2 ^ 64
    → NoOverlap file 64 a 16
    → NoOverlap local 4 a 16
    → (fw_cfg_check s).0 ≡ true
    → let dir = dev.item fw_list_directory in
      be32 dir 0 ≡ suc count
      → ((k : ℕ) → k < suc count → matches dir ramfb_name k ≡ false)
      → be16 dir (4 + 64 * count + 4) ≢ 0
      → CanInit hb w h heap
      → Ensures
          (IsSetup hb w h heap)
          (find_and_init react (suc polls) a local file hb w h rfb heap s)
unfolding find_and_init
find_and_init-wrong_file dev polls a local file count hb w h rfb heap s access ha hf hl apart free
      present size none ne can =
    let dir = dev.item fw_list_directory in
    let f =
      fw_find_file-Found dev polls a file access ha hf apart ramfb_name local s hl free present in
    init_last dir file count hb w h rfb heap can _ (rw size at f) none ne
