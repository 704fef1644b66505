-- ===== src/Pci/Search.antt =====
-- The search of kernel/pci.c for a device, over the functions of all buses in the order of their
-- addresses.
use craybond_os.Base.{
  ℕ, zero, suc, ◌+◌, ◌*◌, ◌^◌, ◌≤◌, ◌<◌, ◌≡◌, refl, inl, inr, arith, Bool, true, false, ◌&&◌, ◌==◌,
  if◌then◌else◌, Option, none, some, Bool-cases, ◌∙◌, shr, bit_and_mask,
}
use craybond_os.Mem.{Memory, read16, read, read64}
use craybond_os.Pci.{
  Pci, init_pci, pci_make_addr, is_device, scan_funcs, scan_slots, scan_buses, address_or_null,
  find_pci_device, or_else,
}
use craybond_os.Pci.Address.{IsBase, pci_make_addr-sum}

-- What is found of the `n` functions from number `from` on, of which `m` tells whether they match.
pub data Scanned (m : ℕ → Bool) (base from n : ℕ) : Option ℕ → Type 0 where
  nothing : ((j : ℕ) → from ≤ j → j < from + n → m j ≡ false) → Scanned m base from n none
  found :
      (i : ℕ) {a : ℕ}
      → from ≤ i
      → i < from + n
      → m i ≡ true
      → ((j : ℕ) → from ≤ j → j < i → m j ≡ false)
      → a ≡ base + i * 2 ^ 12
      → Scanned m base from n (some a)

split_range :
    (m : ℕ → Bool) (from k to : ℕ)
    → ((j : ℕ) → from ≤ j → j < from + k → m j ≡ false)
    → ((j : ℕ) → from + k ≤ j → j < to → m j ≡ false)
    → (j : ℕ) → from ≤ j
    → j < to
    → m j ≡ false
split_range m from k to low high j h l = ground (arith, low j, high j)

Scanned-or_else :
    {m : ℕ → Bool} {base from k n : ℕ} {o p : Option ℕ}
    → Scanned m base from k o
    → Scanned m base (from + k) n p
    → Scanned m base from (k + n) (or_else o p)
Scanned-or_else (found i h l t low e) q = found i h (omega arith) t low e
Scanned-or_else {m} {base} {from} {k} {n} (nothing low) (nothing high) =
    nothing
      (λ j h l. split_range m from k (from + (k + n)) low (λ j h l. high j h (omega arith)) j h l)
Scanned-or_else {m} {base} {from} {k} {n} (nothing low) (found i h l t high e) =
    found i (omega arith) (omega arith) t (split_range m from k i low high) e

Scanned-cast :
    {m : ℕ → Bool} {base from from' n n' : ℕ} {o : Option ℕ}
    → from ≡ from'
    → n ≡ n'
    → Scanned m base from n o
    → Scanned m base from' n' o
Scanned-cast e f (nothing low) = nothing (λ j h l. low j (omega arith) (omega arith))
Scanned-cast e f (found i h l t low a) =
    found i (omega arith) (omega arith) t (λ j h l. low j (omega arith) l) a

Scanned-later :
    {m : ℕ → Bool} {base from n : ℕ} {o : Option ℕ}
    → m from ≡ false
    → Scanned m base (from + 1) n o
    → Scanned m base from (suc n) o
Scanned-later {m} {base} {from} f rest = Scanned-cast refl (omega arith) (
    Scanned-or_else {from = from} {k = 1} {o = none}
      (nothing (λ j h l. let e : j ≡ from = omega arith in rw e f)) rest)

-- `i` is the number of a function, counted over all slots and buses.
pub matches : Pci → Memory → (vendor_id device_id : ℕ) → ℕ → Bool
matches s mem vendor_id device_id i =
    let address = s.pci_base + i * 2 ^ 12 in
    read16 address mem == vendor_id && read16 (address + 2) mem == device_id

module _ (s : Pci) (mem : Memory) (vendor_id device_id : ℕ) (bytes : (a : ℕ) → mem a < 256)
    (b : IsBase s) where
  -- The identifiers of a function are two numbers of 16 bits.
  is_device-matches :
      (i : ℕ)
      → is_device s mem vendor_id device_id (s.pci_base + i * 2 ^ 12)
        ≡ matches s mem vendor_id device_id i
  unfolding is_device matches read read64 read16
  is_device-matches i =
      let a = s.pci_base + i * 2 ^ 12 in
      let low = bit_and_mask 16 (read a mem) in
      let high = bit_and_mask 16 (shr (read a mem) 16) in
      rw (low, high) (ground (arith, bytes a, bytes (a + 1), bytes (a + 2), bytes (a + 3)))

  address_of :
      (bus slot func : ℕ)
      → bus < 256
      → slot < 32
      → func < 8
      → pci_make_addr s bus slot func 0 ≡ s.pci_base + ((bus * 32 + slot) * 8 + func) * 2 ^ 12
  address_of bus slot func hb hs hf = pci_make_addr-sum s bus slot func 0 b hb hs hf ∙ omega arith

  abbrev Scan : (from n : ℕ) → Option ℕ → Type 0
  Scan from n o = Scanned (matches s mem vendor_id device_id) s.pci_base from n o

  scan_funcs-Scanned :
      (n bus slot func : ℕ)
      → bus < 256
      → slot < 32
      → func + n ≤ 8
      → Scan ((bus * 32 + slot) * 8 + func) n (scan_funcs s mem vendor_id device_id n bus slot func)
  unfolding scan_funcs
  scan_funcs-Scanned zero bus slot func hb hs hf = nothing (λ j h l. absurd (omega arith))
  scan_funcs-Scanned (suc n) bus slot func hb hs hf =
      let i = (bus * 32 + slot) * 8 + func in
      let address = address_of bus slot func hb hs (omega arith) in
      let rest = scan_funcs-Scanned n bus slot (func + 1) hb hs (omega arith) in
      elim (Bool-cases (matches s mem vendor_id device_id i)) [
        | inl t ↦
            rw (address, is_device-matches i, t)
              (found i (omega arith) (omega arith) t (λ j h l. absurd (omega arith)) refl)
        | inr f ↦
            rw (address, is_device-matches i, f)
              (Scanned-later f (Scanned-cast (omega arith) refl rest))
      ]

  scan_slots-Scanned :
      (n bus slot : ℕ)
      → bus < 256
      → slot + n ≤ 32
      → Scan ((bus * 32 + slot) * 8) (n * 8) (scan_slots s mem vendor_id device_id n bus slot)
  unfolding scan_slots
  scan_slots-Scanned zero bus slot hb hs = nothing (λ j h l. absurd (omega arith))
  scan_slots-Scanned (suc n) bus slot hb hs = Scanned-cast refl (omega arith) (
      Scanned-or_else
        (Scanned-cast (omega arith) refl
          (scan_funcs-Scanned 8 bus slot 0 hb (omega arith) (omega arith)))
        (Scanned-cast (omega arith) refl (scan_slots-Scanned n bus (slot + 1) hb (omega arith))))

  scan_buses-Scanned :
      (n bus : ℕ)
      → bus + n ≤ 256
      → Scan (bus * 256) (n * 256) (scan_buses s mem vendor_id device_id n bus)
  unfolding scan_buses
  scan_buses-Scanned zero bus hb = nothing (λ j h l. absurd (omega arith))
  scan_buses-Scanned (suc n) bus hb = Scanned-cast refl (omega arith) (
      Scanned-or_else
        (Scanned-cast (omega arith) refl (scan_slots-Scanned 32 bus 0 (omega arith) (omega arith)))
        (Scanned-cast (omega arith) refl (scan_buses-Scanned n (bus + 1) (omega arith))))

-- What the search comes to: the address of the first function that matches, or 0 if none does.
pub data IsFirst (m : ℕ → Bool) (base : ℕ) : ℕ → Type 0 where
  no_device : {a : ℕ} → a ≡ 0 → ((i : ℕ) → i < 2 ^ 16 → m i ≡ false) → IsFirst m base a
  device :
      (i : ℕ) {a : ℕ}
      → i < 2 ^ 16
      → m i ≡ true
      → ((j : ℕ) → j < i → m j ≡ false)
      → a ≡ base + i * 2 ^ 12
      → IsFirst m base a

scan-IsFirst :
    {m : ℕ → Bool} {base : ℕ} {o : Option ℕ}
    → Scanned m base 0 (2 ^ 16) o
    → IsFirst m base (address_or_null o)
unfolding address_or_null
scan-IsFirst (nothing low) = no_device refl (λ i h. low i (omega arith) (omega arith))
scan-IsFirst (found i h l t low e) = device i (omega arith) t (λ j g. low j (omega arith) g) e

init_pci_base :
    (s : Pci) → (init_pci s).pci_base ≡ (if s.pci_base == 0 then 0x4010000000 else s.pci_base)
unfolding init_pci
init_pci_base s = elim (Bool-cases (s.pci_base == 0)) [ inl e ↦ rw e refl | inr e ↦ rw e refl ]

-- On a memory of bytes, `find_pci_device` looks at the 65536 functions of the configuration space
-- in the order of their addresses, 4 KB apart, and returns the address of the first whose vendor
-- and device, two numbers of 16 bits, are those asked for; it returns 0 if there is none. The base
-- of the space is 0x4010000000 if it was 0 before, and stays otherwise.
pub find_pci_device-IsFirst :
    (vendor_id device_id : ℕ) (mem : Memory) (s : Pci)
    → ((a : ℕ) → mem a < 256)
    → IsBase (init_pci s)
    → let r = find_pci_device vendor_id device_id mem s in
      (r.0.pci_base ≡ (if s.pci_base == 0 then 0x4010000000 else s.pci_base))
      × IsFirst (matches r.0 mem vendor_id device_id) r.0.pci_base r.1
unfolding find_pci_device
find_pci_device-IsFirst vendor_id device_id mem s bytes b = (
  init_pci_base s,
  scan-IsFirst (
      Scanned-cast (omega arith) (omega arith)
        (scan_buses-Scanned (init_pci s) mem vendor_id device_id bytes b 256 0 (omega arith))),
)
