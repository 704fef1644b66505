-- ===== src/Fw/Tests.antt =====
-- A run of kernel/fw/fw_cfg.c with a device that holds two files.
use craybond_os.Base.{
  zero, suc, ℕ, ◌+◌, ◌-◌, ◌*◌, ◌/◌, ◌%◌, ◌^◌, ◌<◌, ◌≡◌, refl, inl, inr, arith, true, false, ◌==◌,
  ◌&&◌, ltb, leb, if◌then◌else◌, List, [], ◌∷◌, get_or, ==_ne,
}
use craybond_os.Kstring.{Kstring}
use craybond_os.Mem.{Memory, read8, read16, read32, read64}
use craybond_os.Mem.Laws.{NoOverlap}
use craybond_os.Ram.{be32}
use craybond_os.Fw.{Fw, fw_cfg_dma, fw_cfg_check, fw_find_file}
use craybond_os.Fw.Transfer.{be64, Asked, Served, IsFwCfg}
use craybond_os.Alloc.{Heap}
use craybond_os.Outcome.{Ensures}
use craybond_os.Screen.{Rfb}
use craybond_os.Kstring.{strcmp}
use craybond_os.Ram.{text_at}
use craybond_os.Fw.Ramfb.{ramfb_name, CanInit, IsSetup, find_and_init, find_and_init-wrong_file}
use craybond_os.Fw.Search.{matches, Found, fw_find_file-Found}

-- Two entries, "boot" and "ram", with a count before them, in words whose highest byte comes first.
abbrev directory_words : List ℕ
directory_words =
    2 ∷ 16 ∷ 0x00200000 ∷ 0x626F6F74 ∷ 0 ∷ 0 ∷ 0 ∷ 0 ∷ 0 ∷ 0 ∷ 0 ∷ 0 ∷ 0 ∷ 0 ∷ 0 ∷ 0 ∷ 0 ∷ 28
    ∷ 0x00210000 ∷ 0x72616D00 ∷ []

abbrev item : (key offset : ℕ) → ℕ
item key p =
    if key == 0x19 then get_or directory_words (p / 4) 0 / 2 ^ (8 * (3 - p % 4)) % 2 ^ 8 else 0

item_byte : (key offset : ℕ) → item key offset < 2 ^ 8
item_byte key offset = ground arith

answer : (file : ℕ → ℕ) (from a dest size : ℕ) → Memory → Memory
answer file from a dest size m p =
    if leb a p && ltb p (a + 4)
    then 0
    else if leb dest p && ltb p (dest + size)
    then file (from + (p - dest))
    else m p

answer_content :
    (file : ℕ → ℕ) (from a dest size i : ℕ) (m : Memory)
    → NoOverlap dest size a 16
    → i < size
    → answer file from a dest size m (dest + i) ≡ file (from + i)
unfolding answer
answer_content file from a dest size i m h l =
    let place : dest + i - dest ≡ i = omega arith in rw place (ground arith)

answer-Served :
    (key from a dest size : ℕ) (m : Memory)
    → NoOverlap dest size a 16
    → Served {D = ℕ × ℕ}
        (item key)
        (λ d. d)
        a
        dest
        size
        key
        from
        m
        ((key, from + size), answer (item key) from a dest size m)
unfolding answer read32 read16 read8
answer-Served key from a dest size m h = record {
  moved = refl;
  content = λ i l. answer_content (item key) from a dest size i m h l;
  finished = ground arith;
  others = λ b k l. ground arith;
}

-- One turn of the device, which keeps the file and the place.
serve : (a ctrl size dest : ℕ) → ℕ × ℕ → Memory → (ℕ × ℕ) × Memory
unfolding answer
serve a ctrl size dest d m =
    let again : (ℕ × ℕ) × Memory = ((d.0, d.1 + size), answer (item d.0) d.1 a dest size m) in
    let key = ctrl / 2 ^ 16 in
    let selected : (ℕ × ℕ) × Memory = ((key, 0 + size), answer (item key) 0 a dest size m) in
    if ctrl == 2 then again else if ctrl % 2 ^ 16 == 10 then selected else (d, m)

react : ℕ × ℕ → Memory → (ℕ × ℕ) × Memory
unfolding serve be32
react d m = let a = be64 m fw_cfg_dma in serve a (be32 m a) (be32 m (a + 4)) (be64 m (a + 8)) d m

react-serve :
    (d : ℕ × ℕ) (m : Memory) (a dest size ctrl : ℕ)
    → Asked a dest size ctrl m
    → react d m ≡ serve a ctrl size dest d m
unfolding react
react-serve d m a dest size ctrl k = rw (k.place, k.control, k.length, k.address) refl

low_half : (key : ℕ) → ((key * 2 ^ 16 + 10) % 2 ^ 16 == 10) ≡ true
low_half key = ground arith

high_half : (key : ℕ) → (key * 2 ^ 16 + 10) / 2 ^ 16 ≡ key
high_half key = omega arith

device : IsFwCfg react
unfolding serve
device = record {
  item = item;
  byte = item_byte;
  position = λ d. d;
  select = λ d m a dest size key k h. rw (react-serve d m a dest size (key * 2 ^ 16 + 10) k) (
      rw (==_ne (key * 2 ^ 16 + 10) 2 (λ e. omega arith), low_half key, high_half key)
        (answer-Served key 0 a dest size m h));
  resume = λ d m a dest size k h.
      rw (react-serve d m a dest size 2 k) (answer-Served d.0 d.1 a dest size m h);
}

-- The signature of the device lies in its register, the structure at 0x8000, and the entry at
-- 0x9000.
abbrev start : Memory
start p = if leb 0x09020000 p then get_or (0x51 ∷ 0x45 ∷ 0x4D ∷ 0x55 ∷ []) (p - 0x09020000) 0 else 0

abbrev machine : Fw (ℕ × ℕ)
machine = record { device = (0, 0); mem = start; checked = false }

abbrev ram_name : Kstring
ram_name = record { text = b'r' ∷ b'a' ∷ b'm' ∷ []; len = 3 }

present : (fw_cfg_check machine).0 ≡ true
unfolding fw_cfg_check read64 read32 read16 read8
present = refl

fw_find_file-Found_example :
    Found
      (item 0x19)
      ram_name
      0x9000
      0
      (be32 (item 0x19) 0)
      (fw_find_file react 1 0x8000 0x8010 ram_name 0x9000 machine)
unfolding device
fw_find_file-Found_example =
    fw_find_file-Found device 0 0x8000 0x9000 (inl (omega arith)) (omega arith) (omega arith)
      (inr (omega arith)) ram_name 0x8010 machine (omega arith) (inr (omega arith)) present

no_match : (k : ℕ) → k < 2 → matches (item 0x19) ramfb_name k ≡ false
unfolding matches text_at strcmp
no_match zero l = refl
no_match (suc zero) l = refl
no_match (suc (suc k)) l = absurd (omega arith)

abbrev heap : Heap
heap = record {
  mem = λ p. 0;
  temp_free_list = 0;
  next_free_temp = 0x41000000;
  next_free_perm = 0x41600000;
}

abbrev blank : Rfb
blank = record { fb_ptr = 0; width = 0; height = 0; bpp = 0; stride = 0; fb = λ j. 0 }

can_init : CanInit 0x41000000 640 480 heap
can_init = record {
  layout = record { on_page = refl; not_null = omega arith; low = omega arith };
  inside = omega arith;
  narrow = omega arith;
  low = omega arith;
  small = omega arith;
}

find_and_init-wrong_file_example :
    Ensures
      (IsSetup 0x41000000 640 480 heap)
      (find_and_init react 1 0x8000 0x8010 0x9000 0x41000000 640 480 blank heap machine)
unfolding device be32
find_and_init-wrong_file_example =
    find_and_init-wrong_file device 0 0x8000 0x8010 0x9000 1 0x41000000 640 480 blank heap machine
      (inl (omega arith)) (omega arith) (omega arith) (omega arith) (inr (omega arith))
      (inr (omega arith)) present refl no_match (λ z. absurd (omega arith)) can_init
