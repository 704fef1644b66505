-- ===== src/Screen/Glyph.antt =====
-- `rfb_draw_char` of kernel/graph/drivers/ramfb_driver/ramfb_driver.c.
use craybond_os.Base.{
  ℕ, zero, suc, ◌+◌, ◌-◌, ◌*◌, ◌/◌, ◌^◌, ◌≤◌, ◌<◌, ◌≡◌, refl, Bool, true, false, ◌==◌, not, ◌&&◌,
  ◌||◌, if◌then◌else◌, arith, u8, u32, add32, bit_and, subst, Bool-cases, inl, inr, eq_or_ne,
}
use craybond_os.Screen.{Rfb, rfb_draw_pixel, glyph_row, glyph_rows, rfb_draw_char}
use craybond_os.Screen.Pixel.{
  IsScreen, Painted, Painted-none, Painted-then, Painted-IsScreen, only, rfb_draw_pixel-Painted,
}
use craybond_os.Screen.Rect.{between}

-- Whether the bit for the column `col` of a row is set.
abbrev pub is_set : ℕ → ℕ → ℕ → Bool
is_set bits scale col = not (bit_and bits (2 ^ (7 - col / scale)) == 0)

row_union :
    (f : ℕ → Bool) (x col n y px py : ℕ)
    → (only (x + col) y px py && f col
        || (between (x + (col + 1)) (x + (col + 1) + n) px && y == py) && f (px - x))
      ≡ ((between (x + col) (x + col + suc n) px && y == py) && f (px - x))
row_union f x col n y px py = elim (eq_or_ne (x + col) px) [
  | inl e ↦
      let d : px - x ≡ col = omega arith in
      rw d (elim (Bool-cases (f col)) [ inl t ↦ rw t (ground arith) | inr t ↦ rw t (ground arith) ])
  | inr ne ↦ elim (Bool-cases (f (px - x))) [
    | inl t ↦ rw t (ground arith)
    | inr t ↦ rw t (ground arith)
  ]
]

one_column :
    (x y color : ℕ) (s : Rfb) (b : Bool)
    → IsScreen s
    → Painted s
        (λ px py. only x y px py && not b)
        color
        (if b then s else rfb_draw_pixel x y color s)
one_column x y color s true i =
    Painted-none s (λ px py. only x y px py && false) color (λ px py a c. ground arith)
one_column x y color s false i =
    Painted-then (λ px py. false) (only x y) (λ px py. only x y px py && true) color
      (Painted-none s (λ px py. false) color (λ px py a c. refl))
      (rfb_draw_pixel-Painted x y color s i) (λ px py a c. ground arith)

module _ (font : ℕ → ℕ → ℕ) where
  glyph_row-Painted :
      (n col x y bits scale color : ℕ) (s : Rfb)
      → IsScreen s
      → x + col + n ≤ 2 ^ 32
      → Painted s
          (λ px py. (between (x + col) (x + col + n) px && y == py) && is_set bits scale (px - x))
          color
          (glyph_row font n col x y bits scale color s)
  unfolding glyph_row
  glyph_row-Painted zero col x y bits scale color s i room =
      Painted-none s
        (λ px py. (between (x + col) (x + col + 0) px && y == py) && is_set bits scale (px - x))
        color
        (λ px py a b.
          (let e : (between (x + col) (x + col + 0) px && y == py) ≡ false = ground arith in
            rw e refl))
  glyph_row-Painted (suc n) col x y bits scale color s i room =
      let e : add32 x col ≡ x + col = omega arith in
      let b = bit_and bits (2 ^ (7 - col / scale)) == 0 in
      let d = one_column (x + col) y color s b i in
      let s1 = if b then s else rfb_draw_pixel (x + col) y color s in
      rw e (
        Painted-then (λ px py. only (x + col) y px py && not b)
          (λ px py.
            (between (x + (col + 1)) (x + (col + 1) + n) px && y == py)
            && is_set bits scale (px - x))
          (λ px py.
            (between (x + col) (x + col + suc n) px && y == py) && is_set bits scale (px - x))
          color d
          (glyph_row-Painted n (col + 1) x y bits scale color s1 (Painted-IsScreen d i)
            (omega arith))
          (λ px py a c. row_union (is_set bits scale) x col n y px py))

  -- Whether the glyph of `c`, drawn at `(x, y)`, covers a point.
  abbrev pub is_lit : (x y c scale : ℕ) → ℕ → ℕ → Bool
  is_lit x y c scale px py =
      (between x (x + 8 * scale) px && between y (y + 8 * scale) py)
      && is_set (font c ((py - y) / scale)) scale (px - x)

  rows_union :
      (f : ℕ → ℕ → Bool) (a b y row n px py : ℕ)
      → ((between a b px && y + row == py) && f row px
          || (between a b px && between (y + (row + 1)) (y + (row + 1) + n) py) && f (py - y) px)
        ≡ ((between a b px && between (y + row) (y + row + suc n) py) && f (py - y) px)
  rows_union f a b y row n px py = elim (eq_or_ne (y + row) py) [
    | inl e ↦
        let d : py - y ≡ row = omega arith in
        rw d (elim (Bool-cases (f row px)) [
          | inl t ↦ rw t (ground arith)
          | inr t ↦ rw t (ground arith)
        ])
    | inr ne ↦ elim (Bool-cases (f (py - y) px)) [
      | inl t ↦ rw t (elim (Bool-cases (f row px)) [
        | inl u ↦ rw u (ground arith)
        | inr u ↦ rw u (ground arith)
      ])
      | inr t ↦ rw t (elim (Bool-cases (f row px)) [
        | inl u ↦ rw u (ground arith)
        | inr u ↦ rw u (ground arith)
      ])
    ]
  ]

  glyph_rows-Painted :
      (n row x y c scale color : ℕ) (s : Rfb)
      → IsScreen s
      → x + 8 * scale ≤ 2 ^ 32
      → 8 * scale < 2 ^ 32
      → y + row + n ≤ 2 ^ 32
      → Painted s
          (λ px py.
            (between x (x + 8 * scale) px && between (y + row) (y + row + n) py)
            && is_set (font c ((py - y) / scale)) scale (px - x))
          color
          (glyph_rows font n row x y c scale color s)
  unfolding glyph_rows
  glyph_rows-Painted zero row x y c scale color s i room small tall =
      Painted-none s
        (λ px py.
          (between x (x + 8 * scale) px && between (y + row) (y + row + 0) py)
          && is_set (font c ((py - y) / scale)) scale (px - x))
        color
        (λ px py a b.
          (let e : (between x (x + 8 * scale) px && between (y + row) (y + row + 0) py) ≡ false =
              ground arith in
            rw e refl))
  glyph_rows-Painted (suc n) row x y c scale color s i room small tall =
      let e : add32 y row ≡ y + row = omega arith in
      let w : u32 (8 * scale) ≡ 8 * scale = omega arith in
      let z : x + 0 ≡ x = omega arith in
      let bits = font c (row / scale) in
      let s1 = glyph_row font (8 * scale) 0 x (y + row) bits scale color s in
      let d : Painted s
          (λ px py. (between x (x + 8 * scale) px && y + row == py) && is_set bits scale (px - x))
          color s1 =
        subst
          (λ q.
            Painted s
              (λ px py.
                (between q (q + 8 * scale) px && y + row == py) && is_set bits scale (px - x))
              color s1)
          z (glyph_row-Painted (8 * scale) 0 x (y + row) bits scale color s i (omega arith)) in
      rw (e, w)
        (Painted-then
          (λ px py. (between x (x + 8 * scale) px && y + row == py) && is_set bits scale (px - x))
          (λ px py.
            (between x (x + 8 * scale) px && between (y + (row + 1)) (y + (row + 1) + n) py)
            && is_set (font c ((py - y) / scale)) scale (px - x))
          (λ px py.
            (between x (x + 8 * scale) px && between (y + row) (y + row + suc n) py)
            && is_set (font c ((py - y) / scale)) scale (px - x))
          color d
          (glyph_rows-Painted n (row + 1) x y c scale color s1 (Painted-IsScreen d i) room small
            (omega arith))
          (λ px py a b.
            rows_union (λ r px. is_set (font c (r / scale)) scale (px - x)) x (x + 8 * scale) y row
              n px py))

  -- A character that ends before the coordinates wrap: exactly the pixels of the screen that its
  -- glyph covers, each point of the glyph being a square of `scale` by `scale` pixels, get the
  -- colour.
  pub rfb_draw_char-Painted :
      (x y c scale color : ℕ) (s : Rfb)
      → IsScreen s
      → c < 2 ^ 8
      → 8 * scale < 2 ^ 32
      → x + 8 * scale ≤ 2 ^ 32
      → y + 8 * scale ≤ 2 ^ 32
      → Painted s (is_lit x y c scale) color (rfb_draw_char font x y c scale color s)
  unfolding rfb_draw_char
  rfb_draw_char-Painted x y c scale color s i byte small room tall =
      let w : u32 (8 * scale) ≡ 8 * scale = omega arith in
      let b : u8 c ≡ c = omega arith in
      let z : y + 0 ≡ y = omega arith in
      rw (w, b)
        (subst
          (λ q.
            Painted s
              (λ px py.
                (between x (x + 8 * scale) px && between q (q + 8 * scale) py)
                && is_set (font c ((py - y) / scale)) scale (px - x))
              color (glyph_rows font (8 * scale) 0 x y c scale color s))
          z (glyph_rows-Painted (8 * scale) 0 x y c scale color s i room small (omega arith)))
