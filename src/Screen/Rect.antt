-- ===== src/Screen/Rect.antt =====
-- `rfb_fill_rect` and `rfb_clear` of kernel/graph/drivers/ramfb_driver/ramfb_driver.c.
use craybond_os.Base.{
  ℕ, zero, suc, ◌+◌, ◌*◌, ◌^◌, ◌≤◌, ◌≡◌, refl, Bool, true, false, ltb, leb, ◌==◌, ◌&&◌,
  if◌then◌else◌, arith, u32, add32, ◌∙◌, ap, subst,
}
use craybond_os.Screen.{
  Rfb, set_pixel, clear_loop, rfb_clear, rfb_draw_pixel, fill_row, fill_rows, rfb_fill_rect,
}
use craybond_os.Screen.Pixel.{
  IsScreen, Painted, Painted-none, Painted-then, Painted-IsScreen, only, rfb_draw_pixel-Painted,
  index_lt,
}

-- The numbers from `a` up to `b`, without `b`.
abbrev pub between : ℕ → ℕ → ℕ → Bool
between a b x = leb a x && ltb x b

-- The points of a rectangle.
abbrev pub in_rect : (x y w h : ℕ) → ℕ → ℕ → Bool
in_rect x y w h px py = between x (x + w) px && between y (y + h) py

fill_row-Painted :
    (n dx x y color : ℕ) (s : Rfb)
    → IsScreen s
    → x + dx + n ≤ 2 ^ 32
    → Painted s
        (λ px py. between (x + dx) (x + dx + n) px && y == py)
        color
        (fill_row n dx x y color s)
unfolding fill_row
fill_row-Painted zero dx x y color s i room =
    Painted-none s (λ px py. between (x + dx) (x + dx + 0) px && y == py) color
      (λ px py a b. ground arith)
fill_row-Painted (suc n) dx x y color s i room =
    let e : add32 x dx ≡ x + dx = omega arith in
    let d = rfb_draw_pixel-Painted (x + dx) y color s i in
    let s1 = rfb_draw_pixel (x + dx) y color s in
    rw e (
      Painted-then (only (x + dx) y)
        (λ px py. between (x + (dx + 1)) (x + (dx + 1) + n) px && y == py)
        (λ px py. between (x + dx) (x + dx + suc n) px && y == py) color d
        (fill_row-Painted n (dx + 1) x y color s1 (Painted-IsScreen d i) (omega arith))
        (λ px py a b. ground arith))

fill_rows-Painted :
    (n dy x y w color : ℕ) (s : Rfb)
    → IsScreen s
    → x + w ≤ 2 ^ 32
    → y + dy + n ≤ 2 ^ 32
    → Painted s (in_rect x (y + dy) w n) color (fill_rows n dy x y w color s)
unfolding fill_rows
fill_rows-Painted zero dy x y w color s i room tall =
    Painted-none s (in_rect x (y + dy) w 0) color (λ px py a b. ground arith)
fill_rows-Painted (suc n) dy x y w color s i room tall =
    let e : add32 y dy ≡ y + dy = omega arith in
    let d = fill_row-Painted w 0 x (y + dy) color s i (omega arith) in
    let s1 = fill_row w 0 x (y + dy) color s in
    rw e (
      Painted-then (λ px py. between (x + 0) (x + 0 + w) px && y + dy == py)
        (in_rect x (y + (dy + 1)) w n) (in_rect x (y + dy) w (suc n)) color d
        (fill_rows-Painted n (dy + 1) x y w color s1 (Painted-IsScreen d i) room (omega arith))
        (λ px py a b. ground arith))

-- A rectangle whose right and lower edges are at most 2 ^ 32: exactly the pixels of the screen that
-- lie in it get the colour, and nothing behind the frame buffer is written.
pub rfb_fill_rect-Painted :
    (x y w h color : ℕ) (s : Rfb)
    → IsScreen s
    → x + w ≤ 2 ^ 32
    → y + h ≤ 2 ^ 32
    → Painted s (in_rect x y w h) color (rfb_fill_rect x y w h color s)
unfolding rfb_fill_rect
rfb_fill_rect-Painted x y w h color s i room tall =
    let e : y + 0 ≡ y = omega arith in
    subst (λ t. Painted s (in_rect x t w h) color (fill_rows h 0 x y w color s)) e
      (fill_rows-Painted h 0 x y w color s i room (omega arith))

clear_loop-fb :
    (n i color : ℕ) (s : Rfb) (j : ℕ)
    → (clear_loop n i color s).fb j ≡ (if between i (i + n) j then color else s.fb j)
unfolding clear_loop
clear_loop-fb zero i color s j = ground arith
clear_loop-fb (suc n) i color s j =
    clear_loop-fb n (i + 1) color (set_pixel i color s) j ∙ ground arith

clear_loop-shape :
    (n i color : ℕ) (s : Rfb)
    → ((clear_loop n i color s).width ≡ s.width)
      × ((clear_loop n i color s).height ≡ s.height)
      × ((clear_loop n i color s).stride ≡ s.stride)
      × ((clear_loop n i color s).fb_ptr ≡ s.fb_ptr)
unfolding clear_loop
clear_loop-shape zero i color s = (refl, refl, refl, refl)
clear_loop-shape (suc n) i color s = clear_loop-shape n (i + 1) color (set_pixel i color s)

-- `rfb_clear` gives every pixel of the screen the colour, and writes nothing behind the frame
-- buffer.
pub rfb_clear-Painted :
    (color : ℕ) (s : Rfb) → IsScreen s → Painted s (λ px py. true) color (rfb_clear color s)
unfolding rfb_clear
rfb_clear-Painted color s i =
    let size : u32 (s.width * s.height) ≡ s.width * s.height = omega (arith, i.small) in
    let shape = clear_loop-shape (s.width * s.height) 0 color s in
    rw size (record {
      width = shape.0;
      height = shape.1;
      stride = shape.2;
      fb_ptr = shape.3;
      pixels = λ px py a b.
          (let less = index_lt s.width s.height px py a b in
            let t : between 0 (0 + s.width * s.height) (py * s.width + px) ≡ true = ground arith in
            ap (λ w. (clear_loop (s.width * s.height) 0 color s).fb (py * w + px)) shape.0
            ∙ clear_loop-fb (s.width * s.height) 0 color s (py * s.width + px)
            ∙ rw t refl);
      behind = λ j a.
          (let f : between 0 (0 + s.width * s.height) j ≡ false = ground arith in
            clear_loop-fb (s.width * s.height) 0 color s j ∙ rw f refl);
    })
