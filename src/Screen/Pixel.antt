-- ===== src/Screen/Pixel.antt =====
-- One pixel of the frame buffer of kernel/graph/drivers/ramfb_driver/ramfb_driver.c, and what it is
-- to paint a set of pixels.
use native.Mathlib.Nat.{
  mul-add-div_right, mul-le-mul_right, mul-add-mod_self_right, mod-eq_of_lt, div-eq_of_lt,
}
use craybond_os.Base.{
  ℕ, suc, ◌+◌, ◌*◌, ◌/◌, ◌%◌, ◌^◌, ◌≤◌, ◌<◌, ◌≡◌, refl, Bool, true, false, leb, ◌==◌, ◌&&◌, ◌||◌,
  if◌then◌else◌, arith, u32, ◌∙◌, sym, ap, ap₂, Bool-cases, inl, inr, eq_or_ne, ==_refl, ==_ne,
}
use craybond_os.Screen.{Rfb, rfb_draw_pixel}

-- A frame buffer as `rfb_init` sets it up: no padding, and fewer than 2 ^ 32 bytes.
pub record IsScreen (s : Rfb) : Type 0 where
  pub packed : s.stride ≡ 4 * s.width
  pub small : s.width * s.height * 4 < 2 ^ 32

abbrev pub pixel : Rfb → ℕ → ℕ → ℕ
pixel s x y = s.fb (y * s.width + x)

-- Exactly the pixels on which `p` holds have got the colour. Nothing behind the last pixel has been
-- written, and the frame buffer is where it was.
pub record Painted (s : Rfb) (p : ℕ → ℕ → Bool) (color : ℕ) (s' : Rfb) : Type 0 where
  pub width : s'.width ≡ s.width
  pub height : s'.height ≡ s.height
  pub stride : s'.stride ≡ s.stride
  pub fb_ptr : s'.fb_ptr ≡ s.fb_ptr
  pub pixels :
      (x y : ℕ) → x < s.width → y < s.height → pixel s' x y ≡ (if p x y then color else pixel s x y)
  pub behind : (i : ℕ) → s.width * s.height ≤ i → s'.fb i ≡ s.fb i

pub Painted-IsScreen :
    {s s' : Rfb} {p : ℕ → ℕ → Bool} {color : ℕ} → Painted s p color s' → IsScreen s → IsScreen s'
Painted-IsScreen d i = record {
  packed = d.stride ∙ i.packed ∙ ap (λ w. 4 * w) (sym d.width);
  small = rw (d.width, d.height) i.small;
}

pub Painted-none :
    (s : Rfb) (p : ℕ → ℕ → Bool) (color : ℕ)
    → ((x y : ℕ) → x < s.width → y < s.height → p x y ≡ false)
    → Painted s p color s
Painted-none s p color none = record {
  width = refl;
  height = refl;
  stride = refl;
  fb_ptr = refl;
  pixels = λ x y a b. rw (none x y a b) refl;
  behind = λ i a. refl;
}

or_if :
    (p q : Bool) (color old : ℕ)
    → (if q then color else if p then color else old) ≡ (if p || q then color else old)
or_if true true color old = refl
or_if true false color old = refl
or_if false true color old = refl
or_if false false color old = refl

-- Two steps paint the union; what is the same set on the screen may stand for it.
pub Painted-then :
    {s s1 s2 : Rfb} (p q r : ℕ → ℕ → Bool) (color : ℕ)
    → Painted s p color s1
    → Painted s1 q color s2
    → ((x y : ℕ) → x < s.width → y < s.height → (p x y || q x y) ≡ r x y)
    → Painted s r color s2
Painted-then {s} {s1} {s2} p q r color d e same = record {
  width = e.width ∙ d.width;
  height = e.height ∙ d.height;
  stride = e.stride ∙ d.stride;
  fb_ptr = e.fb_ptr ∙ d.fb_ptr;
  pixels = λ x y a b.
      (let from2 : pixel s2 x y ≡ s2.fb (y * s2.width + x) = refl in
        e.pixels x y (omega (arith, d.width)) (omega (arith, d.height))
        ∙ ap (λ o. if q x y then color else o) (d.pixels x y a b)
        ∙ or_if (p x y) (q x y) color (pixel s x y)
        ∙ ap (λ t. if t then color else pixel s x y) (same x y a b));
  behind = λ i a. e.behind i (rw (d.width, d.height) a) ∙ d.behind i a;
}

pub index_lt : (w h x y : ℕ) → x < w → y < h → y * w + x < w * h
index_lt w h x y a b = omega (arith, mul-le-mul_right {m = suc y} {n = h} w (omega arith))

index_y : (w x y : ℕ) → x < w → (y * w + x) / w ≡ y
index_y w x y a =
    omega (arith, mul-add-div_right {m = w} (omega arith) y x, div-eq_of_lt {n = x} {m = w} a)

index_x : (w x y : ℕ) → x < w → (y * w + x) % w ≡ x
index_x w x y a = mul-add-mod_self_right y w x ∙ mod-eq_of_lt a

-- The pixel `(x, y)` alone.
abbrev pub only : (x y : ℕ) → ℕ → ℕ → Bool
only x y px py = x == px && y == py

one_pixel :
    (s : Rfb) (x y color px py : ℕ)
    → x < s.width
    → px < s.width
    → (if py * s.width + px == y * s.width + x then color else pixel s px py)
      ≡ (if only x y px py then color else pixel s px py)
one_pixel s x y color px py a b = elim (eq_or_ne (py * s.width + px) (y * s.width + x)) [
  | inl e ↦
      let ey : y ≡ py =
        sym (index_y s.width x y a) ∙ ap (λ i. i / s.width) (sym e) ∙ index_y s.width px py b in
      let ex : x ≡ px =
        sym (index_x s.width x y a) ∙ ap (λ i. i % s.width) (sym e) ∙ index_x s.width px py b in
      let t : only x y px py ≡ true = ground arith in rw (t, e, ==_refl (y * s.width + x)) refl
  | inr ne ↦
      let f : only x y px py ≡ false = elim (Bool-cases (only x y px py)) [
        | inr q ↦ q
        | inl q ↦
            let ey : y ≡ py = ground arith in
            let ex : x ≡ px = ground arith in absurd (ne (sym (ap₂ (λ y x. y * s.width + x) ey ex)))
      ] in
      rw (f, ==_ne (py * s.width + px) (y * s.width + x) ne) refl
]

pixel_index :
    (s : Rfb) (x y : ℕ)
    → IsScreen s
    → x < s.width
    → y < s.height
    → u32 (y * (s.stride / 4) + x) ≡ y * s.width + x
pixel_index s x y i a b =
    let e : s.stride / 4 ≡ s.width = omega (arith, i.packed) in
    ap (λ w. u32 (y * w + x)) e
    ∙ mod-eq_of_lt {n = y * s.width + x} {m = 2 ^ 32}
        (omega (arith, index_lt s.width s.height x y a b, i.small))

-- `rfb_draw_pixel` paints the pixel if it is on the screen, and nothing otherwise.
pub rfb_draw_pixel-Painted :
    (x y color : ℕ) (s : Rfb) → IsScreen s → Painted s (only x y) color (rfb_draw_pixel x y color s)
unfolding rfb_draw_pixel
rfb_draw_pixel-Painted x y color s i = elim (Bool-cases (leb s.width x || leb s.height y)) [
  | inl out ↦ rw out (Painted-none s (only x y) color (λ px py a b. ground arith))
  | inr inside ↦
      let a : x < s.width = ground arith in
      let b : y < s.height = ground arith in
      rw (inside, pixel_index s x y i a b)
        (record {
          width = refl;
          height = refl;
          stride = refl;
          fb_ptr = refl;
          pixels = λ px py c d. one_pixel s x y color px py a c;
          behind = λ j c.
              rw (==_ne j (y * s.width + x) (omega (arith, index_lt s.width s.height x y a b)))
                refl;
        })
]
