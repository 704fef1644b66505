-- ===== src/Screen/Gpu.antt =====
-- kernel/graph/graphics.c: the choice of a driver and the dispatch to it. The driver of
-- kernel/graph/drivers/virtio_gpu_pci is an argument; its state is of type `V`. So is `rfb_init`,
-- as a function from the size and the state to its result.
use craybond_os.Base.{
  ℕ, ◌≡◌, ◌≢◌, refl, Bool, true, false, not, ◌&&◌, ◌||◌, if◌then◌else◌, Option, none, some,
  Bool-cases, inl, inr,
}
use craybond_os.Kstring.{Kstring}
use craybond_os.Screen.{
  Rfb, rfb_clear, rfb_draw_pixel, rfb_fill_rect, rfb_draw_line, rfb_draw_char, rfb_draw_string,
  rfb_flush, rfb_get_char_size,
}

pub data SupportedGpu : Type 0 where
  no_gpu virtio_gpu_pci ramfb : SupportedGpu

pub record Point : Type 0 where
  pub x : ℕ
  pub y : ℕ

pub record Size : Type 0 where
  pub width : ℕ
  pub height : ℕ

-- The globals of graphics.c, and the states of the two drivers.
pub record Graphics (V : Type 0) : Type 0 where
  pub screen_size : Size
  pub is_ready : Bool
  pub chosen_gpu : SupportedGpu
  pub virtio : V
  pub rfb : Rfb

-- What graphics.c calls of the VirtIO driver.
pub record VirtioGpu (V : Type 0) : Type 0 where
  pub vgp_init : (width height : ℕ) → V → Bool × V
  pub vgp_flush : V → V
  pub vgp_clear : ℕ → V → V
  pub vgp_draw_pixel : (x y color : ℕ) → V → V
  pub vgp_fill_rect : (x y w h color : ℕ) → V → V
  pub vgp_draw_line : (x0 y0 x1 y1 color : ℕ) → V → V
  pub vgp_draw_char : (x y c color : ℕ) → V → V

abbrev pub is_chosen : SupportedGpu → Bool
is_chosen no_gpu = false
is_chosen virtio_gpu_pci = true
is_chosen ramfb = true

module _ {V : Type 0} (driver : VirtioGpu V) where
  pub gpu_init : (rfb_init : ℕ → ℕ → Rfb → Bool × Rfb) → Size → Graphics V → Graphics V
  gpu_init rfb_init size g =
      let (found, v) = driver.vgp_init size.width size.height g.virtio in
      let (fallback, r) = rfb_init size.width size.height g.rfb in
      if found
      then record g { chosen_gpu = virtio_gpu_pci; screen_size = size; is_ready = true; virtio = v }
      else record g {
        chosen_gpu = if fallback then ramfb else g.chosen_gpu;
        screen_size = size;
        is_ready = true;
        virtio = v;
        rfb = r;
      }

  unfoldable pub gpu_ready : Graphics V → Bool
  gpu_ready g = is_chosen g.chosen_gpu && g.is_ready

  -- The `switch` over the chosen driver, behind the guard that every drawing function has.
  abbrev pub dispatch : (V → V) → (Rfb → Rfb) → Graphics V → Graphics V
  dispatch on_virtio on_ramfb g = if not (gpu_ready g) then g else elim g.chosen_gpu [
    | virtio_gpu_pci ↦ record g { virtio = on_virtio g.virtio }
    | ramfb ↦ record g { rfb = on_ramfb g.rfb }
    | no_gpu ↦ g
  ]

  pub gpu_flush : Graphics V → Graphics V
  gpu_flush g = dispatch driver.vgp_flush rfb_flush g

  pub gpu_clear : ℕ → Graphics V → Graphics V
  gpu_clear color g = dispatch (driver.vgp_clear color) (rfb_clear color) g

  pub gpu_draw_pixel : Point → ℕ → Graphics V → Graphics V
  gpu_draw_pixel p color g =
      dispatch (driver.vgp_draw_pixel p.x p.y color) (rfb_draw_pixel p.x p.y color) g

  pub gpu_fill_rect : Point → Size → ℕ → Graphics V → Graphics V
  gpu_fill_rect p s color g =
      dispatch (driver.vgp_fill_rect p.x p.y s.width s.height color)
        (rfb_fill_rect p.x p.y s.width s.height color) g

  pub gpu_draw_line : (fuel : ℕ) → (p0 p1 : Point) → ℕ → Graphics V → Graphics V
  gpu_draw_line fuel p0 p1 color g =
      dispatch (driver.vgp_draw_line p0.x p0.y p1.x p1.y color)
        (λ s. (rfb_draw_line fuel p0.x p0.y p1.x p1.y color s).0) g

  pub gpu_draw_char : (font : ℕ → ℕ → ℕ) → Point → (c scale color : ℕ) → Graphics V → Graphics V
  gpu_draw_char font p c scale color g =
      dispatch (driver.vgp_draw_char p.x p.y c color) (rfb_draw_char font p.x p.y c scale color) g

  -- The `switch` has no case for the VirtIO driver.
  pub gpu_draw_string :
      (font : ℕ → ℕ → ℕ) → Kstring → Point → (scale color : ℕ) → Graphics V → Graphics V
  gpu_draw_string font str p scale color g =
      dispatch (λ v. v) (rfb_draw_string font str p.x p.y scale color) g

  -- With the VirtIO driver the function ends without a `return`: no value.
  pub gpu_get_char_size : (font : ℕ → ℕ → ℕ) → ℕ → Graphics V → Option ℕ
  gpu_get_char_size font scale g = if not (gpu_ready g) then some 0 else elim g.chosen_gpu [
    | virtio_gpu_pci ↦ none
    | ramfb ↦ some (rfb_get_char_size font scale)
    | no_gpu ↦ none
  ]

  unfoldable pub gpu_get_screen_size : Graphics V → Size
  gpu_get_screen_size g =
      if not (gpu_ready g) then record { width = 0; height = 0 } else g.screen_size

-- The drawing functions with their arguments.
pub data Drawing : Type 0 where
  flush : Drawing
  clear : ℕ → Drawing
  draw_pixel : Point → ℕ → Drawing
  fill_rect : Point → Size → ℕ → Drawing
  draw_line : ℕ → Point → Point → ℕ → Drawing
  draw_char : (ℕ → ℕ → ℕ) → Point → (c scale color : ℕ) → Drawing
  draw_string : (ℕ → ℕ → ℕ) → Kstring → Point → (scale color : ℕ) → Drawing

abbrev pub draw : {V : Type 0} → VirtioGpu V → Drawing → Graphics V → Graphics V
draw driver flush g = gpu_flush driver g
draw driver (clear c) g = gpu_clear driver c g
draw driver (draw_pixel p c) g = gpu_draw_pixel driver p c g
draw driver (fill_rect p s c) g = gpu_fill_rect driver p s c g
draw driver (draw_line fuel p q c) g = gpu_draw_line driver fuel p q c g
draw driver (draw_char font p c scale color) g = gpu_draw_char driver font p c scale color g
draw driver (draw_string font str p scale color) g = gpu_draw_string driver font str p scale color g

-- Only the chosen driver has worked, and only if there is one; nothing else has changed.
pub record Dispatched {V : Type 0} (driver : VirtioGpu V) (g g' : Graphics V) : Type 0 where
  pub not_ready : gpu_ready driver g ≡ false → g' ≡ g
  pub virtio : g.chosen_gpu ≢ virtio_gpu_pci → g'.virtio ≡ g.virtio
  pub rfb : g.chosen_gpu ≢ ramfb → g'.rfb ≡ g.rfb
  pub chosen : g'.chosen_gpu ≡ g.chosen_gpu
  pub ready : gpu_ready driver g' ≡ gpu_ready driver g
  pub size : gpu_get_screen_size driver g' ≡ gpu_get_screen_size driver g

module _ {V : Type 0} (driver : VirtioGpu V) where
  untouched : (g : Graphics V) → Dispatched driver g g
  untouched g = record {
    not_ready = λ e. refl;
    virtio = λ e. refl;
    rfb = λ e. refl;
    chosen = refl;
    ready = refl;
    size = refl;
  }

  dispatch-Dispatched :
      (on_virtio : V → V) (on_ramfb : Rfb → Rfb) (size : Size) (r : Bool) (gpu : SupportedGpu)
      (v : V) (b : Rfb)
      → (let g : Graphics V = record {
        screen_size = size;
        is_ready = r;
        chosen_gpu = gpu;
        virtio = v;
        rfb = b;
      } in
          Dispatched driver g (dispatch driver on_virtio on_ramfb g))
  unfolding gpu_ready gpu_get_screen_size
  dispatch-Dispatched on_virtio on_ramfb size false no_gpu v b = untouched _
  dispatch-Dispatched on_virtio on_ramfb size true no_gpu v b = untouched _
  dispatch-Dispatched on_virtio on_ramfb size false virtio_gpu_pci v b = untouched _
  dispatch-Dispatched on_virtio on_ramfb size false ramfb v b = untouched _
  dispatch-Dispatched on_virtio on_ramfb size true virtio_gpu_pci v b = record {
    not_ready = λ e. absurd (cc e);
    virtio = λ e. absurd (e refl);
    rfb = λ e. refl;
    chosen = refl;
    ready = refl;
    size = refl;
  }
  dispatch-Dispatched on_virtio on_ramfb size true ramfb v b = record {
    not_ready = λ e. absurd (cc e);
    virtio = λ e. refl;
    rfb = λ e. absurd (e refl);
    chosen = refl;
    ready = refl;
    size = refl;
  }

  -- Every drawing function of graphics.c leaves the driver that is not chosen alone, does nothing
  -- as long as no driver is ready, and changes neither the choice nor the size of the screen.
  pub draw-Dispatched : (op : Drawing) (g : Graphics V) → Dispatched driver g (draw driver op g)
  unfolding gpu_flush gpu_clear gpu_draw_pixel gpu_fill_rect gpu_draw_line gpu_draw_char
      gpu_draw_string
  draw-Dispatched flush g = dispatch-Dispatched driver.vgp_flush rfb_flush _ _ g.chosen_gpu _ _
  draw-Dispatched (clear c) g =
      dispatch-Dispatched (driver.vgp_clear c) (rfb_clear c) _ _ g.chosen_gpu _ _
  draw-Dispatched (draw_pixel p c) g =
      dispatch-Dispatched (driver.vgp_draw_pixel p.x p.y c) (rfb_draw_pixel p.x p.y c) _ _
        g.chosen_gpu _ _
  draw-Dispatched (fill_rect p s c) g =
      dispatch-Dispatched (driver.vgp_fill_rect p.x p.y s.width s.height c)
        (rfb_fill_rect p.x p.y s.width s.height c) _ _ g.chosen_gpu _ _
  draw-Dispatched (draw_line fuel p q c) g =
      dispatch-Dispatched (driver.vgp_draw_line p.x p.y q.x q.y c)
        (λ s. (rfb_draw_line fuel p.x p.y q.x q.y c s).0) _ _ g.chosen_gpu _ _
  draw-Dispatched (draw_char font p c scale color) g =
      dispatch-Dispatched (driver.vgp_draw_char p.x p.y c color)
        (rfb_draw_char font p.x p.y c scale color) _ _ g.chosen_gpu _ _
  draw-Dispatched (draw_string font str p scale color) g =
      dispatch-Dispatched (λ v. v) (rfb_draw_string font str p.x p.y scale color) _ _ g.chosen_gpu _
        _

  -- After `gpu_init` on a fresh state the graphics are ready exactly if one of the two drivers has
  -- been initialised; the VirtIO driver comes first, and then the frame buffer is left alone.
  pub gpu_init-ready :
      (rfb_init : ℕ → ℕ → Rfb → Bool × Rfb) (size : Size) (g : Graphics V)
      → g.chosen_gpu ≡ no_gpu
      → (gpu_ready driver (gpu_init driver rfb_init size g) ≡ (
          (driver.vgp_init size.width size.height g.virtio).0
          || (rfb_init size.width size.height g.rfb).0))
        × ((driver.vgp_init size.width size.height g.virtio).0 ≡ true
            → (gpu_init driver rfb_init size g).rfb ≡ g.rfb)
  unfolding gpu_init gpu_ready
  gpu_init-ready rfb_init size g fresh =
      elim (Bool-cases (driver.vgp_init size.width size.height g.virtio).0) [
        | inl e ↦ rw e (refl, λ _. refl)
        | inr e ↦ elim (Bool-cases (rfb_init size.width size.height g.rfb).0) [
          | inl f ↦ rw (e, f) (refl, λ t. absurd (cc t))
          | inr f ↦ rw (e, f, fresh) (refl, λ t. absurd (cc t))
        ]
      ]
