-- ===== src/Screen/Line.antt =====
-- The loop of `rfb_draw_line` of kernel/graph/drivers/ramfb_driver/ramfb_driver.c. In each round
-- the coordinate with the larger distance takes a step; the error term, or its negative, says when
-- the other coordinate does.
use native.Mathlib.Nat.{mul-le-mul_right}
use native.Mathlib.Decide.{dec_lt}
use craybond_os.Base.{
  ℕ, zero, suc, ◌+◌, ◌-◌, ◌*◌, ◌/◌, ◌^◌, ◌≤◌, ◌<◌, ◌≡◌, ◌≢◌, refl, Bool, true, false, ltb, ◌==◌,
  ◌&&◌, if◌then◌else◌, arith, add32, sub32, ◌∙◌, ap, subst, ◌⊎◌, inl, inr, eq_or_ne, ==_refl,
  lt→ltb, ltb_ge,
}
use craybond_os.Screen.{
  Rfb, Pen, slt, distance, sign, first_err, line_step, line_loop, rfb_draw_line, rfb_draw_pixel,
}

-- The coordinate after `k` steps from `a` towards `b`.
abbrev pub along : ℕ → ℕ → ℕ → ℕ
along a b k = if ltb a b then a + k else a - k

along_step :
    (a b k : ℕ)
    → a < 2 ^ 32
    → b < 2 ^ 32
    → k < distance a b
    → add32 (along a b k) (sign a b) ≡ along a b (k + 1)
along_step a b k p q less = ground arith

along_end : (a b : ℕ) → along a b (distance a b) ≡ b
along_end a b = ground arith

along_start : (a b : ℕ) → along a b 0 ≡ a
along_start a b = ground arith

along_before : (a b k : ℕ) → k < distance a b → along a b k ≢ b
along_before a b k less = ground arith

-- The error term of Bresenham's algorithm, `e` of `big`, with the steps `b` of the other coordinate
-- after `k` steps of the first.
abbrev IsOn : (big small k b e : ℕ) → Type 0
IsOn big small k b e = (big / 2 + b * big ≡ e + k * small) × (e < big)

IsOn-end : (big small b e : ℕ) → IsOn big small big b e → b ≡ small
IsOn-end big small b e (eq, less) = elim (dec_lt b small) [
  | yes p ↦
      absurd
        (omega (arith, mul-le-mul_right {m = suc b} {n = small} big (omega arith), comm big small))
  | no p ↦ elim (dec_lt small b) [
    | yes q ↦
        absurd (
          omega (arith, mul-le-mul_right {m = suc small} {n = b} big (omega arith), comm big small))
    | no q ↦ omega arith
  ]
]
  where
    comm : (a c : ℕ) → a * c ≡ c * a
    comm a c = grind arith

IsOn-step :
    (big small k b e : ℕ)
    → small ≤ big
    → IsOn big small k b e
    → IsOn big small
        (k + 1)
        (if ltb e small then b + 1 else b)
        (if ltb e small then e + big - small else e - small)
IsOn-step big small k b e le (eq, less) = elim (dec_lt e small) [
  | yes p ↦ rw (lt→ltb e small p) (omega arith, omega arith)
  | no p ↦ rw (ltb_ge e small (omega arith)) (omega arith, omega arith)
]

-- Where the other coordinate steps, it has not arrived.
IsOn-room : (big small k b e : ℕ) → IsOn big small k b e → k < big → e < small → b < small
IsOn-room big small k b e (eq, less) before low = elim (dec_lt b small) [
  | yes p ↦ p
  | no p ↦ absurd (
      omega (
        arith,
        mul-le-mul_right {m = small} {n = b} big (omega arith),
        mul-le-mul_right {m = suc k} {n = big} small (omega arith),
        comm big small,
      ))
]
  where
    comm : (a c : ℕ) → a * c ≡ c * a
    comm a c = grind arith

module _ (x0 y0 x1 y1 : ℕ) (bx0 : x0 < 2 ^ 32) (by0 : y0 < 2 ^ 32) (bx1 : x1 < 2 ^ 32)
    (by1 : y1 < 2 ^ 32) (short_x : distance x0 x1 < 2 ^ 30)
    (short_y : distance y0 y1 < 2 ^ 30) where
  abbrev dx : ℕ
  dx = distance x0 x1

  abbrev dy : ℕ
  dy = distance y0 y1

  abbrev pen : ℕ → ℕ → ℕ → Pen
  pen a b err = record { x = along x0 x1 a; y = along y0 y1 b; err = err }

  abbrev next : Pen → Pen
  next p = line_step dx dy (sign x0 x1) (sign y0 y1) p

  -- With the larger distance along x.
  shallow_step :
      (k b e : ℕ)
      → dy ≤ dx
      → IsOn dx dy k b e
      → k < dx
      → next (pen k b e)
        ≡ pen (k + 1) (if ltb e dy then b + 1 else b) (if ltb e dy then e + dx - dy else e - dy)
  unfolding line_step
  shallow_step k b e le on less =
      let step_x = along_step x0 x1 k bx0 bx1 less in
      let go_x : slt (sub32 0 dx) e ≡ true = ground arith in
      let go_y : slt e dy ≡ ltb e dy = ground arith in
      elim (dec_lt e dy) [
        | yes p ↦
            let c : add32 (sub32 e dy) dx ≡ e + dx - dy = omega arith in
            rw
              (
                go_x,
                go_y,
                lt→ltb e dy p,
                step_x,
                along_step y0 y1 b by0 by1 (IsOn-room dx dy k b e on less p),
                c,
              )
              refl
        | no p ↦
            let c : sub32 e dy ≡ e - dy = omega arith in
            rw (go_x, go_y, ltb_ge e dy (omega arith), step_x, c) refl
      ]

  -- With the larger distance along y; the error term is the negative of `e`.
  steep_step :
      (k a e : ℕ)
      → dx ≤ dy
      → IsOn dy dx k a e
      → k < dy
      → next (pen a k (sub32 0 e))
        ≡ pen
            (if ltb e dx then a + 1 else a)
            (k + 1)
            (sub32 0 (if ltb e dx then e + dy - dx else e - dx))
  unfolding line_step
  steep_step k a e le on less =
      let step_y = along_step y0 y1 k by0 by1 less in
      let go_x : slt (sub32 0 dx) (sub32 0 e) ≡ ltb e dx = ground arith in
      let go_y : slt (sub32 0 e) dy ≡ true = ground arith in
      elim (dec_lt e dx) [
        | yes p ↦
            let c : add32 (sub32 (sub32 0 e) dy) dx ≡ sub32 0 (e + dy - dx) = omega arith in
            rw
              (
                go_x,
                go_y,
                lt→ltb e dx p,
                step_y,
                along_step x0 x1 a bx0 bx1 (IsOn-room dy dx k a e on less p),
                c,
              )
              refl
        | no p ↦
            let c : add32 (sub32 0 e) dx ≡ sub32 0 (e - dx) = omega arith in
            rw (go_x, go_y, ltb_ge e dx (omega arith), step_y, c) refl
      ]

  abbrev run : ℕ → ℕ → Pen → Rfb → Rfb × Bool
  run fuel color p s = line_loop fuel dx dy (sign x0 x1) (sign y0 y1) x1 y1 color p s

  run_end :
      (fuel color : ℕ) (p : Pen) (s : Rfb)
      → p.x ≡ x1
      → p.y ≡ y1
      → (run (suc fuel) color p s).1 ≡ true
  unfolding line_loop
  run_end fuel color p s ex ey = rw (ex, ey, ==_refl x1, ==_refl y1) refl

  run-next :
      (fuel color : ℕ) (p q : Pen) (s : Rfb)
      → (p.x ≢ x1) ⊎ (p.y ≢ y1)
      → next p ≡ q
      → (run fuel color q (rfb_draw_pixel p.x p.y color s)).1 ≡ true
      → (run (suc fuel) color p s).1 ≡ true
  unfolding line_loop
  run-next fuel color p q s away e rest =
      let f : (p.x == x1 && p.y == y1) ≡ false = elim away [
        | inl a ↦ ground arith
        | inr a ↦ ground arith
      ] in
      rw (f, e) rest

  shallow_run :
      (fuel r k b e color : ℕ) (s : Rfb)
      → dy ≤ dx
      → k + r ≡ dx
      → r < fuel
      → IsOn dx dy k b e
      → (run fuel color (pen k b e) s).1 ≡ true
  shallow_run zero r k b e color s le left enough on = absurd (omega arith)
  shallow_run (suc fuel) zero k b e color s le left enough on =
      let ek : k ≡ dx = omega arith in
      let eb : b ≡ dy = IsOn-end dx dy b e (subst (λ k. IsOn dx dy k b e) ek on) in
      run_end fuel color (pen k b e) s (ap (along x0 x1) ek ∙ along_end x0 x1)
        (ap (along y0 y1) eb ∙ along_end y0 y1)
  shallow_run (suc fuel) (suc r) k b e color s le left enough on =
      let b' = if ltb e dy then b + 1 else b in
      let e' = if ltb e dy then e + dx - dy else e - dy in
      run-next fuel color (pen k b e) (pen (k + 1) b' e') s
        (inl (along_before x0 x1 k (omega arith))) (shallow_step k b e le on (omega arith))
        (shallow_run fuel r (k + 1) b' e' color
          (rfb_draw_pixel (along x0 x1 k) (along y0 y1 b) color s) le (omega arith) (omega arith)
          (IsOn-step dx dy k b e le on))

  steep_run :
      (fuel r k a e color : ℕ) (s : Rfb)
      → dx ≤ dy
      → k + r ≡ dy
      → r < fuel
      → IsOn dy dx k a e
      → (run fuel color (pen a k (sub32 0 e)) s).1 ≡ true
  steep_run zero r k a e color s le left enough on = absurd (omega arith)
  steep_run (suc fuel) zero k a e color s le left enough on =
      let ek : k ≡ dy = omega arith in
      let ea : a ≡ dx = IsOn-end dy dx a e (subst (λ k. IsOn dy dx k a e) ek on) in
      run_end fuel color (pen a k (sub32 0 e)) s (ap (along x0 x1) ea ∙ along_end x0 x1)
        (ap (along y0 y1) ek ∙ along_end y0 y1)
  steep_run (suc fuel) (suc r) k a e color s le left enough on =
      let a' = if ltb e dx then a + 1 else a in
      let e' = if ltb e dx then e + dy - dx else e - dx in
      run-next fuel color (pen a k (sub32 0 e)) (pen a' (k + 1) (sub32 0 e')) s
        (inr (along_before y0 y1 k (omega arith))) (steep_step k a e le on (omega arith))
        (steep_run fuel r (k + 1) a' e' color
          (rfb_draw_pixel (along x0 x1 a) (along y0 y1 k) color s) le (omega arith) (omega arith)
          (IsOn-step dy dx k a e le on))

  pen_start : (err : ℕ) → pen 0 0 err ≡ record { x = x0; y = y0; err = err }
  pen_start err = rw (along_start x0 x1, along_start y0 y1) refl

  -- For points less than 2 ^ 30 apart in each coordinate, the loop of `rfb_draw_line` ends: it is
  -- over within as many rounds as the larger distance, and one.
  pub rfb_draw_line-ends :
      (fuel color : ℕ) (s : Rfb)
      → dx < fuel
      → dy < fuel
      → (rfb_draw_line fuel x0 y0 x1 y1 color s).1 ≡ true
  unfolding rfb_draw_line
  rfb_draw_line-ends zero color s fx fy = absurd (omega arith)
  rfb_draw_line-ends (suc fuel) color s fx fy = elim (dec_lt dy dx) [
    | yes p ↦ rw (lt→ltb dy dx p) (
        subst (λ q. (run (suc fuel) color q s).1 ≡ true) (pen_start (dx / 2))
          (shallow_run (suc fuel) dx 0 0 (dx / 2) color s (omega arith) (omega arith) fx
            (omega arith, omega arith)))
    | no p ↦ elim (eq_or_ne dy 0) [
      | inl z ↦
          run_end fuel color (record { x = x0; y = y0; err = first_err dx dy }) s (ground arith)
            (ground arith)
      | inr nz ↦ rw (ltb_ge dy dx (omega arith)) (
          subst (λ q. (run (suc fuel) color q s).1 ≡ true) (pen_start (sub32 0 (dy / 2)))
            (steep_run (suc fuel) dy 0 0 (dy / 2) color s (omega arith) (omega arith) fy
              (omega arith, omega arith)))
    ]
  ]
