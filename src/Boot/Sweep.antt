-- ===== src/Boot/Sweep.antt =====
-- The first sweep of the process of kernel/kernel_processes/bootscreen.c.
use craybond_os.Base.{
  ℕ, zero, suc, ◌+◌, ◌-◌, ◌*◌, ◌≤◌, ◌<◌, ◌^◌, ◌≡◌, refl, ◌≢◌, arith, ltb, List, [], ◌∷◌, add32, u32,
  subst, leb, Bool-cases, inl, inr, ◌∙◌,
}
use craybond_os.Outcome.{Outcome, done, panic, failed_to_load, ◌>>=◌}
use craybond_os.Alloc.{Heap, talloc, temp_free}
use craybond_os.Alloc.Reuse.{talloc-temp_free}
use craybond_os.Screen.Gpu.{VirtioGpu, Point}
use craybond_os.Kio.{format_blocks, disable_visual}
use craybond_os.Boot.{
  Boot, name, heap_of, name_drawn, boot_draw_name, brush_point, brush_column, brush, count, sweep,
  rotate, with_gpu, frame, frames, bootscreen,
}

-- The name has no `%h`.
name_blocks :
    (heap_bottom fuel : ℕ) (mem : ℕ → List ℕ) (r : ℕ) (h : Heap)
    → format_blocks heap_bottom fuel mem (r ∷ []) 1 name 0 [] h ≡ done h
unfolding format_blocks
name_blocks heap_bottom fuel mem r h = refl

module _ {V : Type 0} (driver : VirtioGpu V) (font : ℕ → ℕ → ℕ) (mem : ℕ → List ℕ)
    (unset heap_bottom fuel : ℕ) where
  -- The allocator has a block of 256 bytes to give.
  pub record Gives (h : Heap) : Type 0 where
    pub block : ℕ
    pub rest : Heap
    pub not_null : block ≢ 0
    pub given : talloc heap_bottom (suc fuel) 256 h ≡ done (block, rest)

  freed_Gives : {p : ℕ} (h : Heap) → p ≢ 0 → Gives (temp_free p 256 h)
  freed_Gives {p} h nz =
      let (rest, given, _, _) = talloc-temp_free heap_bottom p 256 fuel h nz in
      record { block = p; rest = rest; not_null = nz; given = given }

  -- The call returns; the number is `r` and the allocator has a block to give.
  pub record Returns (r : ℕ) (o : Outcome (Boot V)) : Type 0 where
    after : Boot V
    result : o ≡ done after
    number : after.random_number ≡ r
    gives : Gives (heap_of after)

  draw_name-Returns :
      (middle : Point) (xo yo : ℕ) (b : Boot V)
      → Gives (heap_of b)
      → Returns b.random_number
          (boot_draw_name driver font mem unset heap_bottom (suc fuel) middle xo yo b)
  unfolding boot_draw_name
  draw_name-Returns middle xo yo b g = record {
    after = name_drawn driver font mem unset heap_bottom (suc fuel) middle xo yo g.block g.rest b;
    result = rw (g.given, name_blocks heap_bottom (suc fuel) mem b.random_number g.rest) refl;
    number = refl;
    gives = freed_Gives g.rest g.not_null;
  }

  brush_point-Returns :
      (middle : Point) (below bx by : ℕ) (current : Point) (b : Boot V)
      → Gives (heap_of b)
      → Returns b.random_number
          (brush_point driver font mem unset heap_bottom (suc fuel) middle below bx by current b)
  unfolding brush_point heap_of
  brush_point-Returns middle below bx by current b g =
      elim (Bool-cases (leb (add32 (u32 (bx * bx)) (u32 (by * by))) 25)) [
        | inl inside ↦ rw inside (draw_name-Returns middle 0 below _ g)
        | inr outside ↦ rw outside (draw_name-Returns middle 0 below b g)
      ]

  -- A call behind another one.
  Returns-then :
      {r : ℕ} {o : Outcome (Boot V)} {f : Boot V → Outcome (Boot V)}
      → Returns r o
      → ((b : Boot V) → b.random_number ≡ r → Gives (heap_of b) → Returns r (f b))
      → Returns r (o >>= f)
  Returns-then x k = rw x.result (k x.after x.number x.gives)

  brush_column-Returns :
      (n : ℕ) (middle : Point) (below bx by : ℕ) (current : Point) (r : ℕ) (b : Boot V)
      → b.random_number ≡ r
      → Gives (heap_of b)
      → Returns r
          (brush_column driver font mem unset heap_bottom (suc fuel) n middle below bx by current b)
  unfolding brush_column
  brush_column-Returns zero middle below bx by current r b e g = record {
    after = b;
    result = refl;
    number = e;
    gives = g;
  }
  brush_column-Returns (suc n) middle below bx by current r b e g =
      Returns-then
        (subst
          (λ k.
            Returns k (
              brush_point driver font mem unset heap_bottom (suc fuel) middle below bx by current
                b))
          e (brush_point-Returns middle below bx by current b g))
        (brush_column-Returns n middle below bx (add32 by 1) current r)

  brush-Returns :
      (n : ℕ) (middle : Point) (below bx : ℕ) (current : Point) (r : ℕ) (b : Boot V)
      → b.random_number ≡ r
      → Gives (heap_of b)
      → Returns r (brush driver font mem unset heap_bottom (suc fuel) n middle below bx current b)
  unfolding brush
  brush-Returns zero middle below bx current r b e g = record {
    after = b;
    result = refl;
    number = e;
    gives = g;
  }
  brush-Returns (suc n) middle below bx current r b e g =
      Returns-then (brush_column-Returns 11 middle below bx (2 ^ 32 - 5) current r b e g)
        (brush-Returns n middle below (add32 bx 1) current r)

  count_on :
      (b : Boot V) (r : ℕ)
      → b.random_number ≡ r
      → r < 100
      → count driver font mem unset heap_bottom (suc fuel) b
        ≡ done (record b { random_number = r + 1 })
  unfolding count
  count_on b r e h = rw e (ground arith)

  count_out :
      (b : Boot V)
      → b.random_number ≡ 100
      → count driver font mem unset heap_bottom (suc fuel) b ≡ panic failed_to_load 0x12345
  unfolding count
  count_out b e = rw e refl

  sweep_panics :
      (n : ℕ) (middle : Point) (below : ℕ) (at : ℕ × ℕ) (r : ℕ) (b : Boot V)
      → b.random_number ≡ r
      → Gives (heap_of b)
      → r ≤ 100
      → 100 < r + n
      → sweep driver font mem unset heap_bottom (suc fuel) n middle below at b
        ≡ panic failed_to_load 0x12345
  unfolding sweep heap_of
  sweep_panics zero middle below at r b e g h l = absurd (omega arith)
  sweep_panics (suc n) middle below at r b e g h l =
      let current : Point = record { x = add32 middle.x at.0; y = add32 middle.y at.1 } in
      let x = brush-Returns 11 middle below (2 ^ 32 - 5) current r b e g in
      elim (Bool-cases (ltb r 100)) [
        | inl more ↦
            rw (x.result, count_on x.after r x.number (ground arith))
              (sweep_panics n middle below (rotate at) (r + 1)
                (record x.after { random_number = r + 1 }) refl x.gives (ground arith)
                (omega arith))
        | inr last ↦
            let full : r ≡ 100 = ground arith in
            rw (x.result, count_out x.after (x.number ∙ full)) refl
      ]

  frame_panics :
      (b : Boot V)
      → b.random_number ≡ 0
      → Gives (heap_of b)
      → frame driver font mem unset heap_bottom (suc fuel) b ≡ panic failed_to_load 0x12345
  unfolding frame heap_of with_gpu
  frame_panics b e g = sweep_panics 180 _ _ _ 0 _ e g (omega arith) (omega arith)

  sweep-Returns :
      (n : ℕ) (middle : Point) (below : ℕ) (at : ℕ × ℕ) (r : ℕ) (b : Boot V)
      → b.random_number ≡ r
      → Gives (heap_of b)
      → r + n ≤ 100
      → Returns (r + n) (sweep driver font mem unset heap_bottom (suc fuel) n middle below at b)
  unfolding sweep heap_of
  sweep-Returns zero middle below at r b e g h = record {
    after = b;
    result = refl;
    number = e ∙ omega arith;
    gives = g;
  }
  sweep-Returns (suc n) middle below at r b e g h =
      let current : Point = record { x = add32 middle.x at.0; y = add32 middle.y at.1 } in
      let x = brush-Returns 11 middle below (2 ^ 32 - 5) current r b e g in
      let rest =
        sweep-Returns n middle below (rotate at) (r + 1) (record x.after { random_number = r + 1 })
          refl x.gives (omega arith) in
      let same : r + 1 + n ≡ r + suc n = omega arith in
      rw (x.result, count_on x.after r x.number (omega arith), ← same) rest

  from_zero : (n : ℕ) → 0 + n ≡ n
  from_zero n = omega arith

  -- With the number at 0, as it is when the kernel starts, and an allocator that has a block of 256
  -- bytes to give: the first 100 steps of a sweep, however it is placed, count up to 100 and come
  -- to an end, the 101st ends in the panic "Failed to load", and so does the process, in its first
  -- sweep of 180 steps.
  pub bootscreen_panics :
      (n rounds : ℕ) (middle : Point) (below : ℕ) (at : ℕ × ℕ) (b : Boot V)
      → n ≤ 100
      → b.random_number ≡ 0
      → Gives (heap_of b)
      → Returns n (sweep driver font mem unset heap_bottom (suc fuel) n middle below at b)
        × (sweep driver font mem unset heap_bottom (suc fuel) 101 middle below at b
            ≡ panic failed_to_load 0x12345)
        × (bootscreen driver font mem unset heap_bottom (suc fuel) (suc rounds) b
            ≡ panic failed_to_load 0x12345)
  unfolding bootscreen frames heap_of
  bootscreen_panics n rounds middle below at b few e g = (
    subst (λ k. Returns k (sweep driver font mem unset heap_bottom (suc fuel) n middle below at b))
        (from_zero n) (sweep-Returns n middle below at 0 b e g (omega arith)),
    sweep_panics 101 middle below at 0 b e g (omega arith) (omega arith),
    rw (frame_panics (record b { io = disable_visual b.io }) e g) refl,
  )
