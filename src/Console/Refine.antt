-- ===== src/Console/Refine.antt =====
-- The console of kernel/console/kconsole/kconsole.cpp against the terminal of Console.Terminal:
-- each operation on the ring of rows beside its effect on the grid.
use craybond_os.Base.{
  ℕ, ◌+◌, ◌<◌, ◌≡◌, refl, true, false, leb, ◌==◌, if◌then◌else◌, arith, inl, inr, add32, sub32,
  Bool-cases, ap, ap₂, sym, ◌∙◌, List, [], ◌∷◌,
}
use craybond_os.Outcome.{Outcome, done}
use craybond_os.Screen.Gpu.{VirtioGpu, gpu_ready, gpu_clear}
use craybond_os.Console.{
  Kernel, end_row, scroll_ready, store_char, check_ready, scroll, newline_ready, newline,
  put_char_ready, put_char, put_chars, put_string,
}
use craybond_os.Console.Terminal.{
  Terminal, put_cell, feed, draw_cell, paint, paint_rows, line_feed, type_char, type_text,
}
use craybond_os.Console.Picture.{place_lem, scroll_ready-paint_rows}
use craybond_os.Console.Valid.{IsValid, cell_at, scroll_ready-ready, draw_char-ready}
use craybond_os.Console.Cells.{
  moved_IsLaid, moved_cell_at, end_row-cells, store_char-cells, scroll_ready-cells,
  scroll_ready-IsLaid,
}

-- The console holds what stands on the terminal, with its cursor where the terminal's is, and the
-- same has been drawn.
pub record Shows {V : Type 0} (k : Kernel V) (t : Terminal V) : Type 0 where
  pub drawn : k.gpu ≡ t.gpu
  pub columns : t.columns ≡ k.console.columns
  pub rows : t.rows ≡ k.console.rows
  pub x : t.x ≡ k.console.cursor_x
  pub y : t.y ≡ k.console.cursor_y
  pub cells : (y x : ℕ) → y < k.console.rows → x < k.console.columns → cell_at k y x ≡ t.cell y x

-- What a call comes to that keeps the console valid and shows the terminal `t`.
pub record Refines {V : Type 0} (driver : VirtioGpu V) (o : Outcome (Kernel V)) (t : Terminal V)
    : Type 0 where
  pub kernel : Kernel V
  pub result : o ≡ done kernel
  pub valid : IsValid driver kernel
  pub shows : Shows kernel t

-- The terminal behind a character for which there is room.
abbrev typed : {V : Type 0} → VirtioGpu V → (ℕ → ℕ → ℕ) → ℕ → Terminal V → Terminal V
typed driver font ch t = record t {
  cell = put_cell t.cell t.y t.x ch;
  x = t.x + 1;
  gpu = draw_cell driver font t.y t.x ch t.gpu;
}

-- The tests of `type_char`, by those of `put_char`.
module _ {V : Type 0} (driver : VirtioGpu V) (font : ℕ → ℕ → ℕ) (k : Kernel V) (t : Terminal V)
    (s : Shows k t) where
  type_full :
      leb k.console.columns k.console.cursor_x ≡ true
      → (if leb t.columns t.x then line_feed driver font t else t) ≡ line_feed driver font t
  type_full e = let f : leb t.columns t.x ≡ true = ground (arith, s.columns, s.x) in rw f refl

  type_room :
      leb k.console.columns k.console.cursor_x ≡ false
      → (if leb t.columns t.x then line_feed driver font t else t) ≡ t
  type_room e = let f : leb t.columns t.x ≡ false = ground (arith, s.columns, s.x) in rw f refl

module _ {V : Type 0} (driver : VirtioGpu V) (font : ℕ → ℕ → ℕ) (ch : ℕ) (t : Terminal V) where
  type_newline : (ch == b'\n') ≡ true → type_char driver font ch t ≡ line_feed driver font t
  unfolding type_char
  type_newline e = rw e refl

  type_plain :
      (ch == b'\n') ≡ false
      → let t' = if leb t.columns t.x then line_feed driver font t else t in
        type_char driver font ch t ≡ typed driver font ch t'
  unfolding type_char
  type_plain e = rw e refl

room_after :
    {V : Type 0} (driver : VirtioGpu V) (font : ℕ → ℕ → ℕ) (t : Terminal V)
    → 0 < t.columns
    → let t' = if leb t.columns t.x then line_feed driver font t else t in t'.x < t'.columns
unfolding line_feed feed
room_after driver font t h = ground arith

module _ {V : Type 0} (driver : VirtioGpu V) (font : ℕ → ℕ → ℕ) where
  paint_same :
      (t : Terminal V) (k : Kernel V)
      → Shows k t
      → paint_rows driver font k.console.rows k.console.columns
          (feed t).cell
          0
          (gpu_clear driver 0 k.gpu)
        ≡ paint driver font (feed t)
  unfolding paint feed
  paint_same t k s =
      ap
        (λ g.
          paint_rows driver font k.console.rows k.console.columns (feed t).cell 0
            (gpu_clear driver 0 g))
        s.drawn
      ∙ ap₂ (λ a b. paint_rows driver font a b (feed t).cell 0 (gpu_clear driver 0 t.gpu))
          (sym s.rows) (sym s.columns)

  line_feed-paint :
      (t : Terminal V)
      → (t.y + 1 == t.rows) ≡ true
      → (line_feed driver font t).gpu ≡ paint driver font (feed t)
  unfolding line_feed
  line_feed-paint t e = rw e refl

  drawn_at :
      (ch : ℕ) (k : Kernel V) (t : Terminal V)
      → Shows k t
      → draw_cell driver font k.console.cursor_y k.console.cursor_x ch k.gpu
        ≡ draw_cell driver font t.y t.x ch t.gpu
  drawn_at ch k t s =
      ap₂ (λ a b. draw_cell driver font a b ch k.gpu) (sym s.y) (sym s.x)
      ∙ ap (draw_cell driver font t.y t.x ch) s.drawn

module _ {V : Type 0} (driver : VirtioGpu V) (font : ℕ → ℕ → ℕ) (heap_bottom fuel : ℕ) where
  check_ready-done :
      (k : Kernel V)
      → gpu_ready driver k.gpu ≡ true
      → k.console.is_initialized ≡ true
      → check_ready driver font heap_bottom fuel k ≡ done (true, k)
  unfolding check_ready
  check_ready-done k ready initialized = rw (ready, initialized) refl

  newline_room :
      (k : Kernel V) (t : Terminal V)
      → IsValid driver k
      → Shows k t
      → leb k.console.rows (add32 k.console.cursor_y 1) ≡ false
      → Refines driver (newline driver font heap_bottom fuel k) (line_feed driver font t)
  unfolding newline newline_ready line_feed feed end_row
  newline_room k t v s room =
      let w = v.console in
      let few = w.laid.few_rows in
      record {
        kernel = end_row k;
        result = rw (check_ready-done k v.ready w.initialized, room) refl;
        valid = record {
          console = record {
            initialized = w.initialized;
            laid = moved_IsLaid 0 _ w.laid;
            x_within = omega arith;
            y_within = ground arith;
          };
          ready = v.ready;
        };
        shows = record {
          drawn = let e : (t.y + 1 == t.rows) ≡ false = ground (arith, s.y, s.rows) in rw e s.drawn;
          columns = s.columns;
          rows = s.rows;
          x = refl;
          y = ground arith;
          cells = λ y x h g. ground (arith, end_row-cells k y x w h g, s.cells y x h g);
        };
      }

  -- The ring after `scroll` stands for the grid after the line feed.
  scrolled_grid :
      (k : Kernel V) (t : Terminal V)
      → IsValid driver k
      → Shows k t
      → leb k.console.rows (add32 k.console.cursor_y 1) ≡ true
      → (y x : ℕ) → y < k.console.rows
      → x < k.console.columns
      → cell_at (scroll_ready driver font (end_row k)) y x ≡ (feed t).cell y x
  unfolding end_row feed
  scrolled_grid k t v s full y x h g =
      let w = v.console in
      let few = w.laid.few_rows in
      let laid = moved_IsLaid 0 (add32 k.console.cursor_y 1) w.laid in
      ground (
        arith,
        scroll_ready-cells driver font (end_row k) y x laid h g,
        end_row-cells k (y + 1) x w,
        s.cells (y + 1) x,
        s.rows,
        s.x,
        s.y,
      )

  newline_full :
      (k : Kernel V) (t : Terminal V)
      → IsValid driver k
      → Shows k t
      → leb k.console.rows (add32 k.console.cursor_y 1) ≡ true
      → Refines driver (newline driver font heap_bottom fuel k) (line_feed driver font t)
  unfolding newline newline_ready line_feed feed paint end_row scroll
  newline_full k t v s full =
      let w = v.console in
      let c = k.console in
      let few = w.laid.few_rows in
      let scrolled = scroll_ready driver font (end_row k) in
      let laid =
        scroll_ready-IsLaid driver font (end_row k) (moved_IsLaid 0 (add32 c.cursor_y 1) w.laid) in
      let grid = scrolled_grid k t v s full in
      record {
        kernel = record scrolled {
          console = record scrolled.console { cursor_y = sub32 c.rows 1 };
        };
        result =
            rw
              (
                check_ready-done k v.ready w.initialized,
                full,
                check_ready-done (end_row k) v.ready w.initialized,
              )
              refl;
        valid = record {
          console = record {
            initialized = w.initialized;
            laid = moved_IsLaid 0 (sub32 c.rows 1) laid;
            x_within = omega arith;
            y_within = ground arith;
          };
          ready = scroll_ready-ready driver font (end_row k) ∙ v.ready;
        };
        shows = record {
          drawn =
              let e : (t.y + 1 == t.rows) ≡ true = ground (arith, s.y, s.rows) in
              scroll_ready-paint_rows driver font (end_row k) (feed t).cell w.laid.few_rows
                w.laid.few_columns grid
              ∙ paint_same driver font t k s
              ∙ sym (line_feed-paint driver font t e);
          columns = s.columns;
          rows = s.rows;
          x = refl;
          y = ground arith;
          cells = λ y x h g. moved_cell_at scrolled 0 (sub32 c.rows 1) y x ∙ grid y x h g;
        };
      }

  newline-Refines :
      (k : Kernel V) (t : Terminal V)
      → IsValid driver k
      → Shows k t
      → Refines driver (newline driver font heap_bottom fuel k) (line_feed driver font t)
  newline-Refines k t v s = elim (Bool-cases (leb k.console.rows (add32 k.console.cursor_y 1))) [
    | inl full ↦ newline_full k t v s full
    | inr room ↦ newline_room k t v s room
  ]

  store_char-Refines :
      (ch : ℕ) (k : Kernel V) (t : Terminal V)
      → IsValid driver k
      → Shows k t
      → k.console.cursor_x < k.console.columns
      → Refines driver (done (store_char driver font ch k)) (typed driver font ch t)
  unfolding store_char
  store_char-Refines ch k t v s room =
      let w = v.console in
      let c = k.console in
      let few = w.laid.few_columns in
      record {
        kernel = store_char driver font ch k;
        result = refl;
        valid = record {
          console = record {
            initialized = w.initialized;
            laid = moved_IsLaid (add32 c.cursor_x 1) c.cursor_y w.laid;
            x_within = omega arith;
            y_within = w.y_within;
          };
          ready = draw_char-ready driver font k.gpu _ ch ∙ v.ready;
        };
        shows = record {
          drawn =
              place_lem driver font c.cursor_y c.cursor_x ch k.gpu (omega arith) (omega arith)
              ∙ drawn_at driver font ch k t s;
          columns = s.columns;
          rows = s.rows;
          x = omega (arith, s.x);
          y = s.y;
          cells = λ y x h g.
              ground (arith, s.cells y x h g, store_char-cells driver font ch k y x w room h g);
        };
      }

  -- What `put_char` does before it stores the character.
  make_room-Refines :
      (k : Kernel V) (t : Terminal V)
      → IsValid driver k
      → Shows k t
      → Refines driver
          (if leb k.console.columns k.console.cursor_x
            then newline driver font heap_bottom fuel k
            else done k)
          (if leb t.columns t.x then line_feed driver font t else t)
  make_room-Refines k t v s = elim (Bool-cases (leb k.console.columns k.console.cursor_x)) [
    | inl full ↦ rw full (rw (type_full driver font k t s full) (newline-Refines k t v s))
    | inr room ↦ rw room (
        rw (type_room driver font k t s room)
          (record { kernel = k; result = refl; valid = v; shows = s }))
  ]

  -- `put_char` on a ready console, by what it does to make room.
  put_char-step :
      (ch : ℕ) (k : Kernel V) {k' : Kernel V}
      → IsValid driver k
      → (ch == b'\n') ≡ false
      → (if leb k.console.columns k.console.cursor_x
          then newline driver font heap_bottom fuel k
          else done k)
        ≡ done k'
      → put_char driver font heap_bottom fuel ch k ≡ done (store_char driver font ch k')
  unfolding put_char put_char_ready
  put_char-step ch k v plain room =
      rw (check_ready-done k v.ready v.console.initialized, plain, room) refl

  newline-step :
      (k : Kernel V)
      → IsValid driver k
      → newline driver font heap_bottom fuel k ≡ newline_ready driver font heap_bottom fuel k
  unfolding newline
  newline-step k v = rw (check_ready-done k v.ready v.console.initialized) refl

  put_char-newline :
      (ch : ℕ) (k : Kernel V)
      → IsValid driver k
      → (ch == b'\n') ≡ true
      → put_char driver font heap_bottom fuel ch k ≡ newline driver font heap_bottom fuel k
  unfolding put_char put_char_ready
  put_char-newline ch k v nl =
      rw (check_ready-done k v.ready v.console.initialized, nl) (newline-step k v)

  pub put_char-Refines :
      (ch : ℕ) (k : Kernel V) (t : Terminal V)
      → IsValid driver k
      → Shows k t
      → Refines driver (put_char driver font heap_bottom fuel ch k) (type_char driver font ch t)
  put_char-Refines ch k t v s = elim (Bool-cases (ch == b'\n')) [
    | inl nl ↦
        rw (put_char-newline ch k v nl, type_newline driver font ch t nl) (newline-Refines k t v s)
    | inr plain ↦
        let made = make_room-Refines k t v s in
        let col : made.kernel.console.cursor_x < made.kernel.console.columns =
          rw (← made.shows.x, ← made.shows.columns)
            (room_after driver font t (rw s.columns v.console.laid.some_columns)) in
        rw (put_char-step ch k v plain made.result, type_plain driver font ch t plain)
          (store_char-Refines ch made.kernel _ made.valid made.shows col)
  ]

  pub put_chars-Refines :
      (str : List ℕ) (k : Kernel V) (t : Terminal V)
      → IsValid driver k
      → Shows k t
      → Refines driver (put_chars driver font heap_bottom fuel str k) (type_text driver font str t)
  unfolding put_chars type_text
  put_chars-Refines [] k t v s = record { kernel = k; result = refl; valid = v; shows = s }
  put_chars-Refines (ch ∷ str) k t v s = elim (Bool-cases (ch == 0)) [
    | inl stop ↦ rw stop (record { kernel = k; result = refl; valid = v; shows = s })
    | inr more ↦
        let first = put_char-Refines ch k t v s in
        rw (more, first.result)
          (put_chars-Refines str first.kernel (type_char driver font ch t) first.valid first.shows)
  ]

  -- On a valid console `put_string` ends without a panic, with a valid console again, and does
  -- exactly what the terminal does on the same text: the grid of rows that `scroll` turns as a ring
  -- is the terminal's grid, the cursor is where the terminal's is, and what has been drawn is what
  -- the terminal draws, each character at its place and the whole grid anew on a cleared screen
  -- when it moves.
  pub put_string-Refines :
      (str : List ℕ) (k : Kernel V) (t : Terminal V)
      → IsValid driver k
      → Shows k t
      → Refines driver (put_string driver font heap_bottom fuel str k) (type_text driver font str t)
  unfolding put_string
  put_string-Refines str k t v s =
      rw (check_ready-done k v.ready v.console.initialized) (put_chars-Refines str k t v s)
