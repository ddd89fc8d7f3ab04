-- ===== src/Bootloader/Framebuffer/Layout.antt =====
-- Where bootloader/src/framebuffer/mod.rs draws the characters of a text.
use native.Mathlib.Decide.{dec_lt}
use an_os_in_rust.Base.{
  ℕ, ◌+◌, ◌-◌, ◌*◌, ◌/◌, ◌%◌, ◌<◌, ◌≤◌, ◌≡◌, refl, sym, subst, ap₂, ◌∙◌, ◌==◌, leb, true, false,
  Bool-cases, inl, inr, [], ◌∷◌, Outcome, ok, ◌>>=◌, length, get_elem?-lt, lt→ltb, arith,
}
use an_os_in_rust.Net.Ethernet.{Bytes}
use an_os_in_rust.Bootloader.Font.{font_width, font_height, Font, get_glyph, Glyph}
use an_os_in_rust.Bootloader.Framebuffer.{
  Gop, Framebuffer, newline, pixels_of_bitmap, write_char_impl, write_str,
}

-- A character that the font has.
abbrev pub ArePrintable : Bytes → Type 0
ArePrintable [] = Unit {0}
ArePrintable (c ∷ cs) = (32 ≤ c) × (c ≤ 127) × ArePrintable cs

-- The cursor stands behind the first `k` places of the screen, counted along its rows.
pub record IsBehind (k : ℕ) (fb : Framebuffer) : Type 0 where
  pub columns : 0 < fb.n_col
  pub glyphs : length fb.font ≡ 96
  pub in_row : fb.cursor_x ≤ fb.n_col
  pub counted : fb.cursor_y * fb.n_col + fb.cursor_x ≡ k

module _ {W : Type 0} (gop : Gop W) where
  -- The characters of a text, drawn to the places from `k` on: each to the column and the row that
  -- division by the number of columns gives.
  unfoldable pub draw_from : ℕ → ℕ → Font → Bytes → W → Outcome W
  draw_from n_col k font [] w = ok w
  draw_from n_col k font (c ∷ cs) w = do
    glyph ← get_glyph font c
    draw_from n_col (k + 1) font cs
        (gop.buffer_to_video (pixels_of_bitmap glyph.bitmap) font_width
          (k % n_col * font_width, k / n_col * font_height) (font_width, font_height) w).1

  place : (x y n : ℕ) → x < n → ((y * n + x) % n ≡ x) × ((y * n + x) / n ≡ y)
  place x y n h = grind arith

  more_rows : (y n rows : ℕ) → y * n + n < n * rows → y < rows
  more_rows y n rows h = elim (dec_lt y rows) [
    | yes below ↦ below
    | no above ↦ absurd (grind (arith, above, h))
  ]

  -- One character, and the cursor behind it.
  write_char_impl-draws :
      (c k : ℕ) (fb : Framebuffer) (w : W)
      → 32 ≤ c
      → c ≤ 127
      → IsBehind k fb
      → k < fb.n_col * fb.n_row
      → (fb' : Framebuffer) × (g : Glyph) × (get_glyph fb.font c ≡ ok g)
        × (write_char_impl gop c fb w
            ≡ ok (
              fb',
              (gop.buffer_to_video
                  (pixels_of_bitmap g.bitmap)
                  font_width
                  (k % fb.n_col * font_width, k / fb.n_col * font_height)
                  (font_width, font_height)
                  w).1,
            ))
        × IsBehind (k + 1) fb'
        × (fb'.n_col ≡ fb.n_col)
        × (fb'.n_row ≡ fb.n_row)
        × (fb'.font ≡ fb.font)
  unfolding write_char_impl newline get_glyph
  write_char_impl-draws c k fb w low high v room =
      let printable : (c == b'\n') ≡ false = ground (arith, low) in
      let (g, found) = get_elem?-lt fb.font (c - 32) (omega (arith, v.glyphs, low, high)) in
      let index : leb 32 c ≡ true = ground (arith, low) in
      elim (Bool-cases (leb fb.n_col fb.cursor_x)) [
        | inl full ↦
            let at_end : fb.cursor_x ≡ fb.n_col = ground (arith, full, v.in_row) in
            let line_end : k ≡ (fb.cursor_y + 1) * fb.n_col + 0 =
              grind (arith, at_end, v.counted) in
            let more =
              lt→ltb fb.cursor_y fb.n_row (
                more_rows fb.cursor_y fb.n_col fb.n_row (omega (arith, room, at_end, v.counted))) in
            let (column, line) = place 0 (fb.cursor_y + 1) fb.n_col v.columns in
            (
              record fb { cursor_x = 1; cursor_y = fb.cursor_y + 1 },
              g,
              rw (index, found) refl,
              rw (printable, full, more, index, found, line_end, column, line) refl,
              record {
                columns = v.columns;
                glyphs = v.glyphs;
                in_row = omega (arith, v.columns);
                counted = omega (arith, line_end);
              },
              refl,
              refl,
              refl,
            )
        | inr free ↦
            let inside : fb.cursor_x < fb.n_col = ground (arith, free) in
            let (column, line) = place fb.cursor_x fb.cursor_y fb.n_col inside in
            (
              record fb { cursor_x = fb.cursor_x + 1 },
              g,
              rw (index, found) refl,
              rw (printable, free, index, found, sym v.counted, column, line) refl,
              record {
                columns = v.columns;
                glyphs = v.glyphs;
                in_row = omega (arith, inside);
                counted = omega (arith, v.counted);
              },
              refl,
              refl,
              refl,
            )
      ]

  -- On a screen of `n_col` columns and `n_row` rows, with the cursor behind the first `k` places: a text
  -- of characters from 32 to 127 that fits the places left is written, each character to the next
  -- place along the rows, and the cursor stands behind the last.
  pub write_str-draw_from :
      (cs : Bytes) (k : ℕ) (fb : Framebuffer) (w : W)
      → ArePrintable cs
      → IsBehind k fb
      → k + length cs ≤ fb.n_col * fb.n_row
      → (fb' : Framebuffer) × (w' : W) × (draw_from fb.n_col k fb.font cs w ≡ ok w')
        × (write_str gop cs fb w ≡ ok (fb', w'))
        × IsBehind (k + length cs) fb'
  unfolding write_str draw_from
  write_str-draw_from [] k fb w p v room =
      (fb, w, refl, refl, subst (λ j. IsBehind j fb) (omega arith) v)
  write_str-draw_from (c ∷ cs) k fb w (low, high, p) v room =
      let (fb1, g, found, e, v1, cols, rows, font) =
        write_char_impl-draws c k fb w low high v (omega (arith, room)) in
      let w1 =
        (gop.buffer_to_video (pixels_of_bitmap g.bitmap) font_width
          (k % fb.n_col * font_width, k / fb.n_col * font_height) (font_width, font_height) w).1 in
      let (fb', w', drawn, written, v') =
        write_str-draw_from cs (k + 1) fb1 w1 p v1 (rw (cols, rows) (omega (arith, room))) in
      (
        fb',
        w',
        rw (found) (ap₂ (λ n f. draw_from n (k + 1) f cs w1) (sym cols) (sym font) ∙ drawn),
        rw (e) written,
        subst (λ j. IsBehind j fb') (omega arith) v',
      )
