-- ===== src/Examples/Screen.antt =====
-- Two characters on a screen of one column.
use an_os_in_rust.Base.{ℕ, ◌≡◌, refl, true, List, [], ◌∷◌, ok, replicate, arith}
use an_os_in_rust.Bootloader.Font.{Glyph}
use an_os_in_rust.Bootloader.Framebuffer.{Gop, Framebuffer, write_str}
use an_os_in_rust.Bootloader.Framebuffer.Layout.{IsBehind, draw_from, write_str-draw_from}

-- A screen that lists the places of what is drawn.
abbrev Places : Type 0
Places = List (ℕ × ℕ)

abbrev listing : Gop Places
listing = record {
  resolution = λ w. (8, 32);
  stride = λ w. 8;
  frame_buffer = λ w. (0, 1024);
  video_fill = λ color at size w. (true, w);
  buffer_to_video = λ pixels width at size w. (true, at ∷ w);
}

abbrev empty_glyph : Glyph
empty_glyph = record { codepoint = 0; bitmap = [] }

abbrev cleared : Framebuffer
cleared = record {
  pixel_width = 8;
  pixel_height = 32;
  n_col = 1;
  n_row = 2;
  cursor_x = 0;
  cursor_y = 0;
  font = replicate 96 empty_glyph;
}

cleared-IsBehind : IsBehind 0 cleared
cleared-IsBehind = record {
  columns = omega arith;
  glyphs = refl;
  in_row = omega arith;
  counted = refl;
}

write_str-draw_from_example :
    (fb' : Framebuffer) × (w' : Places) × (draw_from listing 1 0 cleared.font (b'o' ∷ b'k' ∷ []) []
      ≡ ok w')
    × (write_str listing (b'o' ∷ b'k' ∷ []) cleared [] ≡ ok (fb', w'))
    × IsBehind 2 fb'
write_str-draw_from_example =
    write_str-draw_from listing (b'o' ∷ b'k' ∷ []) 0 cleared []
      (omega arith, omega arith, (omega arith, omega arith, tt)) cleared-IsBehind (omega arith)
