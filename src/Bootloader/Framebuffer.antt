-- ===== src/Bootloader/Framebuffer.antt =====
-- bootloader/src/framebuffer/mod.rs: the text that the boot loader shows. The firmware's graphics
-- output is the parameter `Gop`, with its state `W`. Coordinates are taken to fit 64 bits.
pub mod Layout
use an_os_in_rust.Base.{
  ℕ, ◌+◌, ◌*◌, ◌/◌, ◌==◌, ltb, leb, if◌then◌else◌, Bool, List, [], ◌∷◌, ◌++◌, map, Outcome, ok,
  ◌>>=◌, expect, checked_sub, get_elem?,
}
use an_os_in_rust.Net.Ethernet.{Bytes}
use an_os_in_rust.Bootloader.Font.{font_width, font_height, Bitmap, Font, parse_bdf}

-- `BltPixel`
pub record Pixel : Type 0 where
  pub red : ℕ
  pub green : ℕ
  pub blue : ℕ

pub record Gop (W : Type 0) : Type 0 where
  pub resolution : W → ℕ × ℕ
  pub stride : W → ℕ
  pub frame_buffer : W → ℕ × ℕ
  -- `BltOp::VideoFill` and `BltOp::BufferToVideo`, with the place and the size on the screen
  pub video_fill : Pixel → ℕ × ℕ → ℕ × ℕ → W → Bool × W
  pub buffer_to_video : List Pixel → ℕ → ℕ × ℕ → ℕ × ℕ → W → Bool × W

pub record Framebuffer : Type 0 where
  pub pixel_width : ℕ
  pub pixel_height : ℕ
  pub n_col : ℕ
  pub n_row : ℕ
  pub cursor_x : ℕ
  pub cursor_y : ℕ
  pub font : Font

-- `bootlib::types::RawFramebuffer`; the format of a pixel is left out.
pub record RawFramebuffer : Type 0 where
  pub framebuffer_base : ℕ
  pub framebuffer_size : ℕ
  pub horizontal_resolution : ℕ
  pub vertical_resolution : ℕ
  pub pixels_per_scan_line : ℕ

abbrev pub foreground : Pixel
foreground = record { red = 0xee; green = 0xee; blue = 0xee }

abbrev pub background : Pixel
background = record { red = 0x35; green = 0x33; blue = 0x2b }

unfoldable pub newline : Framebuffer → Framebuffer
newline fb =
    if ltb fb.cursor_y fb.n_row then record fb { cursor_x = 0; cursor_y = fb.cursor_y + 1 } else fb

-- The two loops over a bitmap.
unfoldable pub pixels_of_row : List ℕ → List Pixel
pixels_of_row [] = []
pixels_of_row (b ∷ bs) = (if b == 1 then foreground else background) ∷ pixels_of_row bs

unfoldable pub pixels_of_bitmap : Bitmap → List Pixel
pixels_of_bitmap [] = []
pixels_of_bitmap (row ∷ rows) = pixels_of_row row ++ pixels_of_bitmap rows

module _ {W : Type 0} (gop : Gop W) where
  unfoldable pub new : Bytes → W → Outcome Framebuffer
  new text w = do
    font ← parse_bdf text
    let (width, height) = gop.resolution w
    ok (record {
      pixel_width = width;
      pixel_height = height;
      n_col = width / font_width;
      n_row = height / font_height;
      cursor_x = 0;
      cursor_y = 0;
      font = font;
    })

  -- `Ok(())` is `true`.
  unfoldable pub init : W → Bool × W
  init w = gop.video_fill background (0, 0) (gop.resolution w) w

  unfoldable pub write_char_impl : ℕ → Framebuffer → W → Outcome (Framebuffer × W)
  unfolding newline
  write_char_impl c fb w =
      let at = if leb fb.n_col fb.cursor_x then newline fb else fb in
      let drawn = do
        index ← checked_sub c 32
        glyph ← expect (get_elem? at.font index)
        let (_, w') =
            gop.buffer_to_video (pixels_of_bitmap glyph.bitmap) font_width
              (at.cursor_x * font_width, at.cursor_y * font_height) (font_width, font_height) w
        ok (record at { cursor_x = at.cursor_x + 1 }, w')
      in if c == b'\n' then ok (newline fb, w) else drawn

  unfoldable pub write_str : Bytes → Framebuffer → W → Outcome (Framebuffer × W)
  write_str [] fb w = ok (fb, w)
  write_str (c ∷ cs) fb w = do (fb', w') ← write_char_impl c fb w; write_str cs fb' w'

  unfoldable pub raw_framebuffer : W → RawFramebuffer
  raw_framebuffer w =
      let (base, size) = gop.frame_buffer w in
      let (hr, vr) = gop.resolution w in
      record {
        framebuffer_base = base;
        framebuffer_size = size;
        horizontal_resolution = hr;
        vertical_resolution = vr;
        pixels_per_scan_line = gop.stride w;
      }
