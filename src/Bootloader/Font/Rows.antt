-- ===== src/Bootloader/Font/Rows.antt =====
-- A row of a glyph in bootloader/src/framebuffer/fonts.rs: four hexadecimal digits are sixteen pixels.
use mathlib.Core.List.{append_assoc}
use native.Mathlib.Decide.{ℕ_discrete}
use an_os_in_rust.Base.{
  ℕ, ◌+◌, ◌-◌, ◌/◌, ◌%◌, ◌<◌, ◌≡◌, refl, sym, ap, ◌∙◌, ltb, if◌then◌else◌, Option, none, some, List,
  [], ◌∷◌, ◌++◌, map, ok, bit_and, length, get_elem?, set, arith, get_elem?-lt, length-set,
  length-append, get_elem?-set_self, get_elem?-set_ne,
}
use an_os_in_rust.Base.Bits.{and_bit}
use an_os_in_rust.Net.Ethernet.{Bytes}
use an_os_in_rust.Bootloader.Font.{
  Bitmap, font_width, font_height, to_digit, paint_digit, paint_digits, paint, paint_row,
}

-- The character of a digit.
abbrev pub hex : ℕ → ℕ
hex d = if ltb d 10 then b'0' + d else b'A' + (d - 10)

to_digit-hex : (d : ℕ) → d < 16 → to_digit (hex d) ≡ some d
unfolding to_digit
to_digit-hex d h = ground arith

-- A row as the file has it: four digits, for four pixels each.
pub record HexRow : Type 0 where
  pub first : ℕ
  pub second : ℕ
  pub third : ℕ
  pub fourth : ℕ

pub record IsRow (r : HexRow) : Type 0 where
  pub first_digit : r.first < 16
  pub second_digit : r.second < 16
  pub third_digit : r.third < 16
  pub fourth_digit : r.fourth < 16

abbrev pub hex_line : HexRow → Bytes
hex_line r = hex r.first ∷ hex r.second ∷ hex r.third ∷ hex r.fourth ∷ []

-- The binary digits, the highest first.
abbrev pub bits : ℕ → List ℕ → List ℕ
bits d rest = (d / 8 % 2) ∷ (d / 4 % 2) ∷ (d / 2 % 2) ∷ (d % 2) ∷ rest

abbrev pub pixels_of : HexRow → List ℕ
pixels_of r = bits r.first (bits r.second (bits r.third (bits r.fourth [])))

abbrev painted : ℕ → List ℕ → List ℕ
painted d rest = (bit_and d 8 / 8) ∷ (bit_and d 4 / 4) ∷ (bit_and d 2 / 2) ∷ bit_and d 1 ∷ rest

painted-bits : (d : ℕ) (rest : List ℕ) → painted d rest ≡ bits d rest
painted-bits d rest = cc (eight, four, two, one)
  where
    eight : bit_and d 8 / 8 ≡ d / 8 % 2
    eight = omega (arith, and_bit 3 d)

    four : bit_and d 4 / 4 ≡ d / 4 % 2
    four = omega (arith, and_bit 2 d)

    two : bit_and d 2 / 2 ≡ d / 2 % 2
    two = omega (arith, and_bit 1 d)

    one : bit_and d 1 ≡ d % 2
    one = omega (arith, and_bit 0 d)

paint_four :
    (c0 c1 c2 c3 d0 d1 d2 d3 : ℕ) (a0 a1 a2 a3 a4 a5 a6 a7 a8 a9 b0 b1 b2 b3 b4 b5 : ℕ)
    → to_digit c0 ≡ some d0
    → to_digit c1 ≡ some d1
    → to_digit c2 ≡ some d2
    → to_digit c3 ≡ some d3
    → paint 4 []
        (c0 ∷ c1 ∷ c2 ∷ c3 ∷ [])
        (a0 ∷ a1 ∷ a2 ∷ a3 ∷ a4 ∷ a5 ∷ a6 ∷ a7 ∷ a8 ∷ a9 ∷ b0 ∷ b1 ∷ b2 ∷ b3 ∷ b4 ∷ b5 ∷ [])
      ≡ ok (painted d0 (painted d1 (painted d2 (painted d3 []))))
unfolding paint paint_digits paint_digit
paint_four c0 c1 c2 c3 d0 d1 d2 d3 a0 a1 a2 a3 a4 a5 a6 a7 a8 a9 b0 b1 b2 b3 b4 b5 h0 h1 h2 h3 =
    rw (h0, h1, h2, h3) refl

-- A row of sixteen pixels becomes those of the digits, whatever it was.
paint-pixels_of :
    (r : HexRow) (pixels : List ℕ)
    → IsRow r
    → length pixels ≡ font_width
    → paint 4 [] (hex_line r) pixels ≡ ok (pixels_of r)
paint-pixels_of r
      (a0 ∷ a1 ∷ a2 ∷ a3 ∷ a4 ∷ a5 ∷ a6 ∷ a7 ∷ a8 ∷ a9 ∷ b0 ∷ b1 ∷ b2 ∷ b3 ∷ b4 ∷ b5 ∷ []) v size =
    paint_four (hex r.first) (hex r.second) (hex r.third) (hex r.fourth) r.first r.second r.third
      r.fourth a0 a1 a2 a3 a4 a5 a6 a7 a8 a9 b0 b1 b2 b3 b4 b5 (to_digit-hex r.first v.first_digit)
      (to_digit-hex r.second v.second_digit) (to_digit-hex r.third v.third_digit)
      (to_digit-hex r.fourth v.fourth_digit)
    ∙ ap ok (
        painted-bits r.first _
        ∙ ap (bits r.first) (
            painted-bits r.second _
            ∙ ap (bits r.second)
                (painted-bits r.third _ ∙ ap (bits r.third) (painted-bits r.fourth []))))
paint-pixels_of r _ v size = absurd (omega (arith, size))

pub record IsBitmap (rows : Bitmap) : Type 0 where
  pub height : length rows ≡ font_height
  pub width :
      (i : ℕ) (pixels : List ℕ) → get_elem? rows i ≡ some pixels → length pixels ≡ font_width

pub paint_row-pixels_of :
    (r : HexRow) (row : ℕ) (rows : Bitmap)
    → IsRow r
    → IsBitmap rows
    → row < font_height
    → paint_row (hex_line r) row rows ≡ ok (set rows row (pixels_of r))
unfolding paint_row
paint_row-pixels_of r row rows v b low =
    let (pixels, here) = get_elem?-lt rows row (omega (arith, b.height)) in
    rw (here, paint-pixels_of r pixels v (b.width row pixels here)) refl

pub set-IsBitmap :
    (rows : Bitmap) (row : ℕ) (r : HexRow)
    → IsBitmap rows
    → row < font_height
    → IsBitmap (set rows row (pixels_of r))
set-IsBitmap rows row r b low = record {
  height = length-set rows row (pixels_of r) ∙ b.height;
  width = λ i pixels e. elim (ℕ_discrete row i) [
    | yes same ↦
        let found : some (pixels_of r) ≡ some pixels =
          sym (get_elem?-set_self rows row (pixels_of r) (omega (arith, b.height)))
          ∙ ap (get_elem? (set rows row (pixels_of r))) same
          ∙ e in
        ap (λ (o : Option (List ℕ)). elim o [ none ↦ 0 | some p ↦ length p ]) (sym found)
    | no other ↦ b.width i pixels (sym (get_elem?-set_ne rows row i (pixels_of r) other) ∙ e)
  ];
}

-- The rows of a glyph, one after the other from row `row` on.
unfoldable pub set_rows : ℕ → List HexRow → Bitmap → Bitmap
set_rows row [] rows = rows
set_rows row (r ∷ rs) rows = set_rows (row + 1) rs (set rows row (pixels_of r))

set-append :
    {A : Type 0} (done rest : List A) (x y : A)
    → set (done ++ x ∷ rest) (length done) y ≡ (done ++ y ∷ []) ++ rest
set-append [] rest x y = refl
set-append (d ∷ ds) rest x y = ap (◌∷◌ d) (set-append ds rest x y)

set_rows-append :
    (rs : List HexRow) (done rest : Bitmap)
    → length rest ≡ length rs
    → set_rows (length done) rs (done ++ rest) ≡ done ++ map pixels_of rs
unfolding set_rows
set_rows-append [] done [] e = refl
set_rows-append [] done (x ∷ xs) e = absurd (omega arith)
set_rows-append (r ∷ rs) done [] e = absurd (omega arith)
set_rows-append (r ∷ rs) done (x ∷ xs) e =
    ap (set_rows (length done + 1) rs) (set-append done xs x (pixels_of r))
    ∙ ap (λ k. set_rows k rs ((done ++ pixels_of r ∷ []) ++ xs))
        (sym (length-append done (pixels_of r ∷ [])))
    ∙ set_rows-append rs (done ++ pixels_of r ∷ []) xs (omega arith)
    ∙ append_assoc done (pixels_of r ∷ []) (map pixels_of rs)

-- Eighteen rows replace the bitmap.
pub set_rows_all :
    (rs : List HexRow) (rows : Bitmap)
    → length rs ≡ font_height
    → length rows ≡ font_height
    → set_rows 0 rs rows ≡ map pixels_of rs
set_rows_all rs rows e f = set_rows-append rs [] rows (f ∙ sym e)
