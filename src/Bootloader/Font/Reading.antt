-- ===== src/Bootloader/Font/Reading.antt =====
-- A character of a BDF file, and how bootloader/src/framebuffer/fonts.rs reads its lines.
use native.Mathlib.Decide.{ℕ_discrete}
use an_os_in_rust.Base.{
  ℕ, zero, suc, ◌+◌, ◌-◌, ◌<◌, ◌≤◌, ◌≡◌, refl, sym, subst, ap, ◌∙◌, ◌==◌, ltb, leb, if◌then◌else◌,
  true, false, ◌&&◌, ◌||◌, Bool-cases, ◌⊎◌, inl, inr, Option, none, some, List, [], ◌∷◌, ◌++◌, map,
  ok, length, get_elem?, set, arith, get_elem?-lt, get_elem?-set_self, get_elem?-set_ne, length-set,
}
use an_os_in_rust.Net.Ethernet.{Bytes}
use an_os_in_rust.Bootloader.Font.{
  codes, font_height, font_width, Glyph, Font, startchar, unused, Parser,
}
use an_os_in_rust.Bootloader.Font.Rows.{
  HexRow, hex_line, pixels_of, IsBitmap, set_rows, set_rows_all,
}
use an_os_in_rust.Bootloader.Font.Characters.{value, AreDigits}
use an_os_in_rust.Bootloader.Font.Steps.{
  run_lines, run_lines-append, start_line, start_line_step, encoding_line, encoding_line_used,
  encoding_line_unused, bitmap_line_used, bitmap_line_unused, end_line_used, end_line_unused,
}
use an_os_in_rust.Bootloader.Font.Drawing.{
  drawing, AreRows, run_rows, run_rows_unused, ArePlainLines, run_metrics, run_metrics_unused,
}

-- A character of a file: its name, its number, the lines in front of the bitmap, and its rows.
pub record Character : Type 0 where
  pub name : Bytes
  pub first_digit : ℕ
  pub more_digits : List ℕ
  pub metrics : List Bytes
  pub rows : List HexRow

abbrev pub number : Character → ℕ
number c = value 0 (c.first_digit ∷ c.more_digits)

pub record IsCharacter (c : Character) : Type 0 where
  pub digits : AreDigits (c.first_digit ∷ c.more_digits)
  pub numbered : (32 ≤ number c) ⊎ (number c ≡ 0)
  pub plain : ArePlainLines c.metrics
  pub height : length c.rows ≡ font_height
  pub are_rows : AreRows c.rows

unfoldable pub character_lines : Character → List Bytes
character_lines c =
    start_line c.name
    ∷ encoding_line (c.first_digit ∷ c.more_digits)
    ∷ (c.metrics ++ codes "BITMAP" ∷ (map hex_line c.rows ++ codes "ENDCHAR" ∷ []))

-- The font with a character in the place of its number, which is from 32 to 127.
unfoldable pub with_character : Character → Font → Font
with_character c f =
    if leb 32 (number c) && leb (number c) 127
    then set f (number c - 32) (record { codepoint = number c; bitmap = map pixels_of c.rows })
    else f

pub record IsFont (f : Font) : Type 0 where
  pub size : length f ≡ 96
  pub bitmaps : (i : ℕ) (g : Glyph) → get_elem? f i ≡ some g → IsBitmap g.bitmap

map-IsBitmap : (rs : List HexRow) → length rs ≡ font_height → IsBitmap (map pixels_of rs)
map-IsBitmap rs e = record { height = length-map rs ∙ e; width = widths rs }
  where
    length-map : (rs : List HexRow) → length (map pixels_of rs) ≡ length rs
    length-map [] = refl
    length-map (r ∷ rs) = ap suc (length-map rs)

    widths :
        (rs : List HexRow) (i : ℕ) (pixels : List ℕ)
        → get_elem? (map pixels_of rs) i ≡ some pixels
        → length pixels ≡ font_width
    widths [] i pixels h = cc
    widths (r ∷ rs) zero pixels h =
        ap (λ (o : Option (List ℕ)). elim o [ none ↦ 0 | some p ↦ length p ]) (sym h)
    widths (r ∷ rs) (suc i) pixels h = widths rs i pixels h

set-IsFont :
    (f : Font) (i : ℕ) (g : Glyph) → IsFont f → IsBitmap g.bitmap → i < 96 → IsFont (set f i g)
set-IsFont f i g v b low = record {
  size = length-set f i g ∙ v.size;
  bitmaps = λ j h e. elim (ℕ_discrete i j) [
    | yes same ↦
        let found : some g ≡ some h =
          sym (get_elem?-set_self f i g (omega (arith, v.size, low)))
          ∙ ap (get_elem? (set f i g)) same
          ∙ e in
        subst IsBitmap (ap (λ (o : Option Glyph). elim o [ none ↦ [] | some k ↦ k.bitmap ]) found) b
    | no other ↦ v.bitmaps j h (sym (get_elem?-set_ne f i j g other) ∙ e)
  ];
}

pub with_character-IsFont :
    (c : Character) (f : Font) → IsCharacter c → IsFont f → IsFont (with_character c f)
unfolding with_character
with_character-IsFont c f v w = elim (Bool-cases (leb 32 (number c) && leb (number c) 127)) [
  | inl used ↦
      rw (used)
        (set-IsFont f (number c - 32) _ w (map-IsBitmap c.rows v.height) (ground (arith, used)))
  | inr other ↦ rw (other) w
]

pub record Reads (c : Character) (s t : Parser) : Type 0 where
  pub runs : run_lines (character_lines c) s ≡ ok t
  pub idle : t.stack ≡ []
  pub glyphs_are : t.glyphs ≡ with_character c s.glyphs

character_used :
    (c : Character) (s : Parser)
    → IsCharacter c
    → s.stack ≡ []
    → IsFont s.glyphs
    → (leb 32 (number c) && leb (number c) 127) ≡ true
    → (t : Parser) × Reads c s t
unfolding character_lines run_lines with_character
character_used c s v idle w used =
    let n = number c in
    let low : 32 ≤ n = ground (arith, used) in
    let high : n ≤ 127 = ground (arith, used) in
    let inside : n - 32 < length s.glyphs = omega (arith, w.size, low, high) in
    let (old, found) = get_elem?-lt s.glyphs (n - 32) inside in
    let b : IsBitmap old.bitmap = w.bitmaps (n - 32) old found in
    let started = record s { row = 0; stack = startchar ∷ [] } in
    let numbered = record started {
      glyphs = set s.glyphs (n - 32) (record old { codepoint = n });
      glyph = n - 32;
    } in
    let done = drawing s.glyphs (n - 32) n (set_rows 0 c.rows old.bitmap) (0 + length c.rows) in
    (
      record done { stack = [] },
      record {
        runs =
            rw
              (
                start_line_step c.name s idle,
                encoding_line_used c.first_digit c.more_digits started old v.digits refl low high
                    found,
              )
              (run_lines-append c.metrics _ numbered numbered
                  (run_metrics c.metrics numbered v.plain refl)
                ∙ rw (bitmap_line_used numbered refl) (
                    run_lines-append (map hex_line c.rows) _ _ done (
                      run_rows s.glyphs (n - 32) n old.bitmap 0 c.rows inside v.are_rows b
                        (omega (arith, v.height)))
                    ∙ rw (end_line_used done refl) refl));
        idle = refl;
        glyphs_are = rw (used) (
            ap (λ m. set s.glyphs (n - 32) (record { codepoint = n; bitmap = m }))
              (set_rows_all c.rows old.bitmap v.height b.height));
      },
    )

left_out :
    (n : ℕ) → (32 ≤ n) ⊎ (n ≡ 0) → (leb 32 n && leb n 127) ≡ false → (ltb 127 n || n == 0) ≡ true
left_out n (inl low) other = ground (arith, low, other)
left_out n (inr is_zero) other = ground (arith, is_zero)

character_unused :
    (c : Character) (s : Parser)
    → IsCharacter c
    → s.stack ≡ []
    → (leb 32 (number c) && leb (number c) 127) ≡ false
    → (t : Parser) × Reads c s t
unfolding character_lines run_lines with_character
character_unused c s v idle other =
    let n = number c in
    let started = record s { row = 0; stack = startchar ∷ [] } in
    let skipping = record started { stack = unused ∷ startchar ∷ [] } in
    (
      record skipping { stack = [] },
      record {
        runs =
            rw
              (
                start_line_step c.name s idle,
                encoding_line_unused c.first_digit c.more_digits started v.digits refl
                    (left_out n v.numbered other),
              )
              (run_lines-append c.metrics _ skipping skipping
                  (run_metrics_unused c.metrics skipping v.plain refl)
                ∙ rw (bitmap_line_unused skipping refl) (
                    run_lines-append (map hex_line c.rows) _ skipping skipping
                      (run_rows_unused c.rows skipping refl)
                    ∙ rw (end_line_unused skipping refl) refl));
        idle = refl;
        glyphs_are = rw (other) refl;
      },
    )

pub run_character :
    (c : Character) (s : Parser)
    → IsCharacter c
    → s.stack ≡ []
    → IsFont s.glyphs
    → (t : Parser) × Reads c s t
run_character c s v idle w = elim (Bool-cases (leb 32 (number c) && leb (number c) 127)) [
  | inl used ↦ character_used c s v idle w used
  | inr other ↦ character_unused c s v idle other
]
