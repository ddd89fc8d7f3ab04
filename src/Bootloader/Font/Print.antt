-- ===== src/Bootloader/Font/Print.antt =====
-- The round trip for bootloader/src/framebuffer/fonts.rs: a BDF file written from characters is read as
-- their font.
use mathlib.Core.Path.{fun_ext}
use an_os_in_rust.Base.{
  ℕ, zero, suc, ◌+◌, ◌≤◌, ◌≡◌, refl, sym, subst, ap, ◌∙◌, ltb, lt→ltb, false, some, List, [], ◌∷◌,
  ◌++◌, ok, ◌>>=◌, length, get_elem?, arith, replicate,
}
use an_os_in_rust.Net.Ethernet.{Bytes}
use an_os_in_rust.Bootloader.Font.{
  codes, font_height, font_width, Font, Parser, line_step, split, parse_lines, blank, no_glyphs,
  parse_bdf,
}
use an_os_in_rust.Bootloader.Font.Lines.{text_of, AreLines, lines_of-text_of}
use an_os_in_rust.Bootloader.Font.Rows.{IsBitmap}
use an_os_in_rust.Bootloader.Font.Steps.{run_lines, run_lines-append, end_font_line}
use an_os_in_rust.Bootloader.Font.Reading.{
  Character, IsCharacter, character_lines, with_character, IsFont, with_character-IsFont,
  run_character,
}

abbrev pub AreCharacters : List Character → Type 0
AreCharacters [] = Unit {0}
AreCharacters (c ∷ cs) = IsCharacter c × AreCharacters cs

unfoldable pub font_of : List Character → Font → Font
font_of [] f = f
font_of (c ∷ cs) f = font_of cs (with_character c f)

unfoldable pub characters_lines : List Character → List Bytes
characters_lines [] = codes "ENDFONT" ∷ []
characters_lines (c ∷ cs) = character_lines c ++ characters_lines cs

run_characters :
    (cs : List Character) (s : Parser)
    → AreCharacters cs
    → s.stack ≡ []
    → IsFont s.glyphs
    → (t : Parser) × (run_lines (characters_lines cs) s ≡ ok t) × (t.glyphs ≡ font_of cs s.glyphs)
unfolding characters_lines font_of run_lines
run_characters [] s v idle w = (s, rw (end_font_line s) refl, refl)
run_characters (c ∷ cs) s (v, vs) idle w =
    let (t, r) = run_character c s v idle w in
    let (u, runs, glyphs_are) =
      run_characters cs t vs r.idle
        (subst IsFont (sym r.glyphs_are) (with_character-IsFont c s.glyphs v w)) in
    (
      u,
      run_lines-append (character_lines c) (characters_lines cs) s t r.runs ∙ runs,
      glyphs_are ∙ ap (font_of cs) r.glyphs_are,
    )

parse_lines_past :
    (n : ℕ) (ls : List Bytes) (s : Parser) → 27 ≤ n → parse_lines n ls s ≡ run_lines ls s
unfolding parse_lines run_lines
parse_lines_past n [] s h = refl
parse_lines_past n (l ∷ ls) s h =
    let past : ltb n 27 ≡ false = ground (arith, h) in
    rw (past) (
      ap (λ k. line_step (split b' ' l) s >>= k)
        (fun_ext λ t. parse_lines_past (n + 1) ls t (omega (arith, h))))

parse_lines_header :
    (n : ℕ) (header ls : List Bytes) (s : Parser)
    → n + length header ≤ 27
    → parse_lines n (header ++ ls) s ≡ parse_lines (n + length header) ls s
unfolding parse_lines
parse_lines_header n [] ls s h = ap (λ k. parse_lines k ls s) (omega arith)
parse_lines_header n (l ∷ header) ls s h = rw (lt→ltb n 27 (omega (arith, h))) (
    parse_lines_header (n + 1) header ls s (omega (arith, h))
    ∙ ap (λ k. parse_lines k ls s) (omega arith))

get_elem?-replicate :
    {A : Type 0} (n i : ℕ) (a b : A) → get_elem? (replicate n a) i ≡ some b → a ≡ b
get_elem?-replicate zero i a b h = cc
get_elem?-replicate (suc n) zero a b h = cc
get_elem?-replicate (suc n) (suc i) a b h = get_elem?-replicate n i a b h

no_glyphs-IsFont : IsFont no_glyphs
no_glyphs-IsFont = record {
  size = refl;
  bitmaps = λ i g h.
      subst (λ k. IsBitmap k.bitmap) (get_elem?-replicate 96 i blank g h)
        (record {
          height = refl;
          width = λ j pixels e.
              ap length (sym (get_elem?-replicate font_height j (replicate font_width 0) pixels e));
        });
}

-- A BDF file of a header of 27 lines and of characters, with numbers that are 0 or from 32 on, lines
-- without keywords in front of their bitmaps, and eighteen rows of four digits, is read as the font
-- that has every character with a number from 32 to 127 in its place, with a pixel for each
-- binary digit, and is blank elsewhere. Any number above is left out, also one of more than 8 bits.
pub parse_bdf-text_of :
    (header : List Bytes) (cs : List Character)
    → length header ≡ 27
    → AreCharacters cs
    → AreLines (header ++ characters_lines cs)
    → parse_bdf (text_of (header ++ characters_lines cs)) ≡ ok (font_of cs no_glyphs)
unfolding parse_bdf
parse_bdf-text_of header cs size v are_lines =
    let start : Parser = record { stack = []; glyphs = no_glyphs; glyph = 0; row = 0 } in
    let (t, runs, glyphs_are) = run_characters cs start v refl no_glyphs-IsFont in
    rw
      (
        lines_of-text_of (header ++ characters_lines cs) are_lines,
        parse_lines_header 0 header (characters_lines cs) start (omega (arith, size)),
        parse_lines_past (0 + length header) (characters_lines cs) start (omega (arith, size)),
        runs,
      )
      (ap ok glyphs_are)
