-- ===== src/Examples/Fonts.antt =====
-- Examples for the font parser: a file with the letter A and a character that is left out.
use an_os_in_rust.Base.{ℕ, zero, suc, ◌≡◌, refl, inl, List, [], ◌∷◌, ◌++◌, ok, arith, replicate}
use an_os_in_rust.Net.Ethernet.{Bytes}
use an_os_in_rust.Net.Stack.{same_bytes}
use an_os_in_rust.Bootloader.Font.{codes, no_glyphs, parse_bdf, split}
use an_os_in_rust.Bootloader.Font.Lines.{
  text_of, AreLines, is_free, are_plain_lines, are_plain_lines-AreLines,
}
use an_os_in_rust.Bootloader.Font.Rows.{HexRow}
use an_os_in_rust.Bootloader.Font.Drawing.{AreRows}
use an_os_in_rust.Bootloader.Font.Characters.{value}
use an_os_in_rust.Bootloader.Font.Print.{characters_lines, font_of, parse_bdf-text_of}
use an_os_in_rust.Bootloader.Font.Reading.{Character, IsCharacter, character_lines}

abbrev bar : HexRow
bar = record { first = 15; second = 0; third = 10; fourth = 1 }

abbrev letter : Character
letter = record {
  name = codes "A";
  first_digit = 6;
  more_digits = 5 ∷ [];
  metrics = codes "BBX 10" ∷ [];
  rows = replicate 18 bar;
}

-- Character 300 has no place in the font.
abbrev other : Character
other = record letter { first_digit = 3; more_digits = 0 ∷ 0 ∷ [] }

letter-IsCharacter : IsCharacter letter
unfolding value split same_bytes
letter-IsCharacter = record {
  digits = omega arith;
  numbered = inl (omega arith);
  plain = (
    (
      record {
        not_startchar = refl;
        not_encoding = refl;
        not_bitmap = refl;
        not_endchar = refl;
        not_endfont = refl;
      },
      (
        record {
          not_startchar = refl;
          not_encoding = refl;
          not_bitmap = refl;
          not_endchar = refl;
          not_endfont = refl;
        },
        tt,
      ),
    ),
    tt,
  );
  height = refl;
  are_rows = bars 18;
}
  where
    bars : (n : ℕ) → AreRows (replicate n bar)
    bars zero = tt
    bars (suc n) = (
      record {
        first_digit = omega arith;
        second_digit = omega arith;
        third_digit = omega arith;
        fourth_digit = omega arith;
      },
      bars n,
    )

other-IsCharacter : IsCharacter other
unfolding value split same_bytes
other-IsCharacter = record {
  digits = omega arith;
  numbered = inl (omega arith);
  plain = letter-IsCharacter.plain;
  height = refl;
  are_rows = letter-IsCharacter.are_rows;
}

abbrev header : List Bytes
header = replicate 27 (codes "x")

are_lines : AreLines (header ++ characters_lines (letter ∷ other ∷ []))
unfolding characters_lines character_lines are_plain_lines is_free
are_lines = are_plain_lines-AreLines (header ++ characters_lines (letter ∷ other ∷ [])) refl

parse_bdf-text_of_example :
    parse_bdf (text_of (header ++ characters_lines (letter ∷ other ∷ [])))
    ≡ ok (font_of (letter ∷ other ∷ []) no_glyphs)
parse_bdf-text_of_example =
    parse_bdf-text_of header (letter ∷ other ∷ []) refl
      (letter-IsCharacter, (other-IsCharacter, tt)) are_lines
