-- ===== src/Bootloader/Font.antt =====
-- bootloader/src/framebuffer/fonts.rs: the font, and the parser of its BDF file. A text is the list of
-- its code points.
pub mod Lines
pub mod Rows
pub mod Characters
pub mod Steps
pub mod Drawing
pub mod Reading
pub mod Print
use Prim.Native.Char.{code}
use Prim.Native.String.{String}
use an_os_in_rust.Base.{
  ℕ, zero, suc, ◌+◌, ◌-◌, ◌*◌, ◌/◌, ◌==◌, ltb, leb, if◌then◌else◌, Bool, true, false, ◌&&◌, ◌||◌,
  not, Option, none, some, List, [], ◌∷◌, ◌++◌, Outcome, ok, panic, ◌>>=◌, ◌>>◌, assert, expect,
  checked_sub, bit_and, length, get_elem?, set, replicate,
}
use an_os_in_rust.Net.Ethernet.{Bytes}
use an_os_in_rust.Net.Stack.{same_bytes}

abbrev pub codes : String → Bytes
codes String.[] = []
codes (String.◌∷◌ c s) = code c ∷ codes s

abbrev pub font_width : ℕ
font_width = 16

abbrev pub font_height : ℕ
font_height = 18

abbrev pub Bitmap : Type 0
Bitmap = List (List ℕ)

-- `Terminus16x18Glyph`
pub record Glyph : Type 0 where
  pub codepoint : ℕ
  pub bitmap : Bitmap

-- `Terminus16x18Font`
abbrev pub Font : Type 0
Font = List Glyph

unfoldable pub get_glyph : Font → ℕ → Outcome Glyph
get_glyph glyphs codepoint = do index ← checked_sub codepoint 32; expect (get_elem? glyphs index)

pub data Token : Type 0 where
  startchar encoding bitmap unused empty : Token

-- The top of the stack, `empty` if there is none.
abbrev pub last : List Token → Token
last [] = empty
last (t ∷ ts) = t

abbrev pub pop : List Token → List Token
pop [] = []
pop (t ∷ ts) = ts

abbrev pub is_empty : List Token → Bool
is_empty [] = true
is_empty (t ∷ ts) = false

abbrev pub is_token : Token → Token → Bool
is_token startchar startchar = true
is_token encoding encoding = true
is_token bitmap bitmap = true
is_token unused unused = true
is_token empty empty = true
is_token _ _ = false

-- The variables of the loops; `glyph` is the index of the glyph that is referred to.
pub record Parser : Type 0 where
  pub stack : List Token
  pub glyphs : Font
  pub glyph : ℕ
  pub row : ℕ

-- Which loop goes on.
pub data Continue : Type 0 where
  lines tokens : Continue

abbrev pub within : ℕ → ℕ → ℕ → Bool
within low high c = leb low c && leb c high

-- `str::parse::<u8>`
unfoldable pub parse_digits : ℕ → Bytes → Option ℕ
parse_digits n [] = some n
parse_digits n (c ∷ cs) =
    let value = n * 10 + (c - b'0') in
    let rest = parse_digits value cs in if within b'0' b'9' c && ltb value 256 then rest else none

unfoldable pub parse_u8 : Bytes → Option ℕ
parse_u8 [] = none
parse_u8 (c ∷ []) = parse_digits 0 (c ∷ [])
parse_u8 (c ∷ d ∷ cs) = parse_digits 0 (if c == b'+' then d ∷ cs else c ∷ d ∷ cs)

-- `char::to_digit(16)`
unfoldable pub to_digit : ℕ → Option ℕ
to_digit c =
    if within b'0' b'9' c
    then some (c - b'0')
    else if within b'a' b'f' c
    then some (c - b'a' + 10)
    else if within b'A' b'F' c
    then some (c - b'A' + 10)
    else none

-- A write to `bitmap[row][at]`, on the row.
unfoldable pub set_pixel : ℕ → ℕ → List ℕ → Outcome (List ℕ)
set_pixel at bit pixels = if ltb at (length pixels) then ok (set pixels at bit) else panic

unfoldable pub paint_digit : ℕ → ℕ → List ℕ → Outcome (List ℕ)
unfolding set_pixel
paint_digit at d pixels = do
  p ← set_pixel at (bit_and d 8 / 8) pixels
  q ← set_pixel (at + 1) (bit_and d 4 / 4) p
  r ← set_pixel (at + 2) (bit_and d 2 / 2) q
  set_pixel (at + 3) (bit_and d 1) r

-- The loop over the digits read so far, of which this is number `i`.
unfoldable pub paint_digits : ℕ → ℕ → List ℕ → List ℕ → Outcome (List ℕ)
paint_digits line_len i [] pixels = ok pixels
paint_digits line_len i (d ∷ ds) pixels = do
  p ← paint_digit (line_len * i) d pixels
  paint_digits line_len (i + 1) ds p

-- The loop over the characters of a value, with the digits before them.
unfoldable pub paint : ℕ → List ℕ → Bytes → List ℕ → Outcome (List ℕ)
paint line_len arr [] pixels = ok pixels
paint line_len arr (c ∷ cs) pixels = do
  d ← expect (to_digit c)
  p ← paint_digits line_len 0 (arr ++ d ∷ []) pixels
  paint line_len (arr ++ d ∷ []) cs p

-- A value under BITMAP: a row of the glyph. A value with no character refers to no row.
unfoldable pub paint_row : Bytes → ℕ → Bitmap → Outcome Bitmap
paint_row [] row rows = ok rows
paint_row (c ∷ cs) row rows = do
  pixels ← expect (get_elem? rows row)
  p ← paint (length (c ∷ cs)) [] (c ∷ cs) pixels
  ok (set rows row p)

-- A value under ENCODING.
unfoldable pub set_encoding : Bytes → Parser → Outcome (Continue × Parser)
set_encoding v s =
    let skipped = record s { stack = unused ∷ pop s.stack } in
    elim (parse_u8 v) [
      | none ↦ ok (lines, skipped)
      | some enc ↦ if ltb 127 enc || enc == 0 then ok (lines, skipped) else (do
        index ← checked_sub enc 32
        old ← expect (get_elem? s.glyphs index)
        ok (
          lines,
          record s {
            stack = pop s.stack;
            glyphs = set s.glyphs index (record old { codepoint = enc });
            glyph = index;
          },
        ))
    ]

unfoldable pub add_row : Bytes → Parser → Outcome (Continue × Parser)
add_row v s = do
  old ← expect (get_elem? s.glyphs s.glyph)
  rows ← paint_row v s.row old.bitmap
  ok (
    lines,
    record s { glyphs = set s.glyphs s.glyph (record old { bitmap = rows }); row = s.row + 1 },
  )

-- The inner `match`, on the top of the stack.
unfoldable pub value_under : Token → Bytes → Parser → Outcome (Continue × Parser)
value_under encoding v s = set_encoding v s
value_under unused v s = ok (lines, s)
value_under bitmap v s = add_row v s
value_under empty v s = panic
value_under startchar v s = ok (tokens, s)

-- The outer `match`, on the token.
unfoldable pub token_step : Bytes → Parser → Outcome (Continue × Parser)
token_step t s =
    let top = last s.stack in
    if same_bytes t (codes "STARTCHAR")
    then (assert (is_empty s.stack)
        >> ok (lines, record s { row = 0; stack = startchar ∷ s.stack }))
    else if same_bytes t (codes "ENCODING")
    then (assert (is_token top startchar) >> ok (tokens, record s { stack = encoding ∷ s.stack }))
    else if same_bytes t (codes "BITMAP")
    then (if is_token top unused
        then ok (lines, s)
        else (assert (is_token top startchar) >> ok (lines, record s { stack = bitmap ∷ s.stack })))
    else if same_bytes t (codes "ENDCHAR")
    then (assert (is_token top bitmap || is_token top unused)
        >> ok (lines, record s { stack = pop (pop s.stack) }))
    else if same_bytes t (codes "ENDFONT")
    then ok (lines, s)
    else value_under top t s

-- The loop over the tokens of a line.
unfoldable pub line_step : List Bytes → Parser → Outcome Parser
line_step [] s = ok s
line_step (t ∷ ts) s =
    token_step t s >>= λ (next, s'). elim next [ lines ↦ ok s' | tokens ↦ line_step ts s' ]

-- `str::split` at a character.
abbrev pub add_piece : Bool → ℕ → List Bytes → List Bytes
add_piece ends c [] = []
add_piece true c (piece ∷ pieces) = [] ∷ piece ∷ pieces
add_piece false c (piece ∷ pieces) = (c ∷ piece) ∷ pieces

unfoldable pub split : ℕ → Bytes → List Bytes
split at [] = [] ∷ []
split at (c ∷ cs) = add_piece (c == at) c (split at cs)

-- `str::lines`: a line ends with a line feed, or a carriage return and a line feed; nothing behind
-- the last one is no line.
abbrev pub strip_return : Bytes → Bytes
strip_return [] = []
strip_return (c ∷ []) = if c == b'\r' then [] else c ∷ []
strip_return (c ∷ d ∷ cs) = c ∷ strip_return (d ∷ cs)

abbrev pub end_lines : List Bytes → List Bytes
end_lines [] = []
end_lines ([] ∷ []) = []
end_lines ((c ∷ cs) ∷ []) = (c ∷ cs) ∷ []
end_lines (l ∷ m ∷ ls) = strip_return l ∷ end_lines (m ∷ ls)

unfoldable pub lines_of : Bytes → List Bytes
lines_of text = end_lines (split b'\n' text)

-- The loop over the lines, from number `line_no` on.
unfoldable pub parse_lines : ℕ → List Bytes → Parser → Outcome Parser
parse_lines line_no [] s = ok s
parse_lines line_no (l ∷ ls) s = do
  s' ← (if ltb line_no 27 then ok s else line_step (split b' ' l) s)
  parse_lines (line_no + 1) ls s'

abbrev pub blank : Glyph
blank = record { codepoint = 0; bitmap = replicate font_height (replicate font_width 0) }

abbrev pub no_glyphs : Font
no_glyphs = replicate 96 blank

-- `TERMINUS_U18N` is the argument.
unfoldable pub parse_bdf : Bytes → Outcome Font
parse_bdf text = do
  s ← parse_lines 0 (lines_of text) (record { stack = []; glyphs = no_glyphs; glyph = 0; row = 0 })
  ok s.glyphs
