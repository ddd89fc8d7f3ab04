-- ===== src/Bootloader/Font/Drawing.antt =====
-- The rows of a character in bootloader/src/framebuffer/fonts.rs, drawn into its glyph.
use an_os_in_rust.Base.{
  ℕ, zero, suc, ◌+◌, ◌<◌, ◌≤◌, ◌≡◌, refl, ap, ◌∙◌, List, [], ◌∷◌, map, ok, length, set, arith,
  get_elem?-set_self,
}
use an_os_in_rust.Net.Ethernet.{Bytes}
use an_os_in_rust.Bootloader.Font.{
  Bitmap, font_height, Font, startchar, bitmap, unused, last, Parser, add_row, value_under,
  line_step, split,
}
use an_os_in_rust.Bootloader.Font.Rows.{
  HexRow, IsRow, hex_line, pixels_of, IsBitmap, set-IsBitmap, paint_row-pixels_of, set_rows,
}
use an_os_in_rust.Bootloader.Font.Characters.{
  ArePlain, token_step-IsPlain, hex_line-IsPlain, split-hex_line, line_step-ArePlain,
  line_step_unused,
}
use an_os_in_rust.Bootloader.Font.Steps.{run_lines}

-- The parser under BITMAP, with the glyph of index `i` as it is so far.
abbrev pub drawing : Font → ℕ → ℕ → Bitmap → ℕ → Parser
drawing f i codepoint rows row = record {
  stack = bitmap ∷ startchar ∷ [];
  glyphs = set f i (record { codepoint = codepoint; bitmap = rows });
  glyph = i;
  row = row;
}

pub set-set {ℓ} : {A : Type ℓ} (xs : List A) (i : ℕ) (a b : A) → set (set xs i a) i b ≡ set xs i b
set-set [] i a b = refl
set-set (x ∷ xs) zero a b = refl
set-set (x ∷ xs) (suc i) a b = ap (◌∷◌ x) (set-set xs i a b)

row_line_step :
    (f : Font) (i codepoint : ℕ) (rows : Bitmap) (row : ℕ) (r : HexRow)
    → i < length f
    → IsRow r
    → IsBitmap rows
    → row < font_height
    → line_step (split b' ' (hex_line r)) (drawing f i codepoint rows row)
      ≡ ok (drawing f i codepoint (set rows row (pixels_of r)) (row + 1))
unfolding line_step value_under add_row
row_line_step f i codepoint rows row r inside v b low =
    rw
      (
        split-hex_line r,
        token_step-IsPlain (hex_line r) (drawing f i codepoint rows row) (hex_line-IsPlain r),
        get_elem?-set_self f i (record { codepoint = codepoint; bitmap = rows }) inside,
        paint_row-pixels_of r row rows v b low,
        set-set f i (record { codepoint = codepoint; bitmap = rows })
            (record { codepoint = codepoint; bitmap = set rows row (pixels_of r) }),
      )
      refl

abbrev pub AreRows : List HexRow → Type 0
AreRows [] = Unit {0}
AreRows (r ∷ rs) = IsRow r × AreRows rs

-- The rows of a character, drawn one below the other.
pub run_rows :
    (f : Font) (i codepoint : ℕ) (rows : Bitmap) (row : ℕ) (rs : List HexRow)
    → i < length f
    → AreRows rs
    → IsBitmap rows
    → row + length rs ≤ font_height
    → run_lines (map hex_line rs) (drawing f i codepoint rows row)
      ≡ ok (drawing f i codepoint (set_rows row rs rows) (row + length rs))
unfolding run_lines set_rows
run_rows f i codepoint rows row [] inside v b low =
    ap (λ k. ok (drawing f i codepoint rows k)) (omega arith)
run_rows f i codepoint rows row (r ∷ rs) inside (v, vs) b low =
    rw (row_line_step f i codepoint rows row r inside v b (omega (arith, low))) (
      run_rows f i codepoint (set rows row (pixels_of r)) (row + 1) rs inside vs
        (set-IsBitmap rows row r b (omega (arith, low))) (omega (arith, low))
      ∙ ap (λ k. ok (drawing f i codepoint (set_rows (row + 1) rs (set rows row (pixels_of r))) k))
          (omega arith))

pub run_rows_unused :
    (rs : List HexRow) (s : Parser) → last s.stack ≡ unused → run_lines (map hex_line rs) s ≡ ok s
unfolding run_lines
run_rows_unused [] s top = refl
run_rows_unused (r ∷ rs) s top =
    rw (split-hex_line r, line_step_unused (hex_line r ∷ []) s (hex_line-IsPlain r, tt) top)
      (run_rows_unused rs s top)

-- Lines of no keyword, such as the widths of a character.
abbrev pub ArePlainLines : List Bytes → Type 0
ArePlainLines [] = Unit {0}
ArePlainLines (l ∷ ls) = ArePlain (split b' ' l) × ArePlainLines ls

pub run_metrics :
    (ls : List Bytes) (s : Parser)
    → ArePlainLines ls
    → last s.stack ≡ startchar
    → run_lines ls s ≡ ok s
unfolding run_lines
run_metrics [] s v top = refl
run_metrics (l ∷ ls) s (v, vs) top =
    rw (line_step-ArePlain (split b' ' l) s v top) (run_metrics ls s vs top)

pub run_metrics_unused :
    (ls : List Bytes) (s : Parser)
    → ArePlainLines ls
    → last s.stack ≡ unused
    → run_lines ls s ≡ ok s
unfolding run_lines
run_metrics_unused [] s v top = refl
run_metrics_unused (l ∷ ls) s (v, vs) top =
    rw (line_step_unused (split b' ' l) s v top) (run_metrics_unused ls s vs top)
