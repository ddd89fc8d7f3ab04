-- ===== src/Bootloader/Font/Steps.antt =====
-- The lines of a character in bootloader/src/framebuffer/fonts.rs, each with its effect on the parser.
use an_os_in_rust.Base.{
  ℕ, ◌+◌, ◌-◌, ◌<◌, ◌≤◌, ◌≡◌, refl, ap, ◌∙◌, ◌==◌, ltb, leb, true, false, ◌||◌, Bool-cases, inl,
  inr, some, List, [], ◌∷◌, ◌++◌, Outcome, ok, ◌>>=◌, get_elem?, set, arith, >>=-eq-ok,
}
use an_os_in_rust.Net.Ethernet.{Bytes}
use an_os_in_rust.Net.Stack.{same_bytes}
use an_os_in_rust.Bootloader.Font.{
  codes, Glyph, startchar, encoding, bitmap, unused, Parser, Continue, set_encoding, value_under,
  token_step, line_step, split,
}
use an_os_in_rust.Bootloader.Font.Lines.{
  IsFree, nil, cons, is_free, is_free-IsFree, split-cons, split_single,
}
use an_os_in_rust.Bootloader.Font.Characters.{
  IsPlain, token_step-IsPlain, value, decimal, AreDigits, parse_u8-decimal,
}

-- The loop over lines that are past the header.
unfoldable pub run_lines : List Bytes → Parser → Outcome Parser
run_lines [] s = ok s
run_lines (l ∷ ls) s = do s' ← line_step (split b' ' l) s; run_lines ls s'

pub run_lines-append :
    (ls ms : List Bytes) (s t : Parser)
    → run_lines ls s ≡ ok t
    → run_lines (ls ++ ms) s ≡ run_lines ms t
unfolding run_lines
run_lines-append [] ms s t h = ap (λ o. o >>= run_lines ms) h
run_lines-append (l ∷ ls) ms s t h =
    let (mid, e, rest) = >>=-eq-ok (line_step (split b' ' l) s) (run_lines ls) h in
    rw (e) (run_lines-append ls ms mid t rest)

abbrev pub start_line : Bytes → Bytes
start_line name = codes "STARTCHAR" ++ b' ' ∷ name

pub start_line_step :
    (name : Bytes) (s : Parser)
    → s.stack ≡ []
    → line_step (split b' ' (start_line name)) s ≡ ok (record s { row = 0; stack = startchar ∷ [] })
unfolding line_step token_step same_bytes is_free
start_line_step name s idle = rw (split-cons b' ' (codes "STARTCHAR") name free, idle) refl
  where
    free : IsFree b' ' (codes "STARTCHAR")
    free = is_free-IsFree (codes "STARTCHAR") refl

abbrev pub encoding_line : List ℕ → Bytes
encoding_line digits = codes "ENCODING" ++ b' ' ∷ decimal digits

decimal-IsFree : (ds : List ℕ) → AreDigits ds → IsFree b' ' (decimal ds)
decimal-IsFree [] v = nil
decimal-IsFree (d ∷ ds) (v, vs) = cons (ground arith) (decimal-IsFree ds vs)

encoding_pieces :
    (digits : List ℕ)
    → AreDigits digits
    → split b' ' (encoding_line digits) ≡ codes "ENCODING" ∷ decimal digits ∷ []
unfolding is_free
encoding_pieces digits v =
    split-cons b' ' (codes "ENCODING") (decimal digits) free
    ∙ ap (◌∷◌ (codes "ENCODING")) (split_single b' ' (decimal digits) (decimal-IsFree digits v))
  where
    free : IsFree b' ' (codes "ENCODING")
    free = is_free-IsFree (codes "ENCODING") refl

-- The first character of a number is no letter.
decimal-IsPlain : (d : ℕ) (ds : List ℕ) → d < 10 → IsPlain (decimal (d ∷ ds))
unfolding same_bytes
decimal-IsPlain d ds v = record {
  not_startchar = rw (not_letter b'S' (omega arith)) refl;
  not_encoding = rw (not_letter b'E' (omega arith)) refl;
  not_bitmap = rw (not_letter b'B' (omega arith)) refl;
  not_endchar = rw (not_letter b'E' (omega arith)) refl;
  not_endfont = rw (not_letter b'E' (omega arith)) refl;
}
  where
    not_letter : (c : ℕ) → 58 ≤ c → (b'0' + d == c) ≡ false
    not_letter c h = ground (arith, h, v)

encoding_token :
    (s : Parser)
    → s.stack ≡ startchar ∷ []
    → token_step (codes "ENCODING") s
      ≡ ok (Continue.tokens, record s { stack = encoding ∷ startchar ∷ [] })
unfolding token_step same_bytes
encoding_token s top = rw (top) refl

-- The line with a number is handled as the number is, under ENCODING.
encoding_line_step :
    (d : ℕ) (ds : List ℕ) (s : Parser)
    → AreDigits (d ∷ ds)
    → s.stack ≡ startchar ∷ []
    → (t : Parser)
    → set_encoding (decimal (d ∷ ds)) (record s { stack = encoding ∷ startchar ∷ [] })
      ≡ ok (Continue.lines, t)
    → line_step (split b' ' (encoding_line (d ∷ ds))) s ≡ ok t
unfolding line_step value_under
encoding_line_step d ds s v top t h =
    rw
      (
        encoding_pieces (d ∷ ds) v,
        encoding_token s top,
        token_step-IsPlain (decimal (d ∷ ds)) (record s { stack = encoding ∷ startchar ∷ [] })
            (decimal-IsPlain d ds v.0),
        h,
      )
      refl

-- A number of a glyph refers to it from now on, and it has the number.
pub encoding_line_used :
    (d : ℕ) (ds : List ℕ) (s : Parser) (old : Glyph)
    → AreDigits (d ∷ ds)
    → s.stack ≡ startchar ∷ []
    → 32 ≤ value 0 (d ∷ ds)
    → value 0 (d ∷ ds) ≤ 127
    → get_elem? s.glyphs (value 0 (d ∷ ds) - 32) ≡ some old
    → line_step (split b' ' (encoding_line (d ∷ ds))) s
      ≡ ok (record s {
        stack = startchar ∷ [];
        glyphs = set s.glyphs (value 0 (d ∷ ds) - 32) (record old { codepoint = value 0 (d ∷ ds) });
        glyph = value 0 (d ∷ ds) - 32;
      })
unfolding set_encoding
encoding_line_used d ds s old v top low high found =
    let n = value 0 (d ∷ ds) in
    let byte : ltb n 256 ≡ true = ground (arith, high) in
    let usable : (ltb 127 n || n == 0) ≡ false = ground (arith, low, high) in
    let index : leb 32 n ≡ true = ground (arith, low) in
    encoding_line_step d ds s v top _
      (rw (set_encoding, parse_u8-decimal d ds v, byte, usable, index, found) refl)

-- Any other number but those from 1 to 31: the character is left out.
pub encoding_line_unused :
    (d : ℕ) (ds : List ℕ) (s : Parser)
    → AreDigits (d ∷ ds)
    → s.stack ≡ startchar ∷ []
    → (ltb 127 (value 0 (d ∷ ds)) || value 0 (d ∷ ds) == 0) ≡ true
    → line_step (split b' ' (encoding_line (d ∷ ds))) s
      ≡ ok (record s { stack = unused ∷ startchar ∷ [] })
unfolding set_encoding
encoding_line_unused d ds s v top other =
    encoding_line_step d ds s v top _ (elim (Bool-cases (ltb (value 0 (d ∷ ds)) 256)) [
      | inl byte ↦ rw (set_encoding, parse_u8-decimal d ds v, byte, other) refl
      | inr large ↦ rw (set_encoding, parse_u8-decimal d ds v, large) refl
    ])

pub bitmap_line_used :
    (s : Parser)
    → s.stack ≡ startchar ∷ []
    → line_step (split b' ' (codes "BITMAP")) s ≡ ok (record s { stack = bitmap ∷ startchar ∷ [] })
unfolding line_step token_step same_bytes split
bitmap_line_used s top = rw (top) refl

pub bitmap_line_unused :
    (s : Parser)
    → s.stack ≡ unused ∷ startchar ∷ []
    → line_step (split b' ' (codes "BITMAP")) s ≡ ok s
unfolding line_step token_step same_bytes split
bitmap_line_unused s top = rw (top) refl

pub end_line_used :
    (s : Parser)
    → s.stack ≡ bitmap ∷ startchar ∷ []
    → line_step (split b' ' (codes "ENDCHAR")) s ≡ ok (record s { stack = [] })
unfolding line_step token_step same_bytes split
end_line_used s top = rw (top) refl

pub end_line_unused :
    (s : Parser)
    → s.stack ≡ unused ∷ startchar ∷ []
    → line_step (split b' ' (codes "ENDCHAR")) s ≡ ok (record s { stack = [] })
unfolding line_step token_step same_bytes split
end_line_unused s top = rw (top) refl

pub end_font_line : (s : Parser) → line_step (split b' ' (codes "ENDFONT")) s ≡ ok s
unfolding line_step token_step same_bytes split
end_font_line s = refl
