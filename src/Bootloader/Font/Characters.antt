-- ===== src/Bootloader/Font/Characters.antt =====
-- What the parser in bootloader/src/framebuffer/fonts.rs does with the lines of one character.
use an_os_in_rust.Base.{
  ℕ, suc, ◌+◌, ◌-◌, ◌*◌, ◌<◌, ◌≤◌, ◌≡◌, ◌≢◌, refl, ap, ◌==◌, ltb, if◌then◌else◌, true, false,
  Bool-cases, inl, inr, none, some, List, [], ◌∷◌, ok, length, arith,
}
use an_os_in_rust.Net.Ethernet.{Bytes}
use an_os_in_rust.Net.Stack.{same_bytes}
use an_os_in_rust.Bootloader.Font.{
  codes, startchar, unused, last, Parser, within, parse_digits, parse_u8, value_under, token_step,
  line_step, split,
}
use an_os_in_rust.Bootloader.Font.Lines.{nil, cons, split_single}
use an_os_in_rust.Bootloader.Font.Rows.{hex, HexRow, hex_line}

-- A token that is no keyword.
pub record IsPlain (t : Bytes) : Type 0 where
  pub not_startchar : same_bytes t (codes "STARTCHAR") ≡ false
  pub not_encoding : same_bytes t (codes "ENCODING") ≡ false
  pub not_bitmap : same_bytes t (codes "BITMAP") ≡ false
  pub not_endchar : same_bytes t (codes "ENDCHAR") ≡ false
  pub not_endfont : same_bytes t (codes "ENDFONT") ≡ false

abbrev pub ArePlain : List Bytes → Type 0
ArePlain [] = Unit {0}
ArePlain (t ∷ ts) = IsPlain t × ArePlain ts

pub token_step-IsPlain :
    (t : Bytes) (s : Parser) → IsPlain t → token_step t s ≡ value_under (last s.stack) t s
unfolding token_step
token_step-IsPlain t s v =
    rw (v.not_startchar, v.not_encoding, v.not_bitmap, v.not_endchar, v.not_endfont) refl

-- In front of the bitmap, other lines are read over.
pub line_step-ArePlain :
    (ts : List Bytes) (s : Parser) → ArePlain ts → last s.stack ≡ startchar → line_step ts s ≡ ok s
unfolding line_step value_under
line_step-ArePlain [] s v top = refl
line_step-ArePlain (t ∷ ts) s (v, vs) top =
    rw (token_step-IsPlain t s v, top) (line_step-ArePlain ts s vs top)

pub line_step_unused :
    (ts : List Bytes) (s : Parser) → ArePlain ts → last s.stack ≡ unused → line_step ts s ≡ ok s
unfolding line_step value_under
line_step_unused [] s v top = refl
line_step_unused (t ∷ ts) s (v, vs) top = rw (token_step-IsPlain t s v, top) refl

length-same_bytes : (xs ys : Bytes) → same_bytes xs ys ≡ true → length xs ≡ length ys
unfolding same_bytes
length-same_bytes [] [] h = refl
length-same_bytes [] (y ∷ ys) h = cc
length-same_bytes (x ∷ xs) [] h = cc
length-same_bytes (x ∷ xs) (y ∷ ys) h = ap suc (length-same_bytes xs ys (ground (arith, h)))

other_length : (xs ys : Bytes) → length xs ≢ length ys → same_bytes xs ys ≡ false
other_length xs ys h = elim (Bool-cases (same_bytes xs ys)) [
  | inl same ↦ absurd (h (length-same_bytes xs ys same))
  | inr other ↦ other
]

pub hex_line-IsPlain : (r : HexRow) → IsPlain (hex_line r)
hex_line-IsPlain r = record {
  not_startchar = other_length (hex_line r) (codes "STARTCHAR") (λ e. absurd (omega (arith, e)));
  not_encoding = other_length (hex_line r) (codes "ENCODING") (λ e. absurd (omega (arith, e)));
  not_bitmap = other_length (hex_line r) (codes "BITMAP") (λ e. absurd (omega (arith, e)));
  not_endchar = other_length (hex_line r) (codes "ENDCHAR") (λ e. absurd (omega (arith, e)));
  not_endfont = other_length (hex_line r) (codes "ENDFONT") (λ e. absurd (omega (arith, e)));
}

no_space : (d : ℕ) → (hex d == b' ') ≡ false
no_space d = ground arith

pub split-hex_line : (r : HexRow) → split b' ' (hex_line r) ≡ hex_line r ∷ []
split-hex_line r = split_single b' ' (hex_line r) (
    cons (no_space r.first)
      (cons (no_space r.second) (cons (no_space r.third) (cons (no_space r.fourth) nil))))

-- The number that decimal digits stand for, behind the number `n`.
unfoldable pub value : ℕ → List ℕ → ℕ
value n [] = n
value n (d ∷ ds) = value (n * 10 + d) ds

abbrev pub AreDigits : List ℕ → Type 0
AreDigits [] = Unit {0}
AreDigits (d ∷ ds) = (d < 10) × AreDigits ds

abbrev pub decimal : List ℕ → Bytes
decimal [] = []
decimal (d ∷ ds) = (b'0' + d) ∷ decimal ds

le-value : (n : ℕ) (ds : List ℕ) → n ≤ value n ds
unfolding value
le-value n [] = omega arith
le-value n (d ∷ ds) = omega (arith, le-value (n * 10 + d) ds)

parse_digits-decimal :
    (n : ℕ) (ds : List ℕ)
    → AreDigits ds
    → n < 256
    → parse_digits n (decimal ds) ≡ (if ltb (value n ds) 256 then some (value n ds) else none)
unfolding parse_digits value
parse_digits-decimal n [] v h = ground arith
parse_digits-decimal n (d ∷ ds) (v, vs) h =
    let inside : within b'0' b'9' (b'0' + d) ≡ true = ground arith in
    let digit : b'0' + d - b'0' ≡ d = omega arith in
    elim (Bool-cases (ltb (n * 10 + d) 256)) [
      | inl small ↦
          rw (inside, digit, small) (parse_digits-decimal (n * 10 + d) ds vs (ground arith))
      | inr large ↦ rw (inside, digit, large) (ground (arith, le-value (n * 10 + d) ds))
    ]

-- A number of at most 255 is read back; any other is refused.
pub parse_u8-decimal :
    (d : ℕ) (ds : List ℕ)
    → AreDigits (d ∷ ds)
    → parse_u8 (decimal (d ∷ ds))
      ≡ (if ltb (value 0 (d ∷ ds)) 256 then some (value 0 (d ∷ ds)) else none)
unfolding parse_u8
parse_u8-decimal d [] v = parse_digits-decimal 0 (d ∷ []) v (omega arith)
parse_u8-decimal d (e ∷ es) (v, vs) =
    let no_sign : (b'0' + d == b'+') ≡ false = ground arith in
    rw (no_sign) (parse_digits-decimal 0 (d ∷ e ∷ es) (v, vs) (omega arith))
