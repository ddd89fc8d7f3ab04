-- ===== src/Bootloader/Font/Lines.antt =====
-- Lines and tokens of a text that is put together from them.
use an_os_in_rust.Base.{
  ℕ, ◌≡◌, refl, ap, ap₂, ◌∙◌, ◌==◌, arith, Bool, true, false, not, ◌&&◌, Bool-cases, inl, inr,
  ==_self, List, [], ◌∷◌, ◌++◌,
}
use an_os_in_rust.Net.Ethernet.{Bytes}
use an_os_in_rust.Bootloader.Font.{split, strip_return, end_lines, lines_of}

-- A text without the character `at`.
pub data IsFree (at : ℕ) : Bytes → Type 0 where
  nil : IsFree at []
  cons : {c : ℕ} {cs : Bytes} → (c == at) ≡ false → IsFree at cs → IsFree at (c ∷ cs)

-- The test for it.
unfoldable pub is_free : ℕ → Bytes → Bool
is_free at [] = true
is_free at (c ∷ cs) = not (c == at) && is_free at cs

pub is_free-IsFree : {at : ℕ} (cs : Bytes) → is_free at cs ≡ true → IsFree at cs
unfolding is_free
is_free-IsFree [] h = nil
is_free-IsFree (c ∷ cs) h = cons (ground (arith, h)) (is_free-IsFree cs (ground (arith, h)))

split-cases : (at : ℕ) (cs : Bytes) → (p : Bytes) × (ps : List Bytes) × (split at cs ≡ p ∷ ps)
unfolding split
split-cases at [] = ([], [], refl)
split-cases at (c ∷ cs) =
    let (p, ps, e) = split-cases at cs in
    elim (Bool-cases (c == at)) [
      | inl here ↦ ([], p ∷ ps, rw (e, here) refl)
      | inr other ↦ (c ∷ p, ps, rw (e, other) refl)
    ]

-- The part in front of a separator is the first piece.
pub split-cons :
    (at : ℕ) (piece rest : Bytes)
    → IsFree at piece
    → split at (piece ++ at ∷ rest) ≡ piece ∷ split at rest
unfolding split
split-cons at [] rest nil = let (p, ps, e) = split-cases at rest in rw (e, ==_self at) refl
split-cons at (c ∷ cs) rest (cons h f) = rw (h, split-cons at cs rest f) refl

pub split_single : (at : ℕ) (piece : Bytes) → IsFree at piece → split at piece ≡ piece ∷ []
unfolding split
split_single at [] nil = refl
split_single at (c ∷ cs) (cons h f) = rw (h, split_single at cs f) refl

-- A text of lines, each with a line feed behind it.
unfoldable pub text_of : List Bytes → Bytes
text_of [] = []
text_of (l ∷ ls) = l ++ b'\n' ∷ text_of ls

-- A line that `str::lines` gives back: no line feed in it, and no carriage return at its end.
abbrev pub IsLine : Bytes → Type 0
IsLine l = IsFree b'\n' l × (strip_return l ≡ l)

abbrev pub AreLines : List Bytes → Type 0
AreLines [] = Unit {0}
AreLines (l ∷ ls) = IsLine l × AreLines ls

split-text_of : (ls : List Bytes) → AreLines ls → split b'\n' (text_of ls) ≡ ls ++ [] ∷ []
unfolding text_of split
split-text_of [] v = refl
split-text_of (l ∷ ls) ((free, _), vs) =
    split-cons b'\n' l (text_of ls) free ∙ ap (◌∷◌ l) (split-text_of ls vs)

end_lines-append : (ls : List Bytes) → AreLines ls → end_lines (ls ++ [] ∷ []) ≡ ls
end_lines-append [] v = refl
end_lines-append (l ∷ []) ((_, plain), _) = ap (λ k. k ∷ []) plain
end_lines-append (l ∷ m ∷ ls) ((_, plain), vs) = ap₂ ◌∷◌ plain (end_lines-append (m ∷ ls) vs)

pub lines_of-text_of : (ls : List Bytes) → AreLines ls → lines_of (text_of ls) ≡ ls
unfolding lines_of
lines_of-text_of ls v = ap end_lines (split-text_of ls v) ∙ end_lines-append ls v

strip_return-IsFree : (l : Bytes) → IsFree b'\r' l → strip_return l ≡ l
strip_return-IsFree [] v = refl
strip_return-IsFree (c ∷ []) (cons h v) = rw (h) refl
strip_return-IsFree (c ∷ d ∷ cs) (cons h v) = ap (◌∷◌ c) (strip_return-IsFree (d ∷ cs) v)

-- Lines with neither line feeds nor carriage returns.
unfoldable pub are_plain_lines : List Bytes → Bool
are_plain_lines [] = true
are_plain_lines (l ∷ ls) = (is_free b'\n' l && is_free b'\r' l) && are_plain_lines ls

pub are_plain_lines-AreLines : (ls : List Bytes) → are_plain_lines ls ≡ true → AreLines ls
unfolding are_plain_lines
are_plain_lines-AreLines [] h = tt
are_plain_lines-AreLines (l ∷ ls) h = (
  (
    is_free-IsFree l (ground (arith, h)),
    strip_return-IsFree l (is_free-IsFree l (ground (arith, h))),
  ),
  are_plain_lines-AreLines ls (ground (arith, h)),
)
