-- ===== src/Base/Sets.antt =====
-- `BTreeSet<usize>`: a strictly ascending list, whose first entry is what an iterator yields first.
use Prim.Native.Nat.{ℕ, ◌+◌, ◌≤◌, ◌<◌}
use mathlib.Core.Path.{◌≡◌, refl}
use mathlib.Core.Bool.{Bool, true, false, ◌||◌}
use mathlib.Core.List.{List, [], ◌∷◌}
use native.Mathlib.Omega.{arith}
use an_os_in_rust.Base.Tests.{◌==◌, ltb, if◌then◌else◌}

unfoldable pub contains : ℕ → List ℕ → Bool
contains a [] = false
contains a (x ∷ xs) = a == x || contains a xs

-- `remove` returns `contains` beside the new set.
unfoldable pub remove : ℕ → List ℕ → List ℕ
remove a [] = []
remove a (x ∷ xs) = if a == x then xs else x ∷ remove a xs

unfoldable pub insert : ℕ → List ℕ → List ℕ
insert a [] = a ∷ []
insert a (x ∷ xs) = if a == x then x ∷ xs else if ltb a x then a ∷ x ∷ xs else x ∷ insert a xs

-- Every entry is above `n`, and they ascend.
abbrev pub Above : ℕ → List ℕ → Type 0
Above n [] = Unit {0}
Above n (x ∷ xs) = (n < x) × Above x xs

abbrev pub IsSorted : List ℕ → Type 0
IsSorted [] = Unit {0}
IsSorted (x ∷ xs) = Above x xs

Above-mono : (m n : ℕ) (xs : List ℕ) → m ≤ n → Above n xs → Above m xs
Above-mono m n [] h s = tt
Above-mono m n (x ∷ xs) h s = (omega arith, s.1)

remove-Above : (a n : ℕ) (xs : List ℕ) → Above n xs → Above n (remove a xs)
unfolding remove
remove-Above a n [] s = tt
remove-Above a n (x ∷ xs) s = ground (arith, remove-Above a x xs s.1, Above-mono n x xs)

pub remove-IsSorted : (a : ℕ) (xs : List ℕ) → IsSorted xs → IsSorted (remove a xs)
unfolding remove
remove-IsSorted a [] s = tt
remove-IsSorted a (x ∷ []) s = ground arith
remove-IsSorted a (x ∷ y ∷ xs) s = ground (arith, remove-Above a x (y ∷ xs) s)

insert-Above : (a n : ℕ) (xs : List ℕ) → n < a → Above n xs → Above n (insert a xs)
unfolding insert
insert-Above a n [] h s = (h, tt)
insert-Above a n (x ∷ xs) h s = ground (arith, insert-Above a x xs)

pub insert-IsSorted : (a : ℕ) (xs : List ℕ) → IsSorted xs → IsSorted (insert a xs)
unfolding insert
insert-IsSorted a [] s = tt
insert-IsSorted a (x ∷ xs) s = ground (arith, insert-Above a x xs)

-- A sum over the entries.
unfoldable pub weigh : (ℕ → ℕ) → List ℕ → ℕ
weigh w [] = 0
weigh w (x ∷ xs) = w x + weigh w xs

module _ (w : ℕ → ℕ) where
  pub weigh-remove :
      (a : ℕ) (xs : List ℕ) → contains a xs ≡ true → weigh w (remove a xs) + w a ≡ weigh w xs
  unfolding weigh remove contains
  weigh-remove a [] h = absurd (ground arith)
  weigh-remove a (x ∷ xs) h = ground (arith, weigh-remove a xs)

  pub weigh-insert :
      (a : ℕ) (xs : List ℕ) → contains a xs ≡ false → weigh w (insert a xs) ≡ weigh w xs + w a
  unfolding weigh insert contains
  weigh-insert a [] h = omega arith
  weigh-insert a (x ∷ xs) h = ground (arith, weigh-insert a xs)

  pub le-weigh : (a : ℕ) (xs : List ℕ) → contains a xs ≡ true → w a ≤ weigh w xs
  unfolding weigh contains
  le-weigh a [] h = absurd (ground arith)
  le-weigh a (x ∷ xs) h = ground (arith, le-weigh a xs)

pub remove_absent : (a : ℕ) (xs : List ℕ) → contains a xs ≡ false → remove a xs ≡ xs
unfolding remove contains
remove_absent a [] h = refl
remove_absent a (x ∷ xs) h = ground (arith, remove_absent a xs)
