-- ===== src/Base/Slices.antt =====
-- Slices of byte buffers: a range out of bounds stops the kernel.
use Prim.Native.Nat.{ℕ, zero, suc, ◌+◌, ◌-◌, ◌≤◌}
use mathlib.Core.Path.{◌≡◌, refl, sym, ap, ap₂, ◌∙◌}
use mathlib.Core.Bool.{true, ◌&&◌}
use mathlib.Core.List.{List, [], ◌∷◌, ◌++◌, append_assoc, append-nil}
use native.Mathlib.Omega.{arith}
use an_os_in_rust.Base.Tests.{leb, if◌then◌else◌}
use an_os_in_rust.Base.Panic.{Outcome, ok, panic}
use an_os_in_rust.Base.Lists.{
  length, take, drop, length-append, take-append, drop-append, length-drop,
}

module _ {ℓ} {A : Type ℓ} where
  -- `&xs[from..to]`
  unfoldable pub slice : ℕ → ℕ → List A → Outcome (List A)
  slice from to xs =
      if leb from to && leb to (length xs) then ok (take (to - from) (drop from xs)) else panic

  -- `xs[at..at + ys.len()].copy_from_slice(ys)`
  unfoldable pub write_at : ℕ → List A → List A → Outcome (List A)
  write_at at ys xs =
      if leb (at + length ys) (length xs)
      then ok (take at xs ++ (ys ++ drop (at + length ys) xs))
      else panic

  drop-nil : (n : ℕ) → drop {A = A} n [] ≡ []
  drop-nil zero = refl
  drop-nil (suc n) = refl

  pub drop_add : (m n : ℕ) (xs : List A) → drop (m + n) xs ≡ drop n (drop m xs)
  drop_add zero n xs = ap (λ k. drop k xs) (zero_add n)
    where
      zero_add : (n : ℕ) → 0 + n ≡ n
      zero_add n = omega arith
  drop_add (suc m) n [] = drop-nil (suc m + n) ∙ sym (drop-nil n)
  drop_add (suc m) n (x ∷ xs) = ap (λ k. drop k (x ∷ xs)) (suc_add m n) ∙ drop_add m n xs
    where
      suc_add : (m n : ℕ) → suc m + n ≡ suc (m + n)
      suc_add m n = omega arith

  -- A slice that starts where a prefix ends.
  pub slice_middle :
      (from to : ℕ) (xs ys zs : List A)
      → from ≡ length xs
      → to ≡ length xs + length ys
      → slice from to (xs ++ (ys ++ zs)) ≡ ok ys
  unfolding slice
  slice_middle from to xs ys zs e f =
      let size : length (xs ++ (ys ++ zs)) ≡ length xs + (length ys + length zs) =
        omega (arith, length-append xs (ys ++ zs), length-append ys zs) in
      let low : leb from to ≡ true = ground arith in
      let high : leb to (length (xs ++ (ys ++ zs))) ≡ true = ground (arith, size) in
      rw (low, high)
        (ap ok (
          ap₂ take (omega arith) (ap (λ k. drop k (xs ++ (ys ++ zs))) e ∙ drop-append xs (ys ++ zs))
          ∙ take-append ys zs))

  -- A write that starts where a prefix ends.
  pub write_at_end :
      (at : ℕ) (ys xs zs : List A)
      → at ≡ length xs
      → length ys ≤ length zs
      → write_at at ys (xs ++ zs) ≡ ok ((xs ++ ys) ++ drop (length ys) zs)
  unfolding write_at
  write_at_end at ys xs zs e h =
      let fits : leb (at + length ys) (length (xs ++ zs)) ≡ true =
        ground (arith, length-append xs zs) in
      rw (fits) (
        ap ok (
          ap₂ (λ front back. front ++ (ys ++ back))
            (ap (λ k. take k (xs ++ zs)) e ∙ take-append xs zs)
            (ap (λ k. drop (k + length ys) (xs ++ zs)) e
              ∙ drop_add (length xs) (length ys) (xs ++ zs)
              ∙ ap (drop (length ys)) (drop-append xs zs))
          ∙ sym (append_assoc xs ys (drop (length ys) zs))))

  pub slice_suffix :
      (from to : ℕ) (xs ys : List A)
      → from ≡ length xs
      → to ≡ length (xs ++ ys)
      → slice from to (xs ++ ys) ≡ ok ys
  slice_suffix from to xs ys e f =
      ap (λ zs. slice from to (xs ++ zs)) (sym (append-nil ys))
      ∙ slice_middle from to xs ys [] e (f ∙ length-append xs ys)

  pub slice_prefix : (to : ℕ) (xs ys : List A) → to ≡ length xs → slice 0 to (xs ++ ys) ≡ ok xs
  slice_prefix to xs ys f = slice_middle 0 to [] xs ys refl (f ∙ omega arith)

  pub slice_front : (n : ℕ) (xs : List A) → n ≤ length xs → slice 0 n xs ≡ ok (take n xs)
  unfolding slice
  slice_front n xs h =
      let low : leb 0 n ≡ true = ground arith in
      let high : leb n (length xs) ≡ true = ground arith in
      rw (low, high) (ap (λ k. ok (take k xs)) (omega arith))

  take-length : (xs : List A) → take (length xs) xs ≡ xs
  take-length [] = refl
  take-length (x ∷ xs) = ap (◌∷◌ x) (take-length xs)

  pub slice_back : (n : ℕ) (xs : List A) → n ≤ length xs → slice n (length xs) xs ≡ ok (drop n xs)
  unfolding slice
  slice_back n xs h =
      let low : leb n (length xs) ≡ true = ground arith in
      let high : leb (length xs) (length xs) ≡ true = ground arith in
      rw (low, high)
        (ap (λ k. ok (take k (drop n xs))) (sym (length-drop n xs))
          ∙ ap ok (take-length (drop n xs)))
