-- ===== src/Base/Lists.antt =====
-- Lists measured, indexed and counted by native numbers.
use Prim.Native.Nat.{ℕ, suc, ◌+◌, ◌≤◌}
use mathlib.Core.Path.{◌≡◌, refl}
use mathlib.Core.Bool.{Bool, true, false}
use mathlib.Core.List.{List, [], ◌∷◌, ◌++◌, reverse_aux}
use native.Mathlib.Omega.{arith}
use sheepcoro.Base.Tests.{◌==◌, if◌then◌else◌}

module _ {ℓ} {A : Type ℓ} where
  abbrev pub is_nil : List A → Bool
  is_nil [] = true
  is_nil (_ ∷ _) = false

  abbrev pub length : List A → ℕ
  length [] = 0
  length (x ∷ xs) = suc (length xs)

  pub length-append : (xs ys : List A) → length (xs ++ ys) ≡ length xs + length ys
  length-append [] ys = omega arith
  length-append (x ∷ xs) ys = omega (arith, length-append xs ys)

-- How often an address stands in a list.
abbrev pub count : ℕ → List ℕ → ℕ
count p [] = 0
count p (q ∷ qs) = (if p == q then 1 else 0) + count p qs

pub count-append : (p : ℕ) (l r : List ℕ) → count p (l ++ r) ≡ count p l + count p r
count-append p [] r = omega arith
count-append p (q ∷ l) r = omega (arith, count-append p l r)

pub count-reverse_aux : (p : ℕ) (l r : List ℕ) → count p (reverse_aux l r) ≡ count p l + count p r
count-reverse_aux p [] r = omega arith
count-reverse_aux p (q ∷ l) r = omega (arith, count-reverse_aux p l (q ∷ r))

-- Taking an address out of a list.
abbrev pub remove : ℕ → List ℕ → List ℕ
remove i [] = []
remove i (j ∷ l) = if i == j then l else j ∷ remove i l

pub count-remove :
    (i j : ℕ) (l : List ℕ)
    → 1 ≤ count i l
    → count j (remove i l) + (if j == i then 1 else 0) ≡ count j l
count-remove i j [] h = absurd (omega arith)
count-remove i j (x ∷ l) h = ground (arith, count-remove i j l)

pub length-remove : (i : ℕ) (l : List ℕ) → 1 ≤ count i l → suc (length (remove i l)) ≡ length l
length-remove i [] h = absurd (omega arith)
length-remove i (x ∷ l) h = ground (arith, length-remove i l)

-- A list in which no address stands is empty.
pub length-none : (l : List ℕ) → ((j : ℕ) → count j l ≡ 0) → length l ≡ 0
length-none [] h = refl
length-none (x ∷ l) h = absurd (ground (arith, h x))

pub count-length : (i : ℕ) (l : List ℕ) → count i l ≤ length l
count-length i [] = omega arith
count-length i (x ∷ l) = ground (arith, count-length i l)
