-- ===== src/Scheduler/Sums.antt =====
-- Sums over the contexts.
use sheepcoro.Base.{
  ℕ, zero, suc, ◌+◌, ◌≤◌, ◌<◌, ◌≡◌, refl, List, [], ◌∷◌, arith, ltb, if◌then◌else◌, length, count,
}
use sheepcoro.Awaiters.{update}

-- The sum of f i over i < n.
abbrev pub sum : (n : ℕ) → (ℕ → ℕ) → ℕ
sum zero f = 0
sum (suc n) f = sum n f + f n

pub sum-update :
    (n : ℕ) (f : ℕ → ℕ) (i v : ℕ)
    → sum n (update f i v) + (if ltb i n then f i else 0) ≡ sum n f + (if ltb i n then v else 0)
sum-update zero f i v = ground arith
sum-update (suc n) f i v = ground (arith, sum-update n f i v)

pub sum-term : (n : ℕ) (f : ℕ → ℕ) (i : ℕ) → i < n → f i ≤ sum n f
sum-term zero f i h = absurd (omega arith)
sum-term (suc n) f i h = ground (arith, sum-term n f i)

pub sum-ones : (m n : ℕ) → m ≤ n → sum m (λ i. if ltb i n then 1 else 0) ≡ m
sum-ones zero n h = refl
sum-ones (suc m) n h = ground (arith, sum-ones m n (omega arith))

pub sum-bits : (n : ℕ) (f : ℕ → ℕ) → ((i : ℕ) → f i ≤ 1) → sum n f ≤ n
sum-bits zero f h = omega arith
sum-bits (suc n) f h = omega (arith, sum-bits n f h, h n)

sum-count-cons :
    (n x : ℕ) (l : List ℕ)
    → sum n (λ i. count i (x ∷ l)) ≡ (if ltb x n then 1 else 0) + sum n (λ i. count i l)
sum-count-cons zero x l = ground arith
sum-count-cons (suc n) x l = ground (arith, sum-count-cons n x l)

-- A list of addresses below n in which each stands at most once is no longer than n.
pub length-bound :
    (n : ℕ) (l : List ℕ)
    → ((i : ℕ) → 1 ≤ count i l → i < n)
    → ((i : ℕ) → count i l ≤ 1)
    → length l ≤ n
length-bound n l small once = omega (arith, sum-bits n (λ i. count i l) once, total l small)
  where
    sum-none : (m : ℕ) → sum m (λ i. 0) ≡ 0
    sum-none zero = refl
    sum-none (suc m) = omega (arith, sum-none m)

    total : (m : List ℕ) → ((i : ℕ) → 1 ≤ count i m → i < n) → length m ≡ sum n (λ i. count i m)
    total [] h = omega (arith, sum-none n)
    total (x ∷ m) h = ground (arith, sum-count-cons n x m, h x, total m (λ i p. h i (ground arith)))
