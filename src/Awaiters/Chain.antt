-- ===== src/Awaiters/Chain.antt =====
-- Null-terminated lists of awaiters.
use sheepcoro.Base.{◌≤◌, ◌≡◌, ◌≢◌, refl, subst, List, [], ◌∷◌, arith, count}
use sheepcoro.Awaiters.{Ptr, null, update}

-- From `p` the links lead through the awaiters `xs` to null. 0 and 1 are no addresses.
abbrev pub Chain : (Ptr → Ptr) → Ptr → List Ptr → Type 0
Chain next p [] = p ≡ null
Chain next p (x ∷ xs) = (p ≡ x) × (2 ≤ x) × Chain next (next x) xs

-- A write to an awaiter outside the list leaves the list.
pub Chain-update :
    (next : Ptr → Ptr) (p i v : Ptr) (xs : List Ptr)
    → count i xs ≡ 0
    → Chain next p xs
    → Chain (update next i v) p xs
Chain-update next p i v [] out c = c
Chain-update next p i v (x ∷ xs) out c = ground (arith, Chain-update next (next x) i v xs)

pub Chain-null : (next : Ptr → Ptr) (p : Ptr) (xs : List Ptr) → Chain next p xs → p ≡ null → xs ≡ []
Chain-null next p [] c e = refl
Chain-null next p (x ∷ xs) c e = absurd (omega arith)

-- A list that starts elsewhere than at null has a first awaiter.
pub Chain-cons :
    (next : Ptr → Ptr) (p : Ptr) (xs : List Ptr)
    → Chain next p xs
    → p ≢ null
    → (x : Ptr) × (ys : List Ptr) × (xs ≡ x ∷ ys)
Chain-cons next p [] c ne = absurd (ne c)
Chain-cons next p (x ∷ xs) c ne = (x, xs, refl)

-- The links lead through one list only.
pub Chain-unique :
    (next : Ptr → Ptr) (p : Ptr) (v w : List Ptr) → Chain next p v → Chain next p w → v ≡ w
Chain-unique next p [] [] c d = refl
Chain-unique next p [] (y ∷ w) c d = absurd (omega arith)
Chain-unique next p (x ∷ v) [] c d = absurd (omega arith)
Chain-unique next p (x ∷ v) (y ∷ w) c d = ground (
  arith,
  Chain-unique next (next x) v w c.2 (subst (λ q. Chain next (next q) w) (omega arith) d.2),
)
