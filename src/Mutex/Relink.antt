-- ===== src/Mutex/Relink.antt =====
-- The loop of `mutex::unlock` that reverses the stack of new waiters.
use sheepcoro.Base.{
  ℕ, zero, suc, ◌+◌, ◌≤◌, ◌<◌, ◌≡◌, refl, Option, none, some, List, [], ◌∷◌, reverse_aux, arith,
  count, count-reverse_aux, length,
}
use sheepcoro.Awaiters.{Ptr, update}
use sheepcoro.Awaiters.Chain.{Chain, Chain-update}
use sheepcoro.Mutex.{relink}

-- What the loop leaves behind: the list `zs`, and every link outside of `zs` as it was.
pub record Relinked (next : Ptr → Ptr) (zs : List Ptr) (r : Option ((Ptr → Ptr) × Ptr))
    : Type 0 where
  pub links : Ptr → Ptr
  pub head : Ptr
  pub returns : r ≡ some (links, head)
  pub chain : Chain links head zs
  pub frame : (j : Ptr) → count j zs ≡ 0 → links j ≡ next j

-- One round on a list of two or more, given what the remaining rounds do.
relink-round :
    (fuel : ℕ) (next : Ptr → Ptr) (p to_resume x y : Ptr) (xs ys : List Ptr)
    → Chain next p (x ∷ y ∷ xs)
    → Relinked
        (update next p to_resume)
        (reverse_aux (y ∷ xs) (x ∷ ys))
        (relink fuel (update next p to_resume) (next p) p)
    → Relinked next (reverse_aux (x ∷ y ∷ xs) ys) (relink (suc fuel) next p to_resume)
unfolding relink
relink-round fuel next p t x y xs ys c rest = record {
  links = rest.links;
  head = rest.head;
  returns = ground (arith, rest.returns);
  chain = rest.chain;
  frame = λ j out. ground (arith, rest.frame j out, count-reverse_aux j (x ∷ y ∷ xs) ys);
}

-- The loop returns if it has a round for each waiter, and its list is the reverse of the stack.
pub relink-Relinked :
    (fuel : ℕ) (next : Ptr → Ptr) (p to_resume x : Ptr) (xs ys : List Ptr)
    → Chain next p (x ∷ xs)
    → Chain next to_resume ys
    → ((j : Ptr) → count j (x ∷ xs) + count j ys ≤ 1)
    → length xs < fuel
    → Relinked next (reverse_aux (x ∷ xs) ys) (relink fuel next p to_resume)
unfolding relink
relink-Relinked zero next p t x xs ys c d once h = absurd (omega arith)
relink-Relinked (suc fuel) next p t x [] ys c d once h = record {
  links = update next p t;
  head = p;
  returns = ground arith;
  chain = ground (arith, once x, Chain-update next t p t ys);
  frame = λ j out. ground (arith, count-reverse_aux j (x ∷ []) ys);
}
relink-Relinked (suc fuel) next p t x (y ∷ xs) ys c d once h =
    relink-round fuel next p t x y xs ys c (
      relink-Relinked fuel (update next p t) (next p) p y xs (x ∷ ys)
        (ground (arith, once x, Chain-update next (next p) p t (y ∷ xs)))
        (ground (arith, once x, Chain-update next t p t ys)) (λ j. omega (arith, once j))
        (omega arith))

-- With fewer rounds than waiters the loop does not return.
pub relink-none :
    (fuel : ℕ) (next : Ptr → Ptr) (p to_resume x : Ptr) (xs : List Ptr)
    → Chain next p (x ∷ xs)
    → ((j : Ptr) → count j (x ∷ xs) ≤ 1)
    → fuel ≤ length xs
    → relink fuel next p to_resume ≡ none
unfolding relink
relink-none zero next p t x xs c once h = refl
relink-none (suc fuel) next p t x [] c once h = absurd (omega arith)
relink-none (suc fuel) next p t x (y ∷ xs) c once h = ground (
  arith,
  relink-none fuel (update next p t) (next p) p y xs
      (ground (arith, once x, Chain-update next (next p) p t (y ∷ xs))) (λ j. omega (arith, once j))
      (omega arith),
)
