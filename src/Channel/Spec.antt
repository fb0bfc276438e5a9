-- ===== src/Channel/Spec.antt =====
-- What a channel promises: a bounded first-in first-out queue that can be closed.
use sheepcoro.Base.{
  ℕ, ◌≡◌, ◌≢◌, Bool, true, false, Option, none, some, List, [], ◌∷◌, ◌++◌, ◌==◌, is_nil, length,
  if◌then◌else◌,
}
use sheepcoro.Channel.{Store, Outcome, returns, waits}

pub record Fifo (A : Type 0) : Type 0 where
  pub items : List A
  pub closed : Bool

pub data Call (A : Type 0) : Type 0 where
  sends : A → Call A
  receives closes : Call A

pub data Reply (A : Type 0) : Type 0 where
  sent : Outcome Bool → Reply A
  received : Outcome (Option A) → Reply A
  closed : Reply A

module _ {A : Type 0} where
  -- A closed queue takes nothing, and a full one makes the sender wait.
  unfoldable pub offer : (bound : ℕ) → A → Fifo A → Outcome Bool × Fifo A
  offer bound v q =
      if q.closed
      then (returns false, q)
      else if length q.items == bound
      then (waits, q)
      else (returns true, record q { items = q.items ++ v ∷ [] })

  pub front : List A → Bool → Outcome (Option A) × Fifo A
  front [] true = (returns none, record { items = []; closed = true })
  front [] false = (waits, record { items = []; closed = false })
  front (x ∷ xs) b = (returns (some x), record { items = xs; closed = b })

  -- What is left in a closed queue can still be received.
  unfoldable pub poll : Fifo A → Outcome (Option A) × Fifo A
  unfolding front
  poll q = front q.items q.closed

  -- A client's calls in order, with what each comes to.
  unfoldable pub run_fifo : ℕ → Fifo A → List (Call A) → List (Reply A)
  unfolding offer poll
  run_fifo bound q [] = []
  run_fifo bound q (sends v ∷ cs) = let (r, q') = offer bound v q in sent r ∷ run_fifo bound q' cs
  run_fifo bound q (receives ∷ cs) = let (r, q') = poll q in received r ∷ run_fifo bound q' cs
  run_fifo bound q (closes ∷ cs) = closed ∷ run_fifo bound (record q { closed = true }) cs

-- What a store must keep for the channel over it to be such a queue.
pub record IsQueue {A : Type 0} (st : Store A) (bound : ℕ) : Type 1 where
  pub IsValid : st.State → Type 0
  pub contents : st.State → List A
  pub empty_iff : (s : st.State) → IsValid s → st.empty s ≡ is_nil (contents s)
  pub full_iff : (s : st.State) → IsValid s → st.full s ≡ (length (contents s) == bound)
  pub put-IsValid :
      (v : A) (s : st.State) → IsValid s → length (contents s) ≢ bound → IsValid (st.put v s)
  pub contents-put :
      (v : A) (s : st.State)
      → IsValid s
      → length (contents s) ≢ bound
      → contents (st.put v s) ≡ contents s ++ v ∷ []
  pub take-IsValid : (s : st.State) → IsValid s → contents s ≢ [] → IsValid (st.take s).1
  pub contents-take :
      (s : st.State) (x : A) (xs : List A)
      → IsValid s
      → contents s ≡ x ∷ xs
      → ((st.take s).0 ≡ some x) × (contents (st.take s).1 ≡ xs)
