-- ===== src/Channel/Branches.antt =====
-- What `send` and `recv` do on each branch, and the same of the bounded queue.
use sheepcoro.Base.{ℕ, ◌≡◌, true, false, none, some, List, [], ◌∷◌, ◌++◌, arith, ◌==◌, length}
use sheepcoro.Channel.{
  Store, Channel, one_producer, one_consumer, returns, waits, send, recv, part_closed,
  complete_closed, complete_close,
}
use sheepcoro.Channel.Spec.{Fifo, offer, poll}

module _ {A : Type 0} (st : Store A) where
  pub send-closed :
      (v : A) (c : Channel st) → part_closed st c ≡ true → send st v c ≡ (returns false, c)
  unfolding send
  send-closed v c e = ground arith

  pub send-full :
      (v : A) (c : Channel st)
      → part_closed st c ≡ false
      → st.full c.values ≡ true
      → send st v c ≡ (waits, c)
  unfolding send
  send-full v c e f = ground arith

  pub send-put :
      (v : A) (c : Channel st)
      → part_closed st c ≡ false
      → st.full c.values ≡ false
      → send st v c ≡ (
        returns true,
        record c { values = st.put v c.values; notices = c.notices ++ one_consumer ∷ [] },
      )
  unfolding send
  send-put v c e f = ground arith

  pub recv_complete : (c : Channel st) → complete_closed st c ≡ true → recv st c ≡ (returns none, c)
  unfolding recv
  recv_complete c e = ground arith

  pub recv-empty :
      (c : Channel st)
      → complete_closed st c ≡ false
      → part_closed st c ≡ true
      → st.empty c.values ≡ true
      → recv st c ≡ (returns none, record c { close_state = complete_close })
  unfolding recv
  recv-empty c e f g = ground arith

  pub recv-waits :
      (c : Channel st)
      → part_closed st c ≡ false
      → st.empty c.values ≡ true
      → recv st c ≡ (waits, c)
  unfolding recv
  recv-waits c f g = ground arith

  pub recv-take :
      (c : Channel st)
      → complete_closed st c ≡ false
      → st.empty c.values ≡ false
      → recv st c ≡ (
        returns (st.take c.values).0,
        record c { values = (st.take c.values).1; notices = c.notices ++ one_producer ∷ [] },
      )
  unfolding recv
  recv-take c e f = ground arith

module _ {A : Type 0} (bound : ℕ) (v : A) (q : Fifo A) where
  pub offer-closed : q.closed ≡ true → offer bound v q ≡ (returns false, q)
  unfolding offer
  offer-closed e = ground arith

  pub offer-full :
      q.closed ≡ false → (length q.items == bound) ≡ true → offer bound v q ≡ (waits, q)
  unfolding offer
  offer-full e f = ground arith

  pub offer-put :
      q.closed ≡ false
      → (length q.items == bound) ≡ false
      → offer bound v q ≡ (returns true, record q { items = q.items ++ v ∷ [] })
  unfolding offer
  offer-put e f = ground arith

module _ {A : Type 0} where
  pub poll-closed : (q : Fifo A) → q.items ≡ [] → q.closed ≡ true → poll q ≡ (returns none, q)
  unfolding poll
  poll-closed q e f = ground arith

  pub poll-waits : (q : Fifo A) → q.items ≡ [] → q.closed ≡ false → poll q ≡ (waits, q)
  unfolding poll
  poll-waits q e f = ground arith

  pub poll-cons :
      (q : Fifo A) (x : A) (xs : List A)
      → q.items ≡ x ∷ xs
      → poll q ≡ (returns (some x), record q { items = xs })
  unfolding poll
  poll-cons q x xs e = rw (e, poll)
