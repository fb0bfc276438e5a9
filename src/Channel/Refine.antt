-- ===== src/Channel/Refine.antt =====
-- A channel over a store that keeps the queue laws is the bounded queue of `Spec`.
use sheepcoro.Base.{
  ℕ, ◌≡◌, ◌≢◌, refl, sym, ap, ap₂, ◌∙◌, Bool, true, false, List, [], ◌∷◌, ◌++◌, arith, ◌==◌, is_nil,
  length, Bool-cases, inl, inr,
}
use sheepcoro.Channel.{
  Store, Channel, Outcome, returns, send, recv, close, part_closed, complete_closed,
}
use sheepcoro.Channel.Spec.{
  Fifo, offer, poll, Call, sends, receives, closes, Reply, sent, received, closed, run_fifo,
  IsQueue,
}
use sheepcoro.Channel.Branches.{
  send-closed, send-full, send-put, recv_complete, recv-empty, recv-waits, recv-take, offer-closed,
  offer-full, offer-put, poll-closed, poll-waits, poll-cons,
}

module _ {A : Type 0} (st : Store A) where
  -- A client's calls on a channel in order, with what each comes to.
  unfoldable pub run : Channel st → List (Call A) → List (Reply A)
  run c [] = []
  run c (sends v ∷ cs) = let (r, c') = send st v c in sent r ∷ run c' cs
  run c (receives ∷ cs) = let (r, c') = recv st c in received r ∷ run c' cs
  run c (closes ∷ cs) = closed ∷ run (close st c) cs

module _ {A : Type 0} {st : Store A} {bound : ℕ} (laws : IsQueue st bound) where
  open laws use {IsValid, contents}

  pub record Represents (q : Fifo A) (c : Channel st) : Type 0 where
    pub valid : IsValid c.values
    pub items : contents c.values ≡ q.items
    pub closing : part_closed st c ≡ q.closed
    pub drained : complete_closed st c ≡ true → q.items ≡ []

  -- The channel's answer and state against the queue's.
  abbrev pub Agrees : {R : Type 0} → Outcome R × Channel st → Outcome R × Fifo A → Type 0
  Agrees a b = (a.0 ≡ b.0) × Represents b.1 a.1

  not_full :
      {q : Fifo A} {c : Channel st} {b : Bool}
      → Represents q c
      → st.full c.values ≡ b
      → (length q.items == bound) ≡ b
  not_full {q} {c} {b} rep e = rw (rep.items, e) at (sym (laws.full_iff c.values rep.valid))

  is_empty : {q : Fifo A} {c : Channel st} → Represents q c → st.empty c.values ≡ is_nil q.items
  is_empty {q} {c} rep = rw rep.items at (laws.empty_iff c.values rep.valid)

  send_puts :
      {q : Fifo A} {c : Channel st} (v : A)
      → Represents q c
      → part_closed st c ≡ false
      → st.full c.values ≡ false
      → Agrees (send st v c) (offer bound v q)
  send_puts {q} {c} v rep e f =
      let g : (length q.items == bound) ≡ false = not_full rep f in
      let ne : length (contents c.values) ≢ bound = rw rep.items (ground arith) in
      rw (send-put st v c e f, offer-put bound v q (sym rep.closing ∙ e) g)
        (
          refl,
          record {
            valid = laws.put-IsValid v c.values rep.valid ne;
            items = laws.contents-put v c.values rep.valid ne ∙ ap (λ l. l ++ v ∷ []) rep.items;
            closing = rep.closing;
            drained = λ h. ground arith;
          },
        )

  -- `send` answers as the bounded queue does on every branch, and leaves the channel standing for
  -- the queue's new state.
  pub send-offer :
      {q : Fifo A} {c : Channel st} (v : A)
      → Represents q c
      → Agrees (send st v c) (offer bound v q)
  send-offer {q} {c} v rep = elim (Bool-cases (part_closed st c)) [
    | inl e ↦ rw (send-closed st v c e, offer-closed bound v q (sym rep.closing ∙ e)) (refl, rep)
    | inr e ↦ elim (Bool-cases (st.full c.values)) [
      | inl f ↦
          rw (send-full st v c e f, offer-full bound v q (sym rep.closing ∙ e) (not_full rep f))
            (refl, rep)
      | inr f ↦ send_puts v rep e f
    ]
  ]

  recv_empty :
      {q : Fifo A} {c : Channel st} → Represents q c → q.items ≡ [] → Agrees (recv st c) (poll q)
  recv_empty {q} {c} rep e = elim (Bool-cases (complete_closed st c)) [
    | inl f ↦
        rw (recv_complete st c f, poll-closed q e (sym rep.closing ∙ complete_part f)) (refl, rep)
    | inr f ↦ elim (Bool-cases (part_closed st c)) [
      | inl g ↦
          rw
            (
              recv-empty st c f g (is_empty rep ∙ ap is_nil e),
              poll-closed q e (sym rep.closing ∙ g),
            )
            (
              refl,
              record {
                valid = rep.valid;
                items = rep.items;
                closing = sym g ∙ rep.closing;
                drained = λ _. e;
              },
            )
      | inr g ↦
          rw (recv-waits st c g (is_empty rep ∙ ap is_nil e), poll-waits q e (sym rep.closing ∙ g))
            (refl, rep)
    ]
  ]
    where
      complete_part : complete_closed st c ≡ true → part_closed st c ≡ true
      complete_part f = ground arith

  recv_takes :
      {q : Fifo A} {c : Channel st} (x : A) (xs : List A)
      → Represents q c
      → q.items ≡ x ∷ xs
      → Agrees (recv st c) (poll q)
  recv_takes {q} {c} x xs rep e = elim (Bool-cases (complete_closed st c)) [
    | inl f ↦ absurd (nonempty f)
    | inr f ↦
        let (first, rest) = laws.contents-take c.values x xs rep.valid (rep.items ∙ e) in
        rw (recv-take st c f (is_empty rep ∙ ap is_nil e), poll-cons q x xs e)
          (
            ap returns first,
            record {
              valid =
                  laws.take-IsValid c.values rep.valid (λ n. cons-ne-nil (sym (rep.items ∙ e) ∙ n));
              items = rest;
              closing = rep.closing;
              drained = λ h. absurd (nonempty h);
            },
          )
  ]
    where
      cons-ne-nil : x ∷ xs ≢ []
      cons-ne-nil p = cc

      nonempty : complete_closed st c ≡ true → ⊥
      nonempty f = cons-ne-nil (sym e ∙ rep.drained f)

  recv_by :
      {q : Fifo A} {c : Channel st} (l : List A)
      → Represents q c
      → q.items ≡ l
      → Agrees (recv st c) (poll q)
  recv_by [] rep e = recv_empty rep e
  recv_by (x ∷ xs) rep e = recv_takes x xs rep e

  -- `recv` answers as the queue does on every branch, and leaves the channel standing for the
  -- queue's new state.
  pub recv-poll : {q : Fifo A} {c : Channel st} → Represents q c → Agrees (recv st c) (poll q)
  recv-poll {q} rep = recv_by q.items rep refl

  close-Represents :
      {q : Fifo A} {c : Channel st}
      → Represents q c
      → Represents (record q { closed = true }) (close st c)
  unfolding close
  close-Represents rep = record {
    valid = rep.valid;
    items = rep.items;
    closing = refl;
    drained = λ h. cc;
  }

  -- No sequence of calls tells a channel from the bounded queue that it stands for: every call comes
  -- to the same, in any state that the channel can be in.
  pub run-run_fifo :
      (cs : List (Call A)) {q : Fifo A} {c : Channel st}
      → Represents q c
      → run st c cs ≡ run_fifo bound q cs
  unfolding run run_fifo
  run-run_fifo [] rep = refl
  run-run_fifo (sends v ∷ cs) rep =
      let (e, rep') = send-offer v rep in ap₂ (λ r rest. sent r ∷ rest) e (run-run_fifo cs rep')
  run-run_fifo (receives ∷ cs) rep =
      let (e, rep') = recv-poll rep in ap₂ (λ r rest. received r ∷ rest) e (run-run_fifo cs rep')
  run-run_fifo (closes ∷ cs) rep =
      ap (λ rest. closed ∷ rest) (run-run_fifo cs (close-Represents rep))
