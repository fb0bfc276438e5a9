-- ===== src/Channel/Waiting/Locked.antt =====
-- The steps of the holder of the mutex.
use sheepcoro.Base.{
  ℕ, zero, suc, ◌≡◌, ◌≢◌, refl, sym, ap, ◌∙◌, Bool, false, ◌&&◌, List, [], ◌∷◌, ◌++◌, arith,
  if◌then◌else◌, length, length-append, Bool-cases, inl, inr,
}
use sheepcoro.Channel.{Store, one_producer, one_consumer, part_closed, send_locked, recv_locked}
use sheepcoro.Channel.Spec.{IsQueue}
use sheepcoro.Channel.System.{
  Party, sender, receiver, free, testing, registering, acting, notifying, leaving, System, ready,
  registered, acted, notify_producer, notify_consumer,
}
use sheepcoro.Channel.Waiting.{
  sends_woken, receives_woken, total-append, senders_at, receivers_at, size, Inv, empty_size,
  full_size, must_wait-size, stage-Inv,
}

module _ {A : Type 0} {st : Store A} {bound : ℕ} (laws : IsQueue st bound) where
  pub calls_free-Inv :
      {s : System st} (p : Party A)
      → Inv laws s
      → s.stage ≡ free
      → Inv laws (record s { stage = testing p })
  calls_free-Inv {s} p inv e =
      stage-Inv laws (testing p) inv (λ o h. omega (arith, h, ap receivers_at e))
        (λ o h. omega (arith, h, ap senders_at e)) (λ p' e'. absurd (ground (arith, e')))
        (λ p' e'. absurd (ground (arith, e')))

  pub calls_busy-Inv :
      {s : System st} (p : Party A) → Inv laws s → Inv laws (record s { queue = s.queue ++ p ∷ [] })
  calls_busy-Inv {s} p inv = record {
    valid = inv.valid;
    for_receivers =
        λ o c. omega (arith, inv.for_receivers o c, total-append receives_woken s.queue (p ∷ []));
    for_senders =
        λ o c. omega (arith, inv.for_senders o c, total-append sends_woken s.queue (p ∷ []));
    can_act = inv.can_act;
    must_wait = inv.must_wait;
  }

  acting_same : (p p' : Party A) → acting p ≡ acting p' → p ≡ p'
  acting_same p p' e = cc

  registering_same : (p p' : Party A) → registering p ≡ registering p' → p ≡ p'
  registering_same p p' e = cc

  pub tests-Inv :
      {s : System st} (p : Party A)
      → Inv laws s
      → s.stage ≡ testing p
      → Inv laws (record s { stage = if ready st p s.channel then acting p else registering p })
  tests-Inv {s} p inv e = elim (Bool-cases (ready st p s.channel)) [
    | inl y ↦ simp (y) (
        stage-Inv laws (acting p) inv (λ o h. omega (arith, h, ap receivers_at e))
          (λ o h. omega (arith, h, ap senders_at e))
          (λ p' e'. ap (λ x. ready st x s.channel) (sym (acting_same p p' e')) ∙ y)
          (λ p' e'. absurd (ground (arith, e'))))
    | inr y ↦ simp (y) (
        stage-Inv laws (registering p) inv
          (λ o h.
            ground (arith, h, ap receivers_at e, (must_wait-size laws p s.channel inv.valid o y).0))
          (λ o h.
            ground (arith, h, ap senders_at e, (must_wait-size laws p s.channel inv.valid o y).1))
          (λ p' e'. absurd (ground (arith, e')))
          (λ p' e'. ap (λ x. ready st x s.channel) (sym (registering_same p p' e')) ∙ y))
  ]

  pub registers-Inv :
      {s : System st} (p : Party A)
      → Inv laws s
      → s.stage ≡ registering p
      → Inv laws (record (registered st p s) { stage = leaving })
  registers-Inv {s} (sender w v) inv e = record {
    valid = inv.valid;
    for_receivers = λ o c. omega (arith, inv.for_receivers o c, ap receivers_at e);
    for_senders = λ o c. omega (arith, full_size laws s.channel inv.valid o (inv.must_wait _ e o));
    can_act = λ p' e'. absurd (ground (arith, e'));
    must_wait = λ p' e'. absurd (ground (arith, e'));
  }
  registers-Inv {s} (receiver w) inv e = record {
    valid = inv.valid;
    for_receivers =
        λ o c. omega (arith, empty_size laws s.channel inv.valid o (inv.must_wait _ e o));
    for_senders = λ o c. omega (arith, inv.for_senders o c, ap senders_at e);
    can_act = λ p' e'. absurd (ground (arith, e'));
    must_wait = λ p' e'. absurd (ground (arith, e'));
  }

  pub sends-Inv :
      {s : System st} (w : Bool) (v : A)
      → Inv laws s
      → s.stage ≡ acting (sender w v)
      → Inv laws (acted st (sender w v) s)
  unfolding send_locked
  sends-Inv {s} w v inv e = elim (Bool-cases (part_closed st s.channel)) [
    | inl y ↦ simp (y) (record {
      valid = inv.valid;
      for_receivers = λ o c. absurd (ground (arith, y, o));
      for_senders = λ o c. absurd (ground (arith, y, o));
      can_act = λ p' e'. absurd (ground (arith, e'));
      must_wait = λ p' e'. absurd (ground (arith, e'));
    })
    | inr y ↦
        (let room : length (laws.contents s.channel.values) ≢ bound =
            ground (arith, y, inv.can_act _ e, laws.full_iff s.channel.values inv.valid) in
          let more : length (laws.contents (st.put v s.channel.values)) ≡ suc (size laws s) =
            ap length (laws.contents-put v s.channel.values inv.valid room)
            ∙ (length-append (laws.contents s.channel.values) (v ∷ []) ∙ omega arith) in
          simp (y) (record {
            valid = laws.put-IsValid v s.channel.values inv.valid room;
            for_receivers = λ o c. omega (arith, more, inv.for_receivers y c, ap receivers_at e);
            for_senders = λ o c. ground (arith, more, inv.for_senders y c, ap senders_at e);
            can_act = λ p' e'. absurd (ground (arith, e'));
            must_wait = λ p' e'. absurd (ground (arith, e'));
          }))
  ]

  pub receives-Inv :
      {s : System st} (w : Bool)
      → Inv laws s
      → s.stage ≡ acting (receiver w)
      → Inv laws (acted st (receiver w) s)
  unfolding recv_locked
  receives-Inv {s} w inv e =
      elim (Bool-cases (st.empty s.channel.values && part_closed st s.channel)) [
        | inl y ↦ simp (y) (record {
          valid = inv.valid;
          for_receivers = λ o c. absurd (ground (arith, o));
          for_senders = λ o c. absurd (ground (arith, o));
          can_act = λ p' e'. absurd (ground (arith, e'));
          must_wait = λ p' e'. absurd (ground (arith, e'));
        })
        | inr y ↦ takes y (laws.contents s.channel.values) refl
      ]
    where
      takes :
          (st.empty s.channel.values && part_closed st s.channel) ≡ false
          → (l : List A) → laws.contents s.channel.values ≡ l
          → Inv laws (acted st (receiver w) s)
      takes y [] z =
          absurd (ground (arith, y, z, inv.can_act _ e, laws.empty_iff s.channel.values inv.valid))
      takes y (x ∷ xs) z =
          let (_, less) = laws.contents-take s.channel.values x xs inv.valid z in
          let some_item : laws.contents s.channel.values ≢ [] =
            λ n. absurd (ground (arith, sym z ∙ n)) in
          simp (y) (record {
            valid = laws.take-IsValid s.channel.values inv.valid some_item;
            for_receivers = λ o c.
                ground
                  (arith, ap length less, ap length z, inv.for_receivers o c, ap receivers_at e);
            for_senders = λ o c.
                omega (arith, ap length less, ap length z, inv.for_senders o c, ap senders_at e);
            can_act = λ p' e'. absurd (ground (arith, e'));
            must_wait = λ p' e'. absurd (ground (arith, e'));
          })

  pub notifies_producer-Inv :
      {s : System st}
      → Inv laws s
      → s.stage ≡ notifying one_producer
      → Inv laws (record (notify_producer st s.producers s) { stage = leaving })
  notifies_producer-Inv {s} inv e = go s.producers refl
    where
      go :
          (l : List A)
          → s.producers ≡ l
          → Inv laws (record (notify_producer st l s) { stage = leaving })
      go [] y = record {
        valid = inv.valid;
        for_receivers = λ o c. omega (arith, inv.for_receivers o c, ap receivers_at e);
        for_senders = λ o c. absurd (omega (arith, c, ap length y));
        can_act = λ p' e'. absurd (ground (arith, e'));
        must_wait = λ p' e'. absurd (ground (arith, e'));
      }
      go (v ∷ vs) y = record {
        valid = inv.valid;
        for_receivers = λ o c. omega (arith, inv.for_receivers o c, ap receivers_at e);
        for_senders =
            λ o c. omega (arith, inv.for_senders o (omega (arith, ap length y)), ap senders_at e);
        can_act = λ p' e'. absurd (ground (arith, e'));
        must_wait = λ p' e'. absurd (ground (arith, e'));
      }

  pub notifies_consumer-Inv :
      {s : System st}
      → Inv laws s
      → s.stage ≡ notifying one_consumer
      → Inv laws (record (notify_consumer st s.consumers s) { stage = leaving })
  notifies_consumer-Inv {s} inv e = go s.consumers refl
    where
      go :
          (n : ℕ) → s.consumers ≡ n → Inv laws (record (notify_consumer st n s) { stage = leaving })
      go zero y = record {
        valid = inv.valid;
        for_receivers = λ o c. absurd (omega (arith, c, y));
        for_senders = λ o c. omega (arith, inv.for_senders o c, ap senders_at e);
        can_act = λ p' e'. absurd (ground (arith, e'));
        must_wait = λ p' e'. absurd (ground (arith, e'));
      }
      go (suc n) y = record {
        valid = inv.valid;
        for_receivers =
            λ o c. omega (arith, inv.for_receivers o (omega (arith, y)), ap receivers_at e);
        for_senders = λ o c. omega (arith, inv.for_senders o c, ap senders_at e);
        can_act = λ p' e'. absurd (ground (arith, e'));
        must_wait = λ p' e'. absurd (ground (arith, e'));
      }
