-- ===== src/Channel/Missed.antt =====
-- What a close can miss, since it does not take the mutex.
use sheepcoro.Base.{
  ◌≤◌, ◌≡◌, ◌≢◌, refl, ◌∙◌, Bool, true, false, List, [], ◌∷◌, ◌++◌, arith, if◌then◌else◌,
  Bool-cases, inl, inr,
}
use sheepcoro.Channel.{Store, one_consumer, part_close, part_closed, send_locked, recv_locked}
use sheepcoro.Channel.System.{
  Party, sender, receiver, registering, acting, notifying, leaving, pass, rest, woken_senders,
  woken_receivers, System, ready, acted, notify_producer, Step, calls_free, calls_busy, tests,
  registers, acts, notifies_producer, notifies_consumer, leaves, wakes_free, wakes_busy, closes,
  closes_producers, closes_consumers, Reach, later,
}

module _ {A : Type 0} where
  passes : (l : List (Party A)) → pass l ≢ notifying one_consumer
  passes [] e = ground (arith, e)
  passes (p ∷ l) e = ground (arith, e)

  tested :
      (b : Bool) (p : Party A) → (if b then acting p else registering p) ≢ notifying one_consumer
  tested true p e = ground (arith, e)
  tested false p e = ground (arith, e)

module _ {A : Type 0} {st : Store A} where
  -- After a close that ran while a receiver was about to register, and after that receiver has
  -- registered and unlocked the mutex.
  abbrev pub missed : System st → System st
  missed s = record s {
    channel = record s.channel { close_state = part_close };
    stage = pass s.queue;
    queue = rest s.queue;
    called = woken_receivers s.consumers ++ (woken_senders s.producers ++ s.called);
    producers = [];
    consumers = 1;
  }

  -- Any number of steps, as long as close is not called again.
  pub data Run (s : System st) : System st → Type 0 where
    stay : Run s s
    onward : {t u : System st} → Run s t → Step st t u → u.closing_both ≡ 0 → Run s u

  record IsMissed (s : System st) : Type 0 where
    closed : part_closed st s.channel ≡ true
    none_closes : (s.closing_both ≡ 0) × (s.closing_consumers ≡ 0)
    waits : 1 ≤ s.consumers
    quiet : s.stage ≢ notifying one_consumer

  missed-IsMissed :
      (s : System st) → s.closing_both ≡ 0 → s.closing_consumers ≡ 0 → IsMissed (missed s)
  missed-IsMissed s b c = record {
    closed = refl;
    none_closes = (b, c);
    waits = omega arith;
    quiet = passes s.queue;
  }

  keeps :
      {s t : System st}
      → IsMissed s
      → part_closed st t.channel ≡ true
      → t.closing_both ≡ 0
      → t.closing_consumers ≡ s.closing_consumers
      → s.consumers ≤ t.consumers
      → t.stage ≢ notifying one_consumer
      → IsMissed t
  keeps m shut b c more stage = record {
    closed = shut;
    none_closes = (b, c ∙ m.none_closes.1);
    waits = omega (arith, m.waits, more);
    quiet = stage;
  }

  sends-IsMissed :
      {s : System st} (w : Bool) (v : A) → IsMissed s → IsMissed (acted st (sender w v) s)
  unfolding send_locked
  sends-IsMissed {s} w v m = simp (m.closed) (
      keeps {t = record s { stage = leaving }} m m.closed m.none_closes.0 refl (omega arith)
        (λ e. ground (arith, e)))

  receives-IsMissed : {s : System st} (w : Bool) → IsMissed s → IsMissed (acted st (receiver w) s)
  unfolding recv_locked
  receives-IsMissed {s} w m = elim (Bool-cases (st.empty s.channel.values)) [
    | inl y ↦
        simp (y, m.closed)
          (keeps {t = record s { channel = record s.channel { close_state = 0 }; stage = leaving }}
            m refl m.none_closes.0 refl (omega arith) (λ e. ground (arith, e)))
    | inr y ↦
        simp (y, m.closed)
          (keeps m m.closed m.none_closes.0 refl (omega arith) (λ e. ground (arith, e)))
  ]

  notifies-IsMissed :
      {s : System st} (l : List A)
      → IsMissed s
      → IsMissed (record (notify_producer st l s) { stage = leaving })
  notifies-IsMissed [] m =
      keeps m m.closed m.none_closes.0 refl (omega arith) (λ e. ground (arith, e))
  notifies-IsMissed (v ∷ vs) m =
      keeps m m.closed m.none_closes.0 refl (omega arith) (λ e. ground (arith, e))

  Step-IsMissed : {s t : System st} → IsMissed s → Step st s t → t.closing_both ≡ 0 → IsMissed t
  Step-IsMissed m (calls_free p _ _ e) z =
      keeps m m.closed z refl (omega arith) (λ e'. ground (arith, e'))
  Step-IsMissed m (calls_busy p _ _ _) z = keeps m m.closed z refl (omega arith) m.quiet
  Step-IsMissed {s} m (tests p e) z =
      keeps m m.closed z refl (omega arith) (tested (ready st p s.channel) p)
  Step-IsMissed m (registers (sender w v) e) z =
      keeps m m.closed z refl (omega arith) (λ e'. ground (arith, e'))
  Step-IsMissed m (registers (receiver w) e) z =
      keeps m m.closed z refl (omega arith) (λ e'. ground (arith, e'))
  Step-IsMissed m (acts (sender w v) e) z = sends-IsMissed w v m
  Step-IsMissed m (acts (receiver w) e) z = receives-IsMissed w m
  Step-IsMissed {s} m (notifies_producer e) z = notifies-IsMissed s.producers m
  Step-IsMissed m (notifies_consumer e) z = absurd (m.quiet e)
  Step-IsMissed {s} m (leaves e) z = keeps m m.closed z refl (omega arith) (passes s.queue)
  Step-IsMissed m (wakes_free p ps qs y e) z =
      keeps m m.closed z refl (omega arith) (λ e'. ground (arith, e'))
  Step-IsMissed m (wakes_busy p ps qs y _) z = keeps m m.closed z refl (omega arith) m.quiet
  Step-IsMissed m closes z = absurd (omega (arith, z))
  Step-IsMissed m (closes_producers n e) z = absurd (omega (arith, e, m.none_closes.0))
  Step-IsMissed m (closes_consumers n e) z = absurd (omega (arith, e, m.none_closes.1))

  Run-IsMissed : {s t : System st} → IsMissed s → Run s t → IsMissed t
  Run-IsMissed m stay = m
  Run-IsMissed m (onward r e z) = Step-IsMissed (Run-IsMissed m r) e z

  -- Whenever a receiver has found its predicate false and is about to register, and nobody closes,
  -- a close can run to its end before the receiver registers; and from then on some receiver waits
  -- on the closed channel whatever anybody does, as long as close is not called again.
  pub close_misses :
      {values : st.State} {s t : System st} (w : Bool)
      → Reach st values s
      → s.stage ≡ registering (receiver w)
      → s.closing_both ≡ 0
      → s.closing_consumers ≡ 0
      → Run (missed s) t
      → Reach st values (missed s) × (part_closed st t.channel ≡ true) × (1 ≤ t.consumers)
  close_misses {values} {s} {t} w r at b c run =
      let closing =
        later (later (later r closes) (closes_producers s.closing_both refl))
          (closes_consumers s.closing_consumers refl) in
      let m = Run-IsMissed (missed-IsMissed s b c) run in
      (later (later closing (registers (receiver w) at)) (leaves refl), m.closed, m.waits)
