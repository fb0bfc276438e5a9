-- ===== src/Channel/Waiting/Others.antt =====
-- The steps that pass the mutex on, and those of notifiers and closers.
use sheepcoro.Base.{ℕ, zero, suc, ◌+◌, ◌≡◌, ◌≢◌, refl, ap, ◌∙◌, true, List, [], ◌∷◌, ◌++◌, arith}
use sheepcoro.Channel.{Store, Channel, part_close, part_closed}
use sheepcoro.Channel.Spec.{IsQueue}
use sheepcoro.Channel.System.{
  Party, sender, receiver, Stage, free, testing, registering, acting, leaving, pass, rest,
  woken_senders, woken_receivers, System, ready,
}
use sheepcoro.Channel.Waiting.{
  sends_woken, receives_woken, total, total-append, senders_at, receivers_at, Inv,
}

module _ {A : Type 0} {st : Store A} {bound : ℕ} (laws : IsQueue st bound) where
  passed :
      (f : Stage A → ℕ) (g : Party A → ℕ)
      → f free ≡ 0
      → ((p : Party A) → f (testing p) ≡ g p)
      → (l : List (Party A)) → f (pass l) + total g (rest l) ≡ total g l
  passed f g z h [] = omega (arith, z)
  passed f g z h (p ∷ ps) = omega (arith, h p)

  passes_on : (l : List (Party A)) (p : Party A) → (pass l ≢ acting p) × (pass l ≢ registering p)
  passes_on [] p = (λ e. ground (arith, e), λ e. ground (arith, e))
  passes_on (x ∷ l) p = (λ e. ground (arith, e), λ e. ground (arith, e))

  pub leaves-Inv :
      {s : System st}
      → Inv laws s
      → s.stage ≡ leaving
      → Inv laws (record s { stage = pass s.queue; queue = rest s.queue })
  leaves-Inv {s} inv e = record {
    valid = inv.valid;
    for_receivers = λ o c. omega (
      arith,
      inv.for_receivers o c,
      ap receivers_at e,
      passed receivers_at receives_woken refl (λ p. refl) s.queue,
    );
    for_senders = λ o c. omega (
      arith,
      inv.for_senders o c,
      ap senders_at e,
      passed senders_at sends_woken refl (λ p. refl) s.queue,
    );
    can_act = λ p e'. absurd ((passes_on s.queue p).0 e');
    must_wait = λ p e'. absurd ((passes_on s.queue p).1 e');
  }

  wakes-total :
      (f : Party A → ℕ) (l ps qs : List (Party A)) (p : Party A)
      → l ≡ ps ++ p ∷ qs
      → total f l ≡ f p + total f (ps ++ qs)
  wakes-total f l ps qs p e =
      ap (total f) e ∙ omega (arith, total-append f ps (p ∷ qs), total-append f ps qs)

  pub wakes_free-Inv :
      {s : System st} (p : Party A) (ps qs : List (Party A))
      → Inv laws s
      → s.called ≡ ps ++ p ∷ qs
      → s.stage ≡ free
      → Inv laws (record s { called = ps ++ qs; stage = testing p })
  wakes_free-Inv {s} p ps qs inv y e = record {
    valid = inv.valid;
    for_receivers = λ o c. omega (
      arith,
      inv.for_receivers o c,
      ap receivers_at e,
      wakes-total receives_woken s.called ps qs p y,
    );
    for_senders = λ o c.
        omega
          (arith, inv.for_senders o c, ap senders_at e, wakes-total sends_woken s.called ps qs p y);
    can_act = λ p' e'. absurd (ground (arith, e'));
    must_wait = λ p' e'. absurd (ground (arith, e'));
  }

  pub wakes_busy-Inv :
      {s : System st} (p : Party A) (ps qs : List (Party A))
      → Inv laws s
      → s.called ≡ ps ++ p ∷ qs
      → Inv laws (record s { called = ps ++ qs; queue = s.queue ++ p ∷ [] })
  wakes_busy-Inv {s} p ps qs inv y = record {
    valid = inv.valid;
    for_receivers = λ o c. omega (
      arith,
      inv.for_receivers o c,
      total-append receives_woken s.queue (p ∷ []),
      wakes-total receives_woken s.called ps qs p y,
    );
    for_senders = λ o c. omega (
      arith,
      inv.for_senders o c,
      total-append sends_woken s.queue (p ∷ []),
      wakes-total sends_woken s.called ps qs p y,
    );
    can_act = inv.can_act;
    must_wait = inv.must_wait;
  }

  closed_ready : (p : Party A) (c : Channel st) → part_closed st c ≡ true → ready st p c ≡ true
  closed_ready (sender w v) c y = ground (arith, y)
  closed_ready (receiver w) c y = ground (arith, y)

  pub closes-Inv :
      {s : System st}
      → Inv laws s
      → Inv laws (record s {
        channel = record s.channel { close_state = part_close };
        closing_both = suc s.closing_both;
      })
  closes-Inv {s} inv = record {
    valid = inv.valid;
    for_receivers = λ o c. absurd (ground (arith, o));
    for_senders = λ o c. absurd (ground (arith, o));
    can_act = λ p e. closed_ready p _ refl;
    must_wait = λ p e o. absurd (ground (arith, o));
  }

  total_woken_senders :
      (vs : List A) (ps : List (Party A))
      → total receives_woken (woken_senders vs ++ ps) ≡ total receives_woken ps
  total_woken_senders [] ps = refl
  total_woken_senders (v ∷ vs) ps = omega (arith, total_woken_senders vs ps)

  total_woken_receivers :
      (n : ℕ) (ps : List (Party A))
      → total sends_woken (woken_receivers n ++ ps) ≡ total sends_woken ps
  total_woken_receivers zero ps = refl
  total_woken_receivers (suc n) ps = omega (arith, total_woken_receivers n ps)

  pub closes_producers-Inv :
      {s : System st} (n : ℕ)
      → Inv laws s
      → Inv laws (record s {
        producers = [];
        called = woken_senders s.producers ++ s.called;
        closing_both = n;
        closing_consumers = suc s.closing_consumers;
      })
  closes_producers-Inv {s} n inv = record {
    valid = inv.valid;
    for_receivers =
        λ o c. omega (arith, inv.for_receivers o c, total_woken_senders s.producers s.called);
    for_senders = λ o c. absurd (omega (arith, c));
    can_act = inv.can_act;
    must_wait = inv.must_wait;
  }

  pub closes_consumers-Inv :
      {s : System st} (n : ℕ)
      → Inv laws s
      → Inv laws (record s {
        consumers = 0;
        called = woken_receivers s.consumers ++ s.called;
        closing_consumers = n;
      })
  closes_consumers-Inv {s} n inv = record {
    valid = inv.valid;
    for_receivers = λ o c. absurd (omega (arith, c));
    for_senders =
        λ o c. omega (arith, inv.for_senders o c, total_woken_receivers s.consumers s.called);
    can_act = inv.can_act;
    must_wait = inv.must_wait;
  }
