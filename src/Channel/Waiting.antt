-- ===== src/Channel/Waiting.antt =====
-- Who waits on the condition variables of an open channel, and who has been woken.
pub mod Locked
pub mod Others
use sheepcoro.Base.{
  ℕ, zero, suc, ◌+◌, ◌-◌, ◌≤◌, ◌<◌, ◌≡◌, ◌≢◌, refl, sym, ap, ◌∙◌, Bool, true, false, not, ◌&&◌,
  ◌||◌, Option, none, some, List, [], ◌∷◌, ◌++◌, arith, ◌==◌, if◌then◌else◌, length, length-append,
  is_nil, Bool-cases, inl, inr,
}
use sheepcoro.Channel.{
  Store, Channel, Notice, one_producer, one_consumer, all_producers, all_consumers, part_close,
  part_closed, send_ready, send_locked, recv_ready, recv_locked,
}
use sheepcoro.Channel.Spec.{IsQueue}
use sheepcoro.Channel.System.{
  Party, sender, receiver, Stage, free, testing, registering, acting, notifying, leaving, pass,
  rest, woken_senders, woken_receivers, System, turned_away, ready, registered, acted,
  notify_producer, notify_consumer, Step, calls_free, calls_busy, tests, registers, acts,
  notifies_producer, notifies_consumer, leaves, wakes_free, wakes_busy, closes, closes_producers,
  closes_consumers, started, Reach, start, later,
}

module _ {A : Type 0} where
  abbrev pub sends_woken : Party A → ℕ
  sends_woken (sender true v) = 1
  sends_woken _ = 0

  abbrev pub receives_woken : Party A → ℕ
  receives_woken (receiver true) = 1
  receives_woken _ = 0

  -- The sum of a weight over a list.
  abbrev pub total : (Party A → ℕ) → List (Party A) → ℕ
  total f [] = 0
  total f (p ∷ ps) = f p + total f ps

  pub total-append :
      (f : Party A → ℕ) (ps qs : List (Party A)) → total f (ps ++ qs) ≡ total f ps + total f qs
  total-append f [] qs = omega arith
  total-append f (p ∷ ps) qs = omega (arith, total-append f ps qs)

  -- The woken senders and receivers that hold the mutex and have not gone back to wait, and the one
  -- that the holder is about to wake.
  abbrev pub senders_at : Stage A → ℕ
  senders_at (testing p) = sends_woken p
  senders_at (acting p) = sends_woken p
  senders_at (notifying one_producer) = 1
  senders_at _ = 0

  abbrev pub receivers_at : Stage A → ℕ
  receivers_at (testing p) = receives_woken p
  receivers_at (acting p) = receives_woken p
  receivers_at (notifying one_consumer) = 1
  receivers_at _ = 0

module _ {A : Type 0} {st : Store A} {bound : ℕ} (laws : IsQueue st bound) where
  abbrev pub size : System st → ℕ
  size s = length (laws.contents s.channel.values)

  abbrev pub senders : System st → ℕ
  senders s = senders_at s.stage + total sends_woken s.queue + total sends_woken s.called

  abbrev pub receivers : System st → ℕ
  receivers s = receivers_at s.stage + total receives_woken s.queue + total receives_woken s.called

  pub record Inv (s : System st) : Type 1 where
    pub valid : laws.IsValid s.channel.values
    pub for_receivers : part_closed st s.channel ≡ false → 1 ≤ s.consumers → size s ≤ receivers s
    pub for_senders :
        part_closed st s.channel ≡ false → 1 ≤ length s.producers → bound ≤ size s + senders s
    pub can_act : (p : Party A) → s.stage ≡ acting p → ready st p s.channel ≡ true
    pub must_wait :
        (p : Party A)
        → s.stage ≡ registering p
        → part_closed st s.channel ≡ false
        → ready st p s.channel ≡ false

  is_nil-length : (l : List A) → is_nil l ≡ (length l == 0)
  is_nil-length [] = refl
  is_nil-length (x ∷ l) = ground arith

  -- A receiver that has to wait finds nothing, and a sender no room.
  pub empty_size :
      (c : Channel st)
      → laws.IsValid c.values
      → part_closed st c ≡ false
      → recv_ready st c ≡ false
      → length (laws.contents c.values) ≡ 0
  empty_size c ok o e =
      ground (arith, o, e, laws.empty_iff c.values ok, is_nil-length (laws.contents c.values))

  pub full_size :
      (c : Channel st)
      → laws.IsValid c.values
      → part_closed st c ≡ false
      → send_ready st c ≡ false
      → bound ≤ length (laws.contents c.values)
  full_size c ok o e = ground (arith, o, e, laws.full_iff c.values ok)

  pub must_wait-size :
      (p : Party A) (c : Channel st)
      → laws.IsValid c.values
      → part_closed st c ≡ false
      → ready st p c ≡ false
      → (1 ≤ receives_woken p → length (laws.contents c.values) ≡ 0)
        × (1 ≤ sends_woken p → bound ≤ length (laws.contents c.values))
  must_wait-size (sender w v) c ok o e = (λ h. absurd (omega (arith, h)), λ h. full_size c ok o e)
  must_wait-size (receiver w) c ok o e = (λ h. empty_size c ok o e, λ h. absurd (omega (arith, h)))

  -- Only the stage changes.
  pub stage-Inv :
      {s : System st} (g : Stage A)
      → Inv s
      → (part_closed st s.channel ≡ false
          → size s ≤ receivers s
          → size s ≤ receivers (record s { stage = g }))
      → (part_closed st s.channel ≡ false
          → bound ≤ size s + senders s
          → bound ≤ size s + senders (record s { stage = g }))
      → ((p : Party A) → g ≡ acting p → ready st p s.channel ≡ true)
      → ((p : Party A) → g ≡ registering p → ready st p s.channel ≡ false)
      → Inv (record s { stage = g })
  stage-Inv {s} g inv r t can must = record {
    valid = inv.valid;
    for_receivers = λ o c. r o (inv.for_receivers o c);
    for_senders = λ o c. t o (inv.for_senders o c);
    can_act = can;
    must_wait = λ p e o. must p e;
  }
