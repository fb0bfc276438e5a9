-- ===== src/Channel/Quiet.antt =====
-- Nobody waits on a channel for what is there.
use sheepcoro.Base.{
  ℕ, zero, suc, ◌≤◌, ◌≡◌, refl, ap, false, List, [], ◌∷◌, arith, length, ◌⊎◌, inl, inr,
}
use sheepcoro.Channel.{Store, part_closed}
use sheepcoro.Channel.Spec.{IsQueue}
use sheepcoro.Channel.System.{
  sender, receiver, free, System, Step, calls_free, calls_busy, tests, registers, acts,
  notifies_producer, notifies_consumer, leaves, wakes_free, wakes_busy, closes, closes_producers,
  closes_consumers, Reach, start, later,
}
use sheepcoro.Channel.Waiting.{sends_woken, receives_woken, total, senders_at, receivers_at, Inv}
use sheepcoro.Channel.Waiting.Locked.{
  calls_free-Inv, calls_busy-Inv, tests-Inv, registers-Inv, sends-Inv, receives-Inv,
  notifies_producer-Inv, notifies_consumer-Inv,
}
use sheepcoro.Channel.Waiting.Others.{
  leaves-Inv, wakes_free-Inv, wakes_busy-Inv, closes-Inv, closes_producers-Inv,
  closes_consumers-Inv,
}

module _ {A : Type 0} {st : Store A} {bound : ℕ} (laws : IsQueue st bound) where
  Step-Inv : {s t : System st} → Inv laws s → Step st s t → Inv laws t
  Step-Inv inv (calls_free p _ _ e) = calls_free-Inv laws p inv e
  Step-Inv inv (calls_busy p _ _ _) = calls_busy-Inv laws p inv
  Step-Inv inv (tests p e) = tests-Inv laws p inv e
  Step-Inv inv (registers p e) = registers-Inv laws p inv e
  Step-Inv inv (acts (sender w v) e) = sends-Inv laws w v inv e
  Step-Inv inv (acts (receiver w) e) = receives-Inv laws w inv e
  Step-Inv inv (notifies_producer e) = notifies_producer-Inv laws inv e
  Step-Inv inv (notifies_consumer e) = notifies_consumer-Inv laws inv e
  Step-Inv inv (leaves e) = leaves-Inv laws inv e
  Step-Inv inv (wakes_free p ps qs y e) = wakes_free-Inv laws p ps qs inv y e
  Step-Inv inv (wakes_busy p ps qs y _) = wakes_busy-Inv laws p ps qs inv y
  Step-Inv inv closes = closes-Inv laws inv
  Step-Inv inv (closes_producers n _) = closes_producers-Inv laws n inv
  Step-Inv inv (closes_consumers n _) = closes_consumers-Inv laws n inv

  Reach-Inv :
      {values : st.State} {s : System st} → laws.IsValid values → Reach st values s → Inv laws s
  Reach-Inv ok start = record {
    valid = ok;
    for_receivers = λ o c. absurd (omega (arith, c));
    for_senders = λ o c. absurd (omega (arith, c));
    can_act = λ p e. absurd (ground (arith, e));
    must_wait = λ p e. absurd (ground (arith, e));
  }
  Reach-Inv ok (later r e) = Step-Inv (Reach-Inv ok r) e

  no_length : {B : Type 0} (l : List B) → length l ≡ 0 → l ≡ []
  no_length [] e = refl
  no_length (x ∷ l) e = absurd (omega (arith, e))

  -- For a store that keeps the laws of a bounded queue, valid at first: in every reachable state of
  -- an open channel in which the mutex is free, nobody waits for it, and nobody who has been taken
  -- off a condition variable is still to come to it, no receiver waits or no value is there, and no
  -- sender waits or the channel is full.
  pub waits_justified :
      {values : st.State} {s : System st}
      → laws.IsValid values
      → Reach st values s
      → part_closed st s.channel ≡ false
      → s.stage ≡ free
      → s.queue ≡ []
      → s.called ≡ []
      → ((s.consumers ≡ 0) ⊎ (laws.contents s.channel.values ≡ []))
        × ((s.producers ≡ []) ⊎ (bound ≤ length (laws.contents s.channel.values)))
  waits_justified {values} {s} ok r o at q c =
      let inv = Reach-Inv ok r in
      (by_consumers inv s.consumers refl, by_producers inv s.producers refl)
    where
      by_consumers :
          Inv laws s
          → (n : ℕ) → s.consumers ≡ n
          → (s.consumers ≡ 0) ⊎ (laws.contents s.channel.values ≡ [])
      by_consumers inv zero y = inl y
      by_consumers inv (suc n) y = inr (
          no_length (laws.contents s.channel.values) (
            omega (
              arith,
              inv.for_receivers o (omega (arith, y)),
              ap receivers_at at,
              ap (total receives_woken) q,
              ap (total receives_woken) c,
            )))

      by_producers :
          Inv laws s
          → (l : List A) → s.producers ≡ l
          → (s.producers ≡ []) ⊎ (bound ≤ length (laws.contents s.channel.values))
      by_producers inv [] y = inl y
      by_producers inv (v ∷ vs) y = inr (
          omega (
            arith,
            inv.for_senders o (omega (arith, ap length y)),
            ap senders_at at,
            ap (total sends_woken) q,
            ap (total sends_woken) c,
          ))
