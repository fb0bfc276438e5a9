-- ===== src/Channel/Tests.antt =====
-- Channels of numbers at work.
use sheepcoro.Base.{
  ℕ, ◌-◌, ◌^◌, ◌≤◌, ◌≡◌, ◌⊎◌, refl, true, false, none, some, length, List, [], ◌∷◌, arith,
}
use sheepcoro.Channel.{
  one_consumer, returns, waits, no_close, part_closed, send, send_locked, recv, close,
}
use sheepcoro.Channel.Spec.{Call, sends, receives, closes, sent, received, closed, run_fifo}
use sheepcoro.Channel.System.{
  sender, receiver, testing, registering, System, calls_free, tests, registers, acts,
  notifies_consumer, leaves, started, Reach, start, later,
}
use sheepcoro.Channel.Quiet.{waits_justified}
use sheepcoro.Channel.Missed.{missed, stay, onward, close_misses}
use sheepcoro.Channel.Refine.{run}
use sheepcoro.Channel.Ring.{Ring, IsRing, ring, ring_fifo}
use sheepcoro.Channel.Ring
use sheepcoro.Channel.Masked.{Masked, masked, masked_fifo}
use sheepcoro.Channel.Slot.{slot, slot-IsQueue, slot_valid}

abbrev calls : List (Call ℕ)
calls = sends 1 ∷ sends 2 ∷ receives ∷ closes ∷ sends 3 ∷ receives ∷ receives ∷ []

-- Two values of three, round the end of the array.
abbrev round : Ring ℕ
round = record { head = 2; tail = 1; num = 2; array = 9 ∷ 7 ∷ 8 ∷ [] }

ring_runs :
    run (ring 0 3) (record { values = round; close_state = no_close; notices = [] }) calls
    ≡ sent (returns true)
      ∷ sent waits
      ∷ received (returns (some 8))
      ∷ closed
      ∷ sent (returns false)
      ∷ received (returns (some 9))
      ∷ received (returns (some 1))
      ∷ []
unfolding run send recv close Ring.put Ring.take
ring_runs = refl

ring_fifo_example :
    run (ring 0 3) (record { values = round; close_state = no_close; notices = [] }) calls
    ≡ run_fifo 3 (record { items = 8 ∷ 9 ∷ []; closed = false }) calls
ring_fifo_example = ring_fifo 0 3 round calls (omega arith)

-- The tail has wrapped at 2 ^ 64 and the head has not.
abbrev wrapped : Masked ℕ
wrapped = record { head = 2 ^ 64 - 1; tail = 1; array = 5 ∷ 6 ∷ 7 ∷ 8 ∷ [] }

masked_fifo_example :
    run (masked 0 2) (record { values = wrapped; close_state = no_close; notices = [] }) calls
    ≡ run_fifo 4 (record { items = 8 ∷ 5 ∷ []; closed = false }) calls
masked_fifo_example = masked_fifo 0 2 wrapped calls (omega arith)

-- A sender has put 4, has found nobody to wake, and has left.
after_send : Reach (slot ℕ) none (record (started (slot ℕ) none) {
  channel = record { values = some 4; close_state = no_close; notices = one_consumer ∷ [] };
})
unfolding send_locked
after_send =
    let tried =
      later (later start (calls_free (sender false 4) refl refl refl))
        (tests (sender false 4) refl) in
    later (later (later tried (acts (sender false 4) refl)) (notifies_consumer refl)) (leaves refl)

-- A receiver has found nothing and is about to register.
before_register :
    Reach (slot ℕ) none (record (started (slot ℕ) none) { stage = registering (receiver false) })
before_register =
    later (later start (calls_free (receiver false) refl refl refl)) (tests (receiver false) refl)

-- A second sender has found the channel full and waits.
sender_waits : Reach (slot ℕ) none (record (started (slot ℕ) none) {
  channel = record { values = some 4; close_state = no_close; notices = one_consumer ∷ [] };
  producers = 5 ∷ [];
})
sender_waits =
    let tried =
      later (later after_send (calls_free (sender false 5) refl refl refl))
        (tests (sender false 5) refl) in
    later (later tried (registers (sender false 5) refl)) (leaves refl)

-- Sender 5 waits on the full channel.
abbrev sleepers : System (slot ℕ)
sleepers = record (started (slot ℕ) none) {
  channel = record { values = some 4; close_state = no_close; notices = one_consumer ∷ [] };
  producers = 5 ∷ [];
}

waits_justified_example :
    ((sleepers.consumers ≡ 0) ⊎ ((slot-IsQueue ℕ).contents sleepers.channel.values ≡ []))
    × ((sleepers.producers ≡ []) ⊎ (1 ≤ length ((slot-IsQueue ℕ).contents sleepers.channel.values)))
waits_justified_example =
    waits_justified (slot-IsQueue ℕ) (slot_valid ℕ none) sender_waits refl refl refl refl

-- The receiver that has missed the close, and one that calls later.
abbrev late : System (slot ℕ)
late = record (missed (record (started (slot ℕ) none) { stage = registering (receiver false) })) {
  stage = testing (receiver false);
}

close_misses_example :
    Reach
      (slot ℕ)
      none
      (missed (record (started (slot ℕ) none) { stage = registering (receiver false) }))
    × (part_closed (slot ℕ) late.channel ≡ true)
    × (1 ≤ late.consumers)
close_misses_example =
    close_misses false before_register refl refl refl
      (onward stay (calls_free (receiver false) refl refl refl) refl)
