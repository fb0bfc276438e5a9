-- ===== src/Latch/Timely.antt =====
-- When a latch that is counted down by several threads opens.
use sheepcoro.Base.{
  ℕ, suc, ◌+◌, ◌-◌, ◌^◌, ◌%◌, ◌≤◌, ◌<◌, ◌≡◌, ◌∙◌, Bool, true, false, not, ◌||◌, some, arith, ◌==◌,
  leb, ◌⊎◌, Bool-cases, inl, inr,
}
use sheepcoro.Awaiters.{Ptr, update, update_here, Awaiters}
use sheepcoro.Event.{this}
use sheepcoro.Event.System
use sheepcoro.Event.System.{System, Step, Reach}
use sheepcoro.Event.Linked.{IsLinked, Reach-IsLinked}
use sheepcoro.Event.Valued.{setter_of}
use sheepcoro.Event.Late.{late, Step-IsLate, Step-unset, Step-set}
use sheepcoro.Latch.{Latch, latch, fetch_sub}
use sheepcoro.Latch.System.{
  Counted, latch_of, LatchStep, waits, counts_down, sets, LatchReach, fresh, later,
}

event_Reach : {n : ℕ} {h : Awaiters} {s : Counted} → LatchReach n h s → Reach (leb n 0) h s.events
unfolding latch
event_Reach fresh = System.start
event_Reach (later r (waits t e _)) = System.later (event_Reach r) e
event_Reach (later r (counts_down k last l _ _ _)) = event_Reach r
event_Reach (later r (sets k t e _ _)) = System.later (event_Reach r) e

module _ (n : ℕ) (some_count : 1 ≤ n) (small : n < 2 ^ 63) where
  record Inv (s : Counted) : Type 0 where
    few : s.calls < 2 ^ 63
    counted : s.count ≡ (n + 2 ^ 64 - s.calls) % 2 ^ 64
    opened : s.events.state ≡ this → n ≤ s.calls
    last_call : (k : Ptr) → s.setting k ≡ true → n ≤ s.calls
    opens : n ≤ s.calls → (s.events.state ≡ this) ⊎ ((k : Ptr) × (s.setting k ≡ true))
    lates : (j : Ptr) → late (s.events.pc j) ≡ true → s.events.state ≡ this

  fetch_sub_lem :
      (s : Counted) (last : Bool) (l : Latch)
      → Inv s
      → suc s.calls < 2 ^ 63
      → fetch_sub (latch_of s) ≡ (last, l)
      → (last ≡ leb n (suc s.calls)) × (l.count ≡ (n + 2 ^ 64 - suc s.calls) % 2 ^ 64)
  unfolding fetch_sub
  fetch_sub_lem s last l inv few e =
      (ground (arith, e, inv.counted), ground (arith, e, inv.counted))

  counts_down-Inv :
      {s : Counted} (k : Ptr) (last : Bool) (l : Latch)
      → Inv s
      → s.setting k ≡ false
      → suc s.calls < 2 ^ 63
      → fetch_sub (latch_of s) ≡ (last, l)
      → Inv (record s { count = l.count; calls = suc s.calls; setting = update s.setting k last })
  counts_down-Inv {s} k last l inv free few e =
      let (is_last, down) = fetch_sub_lem s last l inv few e in
      record {
        few = few;
        counted = down;
        opened = λ h. omega (arith, inv.opened h);
        last_call = λ j h. elim (Bool-cases (k == j)) [
          | inl y ↦ (let at_last : last ≡ true = rw y at h in ground (arith, is_last, at_last))
          | inr y ↦
              (let before : s.setting j ≡ true = rw y at h in omega (arith, inv.last_call j before))
        ];
        opens = λ h. inr (k, update_here s.setting k last ∙ ground (arith, is_last, h));
        lates = inv.lates;
      }

  sets-Inv :
      {s : Counted} (k : Ptr) (t : System) (e : Step s.events t)
      → IsLinked s.events
      → Inv s
      → setter_of e ≡ some k
      → s.setting k ≡ true
      → Inv (record s { events = t; setting = update s.setting k false })
  sets-Inv {s} k t e l inv y at = record {
    few = inv.few;
    counted = inv.counted;
    opened = λ h. inv.last_call k at;
    last_call = λ j h. inv.last_call k at;
    opens = λ h. inl (Step-set k e y);
    lates = (Step-IsLate l e).lates inv.lates;
  }

  LatchStep-Inv : {s t : Counted} → IsLinked s.events → Inv s → LatchStep s t → Inv t
  LatchStep-Inv l inv (waits t e y) = record {
    few = inv.few;
    counted = inv.counted;
    opened = λ h. inv.opened (Step-unset l e y h);
    last_call = inv.last_call;
    opens = λ h. elim (inv.opens h) [ inl x ↦ inl ((Step-IsLate l e).stays x) | inr x ↦ inr x ];
    lates = (Step-IsLate l e).lates inv.lates;
  }
  LatchStep-Inv l inv (counts_down k last d free few e) = counts_down-Inv k last d inv free few e
  LatchStep-Inv l inv (sets k t e y at) = sets-Inv k t e l inv y at

  Reach-Inv : {h : Awaiters} {s : Counted} → LatchReach n h s → Inv s
  unfolding latch
  Reach-Inv fresh = record {
    few = omega arith;
    counted = omega (arith, small);
    opened = λ h. absurd (ground (arith, h, some_count));
    last_call = λ k h. absurd (ground (arith, h));
    opens = λ h. absurd (omega (arith, some_count, h));
    lates = λ j h. absurd (ground (arith, h));
  }
  Reach-Inv (later r e) = LatchStep-Inv (Reach-IsLinked (event_Reach r)) (Reach-Inv r) e

  -- A latch with a count n from 1 to 2 ^ 63 - 1, counted down fewer than 2 ^ 63 times: in every
  -- reachable state with no thread between a last fetch_sub and its set of the event, the event is
  -- set exactly when count_down has been called n times or more, and a coroutine past its wait
  -- is so only then.
  pub opens_on_time :
      {h : Awaiters} {s : Counted}
      → LatchReach n h s
      → ((k : Ptr) → s.setting k ≡ false)
      → (j : Ptr)
      → ((s.events.state == this) ≡ leb n s.calls)
        × ((not (late (s.events.pc j)) || leb n s.calls) ≡ true)
  opens_on_time {h} {s} r none_between j =
      let inv = Reach-Inv r in
      (
        elim (Bool-cases (leb n s.calls)) [
          | inl y ↦
              (let is_set : s.events.state ≡ this = set_now inv (ground (arith, y)) in
                ground (arith, is_set, y))
          | inr y ↦ ground (arith, y, inv.opened)
        ],
        elim (Bool-cases (late (s.events.pc j))) [
          | inl y ↦ ground (arith, y, inv.opened (inv.lates j y))
          | inr y ↦ ground (arith, y)
        ],
      )
    where
      set_now : Inv s → n ≤ s.calls → s.events.state ≡ this
      set_now inv m = elim (inv.opens m) [
        | inl x ↦ x
        | inr x ↦ absurd (ground (arith, none_between x.0, x.1))
      ]
