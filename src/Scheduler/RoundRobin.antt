-- ===== src/Scheduler/RoundRobin.antt =====
-- Fairness of the round robin of include/coro/dispatcher.hpp.
use sheepcoro.Base.{
  ℕ, zero, suc, ◌+◌, ◌-◌, ◌%◌, ◌^◌, ◌<◌, ◌≡◌, sym, ◌∙◌, arith, leb, true, false, Bool-cases, inl,
  inr,
}
use native.Mathlib.Nat.{mod-add-mod, mod-eq_of_lt, mod-eq-sub-mod, mod-lt}
use sheepcoro.Scheduler.{Dispatcher, dispatch}

-- The context that the call after k others chooses.
unfoldable pub after_calls : ℕ → Dispatcher → Dispatcher
after_calls zero d = d
after_calls (suc k) d = (dispatch (after_calls k d)).1

after_calls_lem :
    (k : ℕ) (d : Dispatcher)
    → d.cur + k < 2 ^ 64
    → after_calls k d ≡ record { ctx_cnt = d.ctx_cnt; cur = d.cur + k }
unfolding after_calls dispatch
after_calls_lem zero d small = ground arith
after_calls_lem (suc k) d small = ground (arith, after_calls_lem k d (omega arith))

-- Between the remainder r of the counter and context c lie fewer than n calls.
distance : (n r c : ℕ) → r < n → c < n → (k : ℕ) × (k < n) × ((r + k) % n ≡ c)
distance n r c small h = elim (Bool-cases (leb r c)) [
  | inl z ↦ (c - r, ground arith, rw (whole z) (mod-eq_of_lt h))
  | inr z ↦ (
    c + n - r,
    ground arith,
    rw (round z) (mod-eq-sub-mod {n = n + c} {m = n} (omega arith) ∙ rw (back) (mod-eq_of_lt h)),
  )
]
  where
    whole : leb r c ≡ true → r + (c - r) ≡ c
    whole z = ground arith

    round : leb r c ≡ false → r + (c + n - r) ≡ n + c
    round z = ground arith

    back : n + c - n ≡ c
    back = omega arith

-- The round robin is fair: as long as its counter does not wrap at 2 ^ 64, each of the n > 0 contexts
-- is chosen by one of any n calls of `dispatch` in a row.
pub each_in_turn :
    (d : Dispatcher) (c : ℕ)
    → c < d.ctx_cnt
    → d.cur + d.ctx_cnt < 2 ^ 64
    → (k : ℕ) × (k < d.ctx_cnt) × ((dispatch (after_calls k d)).0 ≡ c)
unfolding dispatch
each_in_turn d c h small =
    let (k, less, turn) = distance d.ctx_cnt (d.cur % d.ctx_cnt) c (mod-lt d.cur (omega arith)) h in
    (
      k,
      less,
      rw (after_calls_lem k d (omega (arith, less))) (sym (mod-add-mod d.cur d.ctx_cnt k) ∙ turn),
    )
