-- ===== src/Scheduler/Safety.antt =====
-- What the stop token of src/scheduler.cpp says about the contexts.
use sheepcoro.Base.{
  length-none, count-length, ℕ, zero, suc, ◌+◌, ◌^◌, ◌<◌, ◌≡◌, ◌≢◌, Bool, true, ◌&&◌, arith, ltb,
  leb, if◌then◌else◌,
}
use sheepcoro.Awaiters.{update}
use sheepcoro.Scheduler.{Scheduler, set_flag, clear_flag, sub_token, stop_impl, notify_from}
use sheepcoro.Scheduler.Sums.{sum, sum-term, sum-bits, length-bound}
use sheepcoro.Scheduler.System.{
  chosen, flagged, outside, cleared, System, flag, clear, count_out, Reach, Run, stay, onward,
}
use sheepcoro.Scheduler.Invariant.{adds, subs, IsBalanced, Reach-IsBalanced}

module _ {n : ℕ} (pos : 0 < n) (small_n : n < 2 ^ 31) {s : System} (r : Reach n s) where
  -- For at least one and fewer than 2 ^ 31 contexts: in every reachable state in which no thread is
  -- between the two accesses of `submit_task_impl` with one to add, and no callback between its two
  -- with one to take, the stop token is the number of contexts whose flag is set.
  pub token_counts_busy :
      ((j : ℕ) → adds (s.pc j) ≡ 0)
      → ((i : ℕ) → subs (s.callback i) ≡ 0)
      → s.stop_token ≡ sum n s.stop_flag
  unfolding IsBalanced
  token_counts_busy no_adds no_subs =
      let (us, vs, inv) = Reach-IsBalanced pos r in
      let none_us = length-none us (λ j. omega (arith, inv.adding j, no_adds j)) in
      let none_vs = length-none vs (λ i. omega (arith, inv.subbing i, no_subs i)) in
      ground (arith, inv.balance, inv.small, none_us, none_vs, sum-bits n s.stop_flag inv.bit)

  -- For at least one and fewer than 2 ^ 31 contexts: in every reachable state in which no thread is
  -- between the two accesses of `submit_task_impl` with one to add, a callback that is about to stop
  -- the scheduler does so only when no flag is set.
  pub stop_when_idle :
      (i cnt : ℕ)
      → s.callback i ≡ cleared cnt
      → ((j : ℕ) → adds (s.pc j) ≡ 0)
      → (sub_token cnt s.scheduler).0 ≡ true
      → (c : ℕ) → c < n
      → s.stop_flag c ≡ 0
  unfolding IsBalanced sub_token
  stop_when_idle i cnt at no_adds stops c h =
      let (us, vs, inv) = Reach-IsBalanced pos r in
      let none_us = length-none us (λ j. omega (arith, inv.adding j, no_adds j)) in
      ground (
        arith,
        inv.balance,
        inv.small,
        none_us,
        sum-bits n s.stop_flag inv.bit,
        sum-term n s.stop_flag c h,
        count-length i vs,
        inv.subbing i,
        inv.cnt_bit i cnt,
        length-bound n vs (λ j p. inv.inside j (ground (arith, inv.subbing j)))
            (λ j. ground (arith, inv.subbing j)),
      )

notify_from_lem :
    (k i : ℕ) (f : ℕ → Bool) (m : ℕ)
    → notify_from k i f m ≡ (if leb i m && ltb m (i + k) then true else f m)
unfolding notify_from
notify_from_lem zero i f m = ground arith
notify_from_lem (suc k) i f m = ground (arith, notify_from_lem k (suc i) (update f i true) m)

-- The stop can come too early: in every reachable state in which the token is one, context i holds
-- the only flag and is not in its callback, and a thread has chosen another context, a run from
-- this state exists after which every context has been told to stop, while the flag of the chosen context is set and
-- its thread has not yet given it the task.
pub stops_while_submitting :
    {n : ℕ} {s : System}
    → Reach n s
    → (i j c : ℕ) → s.stop_token ≡ 1
    → i < s.ctx_cnt
    → s.stop_flag i ≡ 1
    → s.callback i ≡ outside
    → s.pc j ≡ chosen c
    → c ≢ i
    → s.stop_flag c ≡ 0
    → (t : System) × Run s t
      × ((m : ℕ) → m < s.ctx_cnt → t.notified m ≡ true)
      × (t.stop_flag c ≡ 1)
      × (t.pc j ≡ flagged c 0)
      × (t.given ≡ s.given)
unfolding set_flag clear_flag sub_token stop_impl
stops_while_submitting {n} {s} r i j c one hi fi ci at ne fc = (
  _,
  onward
      (onward (onward stay (flag j c 0 set at (ground arith)))
        (clear i 1 emptied hi ci (ground arith)))
      (count_out i 1 true stopped (ground arith) (ground arith)),
  λ m h. ground (arith, notify_from_lem s.ctx_cnt 0 s.notified m),
  ground arith,
  ground arith,
  ground arith,
)
  where
    set : Scheduler
    set = (set_flag c s.scheduler).1

    emptied : Scheduler
    emptied = (clear_flag i set).1

    stopped : Scheduler
    stopped = (sub_token 1 emptied).1
