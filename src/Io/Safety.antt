-- ===== src/Io/Safety.antt =====
-- What an operation's awaiter promises to its coroutine, and the counters to the context.
use sheepcoro.Base.{
  ℕ, zero, suc, ◌-◌, ◌≤◌, ◌<◌, ◌≡◌, refl, ◌∙◌, subst, true, some, List, [], ◌∷◌, arith, ◌==◌,
  if◌then◌else◌, length,
}
use sheepcoro.Awaiters.{Ptr}
use sheepcoro.Io.{
  Handle, Awaiter, tcp_connect_awaiter, timer_awaiter, IoInfo, callback_of, word_of, result_of,
  etime, await_resume,
}
use sheepcoro.Io.Ring.{Sqe, Ring, sq_entries, has_free_urs, drop, submit, base_io_awaiter, empty_io}
use sheepcoro.Io.System.{finished, System, outstanding, Reach}
use sheepcoro.Io.Invariant.{Reach-Inv, Written}

-- What `co_await` of an operation that the kernel completed with `res` should give: the descriptor of
-- a socket that is now connected, 0 for a timer that has expired, and otherwise `res`.
abbrev pub expected : Awaiter → (res : ℕ) → ℕ
expected (tcp_connect_awaiter sockfd _ _) res = if res == 0 then sockfd else res
expected (timer_awaiter _ _ _ _) res = if res == etime then 0 else res
expected _ res = res

result-expected :
    (aw : Awaiter) (word res : ℕ)
    → result_of (callback_of aw) (word_of aw word) res ≡ expected aw res
result-expected aw word res = ground arith

-- A result finds its way back: in every reachable state, where no batch of completions is longer
-- than m_urc, an awaiter whose callback has run with a completion of `res` returns from await_resume what is expected of its operation, whatever else has
-- been started, submitted and completed since.
pub await_returns :
    {infos : Ptr → IoInfo} {s : System}
    → Reach infos s
    → (a : Ptr) (aw : Awaiter) (h : Handle) (word res : ℕ) → s.status a ≡ finished aw h word res
    → await_resume (s.infos a) ≡ expected aw res
await_returns {s = s} r a aw h word res at =
    subst (Written (s.infos a)) at ((Reach-Inv r).written a) ∙ result-expected aw word res

-- In every reachable state, where no batch of completions is longer than m_urc, the engine has no
-- operation by `empty_io` exactly when none is waiting to be submitted, in the kernel, or completed
-- and not yet counted off.
pub empty_io_lem :
    {infos : Ptr → IoInfo} {s : System}
    → Reach infos s
    → empty_io s.ring ≡ (outstanding s.ring == 0)
unfolding empty_io
empty_io_lem r = let inv = Reach-Inv r in ground (arith, inv.total)

at_once : (ns : List ℕ) (r : Ring) → has_free_urs r ≡ true → base_io_awaiter ns r ≡ some r
unfolding base_io_awaiter
at_once [] r y = rw y refl
at_once (n ∷ ns) r y = rw y refl

freed_by : (n : ℕ) (r : Ring) → length r.sq ≤ sq_entries → 0 < n → has_free_urs (submit n r) ≡ true
unfolding submit
freed_by n r room takes = ground (arith, shorter n r.sq takes)
  where
    no_longer : (n : ℕ) (l : List Sqe) → length (drop n l) ≤ length l
    no_longer zero l = omega arith
    no_longer (suc m) [] = omega arith
    no_longer (suc m) (e ∷ l) = omega (arith, no_longer m l)

    shorter : (n : ℕ) (l : List Sqe) → 0 < n → length (drop n l) ≤ length l - 1
    shorter zero l h = absurd (omega arith)
    shorter (suc m) [] h = omega arith
    shorter (suc m) (e ∷ l) h = omega (arith, no_longer m l)

abbrev pub zeros : ℕ → List ℕ
zeros zero = []
zeros (suc k) = 0 ∷ zeros k
