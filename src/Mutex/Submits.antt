-- ===== src/Mutex/Submits.antt =====
-- Which coroutines the steps over a mutex submit.
use sheepcoro.Base.{
  ℕ, ◌+◌, ◌≡◌, ap, Option, some, List, [], ◌∷◌, arith, count, count-append, count-reverse_aux,
}
use sheepcoro.Awaiters.{Ptr, update, register_wait, unregister_wait, set_next, submit_task}
use sheepcoro.Mutex.{
  Mutex, resume_first, unlock_drain, await_suspend, await_resume, register_load, register_cas,
  try_lock, unlock_cas,
}
use sheepcoro.Mutex.System.{
  Pc, System, Step, idle, suspended, suspend, load, cas, spurious, resume, try_win, try_lose,
  unlock_next, unlock_free, unlock_busy, drain, woken, draining,
}
use sheepcoro.Mutex.Invariant.{Inv, drain-Drained}

-- One where a coroutine that was suspended is to run again.
abbrev pub woken_by : Pc → Pc → ℕ
woken_by suspended woken = 1
woken_by _ _ = 0

module _ {s : System} (j : Ptr) where
  drain-submits :
      {o : Option Ptr} (w r : List Ptr)
      → Inv o w r s
      → (i : Ptr) (fuel : ℕ) (head : Ptr) (m : Mutex) → s.pc i ≡ draining
      → unlock_drain fuel s.mutex ≡ some (head, m)
      → count j m.submitted
        ≡ count j s.submitted + woken_by (s.pc j) (update (update s.pc i idle) head woken j)
  drain-submits w (y ∷ r) inv i fuel head m e c = absurd (ground (arith, inv.queue, inv.drains i))
  drain-submits [] [] inv i fuel head m e c =
      absurd (ground (arith, inv.stack, inv.drains i, inv.holder i, inv.free))
  drain-submits (x ∷ w) [] inv i fuel head m e c =
      let d = drain-Drained inv i e fuel head m c in
      let asleep_head : s.pc head ≡ suspended =
        ground
          (arith, inv.sleepers head, ap (count head) d.order, count-reverse_aux head (x ∷ w) []) in
      ground (arith, d.log, count-append j s.submitted (head ∷ []), asleep_head)

  -- A step submits a coroutine exactly when it wakes it from its suspension.
  pub Step-submits :
      {o : Option Ptr} {w r : List Ptr} {t : System}
      → Inv o w r s
      → Step s t
      → count j t.submitted ≡ count j s.submitted + woken_by (s.pc j) (t.pc j)
  unfolding await_suspend await_resume register_load register_cas try_lock unlock_cas resume_first
      register_wait unregister_wait set_next submit_task
  Step-submits inv (suspend i h e) = ground arith
  Step-submits inv (load i e) = ground arith
  Step-submits inv (cas i k m e c) = ground (arith, c)
  Step-submits inv (spurious i e) = ground arith
  Step-submits inv (resume i e) = ground arith
  Step-submits inv (try_win i m e c) = ground (arith, c)
  Step-submits inv (try_lose i m e c) = ground (arith, c)
  Step-submits {r = []} inv (unlock_next i e h) = absurd (h inv.queue)
  Step-submits {r = x ∷ r} inv (unlock_next i e h) =
      ground (arith, inv.queue, inv.sleepers x, count-append j s.submitted (x ∷ []))
  Step-submits inv (unlock_free i m e h c) = ground (arith, c)
  Step-submits inv (unlock_busy i m e h c) = ground (arith, c)
  Step-submits {w = w} {r = r} inv (drain i fuel head m e c) =
      drain-submits w r inv i fuel head m e c
