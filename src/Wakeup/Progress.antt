-- ===== src/Wakeup/Progress.antt =====
-- Where a context's thread can always go on.
use sheepcoro.Base.{
  ℕ, zero, suc, ◌≡◌, ◌≢◌, refl, ap, ◌∙◌, Bool, true, false, Option, none, some, arith,
}
use sheepcoro.Engine.{TaskQueue, IsTaskQueue}
use sheepcoro.Wakeup.{
  wake_up, Pc, head, working, running, checking, idle, stopping, polling, reading, peeking,
  handling, writing, ended, closed,
}
use sheepcoro.Wakeup.System.{
  System, Step, leaves, deinits, works, pops, suspends, worked, checks, looks, stops_itself,
  goes_idle, writes, submits_io, reads, peeks, handles, handled, Reach,
}
use sheepcoro.Wakeup.Safety.{pop_returns}

-- The writes that a place is nested in.
abbrev depth : Pc → ℕ
depth (writing p) = suc (depth p)
depth _ = 0

writing_deeper : (p : Pc) → p ≢ writing p
writing_deeper p e = absurd (omega (arith, ap depth e))

module _ {q : TaskQueue} (law : IsTaskQueue q) (scheduled : Bool) where
  -- The thread, until it has closed its eventfd, always has a step that moves it on, except where it waits for
  -- an eventfd whose count is 0, or writes to one that has no room.
  pub goes_on :
      {s : System q}
      → Reach q scheduled s
      → s.pc ≢ closed
      → (s.pc ≡ reading → s.eventfd ≢ 0)
      → ((p : Pc) → s.pc ≡ writing p → wake_up s.eventfd ≢ none)
      → (t : System q) × Step q scheduled s t × (t.pc ≢ s.pc)
  goes_on {s} r runs count room = go s.pc refl
    where
      to :
          {t : System q} (p : Pc)
          → Step q scheduled s t
          → s.pc ≡ p
          → t.pc ≢ p
          → (t : System q) × Step q scheduled s t × (t.pc ≢ s.pc)
      to p st at differs = (_, st, λ e. differs (e ∙ at))

      at_head :
          (b : Bool)
          → s.stop ≡ b
          → s.pc ≡ head
          → (t : System q) × Step q scheduled s t × (t.pc ≢ s.pc)
      at_head true y at = to head (leaves at y) at (λ e. ground (arith, e))
      at_head false y at = to head (works at y) at (λ e. ground (arith, e))

      at_stop :
          (b : Bool)
          → scheduled ≡ b
          → s.pc ≡ stopping
          → (t : System q) × Step q scheduled s t × (t.pc ≢ s.pc)
      at_stop true y at = to stopping (goes_idle y at) at (λ e. ground (arith, e))
      at_stop false y at = to stopping (stops_itself y at) at (λ e. ground (arith, e))

      at_write :
          (p : Pc) (c : Option ℕ)
          → wake_up s.eventfd ≡ c
          → s.pc ≡ writing p
          → (t : System q) × Step q scheduled s t × (t.pc ≢ s.pc)
      at_write p none y at = absurd (room p at y)
      at_write p (some c) y at = to (writing p) (writes p c at y) at (writing_deeper p)

      go : (p : Pc) → s.pc ≡ p → (t : System q) × Step q scheduled s t × (t.pc ≢ s.pc)
      go head at = at_head s.stop refl at
      go (working zero) at = to _ (worked at) at (λ e. ground (arith, e))
      go (working (suc k)) at =
          let (h, t, e) = pop_returns law scheduled k r at in
          to _ (pops k h t at e) at (λ e'. ground (arith, e'))
      go (running k) at = to _ (suspends k at) at (λ e. ground (arith, e))
      go checking at = to _ (checks at) at (λ e. ground (arith, e))
      go idle at = to _ (looks at) at (λ e. ground (arith, e))
      go stopping at = at_stop scheduled refl at
      go polling at = to _ (submits_io 0 at (omega arith)) at (λ e. ground (arith, e))
      go reading at =
          to _ (reads s.eventfd 0 at (ground (arith, count at))) at (λ e. ground (arith, e))
      go peeking at = to _ (peeks _ at refl) at (λ e. ground (arith, e))
      go (handling zero num) at = to _ (handled num at) at (λ e. ground (arith, e))
      go (handling (suc k) num) at = to _ (handles k num at) at (λ e. ground (arith, e))
      go (writing p) at = at_write p (wake_up s.eventfd) refl at
      go ended at = to _ (deinits at) at (λ e. ground (arith, e))
      go closed at = absurd (runs at)
