-- ===== src/Wakeup/Invariant/Defs.antt =====
-- The invariant of a context's thread.
use sheepcoro.Base.{
  ℕ, suc, ◌+◌, ◌%◌, ◌^◌, ◌≤◌, ◌≡◌, refl, ap, ◌∙◌, Bool, true, false, some, List, [], ◌∷◌, arith,
  length, length-append,
}
use sheepcoro.Engine.{Handle, TaskQueue, IsTaskQueue}
use sheepcoro.Wakeup.{
  wake_up, Pc, head, working, running, reading, peeking, handling, writing, ended, closed, acts,
}
use sheepcoro.Wakeup.System.{System}

-- Past the tests of the stop and of the queue's size, and not yet past the read of the eventfd.
abbrev pub measured : Pc → Bool
measured head = false
measured peeking = false
measured (handling _ _) = false
measured ended = false
measured closed = false
measured (writing p) = measured p
measured _ = true

-- The tasks that process_work is still to run.
abbrev pub left : Pc → ℕ
left (working k) = k
left (running k) = k
left (writing p) = left p
left _ = 0

-- The completions that have been peeked and not advanced.
abbrev pub held : Pc → ℕ
held (handling _ num) = num
held (writing p) = held p
held _ = 0

-- The write that the thread itself is in.
abbrev pub own : Pc → ℕ
own (writing _) = 1
own _ = 0

-- Past the read of the eventfd, and not yet past peek_batch_cqe.
abbrev pub is_peeking : Pc → Bool
is_peeking peeking = true
is_peeking (writing p) = is_peeking p
is_peeking _ = false

-- Past do_io_submit, with no coroutine run since.
abbrev pub quiet : Pc → Bool
quiet reading = true
quiet peeking = true
quiet (writing p) = quiet p
quiet _ = false

pub woken_count : (n c : ℕ) → wake_up n ≡ some c → (1 ≤ c) × (c % 2 ^ 24 ≡ n % 2 ^ 24)
woken_count n c e =
    let sum : c ≡ n + 2 ^ 44 = ground (arith, e) in (omega (arith, sum), omega (arith, sum))

pub acts_lem : (p : Pc) → acts p ≡ true → (is_peeking p ≡ false) × (quiet p ≡ false) × (own p ≡ 0)
acts_lem p a = (ground (arith, a), ground (arith, a), ground (arith, a))

module _ {q : TaskQueue} (law : IsTaskQueue q) (scheduled : Bool) where
  -- What will still wake the thread.
  abbrev pub wakings : System q → ℕ
  wakings s = s.eventfd + s.owed + own s.pc

  abbrev pub size : System q → ℕ
  size s = length (law.contents s.queue)

  pub record Inv (s : System q) : Type 0 where
    pub queued : measured s.pc ≡ true → wakings s ≡ 0 → size s ≤ left s.pc
    pub enough : left s.pc ≤ size s
    pub stopped : scheduled ≡ true → measured s.pc ≡ true → s.stop ≡ true → 1 ≤ wakings s
    pub seen : is_peeking s.pc ≡ false → s.cq ≤ held s.pc + s.eventfd % 2 ^ 24 + s.owed_signals
    pub total : s.num_io_wait_submit + s.num_io_running ≡ s.sq + s.inflight + s.cq
    pub none_waits : quiet s.pc ≡ true → s.num_io_wait_submit ≡ 0
    pub held_ready : held s.pc ≤ s.cq
    pub held_running : held s.pc ≤ s.num_io_running

  pub pushed_size :
      (h : Handle) (t t' : q.State)
      → q.try_push h t ≡ (true, t')
      → length (law.contents t') ≡ suc (length (law.contents t))
  pushed_size h t t' e =
      ap length (law.pushed h t t' e) ∙ (length-append (law.contents t) (h ∷ []) ∙ omega arith)

  pub popped_size :
      (h : Handle) (t t' : q.State)
      → 1 ≤ length (law.contents t)
      → q.pop t ≡ some (h, t')
      → length (law.contents t) ≡ suc (length (law.contents t'))
  popped_size h t t' some_task e = go (law.contents t) refl
    where
      go :
          (l : List Handle)
          → law.contents t ≡ l
          → length (law.contents t) ≡ suc (length (law.contents t'))
      go [] y = absurd (ground (arith, some_task, y))
      go (x ∷ l) y = let (t'', e', left) = law.popped t x l y in ground (arith, y, left, e, e')
