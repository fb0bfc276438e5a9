-- ===== src/Timer/Total.antt =====
-- What the calls on the timer of include/coro/timer.hpp add up to.
use sheepcoro.Base.{ℕ, ◌+◌, ◌*◌, ◌^◌, ◌<◌, ◌≡◌, List, [], ◌∷◌, arith}
use sheepcoro.Timer.{Timer, add_seconds, add_mseconds, add_useconds, add_nseconds}

pub data Call : Type 0 where
  seconds : ℕ → Call
  mseconds : ℕ → Call
  useconds : ℕ → Call
  nseconds : ℕ → Call

abbrev pub apply : Call → Timer → Timer
unfolding add_seconds add_mseconds add_useconds add_nseconds
apply (seconds n) t = add_seconds n t
apply (mseconds n) t = add_mseconds n t
apply (useconds n) t = add_useconds n t
apply (nseconds n) t = add_nseconds n t

-- A chain of calls.
unfoldable pub chain : List Call → Timer → Timer
chain [] t = t
chain (c ∷ cs) t = chain cs (apply c t)

-- What a call adds to the seconds, and to the nanoseconds.
abbrev pub to_sec : Call → ℕ
to_sec (seconds n) = n
to_sec _ = 0

abbrev pub to_nsec : Call → ℕ
to_nsec (seconds n) = 0
to_nsec (mseconds n) = 1000000 * n
to_nsec (useconds n) = 1000 * n
to_nsec (nseconds n) = n

abbrev pub sum : (Call → ℕ) → List Call → ℕ
sum f [] = 0
sum f (c ∷ cs) = f c + sum f cs

apply_lem :
    (c : Call) (t : Timer)
    → t.tv_sec + to_sec c < 2 ^ 63
    → t.tv_nsec + to_nsec c < 2 ^ 63
    → ((apply c t).tv_sec ≡ t.tv_sec + to_sec c) × ((apply c t).tv_nsec ≡ t.tv_nsec + to_nsec c)
unfolding add_seconds add_mseconds add_useconds add_nseconds
apply_lem (seconds n) t few small = (omega arith, omega arith)
apply_lem (mseconds n) t few small = (omega arith, omega arith)
apply_lem (useconds n) t few small = (omega arith, omega arith)
apply_lem (nseconds n) t few small = (omega arith, omega arith)

-- A chain of calls on a timer adds its seconds to the one field and its milliseconds, microseconds
-- and nanoseconds to the other, in any order and without ever a carry from the second field to the
-- first, where each field stays below 2 ^ 63, the bound of the kernel's signed fields.
pub chain_lem :
    (cs : List Call) (t : Timer)
    → t.tv_sec + sum to_sec cs < 2 ^ 63
    → t.tv_nsec + sum to_nsec cs < 2 ^ 63
    → ((chain cs t).tv_sec ≡ t.tv_sec + sum to_sec cs)
      × ((chain cs t).tv_nsec ≡ t.tv_nsec + sum to_nsec cs)
unfolding chain
chain_lem [] t few small = (omega arith, omega arith)
chain_lem (c ∷ cs) t few small =
    let (sec, nsec) = apply_lem c t (omega arith) (omega arith) in
    let (secs, nsecs) = chain_lem cs (apply c t) (omega (arith, sec)) (omega (arith, nsec)) in
    (omega (arith, sec, secs), omega (arith, nsec, nsecs))
