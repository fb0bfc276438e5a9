-- ===== src/Spinlock.antt =====
-- include/coro/spinlock.hpp: each atomic access of the spinlock, and the threads that use it.
pub mod Exclusion
mod Tests
use sheepcoro.Base.{ℕ, ◌≡◌, Bool, true, false}
use sheepcoro.Awaiters.{update}

pub record Spinlock : Type 0 where
  pub lock_ : Bool

abbrev pub spinlock : Spinlock
spinlock = record { lock_ = false }

-- `lock_.exchange(true)`, the loads of the spin and of `try_lock`, and `unlock`.
unfoldable pub exchange : Spinlock → Bool × Spinlock
exchange l = (l.lock_, record { lock_ = true })

unfoldable pub load : Spinlock → Bool
load l = l.lock_

unfoldable pub unlock : Spinlock → Spinlock
unlock l = record { lock_ = false }

pub data Pc : Type 0 where
  idle : Pc
  exchanging : Pc  -- at the head of the loop of `lock`
  spinning : Pc  -- in its inner loop
  trying : Pc  -- in `try_lock`, past a load that found it free
  holding : Pc

pub record System : Type 0 where
  pub spin : Spinlock
  pub pc : ℕ → Pc

-- Where an exchange that returned the value leaves a thread in `lock` and in `try_lock`, and where
-- a load does.
abbrev pub after_exchange : Bool → Pc
after_exchange true = spinning
after_exchange false = holding

abbrev pub after_try : Bool → Pc
after_try true = idle
after_try false = holding

abbrev pub after_spin : Bool → Pc
after_spin true = spinning
after_spin false = exchanging

abbrev pub after_look : Bool → Pc
after_look true = idle
after_look false = trying

pub data Step (s : System) : System → Type 0 where
  enter : (i : ℕ) → s.pc i ≡ idle → Step s (record s { pc = update s.pc i exchanging })
  swap :
      (i : ℕ) (b : Bool) (l : Spinlock)
      → s.pc i ≡ exchanging
      → exchange s.spin ≡ (b, l)
      → Step s (record { spin = l; pc = update s.pc i (after_exchange b) })
  spin_load :
      (i : ℕ) (b : Bool)
      → s.pc i ≡ spinning
      → load s.spin ≡ b
      → Step s (record s { pc = update s.pc i (after_spin b) })
  look :
      (i : ℕ) (b : Bool)
      → s.pc i ≡ idle
      → load s.spin ≡ b
      → Step s (record s { pc = update s.pc i (after_look b) })
  try_swap :
      (i : ℕ) (b : Bool) (l : Spinlock)
      → s.pc i ≡ trying
      → exchange s.spin ≡ (b, l)
      → Step s (record { spin = l; pc = update s.pc i (after_try b) })
  leave :
      (i : ℕ) → s.pc i ≡ holding → Step s (record { spin = unlock s.spin; pc = update s.pc i idle })

pub data Reach : System → Type 0 where
  start : Reach (record { spin = spinlock; pc = λ _. idle })
  later : {s t : System} → Reach s → Step s t → Reach t
