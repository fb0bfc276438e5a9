-- ===== src/Spinlock/Tests.antt =====
-- Witnesses for Spinlock.antt.
use sheepcoro.Base.{ℕ, ◌≡◌, refl, true, false}
use sheepcoro.Spinlock.{exchange, holding, System, enter, swap, Reach, start, later}
use sheepcoro.Spinlock.Exclusion.{spin_exclusion}

abbrev Held : Type 0
Held = (s : System) × Reach s × (s.pc 4 ≡ holding)

held : Held
unfolding exchange
held = (_, later (later start (enter 4 refl)) (swap 4 false _ refl refl), refl)

spin_exclusion_example : (◌≡◌ {A = ℕ} 4 4) × (held.0.spin.lock_ ≡ true)
spin_exclusion_example = spin_exclusion held.1 4 4 (rw held.2) (rw held.2)
