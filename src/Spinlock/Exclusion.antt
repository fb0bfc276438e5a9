-- ===== src/Spinlock/Exclusion.antt =====
-- At most one thread holds the spinlock of include/coro/spinlock.hpp.
use sheepcoro.Base.{ℕ, ◌≡◌, refl, Bool, true, false, Option, none, some, arith, ◌==◌}
use sheepcoro.Awaiters.{update}
use sheepcoro.Spinlock.{
  Spinlock, exchange, load, unlock, Pc, idle, exchanging, spinning, trying, holding, System, Step,
  enter, swap, spin_load, look, try_swap, leave, Reach, start, later,
}

abbrev pub holds : Pc → Bool
holds holding = true
holds _ = false

abbrev is_owner : Option ℕ → ℕ → Bool
is_owner none j = false
is_owner (some i) j = i == j

abbrev is_some : Option ℕ → Bool
is_some none = false
is_some (some _) = true

record Inv (o : Option ℕ) (s : System) : Type 0 where
  pub taken : s.spin.lock_ ≡ is_some o
  pub holder : (j : ℕ) → holds (s.pc j) ≡ is_owner o j

-- A thread that does not hold the lock moves on, and leaves the lock as it is.
moves :
    {o : Option ℕ} {s : System} (i : ℕ) (to : Pc) (l : Spinlock)
    → Inv o s
    → holds (s.pc i) ≡ false
    → holds to ≡ false
    → l ≡ s.spin
    → Inv o (record { spin = l; pc = update s.pc i to })
moves i to l inv at free same = record {
  taken = ground (arith, inv.taken);
  holder = λ j. ground (arith, inv.holder j);
}

takes :
    (o : Option ℕ) {s : System} (i : ℕ)
    → Inv o s
    → s.spin.lock_ ≡ false
    → Inv (some i) (record { spin = record { lock_ = true }; pc = update s.pc i holding })
takes none i inv e = record { taken = refl; holder = λ j. ground (arith, inv.holder j) }
takes (some k) i inv e = absurd (ground (arith, inv.taken))

leaves :
    (o : Option ℕ) {s : System} (i : ℕ)
    → Inv o s
    → s.pc i ≡ holding
    → Inv none (record { spin = record { lock_ = false }; pc = update s.pc i idle })
leaves none i inv at = absurd (ground (arith, inv.holder i))
leaves (some k) i inv at = record {
  taken = refl;
  holder = λ j. ground (arith, inv.holder j, inv.holder i);
}

Step-Inv : {o : Option ℕ} {s t : System} → Inv o s → Step s t → (o' : Option ℕ) × Inv o' t
unfolding exchange load unlock
Step-Inv {o} {s} inv (enter i at) = (o, moves i exchanging s.spin inv (rw at) refl refl)
Step-Inv {o} inv (swap i true l at e) = (o, moves i spinning l inv (rw at) refl (ground arith))
Step-Inv {o} {s} inv (swap i false l at e) = (some i, ground (arith, takes o i inv))
Step-Inv {o} {s} inv (spin_load i true at e) = (o, moves i spinning s.spin inv (rw at) refl refl)
Step-Inv {o} {s} inv (spin_load i false at e) = (o, moves i exchanging s.spin inv (rw at) refl refl)
Step-Inv {o} {s} inv (look i true at e) = (o, moves i idle s.spin inv (rw at) refl refl)
Step-Inv {o} {s} inv (look i false at e) = (o, moves i trying s.spin inv (rw at) refl refl)
Step-Inv {o} inv (try_swap i true l at e) = (o, moves i idle l inv (rw at) refl (ground arith))
Step-Inv {o} inv (try_swap i false l at e) = (some i, ground (arith, takes o i inv))
Step-Inv {o} inv (leave i at) = (none, leaves o i inv at)

Reach-Inv : {s : System} → Reach s → (o : Option ℕ) × Inv o s
Reach-Inv start = (none, record { taken = refl; holder = λ j. refl })
Reach-Inv (later r st) = let (o, inv) = Reach-Inv r in Step-Inv inv st

-- In every reachable state at most one thread holds the spinlock, through `lock` or `try_lock`, and
-- while one does the flag is set.
pub spin_exclusion :
    {s : System}
    → Reach s
    → (i j : ℕ) → holds (s.pc i) ≡ true
    → holds (s.pc j) ≡ true
    → (i ≡ j) × (s.spin.lock_ ≡ true)
spin_exclusion {s} r i j hi hj = let (o, inv) = Reach-Inv r in same o inv
  where
    same : (o : Option ℕ) → Inv o s → (i ≡ j) × (s.spin.lock_ ≡ true)
    same none inv = absurd (ground (arith, inv.holder i))
    same (some k) inv = (ground (arith, inv.holder i, inv.holder j), inv.taken)
