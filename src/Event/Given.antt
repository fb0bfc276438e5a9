-- ===== src/Event/Given.antt =====
-- What co_await on an event with a value returns.
use sheepcoro.Base.{◌≡◌, true, some}
use sheepcoro.Awaiters.{Ptr, Awaiters}
use sheepcoro.Container.{Container, Result, returns, result}
use sheepcoro.Event.{this}
use sheepcoro.Event.Valued.{Valued}
use sheepcoro.Event.Late.{late}

module _ {A X : Type 0} (passed : A → Type 0) where
  HasValue : Container A X → Type 0
  HasValue c = (v : A) × passed v × (result c ≡ returns v)

  record Inv (s : Valued A X) : Type 0 where
    set_value : s.event.state ≡ this → HasValue s.values
    setting_value : (k : Ptr) → s.setting k ≡ true → HasValue s.values
    lates : (j : Ptr) → late (s.event.pc j) ≡ true → s.event.state ≡ this
    given_value :
        (i : Ptr) (r : Result A X) → s.given i ≡ some r → (v : A) × passed v × (r ≡ returns v)
