-- ===== src/Container/Pod.antt =====
-- include/coro/detail/container.hpp: the version for trivial types.
use sheepcoro.Base.{Bool, true, false, Option, none, some}
use sheepcoro.Container.{
  Result, returns, terminates, ValueState, none_state, value_state, exception_state, Bits, garbage,
  m_value, m_exception_ptr, PodContainer,
}

module _ {A X : Type 0} where
  abbrev pub fresh : PodContainer A X
  fresh = record { bits = garbage; state = none_state }

  unfoldable pub return_value : A → PodContainer A X → PodContainer A X
  return_value v c = record { bits = m_value v; state = value_state }

  -- The assignment to m_exception_ptr, which releases what that member held: none, undefined, where
  -- no exception_ptr was ever constructed in the bytes of the union.
  abbrev pub assign_exception : X → Bits A X → Option (PodContainer A X)
  assign_exception x (m_exception_ptr y) =
      some (record { bits = m_exception_ptr x; state = exception_state })
  assign_exception x _ = none

  unfoldable pub set_exception : X → PodContainer A X → Option (PodContainer A X)
  set_exception x c = assign_exception x c.bits

  abbrev pub is_value : ValueState A X → Bool
  is_value value_state = true
  is_value _ = false

  abbrev pub is_exception : ValueState A X → Bool
  is_exception exception_state = true
  is_exception _ = false

  abbrev pub is_none : ValueState A X → Bool
  is_none none_state = true
  is_none _ = false

  -- `result`, which is noexcept, where `zero` is T{}; none where it reads a member that was not
  -- written last.
  abbrev pub result_in : (zero : A) → ValueState A X → Bits A X → Option (Result A X)
  result_in zero value_state (m_value v) = some (returns v)
  result_in zero value_state _ = none
  result_in zero exception_state (m_exception_ptr x) = some terminates
  result_in zero exception_state _ = none
  result_in zero none_state _ = some (returns zero)

  unfoldable pub result : (zero : A) → PodContainer A X → Option (Result A X)
  result zero c = result_in zero c.state c.bits
