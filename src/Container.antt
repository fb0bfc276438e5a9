-- ===== src/Container.antt =====
-- include/coro/detail/container.hpp: the result of a coroutine, in the version for every type and
-- in the one for trivial types.
pub mod Pod
pub mod Agree
mod Tests
use sheepcoro.Base.{Bool, true, false, not, ◌&&◌, Option, none, some, List, [], ◌∷◌, ◌++◌}

module _ (A X : Type 0) where
  -- variant_type: a value of A, or an exception of X.
  pub data Storage : Type 0 where
    unset : Storage
    stored : A → Storage
    failed : X → Storage

  -- What `result` does: it returns, throws the stored exception, throws runtime_error, or, where
  -- it is noexcept, ends the program.
  pub data Result : Type 0 where
    returns : A → Result
    rethrows : X → Result
    never_set : Result
    terminates : Result

  -- `leaked` lists what was overwritten without its destructor being run.
  pub record Container : Type 0 where
    pub storage : Storage
    pub leaked : List Storage

  -- value_state
  pub data ValueState : Type 0 where
    none_state : ValueState
    value_state : ValueState
    exception_state : ValueState

  -- The union of the version for trivial types, with the member that was written last.
  pub data Bits : Type 0 where
    garbage : Bits
    m_value : A → Bits
    m_exception_ptr : X → Bits

  pub record PodContainer : Type 0 where
    pub bits : Bits
    pub state : ValueState

module _ {A X : Type 0} where
  abbrev pub container : Container A X
  container = record { storage = unset; leaked = [] }

  -- `emplace` destroys what was stored.
  unfoldable pub return_value : A → Container A X → Container A X
  return_value v c = record c { storage = stored v }

  -- The placement new of `set_exception` does not.
  unfoldable pub set_exception : X → Container A X → Container A X
  set_exception x c = record { storage = failed x; leaked = c.leaked ++ c.storage ∷ [] }

  abbrev pub holds_value : Storage A X → Bool
  holds_value (stored _) = true
  holds_value _ = false

  abbrev pub holds_exception : Storage A X → Bool
  holds_exception (failed _) = true
  holds_exception _ = false

  abbrev pub value_ready : Container A X → Bool
  value_ready c = holds_value c.storage

  abbrev pub value_exception : Container A X → Bool
  value_exception c = holds_exception c.storage

  abbrev pub value_unset : Container A X → Bool
  value_unset c = not (value_ready c) && not (value_exception c)

  abbrev pub result_of : Storage A X → Result A X
  result_of (stored v) = returns v
  result_of (failed x) = rethrows x
  result_of unset = never_set

  unfoldable pub result : Container A X → Result A X
  result c = result_of c.storage
