-- ===== src/Call/Promises.antt =====
-- What a promise keeps: the promises of include/coro/task.hpp with a container, and promise<void>.
use sheepcoro.Base.{◌≡◌, refl, Option, none, some}
use sheepcoro.Container.{Result, returns, rethrows, Container, container}
use sheepcoro.Container.{return_value, set_exception, result}

-- A promise P of a coroutine that returns an A or fails with an X.
pub record Promise (A X P : Type 0) : Type 0 where
  pub empty : P
  pub return_value : A → P → P
  pub set_exception : X → P → P
  pub result : P → Result A X
  pub returned : (v : A) → result (return_value v empty) ≡ returns v
  pub failed : (x : X) → result (set_exception x empty) ≡ rethrows x

-- `promise<return_type>`, where unhandled_exception is set_exception of the container.
unfoldable pub container_promise : {A X : Type 0} → Promise A X (Container A X)
unfolding return_value set_exception result
container_promise = record {
  empty = container;
  return_value = return_value;
  set_exception = set_exception;
  result = result;
  returned = λ v. refl;
  failed = λ x. refl;
}

-- m_exception_ptr of promise<void>
pub record VoidPromise (X : Type 0) : Type 0 where
  pub exception_ptr : Option X

abbrev pub unhandled_exception : {X : Type 0} → X → VoidPromise X → VoidPromise X
unhandled_exception x p = record { exception_ptr = some x }

abbrev pub void_result_of : {X : Type 0} → Option X → Result (Unit {0}) X
void_result_of none = returns tt
void_result_of (some x) = rethrows x

-- `promise<void>`
abbrev pub void_promise : {X : Type 0} → Promise (Unit {0}) X (VoidPromise X)
void_promise = record {
  empty = record { exception_ptr = none };
  return_value = λ v p. p;
  set_exception = unhandled_exception;
  result = λ p. void_result_of p.exception_ptr;
  returned = λ v. refl;
  failed = λ x. refl;
}
