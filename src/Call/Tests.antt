-- ===== src/Call/Tests.antt =====
-- Runs and witnesses for Call.antt.
use sheepcoro.Base.{ℕ, ◌+◌, ◌≡◌, refl, false, none, some, arith}
use sheepcoro.Awaiters.{Ptr, null}
use sheepcoro.Container.{Result, returns, rethrows, never_set, terminates, Container}
use sheepcoro.Call.Promises.{container_promise, VoidPromise, void_promise}
use sheepcoro.Call.{
  Body, co_return, throws, co_await, suspends, Frame, Machine, new_frame, resume, exec_task, run,
}
use sheepcoro.Call.Returns.{steps, launch}
use sheepcoro.Call.Dangling.{LastResume, exec_task_dangles}

abbrev Frame_ : Type 0
Frame_ = Frame ℕ ℕ (Container ℕ ℕ)

abbrev memory : Ptr → Frame_
memory p = new_frame container_promise (throws 0)

-- Waits, and returns 3.
abbrev fetch : Body ℕ ℕ
fetch = suspends (co_return 3)

-- Goes on with the result, and waits again.
abbrev use_result : Result ℕ ℕ → Body ℕ ℕ
use_result (returns v) = suspends (co_return (v + 1))
use_result (rethrows x) = throws x
use_result never_set = throws 1
use_result terminates = throws 2

abbrev main : Body ℕ ℕ
main = co_await fetch use_result

-- Suspends, and awaits a task that does not.
abbrev direct_main : Body ℕ ℕ
direct_main = suspends (co_await (co_return 3) use_result)

eight_steps : steps direct_main ≡ 8
eight_steps = refl

-- promise<void>
abbrev unit_memory : Ptr → Frame (Unit {0}) ℕ (VoidPromise ℕ)
unit_memory p = new_frame void_promise (throws 0)

abbrev unit_main : Body (Unit {0}) ℕ
unit_main = co_await (throws 5) (λ r. suspends (co_return tt))

caught :
    (m : Machine (Unit {0}) ℕ (VoidPromise ℕ)) × (run void_promise 8 1
        (launch void_promise unit_memory unit_main)
      ≡ some m)
    × ((m.frames 1).promise.exception_ptr ≡ none)
unfolding run launch
caught = (_, refl, refl)

-- The task that main awaits is suspended.
abbrev Waiting : Type 0
Waiting =
    (m : Machine ℕ ℕ (Container ℕ ℕ)) × (resume container_promise 9
        (launch container_promise memory main)
      ≡ some m)
    × LastResume container_promise m 2 1 3 use_result (co_return 4)

waiting : Waiting
unfolding resume launch container_promise
waiting = (
  _,
  refl,
  record {
    h_address = omega arith;
    p_address = omega arith;
    distinct = refl;
    h_live = refl;
    p_live = refl;
    h_frame = refl;
    p_point = refl;
    goes_on = refl;
  },
)

exec_task_dangles_example :
    (m : Machine ℕ ℕ (Container ℕ ℕ)) × (resume container_promise 3
        (record waiting.0 { control = 2 })
      ≡ some m)
    × (m.control ≡ null)
    × (m.live 2 ≡ false)
    × (exec_task container_promise 3 2 waiting.0 ≡ none)
exec_task_dangles_example =
    exec_task_dangles container_promise waiting.0 2 1 3 use_result (co_return 4) waiting.2 0
