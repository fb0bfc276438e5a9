-- ===== src/Task/Tests.antt =====
-- Witnesses for Task.antt.
use sheepcoro.Base.{◌+◌, ◌≡◌, ◌≢◌, refl, true, false, arith, if◌then◌else◌}
use sheepcoro.Awaiters.{Ptr, null}
use sheepcoro.Task.{Handle, Heap, get_return_object, move_assign}
use sheepcoro.Task.System.{creates, assigns, Reach, start, later}
use sheepcoro.Task.Safety.{one_owner}

-- Tasks 1 and 2 had the frames 8 and 9; then 1 was assigned what 2 had.
abbrev Moved : Type 0
Moved = (s : Heap) × Reach s × (s.coroutine 1 ≡ 9) × (s.live 8 ≡ false)

moved : Moved
unfolding get_return_object move_assign
moved = (
  _,
  later
      (later (later start (creates 1 8 (omega arith) refl refl))
        (creates 2 9 (omega arith) refl refl))
      (assigns 1 2),
  refl,
  refl,
)

owner_moved : moved.0.coroutine 1 ≢ null
owner_moved e = omega (arith, e, moved.2)

one_owner_example :
    (moved.0.live (moved.0.coroutine 1) ≡ true)
    × ((u : Ptr) → moved.0.coroutine u ≡ moved.0.coroutine 1 → u ≡ 1)
    × ((h : Handle) → moved.0.created h ≡ moved.0.destroyed h + (if moved.0.live h then 1 else 0))
one_owner_example = one_owner moved.1 1 owner_moved
