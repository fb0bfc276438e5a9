-- ===== src/Io/Tests.antt =====
-- Runs and witnesses for Io.antt.
use sheepcoro.Base.{◌≡◌, refl, [], ◌∷◌, arith, ◌==◌}
use sheepcoro.Awaiters.{Ptr}
use sheepcoro.Io.{Awaiter, tcp_connect_awaiter, IoInfo, none_type, plain_cb, await_resume}
use sheepcoro.Io.Ring.{
  Ring, submit, base_io_awaiter, fill, begin, do_io_submit, peek_batch_cqe, handle_cqe_entry,
  empty_io,
}
use sheepcoro.Io.System.{
  pending, finished, System, outstanding, idle_ring, begins, submits, completes, peeks, handles,
  Reach, start, later,
}
use sheepcoro.Io.Safety.{expected, await_returns, empty_io_lem}

abbrev blank : Ptr → IoInfo
blank a = record { handle = 0; result = 0; type = none_type; word = 0; cb = plain_cb }

-- The coroutine 70 connects the socket 5 through an awaiter at 8.
abbrev connect : Awaiter
connect = tcp_connect_awaiter 5 1000 16

abbrev Begun : Type 0
Begun = (s : System) × Reach blank s × (s.status 8 ≡ pending connect 70)

abbrev first_ring : Ring
first_ring = fill 8 connect 70 (idle_ring blank)

begun : Begun
unfolding begin base_io_awaiter fill
begun = (_, later start (begins [] 8 connect 70 first_ring refl (omega arith) refl), refl)

abbrev in_kernel : System
in_kernel = record begun.0 { ring = do_io_submit 1 begun.0.ring }

abbrev Completed : Type 0
Completed = (s : System) × Reach blank s × (s.batch ≡ record { user_data = 8; res = 0 } ∷ [])

completed : Completed
unfolding begun begin base_io_awaiter fill do_io_submit submit peek_batch_cqe
completed = (
  _,
  later
      (later (later begun.1 (submits 1))
        (completes [] (record { request = _; flags = _; user_data = 8 }) [] 0 refl))
      (peeks 1 refl refl (omega arith) (omega arith) (omega arith)),
  refl,
)

abbrev Called : Type 0
Called = (s : System) × Reach blank s × (s.status 8 ≡ finished connect 70 5 0)

called : Called
unfolding begun begin base_io_awaiter fill do_io_submit submit peek_batch_cqe completed
    handle_cqe_entry
called = (_, later completed.1 (handles (record { user_data = 8; res = 0 }) [] completed.2), refl)

await_returns_example : await_resume (called.0.infos 8) ≡ expected connect 0
await_returns_example = await_returns called.1 8 connect 70 5 0 called.2

empty_io_lem_example : empty_io begun.0.ring ≡ (outstanding begun.0.ring == 0)
empty_io_lem_example = empty_io_lem begun.1
