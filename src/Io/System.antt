-- ===== src/Io/System.antt =====
-- The engine's thread, its coroutines and the kernel over one io_uring.
use sheepcoro.Base.{ℕ, ◌+◌, ◌^◌, ◌≤◌, ◌<◌, ◌≡◌, some, List, [], ◌∷◌, ◌++◌, length}
use sheepcoro.Awaiters.{Ptr, update}
use sheepcoro.Io.{Handle, Awaiter, IoInfo}
use sheepcoro.Io.Ring.{
  Sqe, Cqe, Ring, begin, do_io_submit, que_cap, peek_batch_cqe, handle_cqe_entry, finish_batch,
}

-- What has become of the awaiter at an address.
pub data Status : Type 0 where
  absent : Status
  pending : Awaiter → Handle → Status
  finished : Awaiter → Handle → (word res : ℕ) → Status

pub record System : Type 0 where
  pub ring : Ring
  pub open ring use *
  pub status : Ptr → Status

-- The operations that have not been counted as done.
abbrev pub outstanding : Ring → ℕ
outstanding r = length r.sq + length r.inflight + length r.cq + r.num

-- The completion that the callback of the awaiter at an address has been given.
abbrev pub settled : (res : ℕ) → (word : ℕ) → Status → Status
settled res word (pending aw h) = finished aw h word res
settled res word st = st

abbrev pub idle_ring : (Ptr → IoInfo) → Ring
idle_ring infos = record {
  infos = infos;
  sq = [];
  inflight = [];
  cq = [];
  batch = [];
  num = 0;
  num_io_wait_submit = 0;
  num_io_running = 0;
  submitted = [];
}

pub data Step (s : System) : System → Type 0 where
  -- fewer than 2 ^ 62 operations are outstanding, which memory bounds
  begins :
      (ns : List ℕ) (a : Ptr) (aw : Awaiter) (h : Handle) (r : Ring)
      → s.status a ≡ absent
      → outstanding s.ring < 2 ^ 62
      → begin ns a aw h s.ring ≡ some r
      → Step s (record { ring = r; status = update s.status a (pending aw h) })
  submits : (n : ℕ) → Step s (record s { ring = do_io_submit n s.ring })
  -- the kernel completes an entry, in any order and with any result
  completes :
      (l : List Sqe) (e : Sqe) (l' : List Sqe) (res : ℕ)
      → s.inflight ≡ l ++ e ∷ l'
      → Step s (record s {
        ring = record s.ring {
          inflight = l ++ l';
          cq = s.cq ++ record { user_data = e.user_data; res = res } ∷ [];
        };
      })
  -- no more completions than there are, nor than the counter of the running operations, nor than
  -- m_urc holds: a longer batch would be written past its end
  peeks :
      (n : ℕ)
      → s.batch ≡ []
      → s.num ≡ 0
      → n ≤ length s.cq
      → n ≤ s.num_io_running
      → n ≤ que_cap
      → Step s (record s { ring = peek_batch_cqe n s.ring })
  handles :
      (c : Cqe) (b : List Cqe)
      → s.batch ≡ c ∷ b
      → Step s (record {
        ring = record (handle_cqe_entry c s.ring) { batch = b };
        status =
            update s.status c.user_data
              (settled c.res (s.infos c.user_data).word (s.status c.user_data));
      })
  finishes : s.batch ≡ [] → Step s (record s { ring = finish_batch s.ring })
  -- the coroutine runs on past its co_await, and the awaiter is gone
  resumes :
      (a : Ptr) {aw : Awaiter} {h : Handle} {word res : ℕ}
      → s.status a ≡ finished aw h word res
      → Step s (record s { status = update s.status a absent })

pub data Reach (infos : Ptr → IoInfo) : System → Type 0 where
  start : Reach infos (record { ring = idle_ring infos; status = λ _. absent })
  later : {s t : System} → Reach infos s → Step s t → Reach infos t
