-- ===== src/Io/Ring.antt =====
-- The two queues of the io_uring, the counters of include/coro/engine.hpp, and the awaiters' memory.
use sheepcoro.Base.{
  ℕ, zero, suc, ◌^◌, Bool, false, Option, none, some, List, [], ◌∷◌, ◌++◌, length, ltb, ◌==◌,
  if◌then◌else◌,
}
use sheepcoro.Awaiters.{Ptr, update, add_size, sub_size}
use sheepcoro.Io.{
  Handle, IoInfo, Request, Awaiter, request_of, flags_of, info_of, await_suspend, result_of,
}

-- `flags` is what io_uring_sqe_set_flags is given, which runs before the prep function, or 0;
-- `user_data` is the address of the awaiter's m_info.
pub record Sqe : Type 0 where
  pub request : Request
  pub flags : ℕ
  pub user_data : Ptr

pub record Cqe : Type 0 where
  pub user_data : Ptr
  pub res : ℕ

-- io_uring makes the 10240 entries of config::kEntryLength up to a power of two.
abbrev pub sq_entries : ℕ
sq_entries = 2 ^ 14

-- `sq` are the filled entries of the submission queue, `inflight` what the kernel works on, `cq` the
-- completions, `batch` those that poll_submit has peeked and not yet handled, of `num` in all.
pub record Ring : Type 0 where
  pub infos : Ptr → IoInfo
  pub sq : List Sqe
  pub inflight : List Sqe
  pub cq : List Cqe
  pub batch : List Cqe
  pub num : ℕ
  pub num_io_wait_submit : ℕ
  pub num_io_running : ℕ
  pub submitted : List Handle

abbrev pub take {ℓ} : {A : Type ℓ} → ℕ → List A → List A
take zero l = []
take (suc n) [] = []
take (suc n) (x ∷ l) = x ∷ take n l

abbrev pub drop {ℓ} : {A : Type ℓ} → ℕ → List A → List A
drop zero l = l
drop (suc n) [] = []
drop (suc n) (x ∷ l) = drop n l

-- io_uring_submit, of which the kernel takes n entries.
unfoldable pub submit : ℕ → Ring → Ring
submit n r = record r { sq = drop n r.sq; inflight = r.inflight ++ take n r.sq }

abbrev pub has_free_urs : Ring → Bool
has_free_urs r = ltb (length r.sq) sq_entries

-- `base_io_awaiter`: its loop ends when there is a free entry. The list says how many entries the
-- kernel takes at each `proxy.submit()`; none means that the list has come to its end first.
unfoldable pub base_io_awaiter : List ℕ → Ring → Option Ring
unfolding submit
base_io_awaiter [] r = if has_free_urs r then some r else none
base_io_awaiter (n ∷ ns) r =
    let again = base_io_awaiter ns (submit n r) in if has_free_urs r then some r else again

-- The rest of the constructor, with add_io_submit, and `await_suspend`.
unfoldable pub fill : Ptr → Awaiter → Handle → Ring → Ring
fill a aw h r = record r {
  infos = update r.infos a (await_suspend h (info_of aw (r.infos a)));
  sq = r.sq ++ record { request = request_of aw; flags = flags_of aw; user_data = a } ∷ [];
  num_io_wait_submit = add_size r.num_io_wait_submit 1;
}

-- An awaiter at address a is constructed and its coroutine h suspends.
unfoldable pub begin : List ℕ → Ptr → Awaiter → Handle → Ring → Option Ring
unfolding base_io_awaiter fill
begin ns a aw h r = elim (base_io_awaiter ns r) [ none ↦ none | some r' ↦ some (fill a aw h r') ]

-- `do_io_submit`, where the kernel takes n entries; the result of `submit` is not used.
unfoldable pub do_io_submit : ℕ → Ring → Ring
unfolding submit
do_io_submit n r =
    let r' = submit n r in
    if ltb 0 r.num_io_wait_submit
    then record r' {
      num_io_running = add_size r.num_io_running r.num_io_wait_submit;
      num_io_wait_submit = 0;
    }
    else r

-- config::kQueCap, the length of m_urc
abbrev pub que_cap : ℕ
que_cap = 16384

-- peek_batch_cqe in `poll_submit`, with the number that it gives.
unfoldable pub peek_batch_cqe : ℕ → Ring → Ring
peek_batch_cqe n r = record r { cq = drop n r.cq; batch = take n r.cq; num = n }

-- `handle_cqe_entry`: the callback, with its submit_to_context.
unfoldable pub handle_cqe_entry : Cqe → Ring → Ring
handle_cqe_entry c r =
    let info = r.infos c.user_data in
    record r {
      infos =
          update r.infos c.user_data (record info { result = result_of info.cb info.word c.res });
      submitted = r.submitted ++ info.handle ∷ [];
    }

-- cq_advance and the last line of `poll_submit`.
unfoldable pub finish_batch : Ring → Ring
finish_batch r = record r { num = 0; num_io_running = sub_size r.num_io_running r.num }

unfoldable pub empty_io : Ring → Bool
empty_io r = if r.num_io_wait_submit == 0 then r.num_io_running == 0 else false
