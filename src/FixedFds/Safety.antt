-- ===== src/FixedFds/Safety.antt =====
-- What the registered files of include/coro/uring_proxy.hpp promise to the fixed_fds objects of
-- include/coro/io/base_io_type.hpp.
use sheepcoro.Base.{ℕ, ◌<◌, ◌≡◌, ◌≢◌, ◌⊎◌, inl, inr, some, arith, count, ℕ_discrete}
use sheepcoro.Awaiters.{Ptr}
use sheepcoro.FixedFds.{Uring, IsKernel, fix_fd_array_size}
use sheepcoro.FixedFds.Invariant.{Inv, Reach-Inv}
use sheepcoro.FixedFds.System.{System, Reach}

-- With an io_uring that does what is documented: in every reachable state each index below the size
-- of the table either stands in the free queue,
-- once, is the item of no object, and has the null file registered; or it does not stand there and
-- is the item of exactly one object.
pub slots_partition :
    {k : Uring} (law : IsKernel k) {s : System k}
    → Reach k s
    → (i : ℕ) → i < fix_fd_array_size
    → ((count i s.fds.que ≡ 1)
        × ((o : Ptr) → s.item o ≢ some i)
        × (k.table s.uring i ≡ s.null_fds i))
      ⊎ ((count i s.fds.que ≡ 0)
          × ((o : Ptr) × (s.item o ≡ some i) × ((o' : Ptr) → s.item o' ≡ some i → o' ≡ o)))
slots_partition {k} law {s} r i small = elim (ℕ_discrete (count i s.fds.que) 0) [
  | yes z ↦ inr (z, (let (o, h) = inv.owned i small z in (o, h, λ o' h'. inv.apart o' o i h' h)))
  | no n ↦ inl (
    ground (arith, inv.once i),
    λ o h. n (inv.lent o i h),
    ground (arith, inv.in_step i, inv.free_null i),
  )
]
  where
    inv : Inv s
    inv = Reach-Inv law r
