-- ===== src/FixedFds/Tests.antt =====
-- Runs and witnesses for FixedFds.antt.
use sheepcoro.Base.{
  ℕ, ◌+◌, ◌-◌, ◌≡◌, ◌≢◌, ◌⊎◌, refl, some, [], ◌&&◌, arith, ltb, leb, if◌then◌else◌, count,
}
use sheepcoro.Awaiters.{Ptr}
use sheepcoro.FixedFds.{Uring, IsKernel, UringProxy, init_fds, get_fixed_fd}
use sheepcoro.FixedFds.System.{System, Reach, start, later, construct}
use sheepcoro.FixedFds.Safety.{slots_partition}

-- An io_uring that takes every update.
abbrev table_kernel : Uring
table_kernel = record {
  State = ℕ → ℕ;
  table = λ u. u;
  register_files = λ fds nr u. some fds;
  update_files =
      λ off fds nr u. (some nr, λ j. if leb off j && ltb j (off + nr) then fds (j - off) else u j);
  fixed_file = 1;
}

table_kernel-IsKernel : IsKernel table_kernel
table_kernel-IsKernel = record {
  registered = λ fds nr u u' e j h. ground (arith, e);
  updated = λ off fds nr n u u' e j. ground (arith, e);
}

-- The null files are 100 and up.
abbrev null_fds : ℕ → ℕ
null_fds i = 100 + i

abbrev fresh : UringProxy table_kernel
fresh = record { uring = λ _. 0; null_fds = λ _. 0; fds = record { slots = λ _. 0; que = [] } }

abbrev One : Type 0
One = (s : System table_kernel) × Reach table_kernel s × (s.item 5 ≡ some 0)

one : One
unfolding init_fds get_fixed_fd
one = (_, later (start null_fds fresh _ refl) (construct 5 (some 0) _ refl refl), refl)

slots_partition_example :
    ((count 0 one.0.fds.que ≡ 1)
      × ((o : Ptr) → one.0.item o ≢ some 0)
      × (one.0.uring 0 ≡ one.0.null_fds 0))
    ⊎ ((count 0 one.0.fds.que ≡ 0)
        × ((o : Ptr) × (one.0.item o ≡ some 0) × ((o' : Ptr) → one.0.item o' ≡ some 0 → o' ≡ o)))
slots_partition_example = slots_partition table_kernel-IsKernel one.1 0 (omega arith)
