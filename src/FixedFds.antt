-- ===== src/FixedFds.antt =====
-- include/coro/marked_buffer.hpp, the registered files of include/coro/uring_proxy.hpp, and
-- include/coro/io/base_io_type.hpp. The io_uring calls are a parameter.
pub mod Buffer
pub mod System
pub mod Kernel
pub mod Invariant
pub mod Safety
mod Tests
use Prim.Native.Nat.{bit_or}
use sheepcoro.Base.{
  ℕ, zero, suc, ◌+◌, ◌-◌, ◌<◌, ◌≡◌, Bool, true, false, ◌&&◌, Option, none, some, ◌==◌, ltb, leb,
  if◌then◌else◌,
}
use sheepcoro.FixedFds.Buffer.{MarkedBuffer, init, set_data, borrow, return_back, Item, set_item}

-- config::kFixFdArraySize
abbrev pub fix_fd_array_size : ℕ
fix_fd_array_size = 8

-- What the code uses of liburing. `table` is the file registered at an index; `update_files`
-- returns how many files were updated, or none for a negative result; `fixed_file` is
-- IOSQE_FIXED_FILE.
pub record Uring : Type 1 where
  pub State : Type 0
  pub table : State → ℕ → ℕ
  pub register_files : (fds : ℕ → ℕ) (nr : ℕ) → State → Option State
  pub update_files : (off : ℕ) (fds : ℕ → ℕ) (nr : ℕ) → State → Option ℕ × State
  pub fixed_file : ℕ

-- `res == n`
abbrev pub returned : Option ℕ → ℕ → Bool
returned none n = false
returned (some res) n = res == n

module _ (k : Uring) where
  pub record UringProxy : Type 0 where
    pub uring : k.State
    pub null_fds : ℕ → ℕ
    pub fds : MarkedBuffer

  -- The part of `init` under kEnableFixfd, for the files that get_null_fd opened; `none` means that
  -- the program has ended.
  unfoldable pub init_fds : (null_fds : ℕ → ℕ) → UringProxy → Option UringProxy
  unfolding init set_data
  init_fds null_fds p =
      let fds = set_data fix_fd_array_size null_fds (init p.fds) in
      elim (k.register_files fds.slots fix_fd_array_size p.uring) [
        | none ↦ none
        | some u ↦ some (record { uring = u; null_fds = null_fds; fds = fds })
      ]

  unfoldable pub get_fixed_fd : UringProxy → Item × UringProxy
  unfolding borrow
  get_fixed_fd p = let (item, fds) = borrow p.fds in (item, record p { fds = fds })

  -- `none` for the default index of -1, for which every file is updated.
  unfoldable pub update_register_fixed_fds : (index : Option ℕ) → UringProxy → Option UringProxy
  update_register_fixed_fds (some index) p =
      let (res, u) = k.update_files index (λ j. p.fds.slots (index + j)) 1 p.uring in
      if returned res 1 then some (record p { uring = u }) else none
  update_register_fixed_fds none p =
      let (res, u) = k.update_files 0 p.fds.slots fix_fd_array_size p.uring in
      if returned res fix_fd_array_size then some (record p { uring = u }) else none

  unfoldable pub back_fixed_fd : Item → UringProxy → Option UringProxy
  unfolding set_item return_back update_register_fixed_fds
  back_fixed_fd none p = some p
  back_fixed_fd (some idx) p =
      elim (update_register_fixed_fds (some idx)
        (record p { fds = set_item idx (p.null_fds idx) p.fds })) [
          | none ↦ none
          | some p' ↦ some (record p' { fds = return_back (some idx) p'.fds })
        ]

  -- `fixed_fds::assign`, with the new values of fd and flag.
  unfoldable pub assign : Item → (fd flag : ℕ) → UringProxy → Option (ℕ × ℕ × UringProxy)
  unfolding set_item update_register_fixed_fds
  assign none fd flag p = some (fd, flag, p)
  assign (some idx) fd flag p =
      elim (update_register_fixed_fds (some idx) (record p { fds = set_item idx fd p.fds })) [
        | none ↦ none
        | some p' ↦ some (idx, bit_or flag k.fixed_file, p')
      ]

  -- `fixed_fds::return_back`, with the new item.
  unfoldable pub give_back : Item → UringProxy → Option (Item × UringProxy)
  unfolding back_fixed_fd
  give_back none p = some (none, p)
  give_back (some idx) p = elim (back_fixed_fd (some idx) p) [
    | none ↦ none
    | some p' ↦ some (none, p')
  ]

-- What the documentation of liburing says of the two calls.
pub record IsKernel (k : Uring) : Type 0 where
  pub registered :
      (fds : ℕ → ℕ) (nr : ℕ) (u u' : k.State)
      → k.register_files fds nr u ≡ some u'
      → (j : ℕ) → j < nr
      → k.table u' j ≡ fds j
  pub updated :
      (off : ℕ) (fds : ℕ → ℕ) (nr n : ℕ) (u u' : k.State)
      → k.update_files off fds nr u ≡ (some n, u')
      → (j : ℕ)
      → k.table u' j ≡ (if leb off j && ltb j (off + n) then fds (j - off) else k.table u j)
