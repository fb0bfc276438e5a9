-- ===== src/FixedFds/Kernel.antt =====
-- What the operations of include/coro/uring_proxy.hpp and include/coro/io/base_io_type.hpp do to
-- the registered files when they return.
use Prim.Native.Nat.{bit_or}
use sheepcoro.Base.{
  ℕ, ◌+◌, ◌-◌, ◌≡◌, refl, ap, true, Option, none, some, arith, ◌==◌, if◌then◌else◌, Option-cases,
  inl, inr,
}
use sheepcoro.FixedFds.{
  Uring, IsKernel, returned, UringProxy, update_register_fixed_fds, back_fixed_fd, assign,
  give_back,
}
use sheepcoro.FixedFds.Buffer.{Item, MarkedBuffer, set_item, return_back}

module _ {k : Uring} where
  -- From p to p' the buffer becomes b and the file at index i the one of slot i.
  pub record IsUpdated (i : ℕ) (b : MarkedBuffer) (p p' : UringProxy k) : Type 0 where
    pub same_null : p'.null_fds ≡ p.null_fds
    pub same_fds : p'.fds ≡ b
    pub file : (j : ℕ) → k.table p'.uring j ≡ (if j == i then b.slots i else k.table p.uring j)

module _ {k : Uring} (law : IsKernel k) where
  difference : (i j : ℕ) → (if j == i then j - i else 0) ≡ 0
  difference i j = ground arith

  updated_one :
      (i : ℕ) (fds : ℕ → ℕ) (res : Option ℕ) (u u' : k.State)
      → k.update_files i fds 1 u ≡ (res, u')
      → returned res 1 ≡ true
      → (j : ℕ) → k.table u' j ≡ (if j == i then fds 0 else k.table u j)
  updated_one i fds none u u' e r j = absurd (ground arith)
  updated_one i fds (some n) u u' e r j =
      ground (arith, law.updated i fds 1 n u u' e j, ap fds (difference i j))

  update_lem :
      (i : ℕ) (p p' : UringProxy k)
      → update_register_fixed_fds k (some i) p ≡ some p'
      → IsUpdated i p.fds p p'
  unfolding update_register_fixed_fds
  update_lem i p p' e = record {
    same_null = ground arith;
    same_fds = ground arith;
    file = λ j. ground (
      arith,
      updated_one i fds (k.update_files i fds 1 p.uring).0 p.uring
          (k.update_files i fds 1 p.uring).1 refl (ground arith) j,
      ap p.fds.slots (sum_zero i),
    );
  }
    where
      fds : ℕ → ℕ
      fds m = p.fds.slots (i + m)

      sum_zero : (i : ℕ) → i + 0 ≡ i
      sum_zero i = omega arith

  pub assign_lem :
      (i fd flag fd' flag' : ℕ) (p p' : UringProxy k)
      → assign k (some i) fd flag p ≡ some (fd', flag', p')
      → IsUpdated i (set_item i fd p.fds) p p' × (fd' ≡ i) × (flag' ≡ bit_or flag k.fixed_file)
  unfolding assign
  assign_lem i fd flag fd' flag' p p' e =
      let q = record p { fds = set_item i fd p.fds } in
      elim (Option-cases (update_register_fixed_fds k (some i) q)) [
        | inl z ↦ absurd (ground (arith, z))
        | inr (q', y) ↦
            (let up = update_lem i q q' y in
              let same : q' ≡ p' = ground (arith, y) in
              (
                record {
                  same_null = ground (arith, up.same_null, same);
                  same_fds = ground (arith, up.same_fds, same);
                  file = λ j. ground (arith, up.file j, same);
                },
                ground (arith, y),
                ground (arith, y),
              ))
      ]

  pub back_lem :
      (i : ℕ) (it : Item) (p p' : UringProxy k)
      → give_back k (some i) p ≡ some (it, p')
      → IsUpdated i (return_back (some i) (set_item i (p.null_fds i) p.fds)) p p' × (it ≡ none)
  unfolding give_back back_fixed_fd return_back
  back_lem i it p p' e =
      let q = record p { fds = set_item i (p.null_fds i) p.fds } in
      elim (Option-cases (update_register_fixed_fds k (some i) q)) [
        | inl z ↦ absurd (ground (arith, z))
        | inr (q', y) ↦
            (let up = update_lem i q q' y in
              (
                record {
                  same_null = ground (arith, up.same_null, y);
                  same_fds = ground (arith, up.same_fds, y);
                  file = λ j. ground (arith, up.file j, up.same_fds, y);
                },
                ground (arith, y),
              ))
      ]
