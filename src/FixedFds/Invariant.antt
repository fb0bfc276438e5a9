-- ===== src/FixedFds/Invariant.antt =====
-- The invariant of the registered files of include/coro/uring_proxy.hpp, and that every step keeps
-- it.
use sheepcoro.Base.{
  ℕ, ◌≤◌, ◌<◌, ◌≡◌, ◌≢◌, sym, subst, none, some, [], ◌∷◌, arith, ltb, if◌then◌else◌, count,
  count-append, Option-cases, inl, inr, ℕ_discrete,
}
use sheepcoro.Awaiters.{Ptr, update}
use sheepcoro.FixedFds.{
  Uring, IsKernel, UringProxy, init_fds, fix_fd_array_size, get_fixed_fd, assign, give_back,
}
use sheepcoro.FixedFds.Buffer.{
  Item, init, set_data, pop_front, borrow, set_item, return_back, copy_values, count-push_indices,
  copy_values_lem,
}
use sheepcoro.FixedFds.Kernel.{assign_lem, back_lem}
use sheepcoro.FixedFds.System.{System, construct, assigns, returns, Reach, start, later}

-- Every index is free or the item of one object; the null file stands at the free ones; the files
-- of io_uring are the slots.
pub record Inv {k : Uring} (s : System k) : Type 0 where
  pub small : (o : Ptr) (i : ℕ) → s.item o ≡ some i → i < fix_fd_array_size
  pub apart : (o o' : Ptr) (i : ℕ) → s.item o ≡ some i → s.item o' ≡ some i → o ≡ o'
  pub lent : (o : Ptr) (i : ℕ) → s.item o ≡ some i → count i s.fds.que ≡ 0
  pub once : (i : ℕ) → count i s.fds.que ≤ (if ltb i fix_fd_array_size then 1 else 0)
  pub owned :
      (i : ℕ) → i < fix_fd_array_size → count i s.fds.que ≡ 0 → (o : Ptr) × (s.item o ≡ some i)
  pub free_null : (i : ℕ) → count i s.fds.que ≢ 0 → s.fds.slots i ≡ s.null_fds i
  pub in_step : (i : ℕ) → i < fix_fd_array_size → k.table s.uring i ≡ s.fds.slots i

module _ {k : Uring} (law : IsKernel k) where
  init-Inv :
      (null_fds : ℕ → ℕ) (fresh p : UringProxy k)
      → init_fds k null_fds fresh ≡ some p
      → Inv (record { proxy = p; item = λ _. none })
  unfolding init_fds init set_data
  init-Inv null_fds fresh p e = record {
    small = λ o i h. absurd (ground (arith, h));
    apart = λ o o' i h. absurd (ground (arith, h));
    lent = λ o i h. absurd (ground (arith, h));
    once = λ i. ground (arith, count-push_indices 8 0 [] i);
    owned = λ i small z. absurd (ground (arith, count-push_indices 8 0 [] i));
    free_null = λ i h.
        ground (arith, count-push_indices 8 0 [] i, copy_values_lem 8 0 null_fds fresh.fds.slots i);
    in_step = λ i small. elim (Option-cases (k.register_files all 8 fresh.uring)) [
      | inl z ↦ absurd (ground (arith, z))
      | inr (u, y) ↦ ground (arith, law.registered all 8 fresh.uring u y i small, y)
    ];
  }
    where
      all : ℕ → ℕ
      all = copy_values 8 0 null_fds fresh.fds.slots

module _ {k : Uring} {s : System k} (inv : Inv s) (o : Ptr) where
  open inv use {small, apart, lent, once, owned, free_null, in_step}

  construct-Inv :
      (it : Item) (p : UringProxy k)
      → s.item o ≡ none
      → get_fixed_fd k s.proxy ≡ (it, p)
      → Inv (record { proxy = p; item = update s.item o it })
  unfolding get_fixed_fd borrow pop_front
  construct-Inv it p at e = record {
    small = λ a i h. ground (arith, small a i, once i);
    apart = λ a b i h h'. ground (arith, apart a b i, lent a i, lent b i);
    lent = λ a i h. ground (arith, lent a i, once i);
    once = λ i. ground (arith, once i);
    owned = λ i h z. elim (Option-cases it) [
      | inl y ↦ (let (a, q) = owned i h (ground arith) in (a, ground arith))
      | inr (m, y) ↦ elim (ℕ_discrete m i) [
        | yes q ↦ (o, ground arith)
        | no n ↦ (let (a, q) = owned i h (ground arith) in (a, ground arith))
      ]
    ];
    free_null = λ i h. ground (arith, free_null i);
    in_step = λ i h. ground (arith, in_step i);
  }

  module _ (law : IsKernel k) where
    assigns-Inv :
        (fd flag fd' flag' : ℕ) (p : UringProxy k)
        → assign k (s.item o) fd flag s.proxy ≡ some (fd', flag', p)
        → Inv (record s { proxy = p })
    unfolding set_item assign
    assigns-Inv fd flag fd' flag' p e = elim (Option-cases (s.item o)) [
      | inl z ↦
          (let same : s.proxy ≡ p = ground (arith, z) in
            subst (λ q. Inv (record s { proxy = q })) same inv)
      | inr (i, y) ↦
          (let (up, _, _) = assign_lem law i fd flag fd' flag' s.proxy p (rw (sym y) e) in
            record {
              small = small;
              apart = apart;
              lent = λ a j h. ground (arith, lent a j, up.same_fds);
              once = λ j. ground (arith, once j, up.same_fds);
              owned = λ j h z. owned j h (ground (arith, up.same_fds));
              free_null = λ j h. ground (arith, free_null j, lent o i, up.same_fds, up.same_null);
              in_step = λ j h. ground (arith, in_step j, up.file j, up.same_fds);
            })
    ]

    returns-Inv :
        (it : Item) (p : UringProxy k)
        → give_back k (s.item o) s.proxy ≡ some (it, p)
        → Inv (record { proxy = p; item = update s.item o it })
    unfolding set_item give_back return_back
    returns-Inv it p e = elim (Option-cases (s.item o)) [
      | inl z ↦
          (let same : s.proxy ≡ p = ground (arith, z) in
            let gone : it ≡ none = ground (arith, z) in
            record {
              small = λ a j h. ground (arith, small a j, gone);
              apart = λ a b j h h'. ground (arith, apart a b j, gone);
              lent = λ a j h. ground (arith, lent a j, gone, same);
              once = λ j. ground (arith, once j, same);
              owned = λ j h q.
                  (let (a, r) = owned j h (ground (arith, same)) in (a, ground (arith, gone)));
              free_null = λ j h. ground (arith, free_null j, same);
              in_step = λ j h. ground (arith, in_step j, same);
            })
      | inr (i, y) ↦
          (let (up, gone) = back_lem law i it s.proxy p (rw (sym y) e) in
            record {
              small = λ a j h. ground (arith, small a j, gone);
              apart = λ a b j h h'. ground (arith, apart a b j, gone);
              lent = λ a j h. ground (
                arith,
                lent a j,
                apart o a j,
                up.same_fds,
                gone,
                count-append j s.fds.que (i ∷ []),
              );
              once = λ j. ground (
                arith,
                once j,
                small o i,
                lent o i,
                up.same_fds,
                count-append j s.fds.que (i ∷ []),
              );
              owned = λ j h q.
                  (let c = count-append j s.fds.que (i ∷ []) in
                    let (a, r) = owned j h (ground (arith, up.same_fds, c)) in
                    (a, ground (arith, gone, up.same_fds, c)));
              free_null = λ j h. ground (
                arith,
                free_null j,
                up.same_fds,
                up.same_null,
                count-append j s.fds.que (i ∷ []),
              );
              in_step = λ j h. ground (arith, in_step j, up.file j, up.same_fds);
            })
    ]

module _ {k : Uring} (law : IsKernel k) where
  pub Reach-Inv : {s : System k} → Reach k s → Inv s
  Reach-Inv (start null_fds fresh p e) = init-Inv law null_fds fresh p e
  Reach-Inv (later r (construct o it p at e)) = construct-Inv (Reach-Inv r) o it p at e
  Reach-Inv (later r (assigns o fd flag fd' flag' p e)) =
      assigns-Inv (Reach-Inv r) o law fd flag fd' flag' p e
  Reach-Inv (later r (returns o it p e)) = returns-Inv (Reach-Inv r) o law it p e
