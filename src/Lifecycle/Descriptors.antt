-- ===== src/Lifecycle/Descriptors.antt =====
-- The descriptors that an engine opens and closes.
use sheepcoro.Base.{
  ℕ, zero, suc, ◌+◌, ◌≡◌, ◌≢◌, refl, sym, ap, ◌∙◌, Bool, true, false, Option, none, some, List, [],
  ◌∷◌, arith, count,
}
use sheepcoro.FixedFds.{Uring, UringProxy, init_fds, fix_fd_array_size}
use sheepcoro.FixedFds.Buffer.{init, set_data}
use sheepcoro.Lifecycle.{
  Os, at, Proxy, construct, open_nulls, init_nulls, init_ring, init_proxy, close_all, deinit_proxy,
  IsOs,
}

-- The descriptors in m_efd and m_null_fds.
abbrev pub own : Option ℕ → List ℕ → ℕ → ℕ
own none fds j = count j fds
own (some efd) fds j = count j (efd ∷ []) + count j fds

module _ {k : Uring} {os : Os k} (law : IsOs os) where
  -- A round of the loop that opens the null files.
  open_nulls-round :
      (n : ℕ) (u u' : k.State) (fds : List ℕ)
      → open_nulls os (suc n) u ≡ some (fds, u')
      → (fd : ℕ) × (t : k.State) × (rest : List ℕ) × (os.open_null u ≡ (some fd, t))
        × (open_nulls os n t ≡ some (rest, u'))
        × (fds ≡ fd ∷ rest)
  unfolding open_nulls
  open_nulls-round n u u' fds e = first (os.open_null u) refl
    where
      Outcome : Type 0
      Outcome =
          (fd : ℕ) × (t : k.State) × (rest : List ℕ) × (os.open_null u ≡ (some fd, t))
          × (open_nulls os n t ≡ some (rest, u'))
          × (fds ≡ fd ∷ rest)

      others :
          (fd : ℕ) (t : k.State) (r : Option (List ℕ × k.State))
          → os.open_null u ≡ (some (suc fd), t)
          → open_nulls os n t ≡ r
          → Outcome
      others fd t none y z = absurd (ground (arith, e, y, z))
      others fd t (some (rest, t')) y z =
          (suc fd, t, rest, y, ground (arith, e, y, z), ground (arith, e, y, z))

      first : (r : Option ℕ × k.State) → os.open_null u ≡ r → Outcome
      first (none, t) y = absurd (ground (arith, e, y))
      first (some zero, t) y = absurd (ground (arith, e, y))
      first (some (suc fd), t) y = others fd t (open_nulls os n t) y refl

  open_nulls_lem :
      (n : ℕ) (u u' : k.State) (fds : List ℕ)
      → open_nulls os n u ≡ some (fds, u')
      → ((j : ℕ) → law.opens u' j ≡ count j fds + law.opens u j) × (law.ring u' ≡ law.ring u)
  unfolding open_nulls
  open_nulls_lem zero u u' [] e =
      let same : u' ≡ u = ground (arith, e) in
      (λ j. omega (arith, ap (λ t. law.opens t j) same), ap law.ring same)
  open_nulls_lem zero u u' (fd ∷ fds) e = absurd (ground (arith, e))
  open_nulls_lem (suc n) u u' fds e =
      let (fd, t, rest, y, z, x) = open_nulls-round n u u' fds e in
      let (here, same) = law.null_opens u t fd y in
      let (there, same') = open_nulls_lem n t u' rest z in
      rw x (λ j. omega (arith, here j, there j), same' ∙ same)

  -- What opened the descriptors is undone.
  close_all_lem :
      (fds : List ℕ) (u : k.State) (others : ℕ → ℕ)
      → ((j : ℕ) → law.opens u j ≡ count j fds + others j)
      → ((j : ℕ) → law.opens (close_all os fds u) j ≡ others j)
        × (law.ring (close_all os fds u) ≡ law.ring u)
  unfolding close_all
  close_all_lem [] u others e = (λ j. omega (arith, e j), refl)
  close_all_lem (fd ∷ fds) u others e =
      let (less, same) = law.closes u fd (ground (arith, e fd, law.once u fd)) in
      let (all, same') =
        close_all_lem fds (os.close (some fd) u) others (λ j. omega (arith, less j, e j)) in
      (all, same' ∙ same)

  init_ring_lem :
      (entries : ℕ) (p p' : Proxy os)
      → init_ring os entries p ≡ some p'
      → (p'.efd ≡ p.efd)
        × ((j : ℕ) → law.opens p'.files.uring j ≡ law.opens p.files.uring j)
        × (law.ring p'.files.uring ≡ true)
        × (p.efd ≢ none)
  unfolding init_ring
  init_ring_lem entries p p' e = made (os.queue_init_params entries p.files.uring) refl
    where
      Outcome : Type 0
      Outcome =
          (p'.efd ≡ p.efd)
          × ((j : ℕ) → law.opens p'.files.uring j ≡ law.opens p.files.uring j)
          × (law.ring p'.files.uring ≡ true)
          × (p.efd ≢ none)

      bound :
          (t : k.State) (r : Bool × k.State)
          → os.queue_init_params entries p.files.uring ≡ (true, t)
          → os.register_eventfd p.efd t ≡ r
          → Outcome
      bound t (false, t') y z = absurd (ground (arith, e, y, z))
      bound t (true, t') y z =
          let new : p' ≡ record p { files = record p.files { uring = t' } } =
            ground (arith, e, y, z) in
          let at_ring : p'.files.uring ≡ t' = ap (λ x. x.files.uring) new in
          let (kept, up) = law.sets_up entries p.files.uring t y in
          let (kept', same) = law.binds p.efd t t' z in
          (
            ap (λ x. x.efd) new,
            λ j. ap (λ t. law.opens t j) at_ring ∙ (kept' j ∙ kept j),
            ap law.ring at_ring ∙ (same ∙ up),
            λ closed. law.binds_open t t' (sym (ap (λ d. os.register_eventfd d t) closed) ∙ z),
          )

      made : (r : Bool × k.State) → os.queue_init_params entries p.files.uring ≡ r → Outcome
      made (false, t) y = absurd (ground (arith, e, y))
      made (true, t) y = bound t (os.register_eventfd p.efd t) y refl

  init_fds_lem :
      (null_fds : ℕ → ℕ) (p p' : UringProxy k)
      → init_fds k null_fds p ≡ some p'
      → ((j : ℕ) → law.opens p'.uring j ≡ law.opens p.uring j)
        × (law.ring p'.uring ≡ law.ring p.uring)
  unfolding init_fds init set_data
  init_fds_lem null_fds p p' e =
      let fds = set_data fix_fd_array_size null_fds (init p.fds) in
      go (k.register_files fds.slots fix_fd_array_size p.uring) refl
    where
      go :
          (r : Option k.State)
          → k.register_files
              (set_data fix_fd_array_size null_fds (init p.fds)).slots
              fix_fd_array_size
              p.uring
            ≡ r
          → ((j : ℕ) → law.opens p'.uring j ≡ law.opens p.uring j)
            × (law.ring p'.uring ≡ law.ring p.uring)
      go none y = absurd (ground (arith, e, y))
      go (some t) y =
          let same : p'.uring ≡ t = ground (arith, e, y) in
          let (kept, up) = law.registers _ _ p.uring t y in
          (λ j. ap (λ t. law.opens t j) same ∙ kept j, ap law.ring same ∙ up)

  init_nulls_lem :
      (p p' : Proxy os)
      → init_nulls os p ≡ some p'
      → (p'.efd ≡ p.efd)
        × ((j : ℕ) → law.opens p'.files.uring j ≡ count j p'.null_fds + law.opens p.files.uring j)
        × (law.ring p'.files.uring ≡ law.ring p.files.uring)
  unfolding init_nulls
  init_nulls_lem p p' e = opened (open_nulls os fix_fd_array_size p.files.uring) refl
    where
      Outcome : Type 0
      Outcome =
          (p'.efd ≡ p.efd)
          × ((j : ℕ) → law.opens p'.files.uring j ≡ count j p'.null_fds + law.opens p.files.uring j)
          × (law.ring p'.files.uring ≡ law.ring p.files.uring)

      registered :
          (fds : List ℕ) (u : k.State) (r : Option (UringProxy k))
          → open_nulls os fix_fd_array_size p.files.uring ≡ some (fds, u)
          → init_fds k (at fds) (record p.files { uring = u }) ≡ r
          → Outcome
      registered fds u none y z = absurd (ground (arith, e, y, z))
      registered fds u (some files) y z =
          let new : p' ≡ record p { null_fds = fds; files = files } = ground (arith, e, y, z) in
          let at_ring : p'.files.uring ≡ files.uring = ap (λ x. x.files.uring) new in
          let (more, same) = open_nulls_lem fix_fd_array_size p.files.uring u fds y in
          let (kept, same') = init_fds_lem (at fds) (record p.files { uring = u }) files z in
          (
            ap (λ x. x.efd) new,
            λ j. omega (
              arith,
              more j,
              kept j,
              ap (λ t. law.opens t j) at_ring,
              ap (λ x. count j x.null_fds) new,
            ),
            ap law.ring at_ring ∙ (same' ∙ same),
          )

      opened :
          (r : Option (List ℕ × k.State))
          → open_nulls os fix_fd_array_size p.files.uring ≡ r
          → Outcome
      opened none y = absurd (ground (arith, e, y))
      opened (some (fds, u)) y =
          registered fds u (init_fds k (at fds) (record p.files { uring = u })) y refl

  pub init_proxy_lem :
      (entries : ℕ) (p p' : Proxy os)
      → init_proxy os entries p ≡ some p'
      → (p'.efd ≡ p.efd)
        × ((j : ℕ) → law.opens p'.files.uring j ≡ count j p'.null_fds + law.opens p.files.uring j)
        × (law.ring p'.files.uring ≡ true)
        × (p.efd ≢ none)
  unfolding init_proxy
  init_proxy_lem entries p p' e = go (init_ring os entries p) refl
    where
      go :
          (r : Option (Proxy os))
          → init_ring os entries p ≡ r
          → (p'.efd ≡ p.efd)
            × ((j : ℕ)
                → law.opens p'.files.uring j ≡ count j p'.null_fds + law.opens p.files.uring j)
            × (law.ring p'.files.uring ≡ true)
            × (p.efd ≢ none)
      go none y = absurd (ground (arith, e, y))
      go (some t) y =
          let (efd, kept, up, bound) = init_ring_lem entries p t y in
          let (efd', more, same) = init_nulls_lem t p' (ground (arith, e, y)) in
          (efd' ∙ efd, λ j. omega (arith, kept j, more j), same ∙ up, bound)

  pub construct_lem :
      (slots : ℕ → ℕ) (u : k.State) (p : Proxy os)
      → construct os slots u ≡ some p
      → ((j : ℕ) → law.opens p.files.uring j ≡ own p.efd [] j + law.opens u j)
  unfolding construct
  construct_lem slots u p e = go (os.eventfd u) refl
    where
      go :
          (r : Option ℕ × k.State)
          → os.eventfd u ≡ r
          → (j : ℕ) → law.opens p.files.uring j ≡ own p.efd [] j + law.opens u j
      go (none, t) y = absurd (ground (arith, e, y))
      go (some fd, t) y =
          let same : p.files.uring ≡ t = ground (arith, e, y) in
          let efd : p.efd ≡ some fd = ground (arith, e, y) in
          λ j. omega (
            arith,
            ap (λ t. law.opens t j) same,
            ap (λ d. own d [] j) efd,
            (law.eventfd_opens u t fd y).0 j,
          )

  pub deinit_proxy_lem :
      (p : Proxy os) (others : ℕ → ℕ)
      → p.efd ≢ none
      → ((j : ℕ) → law.opens p.files.uring j ≡ own p.efd p.null_fds j + others j)
      → ((j : ℕ) → law.opens (deinit_proxy os p).files.uring j ≡ others j)
        × (law.ring (deinit_proxy os p).files.uring ≡ false)
  unfolding deinit_proxy
  deinit_proxy_lem p others bound e = go p.efd refl
    where
      go :
          (efd : Option ℕ)
          → p.efd ≡ efd
          → ((j : ℕ) → law.opens (deinit_proxy os p).files.uring j ≡ others j)
            × (law.ring (deinit_proxy os p).files.uring ≡ false)
      go none y = absurd (bound y)
      go (some fd) y =
          let (less, _) =
            law.closes p.files.uring fd (ground (arith, e fd, y, law.once p.files.uring fd)) in
          let (all, _) =
            close_all_lem p.null_fds (os.close (some fd) p.files.uring) others
              (λ j. omega (arith, e j, less j, ap (λ d. own d p.null_fds j) y)) in
          let (kept, down) =
            law.exits (close_all os p.null_fds (os.close (some fd) p.files.uring)) in
          simp (y) (λ j. kept j ∙ all j, down)
