-- ===== src/Tcp/Invariant.antt =====
-- Every open connector has the registered file of its socket, or none.
use sheepcoro.Base.{
  ℕ, ◌≡◌, ◌≢◌, refl, ap, subst, ◌∙◌, Option, none, some, arith, ◌==◌, false, Option-cases,
  Bool-cases, inl, inr, bit_or-zero,
}
use sheepcoro.Awaiters.{Ptr, update, update_here, update_there}
use sheepcoro.FixedFds.{Uring, IsKernel, UringProxy, get_fixed_fd, assign, give_back}
use sheepcoro.FixedFds.Buffer.{Item, set_item}
use sheepcoro.FixedFds.Kernel.{assign_lem, back_lem}
use sheepcoro.FixedFds.System.{construct, assigns, returns}
use sheepcoro.FixedFds.Invariant.{Reach-Inv}
use sheepcoro.FixedFds.System as Fds
use sheepcoro.Io.{Awaiter}
use sheepcoro.Tcp.{Connector, tcp_connector, close}
use sheepcoro.Tcp.System.{System}

abbrev pub item_of : Option Connector → Item
item_of none = none
item_of (some c) = c.fixed_fd

-- What the item of a connector says of its other fields.
abbrev pub Right : (k : Uring) → k.State → Item → Connector → Type 0
Right k u none c = (c.sqe_flag ≡ 0) × (c.sockfd ≡ c.original_fd)
Right k u (some i) c = (c.sqe_flag ≡ k.fixed_file) × (c.sockfd ≡ i) × (k.table u i ≡ c.original_fd)

pub record Inv {k : Uring} (item : Ptr → Item) (s : System k) : Type 0 where
  pub reach : Fds.Reach k (record { proxy = s.proxy; item = item })
  pub same : (o : Ptr) → item o ≡ item_of (s.conn o)
  pub right : (o : Ptr) (c : Connector) → s.conn o ≡ some c → Right k s.uring c.fixed_fd c

-- What a connector does to the registered files.
record IsMade {k : Uring} (fd : ℕ) (c : Connector) (p p'' : UringProxy k) : Type 0 where
  p' : UringProxy k
  took : get_fixed_fd k p ≡ (c.fixed_fd, p')
  assigned : assign k c.fixed_fd fd 0 p' ≡ some (c.sockfd, c.sqe_flag, p'')
  original : c.original_fd ≡ fd

made_lem :
    {k : Uring} (fd : ℕ) (c : Connector) (p p'' : UringProxy k)
    → tcp_connector k fd p ≡ some (c, p'')
    → IsMade fd c p p''
unfolding tcp_connector
made_lem {k} fd c p p'' e =
    elim (Option-cases (assign k (get_fixed_fd k p).0 fd 0 (get_fixed_fd k p).1)) [
      | inl z ↦ absurd (ground (arith, z))
      | inr ((fd', flag', q), y) ↦
          (let d : Connector = record {
            sockfd = fd';
            original_fd = fd;
            fixed_fd = (get_fixed_fd k p).0;
            sqe_flag = flag';
          } in
            let e' : (d, q) ≡ (c, p'') = ground (arith, e, y) in
            subst (λ (x : Connector × UringProxy k). IsMade fd x.0 p x.1) e'
              (record { p' = (get_fixed_fd k p).1; took = refl; assigned = y; original = refl }))
    ]

-- A connector stays as it is while its registered file does.
Right-same :
    (k : Uring) (it : Item) (u u' : k.State) (c : Connector)
    → ((i : ℕ) → it ≡ some i → k.table u' i ≡ k.table u i)
    → Right k u it c
    → Right k u' it c
Right-same k none u u' c same r = r
Right-same k (some i) u u' c same (flag, fd, file) = (flag, fd, same i refl ∙ file)

other_index : (i j : ℕ) → some i ≢ some j → (j == i) ≡ false
other_index i j n = elim (Bool-cases (j == i)) [
  | inl y ↦ absurd (n (ground (arith, y)))
  | inr y ↦ y
]

module _ {k : Uring} (law : IsKernel k) where
  same_proxy : (p p' : UringProxy k) (j : ℕ) → p' ≡ p → k.table p'.uring j ≡ k.table p.uring j
  same_proxy p p' j e = ap (λ (q : UringProxy k). k.table q.uring j) e

  -- The connector that is made is right, and the files of the others stay.
  pub made-Right :
      (fd : ℕ) (it : Item) (c : Connector) (p p' : UringProxy k)
      → c.original_fd ≡ fd
      → assign k it fd 0 p ≡ some (c.sockfd, c.sqe_flag, p')
      → Right k p'.uring it c × ((j : ℕ) → it ≢ some j → k.table p'.uring j ≡ k.table p.uring j)
  unfolding assign set_item
  made-Right fd none c p p' from e =
      ((ground (arith, e), ground (arith, e, from)), λ j n. same_proxy p p' j (ground (arith, e)))
  made-Right fd (some i) c p p' from e =
      let (up, at, flag) = assign_lem law i fd 0 c.sockfd c.sqe_flag p p' e in
      (
        (flag ∙ bit_or-zero k.fixed_file, at, ground (arith, up.file i, from)),
        λ j n. ground (arith, up.file j, other_index i j n),
      )

  -- Giving an item back changes the file of no other.
  given-same :
      (it it' : Item) (p p' : UringProxy k)
      → give_back k it p ≡ some (it', p')
      → (it' ≡ none) × ((j : ℕ) → it ≢ some j → k.table p'.uring j ≡ k.table p.uring j)
  unfolding give_back
  given-same none it' p p' e = (ground (arith, e), λ j n. same_proxy p p' j (ground (arith, e)))
  given-same (some i) it' p p' e =
      let (up, gone) = back_lem law i it' p p' e in
      (gone, λ j n. ground (arith, up.file j, other_index i j n))

  -- Two connectors do not have the same item.
  collide :
      {s : Fds.System k}
      → Fds.Reach k s
      → (o j i : ℕ) → s.item o ≡ some i
      → s.item j ≡ some i
      → (o == j) ≡ false
      → ⊥
  collide r o j i e e' n = ground (arith, (Reach-Inv law r).apart o j i e e', n)

  pub same_file :
      (it : Item) (p p' : UringProxy k) (j : ℕ)
      → get_fixed_fd k p ≡ (it, p')
      → k.table p'.uring j ≡ k.table p.uring j
  unfolding get_fixed_fd
  same_file it p p' j e = ap (λ u. k.table u j) (ground (arith, e))

  module _ {item : Ptr → Item} {s : System k} (inv : Inv item s) where
    pub opens-Inv :
        (o : Ptr) (fd : ℕ) (c : Connector) (p : UringProxy k)
        → s.conn o ≡ none
        → tcp_connector k fd s.proxy ≡ some (c, p)
        → Inv (update item o c.fixed_fd) (record { proxy = p; conn = update s.conn o (some c) })
    opens-Inv o fd c p free e =
        let made = made_lem fd c s.proxy p e in
        let free' : item o ≡ none = inv.same o ∙ ap item_of free in
        let held = Fds.later inv.reach (construct o c.fixed_fd made.p' free' made.took) in
        let (right, stays) = made-Right fd c.fixed_fd c made.p' p made.original made.assigned in
        record {
          reach = Fds.later held (
              assigns o fd 0 c.sockfd c.sqe_flag p
                (rw (update_here item o c.fixed_fd) made.assigned));
          same = λ j. elim (Bool-cases (o == j)) [ inl y ↦ rw y refl | inr y ↦ rw y (inv.same j) ];
          right = λ j d at. elim (Bool-cases (o == j)) [
            | inl y ↦ subst (λ x. Right k p.uring x.fixed_fd x) (ground (arith, at, y)) right
            | inr y ↦
                (let at' : s.conn j ≡ some d = ground (arith, at, y) in
                  Right-same k d.fixed_fd s.uring p.uring d
                    (λ i h.
                      stays i (λ e'.
                        collide held o j i (update_here item o c.fixed_fd ∙ e')
                          (update_there item o j c.fixed_fd y ∙ (inv.same j ∙ (ap item_of at' ∙ h)))
                          y)
                      ∙ same_file c.fixed_fd s.proxy made.p' i made.took)
                    (inv.right j d at'))
          ];
        }

    closed_lem :
        (c c' : Connector) (aw : Awaiter) (p : UringProxy k)
        → close k c s.proxy ≡ some (aw, c', p)
        → give_back k c.fixed_fd s.proxy ≡ some (c'.fixed_fd, p)
    unfolding close
    closed_lem c c' aw p e = elim (Option-cases (give_back k c.fixed_fd s.proxy)) [
      | inl z ↦ absurd (ground (arith, e, z))
      | inr ((it, q), y) ↦ y ∙ ground (arith, e, y)
    ]

    pub closes-Inv :
        (o : Ptr) (c c' : Connector) (aw : Awaiter) (p : UringProxy k)
        → s.conn o ≡ some c
        → close k c s.proxy ≡ some (aw, c', p)
        → Inv (update item o none) (record { proxy = p; conn = update s.conn o none })
    closes-Inv o c c' aw p at e =
        let given = closed_lem c c' aw p e in
        let (gone, stays) = given-same c.fixed_fd c'.fixed_fd s.proxy p given in
        let its : item o ≡ c.fixed_fd = inv.same o ∙ ap item_of at in
        record {
          reach =
              subst (λ it. Fds.Reach k (record { proxy = p; item = update item o it })) gone
                (Fds.later inv.reach (returns o c'.fixed_fd p (rw its given)));
          same = λ j. elim (Bool-cases (o == j)) [ inl y ↦ rw y refl | inr y ↦ rw y (inv.same j) ];
          right = λ j d at'. elim (Bool-cases (o == j)) [
            | inl y ↦ absurd (ground (arith, at', y))
            | inr y ↦
                (let at'' : s.conn j ≡ some d = ground (arith, at', y) in
                  Right-same k d.fixed_fd s.uring p.uring d
                    (λ i h. stays i (λ e'.
                      collide inv.reach o j i (its ∙ e') (inv.same j ∙ (ap item_of at'' ∙ h)) y))
                    (inv.right j d at''))
          ];
        }
