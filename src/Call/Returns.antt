-- ===== src/Call/Returns.antt =====
-- A coroutine that awaits others comes to its end with the result that its body has.
use sheepcoro.Base.{
  ℕ, suc, ◌+◌, ◌≡◌, refl, ap, sym, ◌∙◌, ◌&&◌, Bool, true, false, some, arith, ◌==◌,
}
use sheepcoro.Awaiters.{Ptr, null, update_here, update_there}
use sheepcoro.Container.{Result, returns, rethrows}
use sheepcoro.Call.Promises.{Promise}
use sheepcoro.Call.{
  Body, co_return, throws, co_await, suspends, runs, Frame, Machine, create, goto, final_suspend,
  move, run,
}
use sheepcoro.Call.Moves.{
  Ready, Returned, step_at, run-step, end_move, called, called_child, called_lem, called-Ready,
  resumed_step, resumed-Ready, resumed-Returned, back_to,
}

module _ {A X : Type 0} where
  -- What a body comes to, where a co_await gives the result of the awaited body.
  abbrev pub eval : Body A X → Result A X
  eval (co_return v) = returns v
  eval (throws x) = rethrows x
  eval (co_await b k) = eval (k (eval b))
  eval (suspends b) = eval b

  -- In the run of a body no coroutine suspends, save that of the body itself where `own`.
  abbrev pub suspends_if : (own : Bool) → Body A X → Bool
  suspends_if own (co_return v) = true
  suspends_if own (throws x) = true
  suspends_if own (co_await b k) = suspends_if false b && suspends_if own (k (eval b))
  suspends_if own (suspends b) = own && suspends_if own b

  -- How many moves and resumptions that takes.
  abbrev pub steps : Body A X → ℕ
  steps (co_return v) = 1
  steps (throws x) = 1
  steps (co_await b k) = suc (steps b + suc (steps (k (eval b))))
  steps (suspends b) = suc (suc (steps b))

module _ {A X P : Type 0} (pr : Promise A X P) where
  -- The run of a body, when the engine has resumed g: the steps it takes from m, and where they
  -- lead.
  abbrev pub Comes : Ptr → Machine A X P → Ptr → Body A X → Type 0
  Comes g m h b =
      (m' : Machine A X P) × ((n : ℕ) → run pr (steps b + n) g m ≡ run pr n g m')
      × Returned pr m m' h (eval b)

  more_fuel : (g : Ptr) (m : Machine A X P) {n n' : ℕ} → n ≡ n' → run pr n g m ≡ run pr n' g m
  more_fuel g m e = ap (λ f. run pr f g m) e

  -- A first move by a coroutine that is Ready, and a resumption by the engine.
  module _ {m : Machine A X P} {h : Ptr} (r : Ready pr m h) (g : Ptr) where
    first :
        {b : Body A X} {m' : Machine A X P}
        → (m.frames h).point ≡ runs b
        → move pr h (runs b) m ≡ some m'
        → (x n : ℕ) → run pr (suc x + n) g m ≡ run pr (x + n) g m'
    first {m' = m'} at e x n =
        more_fuel g m (omega arith)
        ∙ run-step pr m m' r.here r.address (step_at pr m r.here r.alive at e) (x + n) g

    only :
        {b : Body A X} {m' : Machine A X P}
        → (m.frames h).point ≡ runs b
        → move pr h (runs b) m ≡ some m'
        → (n : ℕ) → run pr (1 + n) g m ≡ run pr n g m'
    only {m' = m'} at e n = first at e 0 n ∙ more_fuel g m' (omega arith)

    abbrev paused : Body A X → Machine A X P
    paused b = record (goto h (runs b) m) { control = null; suspended = h }

    abbrev woken : Body A X → Machine A X P
    woken b = record (paused b) { control = h; suspended = null }

    run-woken : g ≡ h → (b : Body A X) (n : ℕ) → run pr (suc n) g (paused b) ≡ run pr n g (woken b)
    unfolding run
    run-woken same b n = rw exists (rw nonnull refl) ∙ ap (λ p. run pr n p (woken b)) (sym same)
      where
        exists : m.live g ≡ true
        exists = ap m.live same ∙ r.alive

        nonnull : (h == null) ≡ false
        nonnull = ground (arith, r.address)

    woken-Ready : (b : Body A X) → Ready pr (woken b) h
    woken-Ready b = record {
      here = refl;
      idle = refl;
      empty = ap (λ f. f.promise) (update_here m.frames h _) ∙ r.empty;
      alive = r.alive;
      address = r.address;
      unused = r.unused;
    }

    woken-Returned :
        (b : Body A X) {n : Machine A X P} {res : Result A X}
        → Returned pr (woken b) n h res
        → Returned pr m n h res
    woken-Returned b d = record {
      goes = d.goes ∙ ap (λ f. f.continuation) (update_here m.frames h _);
      idle = d.idle;
      at_end = d.at_end;
      gives = d.gives;
      others =
          λ p old other. d.others p old other ∙ update_there m.frames h p _ (ground (arith, other));
      same_live = d.same_live;
      grows = d.grows;
    }

  pub comes :
      (own : Bool) (b : Body A X) {m : Machine A X P} {g h : Ptr}
      → (own ≡ true → g ≡ h)
      → suspends_if own b ≡ true
      → Ready pr m h
      → (m.frames h).point ≡ runs b
      → Comes g m h b
  unfolding move
  comes own (co_return v) {m} {g} {h} is_own fits r at = (
    final_suspend h (pr.return_value v) m,
    only r g at refl,
    end_move pr (pr.return_value v) (pr.returned v) r,
  )
  comes own (throws x) {m} {g} {h} is_own fits r at = (
    final_suspend h (pr.set_exception x) m,
    only r g at refl,
    end_move pr (pr.set_exception x) (pr.failed x) r,
  )
  comes own (co_await b k) {m} {g} {h} is_own fits r at =
      let onward : suspends_if own (k (eval b)) ≡ true = ground (arith, fits) in
      let (n, there, done) =
        comes false b (λ e. absurd (ground (arith, e))) (ground (arith, fits))
          (called-Ready pr m h b k r) (ap (λ f. f.point) (called_child pr m h b k r)) in
      let (n', end_run, end) =
        comes own (k (eval b)) is_own onward (resumed-Ready pr m h b k r done)
          (ap (λ f. f.point) (update_here n.frames h _) ∙ ap (λ res. runs (k res)) done.gives) in
      (
        n',
        λ i.
            first r g at (ap some (called_lem pr m h b k r)) (steps b + suc (steps (k (eval b)))) i
            ∙ (more_fuel g (called pr m h b k) (omega arith)
                ∙ (there (suc (steps (k (eval b)) + i))
                    ∙ (run-step pr n _ (back_to pr m h b k r done) r.address
                          (resumed_step pr m h b k r done) _ g
                        ∙ end_run i))),
        resumed-Returned pr m h b k r done end,
      )
  comes own (suspends b) {m} {g} {h} is_own fits r at =
      let (n, there, done) =
        comes own b is_own (ground (arith, fits)) (woken-Ready r g b)
          (ap (λ f. f.point) (update_here m.frames h _)) in
      (
        n,
        λ i.
            first r g at refl (suc (steps b)) i
            ∙ (more_fuel g (paused r g b) (omega arith)
                ∙ (run-woken r g (is_own (ground (arith, fits))) b (steps b + i) ∙ there i)),
        woken-Returned r g b done,
      )

  -- One task, at address 1, that is about to be resumed for the first time.
  unfoldable pub launch : (Ptr → Frame A X P) → Body A X → Machine A X P
  unfolding create
  launch memory b =
      let m : Machine A X P = record {
        control = 1;
        suspended = null;
        live = λ p. false;
        frames = memory;
        next = 1;
      } in
      create pr b m
