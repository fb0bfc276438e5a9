-- ===== src/Call/Moves.antt =====
-- The moves of a coroutine: to its end, into a call, and back from it.
use sheepcoro.Base.{ℕ, suc, ◌+◌, ◌≤◌, ◌<◌, ◌≡◌, refl, ap, ◌∙◌, true, false, some, arith, ◌==◌}
use sheepcoro.Awaiters.{Ptr, null, update, update_here, update_there}
use sheepcoro.Container.{Result}
use sheepcoro.Call.Promises.{Promise}
use sheepcoro.Call.{
  Body, Point, runs, awaits, ended, Frame, Machine, new_frame, create, await_suspend, goto,
  final_suspend, destroy, co_await_task, move, step, run,
}

module _ {A X P : Type 0} (pr : Promise A X P) where
  -- The coroutine h is about to run on.
  pub record Ready (m : Machine A X P) (h : Ptr) : Type 0 where
    pub here : m.control ≡ h
    pub idle : m.suspended ≡ null
    pub empty : (m.frames h).promise ≡ pr.empty
    pub alive : m.live h ≡ true
    pub address : 1 ≤ h
    pub unused : (p : Ptr) → m.next ≤ p → m.live p ≡ false

  -- From m to m' the coroutine h has come to its end with a result, and what it has called is gone.
  pub record Returned (m m' : Machine A X P) (h : Ptr) (r : Result A X) : Type 0 where
    pub goes : m'.control ≡ (m.frames h).continuation
    pub idle : m'.suspended ≡ null
    pub at_end : (m'.frames h).point ≡ ended
    pub gives : pr.result (m'.frames h).promise ≡ r
    pub others : (p : Ptr) → p < m.next → (p == h) ≡ false → m'.frames p ≡ m.frames p
    pub same_live : (p : Ptr) → m'.live p ≡ m.live p
    pub grows : m.next ≤ m'.next

  pub step_at :
      (m : Machine A X P) {m' : Machine A X P} {h : Ptr} {p : Point A X}
      → m.control ≡ h
      → m.live h ≡ true
      → (m.frames h).point ≡ p
      → move pr h p m ≡ some m'
      → step pr m ≡ some m'
  unfolding step
  step_at m here alive at e = simp (here, alive, at, e)

  pub run-step :
      (m m' : Machine A X P) {h : Ptr}
      → m.control ≡ h
      → 1 ≤ h
      → step pr m ≡ some m'
      → (n : ℕ) (g : Ptr) → run pr (suc n) g m ≡ run pr n g m'
  unfolding run
  run-step m m' here address e n g = rw running (rw e refl)
    where
      running : (m.control == null) ≡ false
      running = ground (arith, here, address)

  -- A coroutine comes to its end by the write of its promise.
  pub end_move :
      {m : Machine A X P} {h : Ptr} {res : Result A X} (write : P → P)
      → pr.result (write pr.empty) ≡ res
      → Ready m h
      → Returned m (final_suspend h write m) h res
  unfolding final_suspend
  end_move {m} {h} write gives r = record {
    goes = refl;
    idle = r.idle;
    at_end = ap (λ f. f.point) (update_here m.frames h _);
    gives =
        ap (λ f. pr.result f.promise) (update_here m.frames h _)
        ∙ (ap (λ p. pr.result (write p)) r.empty ∙ gives);
    others = λ p in_use other. update_there m.frames h p _ (ground (arith, other));
    same_live = λ p. refl;
    grows = omega arith;
  }

  pub in_use : {m : Machine A X P} {h : Ptr} → Ready m h → h < m.next
  in_use {m} {h} r = ground (arith, r.alive, r.unused h)

  -- The machine after a call: the frame at c is the new one.
  module _ (m : Machine A X P) (h : Ptr) (b : Body A X) (k : Result A X → Body A X) where
    abbrev pub waiting_frames : Ptr → Frame A X P
    waiting_frames =
        let f = update m.frames m.next (new_frame pr b) in
        update f h (record (f h) { point = awaits m.next k })

    abbrev pub called : Machine A X P
    called = record {
      control = m.next;
      suspended = m.suspended;
      live = update m.live m.next true;
      frames = update waiting_frames m.next (record (waiting_frames m.next) { continuation = h });
      next = m.next + 1;
    }

    module _ (r : Ready m h) where
      pub called_child :
          called.frames m.next ≡ record { point = runs b; promise = pr.empty; continuation = h }
      called_child = ground (arith, in_use r)

      pub called_caller : called.frames h ≡ record (m.frames h) { point = awaits m.next k }
      called_caller = ground (arith, in_use r)

      pub called_others : (p : Ptr) → p < m.next → (p == h) ≡ false → called.frames p ≡ m.frames p
      called_others p old other = ground (arith, in_use r)

      pub called_lem : co_await_task pr h b k m ≡ called
      unfolding co_await_task create await_suspend
      called_lem = ground (arith, in_use r)

      pub called-Ready : Ready called m.next
      called-Ready = record {
        here = refl;
        idle = r.idle;
        empty = ap (λ f. f.promise) called_child;
        alive = update_here m.live m.next true;
        address = ground (arith, in_use r, r.address);
        unused = λ p new. ground (arith, r.unused p);
      }

      module _ {n : Machine A X P} {res : Result A X} (done : Returned called n m.next res) where
        -- The caller takes the result and goes on.
        abbrev pub resumed : Machine A X P
        resumed = destroy m.next (goto h (runs (k (pr.result (n.frames m.next).promise))) n)

        pub back_to : n.control ≡ h
        back_to = done.goes ∙ ap (λ f. f.continuation) called_child

        caller : n.frames h ≡ record (m.frames h) { point = awaits m.next k }
        caller = done.others h (ground (arith, in_use r)) (ground (arith, in_use r)) ∙ called_caller

        caller_alive : n.live h ≡ true
        caller_alive = done.same_live h ∙ ground (arith, r.alive)

        pub resumed_step : step pr n ≡ some resumed
        unfolding move
        resumed_step =
            step_at n back_to caller_alive (ap (λ f. f.point) caller)
              (rw (done.same_live m.next ∙ called-Ready.alive) refl)

        pub resumed-Ready : Ready resumed h
        resumed-Ready = record {
          here = back_to;
          idle = done.idle;
          empty =
              ap (λ f. f.promise) (update_here n.frames h _)
              ∙ (ap (λ f. f.promise) caller ∙ r.empty);
          alive = ground (arith, caller_alive, in_use r);
          address = r.address;
          unused = λ p new. ground (arith, done.same_live p, done.grows, r.unused p);
        }

        -- What the caller then comes to is what the call has come to.
        pub resumed-Returned :
            {n' : Machine A X P} {res' : Result A X}
            → Returned resumed n' h res'
            → Returned m n' h res'
        resumed-Returned {n'} end = record {
          goes =
              end.goes
              ∙ (ap (λ f. f.continuation) (update_here n.frames h _)
                  ∙ ap (λ f. f.continuation) caller);
          idle = end.idle;
          at_end = end.at_end;
          gives = end.gives;
          others = λ p old other.
              end.others p (ground (arith, done.grows)) other
              ∙ (update_there n.frames h p _ (ground (arith, other))
                  ∙ (done.others p (ground arith) (ground arith) ∙ called_others p old other));
          same_live = λ p. end.same_live p ∙ ground (arith, done.same_live p, r.unused m.next);
          grows = ground (arith, end.grows, done.grows);
        }
