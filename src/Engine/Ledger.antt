-- ===== src/Engine/Ledger.antt =====
-- Every handle given to the engine of src/engine.cpp is accounted for, whatever the coroutines do
-- while they run.
use sheepcoro.Base.{
  ℕ, ◌+◌, ◌≤◌, ◌≡◌, refl, true, false, Option, some, List, [], ◌∷◌, ◌++◌, arith, length, count,
  count-append, length-append, Bool-cases, inl, inr,
}
use sheepcoro.Engine.{
  Handle, TaskQueue, IsTaskQueue, Action, submits, adds_io, Program, Engine, add_io_submit, wake_up,
  perform, clean, exec_with, discard, push_task,
}

module _ {q : TaskQueue} (law : IsTaskQueue q) (p : Program) where
  -- The recursion is d deep, at least m tasks are queued, r operations are running, and of each
  -- handle the submissions are what is queued, was resumed, was discarded, or is owed now.
  pub record IsSettled (owed : List Handle) (d m r : ℕ) (e : Engine q p) : Type 0 where
    pub depth : e.recursive_depth ≡ d
    pub queued : m ≤ length (law.contents e.task_queue)
    pub running : e.num_io_running ≡ r
    pub tally :
        (j : Handle)
        → count j e.submitted
          ≡ count j (law.contents e.task_queue)
            + count j e.resumed
            + count j e.discarded
            + count j owed

  abbrev pub Settles : Option (Engine q p) → (d m r : ℕ) → Type 0
  Settles o d m r = (e : Engine q p) × (o ≡ some e) × IsSettled [] d m r e

  add_io_submit-IsSettled :
      {w : List Handle} {d m r : ℕ} {e : Engine q p}
      → IsSettled w d m r e
      → IsSettled w d m r (add_io_submit q p e)
  unfolding add_io_submit
  add_io_submit-IsSettled i = record {
    depth = i.depth;
    queued = i.queued;
    running = i.running;
    tally = i.tally;
  }

  -- If every submission returns and keeps the account, so do the actions of a coroutine.
  pub perform_lem :
      (submit : Handle → Engine q p → Option (Engine q p)) (d m r : ℕ)
      → ((h : Handle) (e : Engine q p) → IsSettled [] d m r e → Settles (submit h e) d m r)
      → (acts : List Action) (e : Engine q p) → IsSettled [] d m r e
      → Settles (perform q p submit acts e) d m r
  unfolding perform
  perform_lem submit d m r step [] e i = (e, refl, i)
  perform_lem submit d m r step (submits h ∷ acts) e i =
      let (e', ran, i') = step h e i in
      let (e'', rest, i'') = perform_lem submit d m r step acts e' i' in
      (e'', rw (perform, ran) rest, i'')
  perform_lem submit d m r step (adds_io ∷ acts) e i =
      perform_lem submit d m r step acts (add_io_submit q p e) (add_io_submit-IsSettled i)

  clean-IsSettled :
      (h : Handle) {d m r : ℕ} (e : Engine q p)
      → IsSettled [] d m r e
      → IsSettled [] d m r (clean q p h e)
  unfolding clean
  clean-IsSettled h e i = record {
    depth = ground (arith, i.depth);
    queued = ground (arith, i.queued);
    running = ground (arith, i.running);
    tally = λ j. ground (arith, i.tally j);
  }

  -- So does running a coroutine that is owed.
  pub exec_with_lem :
      (submit : Handle → Engine q p → Option (Engine q p)) (d m r : ℕ)
      → ((h : Handle) (e : Engine q p) → IsSettled [] d m r e → Settles (submit h e) d m r)
      → (h : Handle) (e : Engine q p) → IsSettled (h ∷ []) d m r e
      → Settles (exec_with q p submit h e) d m r
  unfolding exec_with
  exec_with_lem submit d m r step h e i =
      let (e', ran, i') = perform_lem submit d m r step acts started started-IsSettled in
      elim (Bool-cases (p.resume h e.coroutines).1) [
        | inl y ↦ (clean q p h e', rw (exec_with, ran, y) refl, clean-IsSettled h e' i')
        | inr y ↦ (e', rw (exec_with, ran, y) refl, i')
      ]
    where
      acts : List Action
      acts = (p.resume h e.coroutines).0

      started : Engine q p
      started = record e { coroutines = (p.resume h e.coroutines).2; resumed = e.resumed ++ h ∷ [] }

      started-IsSettled : IsSettled [] d m r started
      started-IsSettled = record {
        depth = i.depth;
        queued = i.queued;
        running = i.running;
        tally = λ j. ground (arith, i.tally j, count-append j e.resumed (h ∷ []));
      }

  pub pushed-IsSettled :
      {d m r : ℕ} (h : Handle) (e e' : Engine q p)
      → IsSettled [] d m r e
      → push_task q p h e ≡ (true, e')
      → IsSettled [] d m r e'
  unfolding push_task wake_up
  pushed-IsSettled h e e' i ran =
      let more = law.pushed h e.task_queue e'.task_queue (ground arith) in
      record {
        depth = ground (arith, i.depth);
        queued = ground (arith, i.queued, more, length-append (law.contents e.task_queue) (h ∷ []));
        running = ground (arith, i.running);
        tally = λ j. ground (
          arith,
          i.tally j,
          more,
          count-append j (law.contents e.task_queue) (h ∷ []),
          count-append j e.submitted (h ∷ []),
        );
      }

  pub refused-IsSettled :
      {d m r : ℕ} (h : Handle) (e e' : Engine q p)
      → IsSettled [] d m r e
      → push_task q p h e ≡ (false, e')
      → IsSettled (h ∷ []) d m r e'
  unfolding push_task wake_up
  refused-IsSettled h e e' i ran =
      let same = law.refused h e.task_queue e'.task_queue (ground arith) in
      record {
        depth = ground (arith, i.depth);
        queued = ground (arith, i.queued, same);
        running = ground (arith, i.running);
        tally = λ j. ground (arith, i.tally j, same, count-append j e.submitted (h ∷ []));
      }

  pub discard-IsSettled :
      {d m r : ℕ} (h : Handle) (e : Engine q p)
      → IsSettled (h ∷ []) d m r e
      → IsSettled [] d m r (discard q p h e)
  discard-IsSettled h e i = record {
    depth = i.depth;
    queued = i.queued;
    running = i.running;
    tally = λ j. ground (arith, i.tally j, count-append j e.discarded (h ∷ []));
  }
