-- ===== src/CondVar/Count.antt =====
-- What one wait does to the count of waiting tasks of its context: m_suspend_state of
-- src/comp/condition_variable.cpp.
use sheepcoro.Base.{
  ℕ, ◌+◌, ◌%◌, ◌^◌, ◌≡◌, refl, Bool, true, false, List, [], ◌∷◌, ◌++◌, arith, if◌then◌else◌, ap,
  sym, ◌∙◌,
}
use mathlib.Core.List.{append-nil}
use sheepcoro.Awaiters.{
  Ptr, update, update_here, sub_size, Awaiters, add_size, register_wait, unregister_wait,
  submit_task,
}

pub record Waiter : Type 0 where
  pub suspend_state : Bool
  pub awaiters : Awaiters

abbrev pub to_count : Bool → ℕ
to_count true = 1
to_count false = 0

abbrev pub negated : Bool → ℕ
negated true = 0
negated false = 1

-- `register_wait(!m_suspend_state)`, and the assignment after it.
unfoldable pub register_once : Ptr → Waiter → Waiter
unfolding register_wait
register_once p w = record {
  suspend_state = true;
  awaiters = register_wait p (negated w.suspend_state) w.awaiters;
}

-- `cv_awaiter::resume`, where `fails` says that there is a predicate and it is false.
unfoldable pub resume : Ptr → (fails : Bool) → Waiter → Waiter
unfolding register_once submit_task
resume p true w = register_once p w
resume p false w = record w { awaiters = submit_task p w.awaiters }

-- `cv_awaiter::await_resume`
unfoldable pub await_resume : Ptr → Waiter → Waiter
unfolding unregister_wait
await_resume p w = record w { awaiters = unregister_wait p (to_count w.suspend_state) w.awaiters }

-- Between its suspension and its end a wait is woken in vain, or others change the count.
pub data Happening : Type 0 where
  fails : Happening
  others : (cnt : ℕ) → Happening

unfoldable pub happens : Ptr → List Happening → Waiter → Waiter
unfolding resume
happens p [] w = w
happens p (fails ∷ es) w = happens p es (resume p true w)
happens p (others cnt ∷ es) w =
    happens p es (record w { awaiters = register_wait p cnt w.awaiters })

-- The whole of a co_await: `ready` says that register_lock finds the predicate true, where the
-- coroutine does not suspend.
unfoldable pub wait : Ptr → (ready : Bool) → List Happening → Waiter → Waiter
unfolding happens await_resume
wait p true es w = await_resume p w
wait p false es w = await_resume p (resume p false (happens p es (register_once p w)))

abbrev pub of_others : List Happening → ℕ
of_others [] = 0
of_others (fails ∷ es) = of_others es
of_others (others cnt ∷ es) = cnt + of_others es

-- After a suspension only others change the count.
record Same (p : Ptr) (n : ℕ) (w w' : Waiter) : Type 0 where
  state : w'.suspend_state ≡ true
  ctx : w'.awaiters.ctx p ≡ w.awaiters.ctx p
  num :
      w'.awaiters.num_wait (w.awaiters.ctx p) % 2 ^ 64
      ≡ (w.awaiters.num_wait (w.awaiters.ctx p) + n) % 2 ^ 64
  submitted : w'.awaiters.submitted ≡ w.awaiters.submitted

wraps : (a cnt n : ℕ) → (add_size a cnt + n) % 2 ^ 64 ≡ (a + (cnt + n)) % 2 ^ 64
wraps a cnt n = omega arith

no_more : (a n : ℕ) → (a + (0 + n)) % 2 ^ 64 ≡ (a + n) % 2 ^ 64
no_more a n = omega arith

taken_off : (m a n : ℕ) → m % 2 ^ 64 ≡ (add_size a 1 + n) % 2 ^ 64 → sub_size m 1 ≡ (a + n) % 2 ^ 64
taken_off m a n e = omega (arith, e)

none_off : (a : ℕ) → sub_size a 0 ≡ (a + 0) % 2 ^ 64
none_off a = omega arith

counted :
    (num : ℕ → ℕ) (c cnt n : ℕ)
    → (update num c (add_size (num c) cnt) c + n) % 2 ^ 64 ≡ (num c + (cnt + n)) % 2 ^ 64
counted num c cnt n =
    ap (λ a. (a + n) % 2 ^ 64) (update_here num c (add_size (num c) cnt)) ∙ wraps (num c) cnt n

happens-Same :
    (p : Ptr) (es : List Happening) (w : Waiter)
    → w.suspend_state ≡ true
    → Same p (of_others es) w (happens p es w)
unfolding happens register_wait
happens-Same p [] w s = record { state = s; ctx = refl; num = omega arith; submitted = refl }
happens-Same p (fails ∷ es) w s =
    let num = w.awaiters.num_wait in
    let c = w.awaiters.ctx p in
    let more = happens-Same p es (resume p true w) refl in
    record {
      state = more.state;
      ctx = more.ctx;
      num =
          more.num
          ∙ (ap
                (λ (b : Bool).
                  (update num c (add_size (num c) (negated b)) c + of_others es) % 2 ^ 64)
                s
              ∙ (counted num c 0 (of_others es) ∙ no_more (num c) (of_others es)));
      submitted = more.submitted;
    }
happens-Same p (others cnt ∷ es) w s =
    let more = happens-Same p es (record w { awaiters = register_wait p cnt w.awaiters }) s in
    record {
      state = more.state;
      ctx = more.ctx;
      num = more.num ∙ counted w.awaiters.num_wait (w.awaiters.ctx p) cnt (of_others es);
      submitted = more.submitted;
    }

-- A whole wait, woken in vain any number of times and with any changes by others in between, leaves
-- the count of its context as it was but for those changes, and submits its coroutine once if it
-- has suspended and never otherwise.
pub wait_lem :
    (p : Ptr) (ready : Bool) (es : List Happening) (w : Waiter)
    → w.suspend_state ≡ false
    → ((wait p ready es w).awaiters.num_wait (w.awaiters.ctx p)
        ≡ (w.awaiters.num_wait (w.awaiters.ctx p) + (if ready then 0 else of_others es)) % 2 ^ 64)
      × ((wait p ready es w).awaiters.submitted
          ≡ w.awaiters.submitted ++ (if ready then [] else p ∷ []))
unfolding wait await_resume unregister_wait resume register_once register_wait submit_task
wait_lem p true es w s =
    let num = w.awaiters.num_wait in
    let c = w.awaiters.ctx p in
    (
      update_here num c _ ∙ (ap (λ b. sub_size (num c) (to_count b)) s ∙ none_off (num c)),
      sym (append-nil w.awaiters.submitted),
    )
wait_lem p false es w s =
    let num = w.awaiters.num_wait in
    let c = w.awaiters.ctx p in
    let more = happens-Same p es (register_once p w) refl in
    let n = (happens p es (register_once p w)).awaiters.num_wait in
    (
      rw (more.ctx, more.state)
          (update_here n c _
            ∙ taken_off (n c) (num c) (of_others es) (
                more.num
                ∙ (ap (λ a. (a + of_others es) % 2 ^ 64) (update_here num c _)
                    ∙ ap (λ b. (add_size (num c) (negated b) + of_others es) % 2 ^ 64) s))),
      ap (λ l. l ++ p ∷ []) more.submitted,
    )
