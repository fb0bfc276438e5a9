-- ===== src/Event/Late.antt =====
-- A coroutine is past the set only where the event is set.
use sheepcoro.Base.{◌≡◌, ap, Bool, true, false, none, some, arith, ◌==◌, ◌⊎◌, Bool-cases, inl, inr}
use sheepcoro.Awaiters.{Ptr, update}
use sheepcoro.Event.{
  this, Event, await_ready, await_resume, register_load, register_cas, set_exchange,
}
use sheepcoro.Event.System.{
  Pc, ready, woken, finished, walking, advancing, System, Step, ready_test, load_set, load, cas,
  spurious, resume_ready, resume_woken, set, walk_end, walk, advance, reuses,
}
use sheepcoro.Event.Invariant.{registers}
use sheepcoro.Event.Linked.{IsLinked}
use sheepcoro.Event.Valued.{setter_of, resumer_of}

-- Past the point at which the event has been set.
abbrev pub late : Pc → Bool
late ready = true
late woken = true
late (walking _) = true
late (advancing _) = true
late (finished _) = true
late _ = false

-- An event that is set stays set, and is so where a coroutine is past that point.
pub record IsLate (s t : System) : Type 0 where
  pub stays : s.state ≡ this → t.state ≡ this
  pub lates :
      ((j : Ptr) → late (s.pc j) ≡ true → s.state ≡ this)
      → (j : Ptr) → late (t.pc j) ≡ true
      → t.state ≡ this

late_moved :
    (pc : Ptr → Pc) (i : Ptr) (p : Pc) (j : Ptr)
    → late (update pc i p j) ≡ true
    → (late p ≡ true) ⊎ (late (pc j) ≡ true)
late_moved pc i p j h = elim (Bool-cases (i == j)) [
  | inl y ↦ inl (rw y at h)
  | inr y ↦ inr (rw y at h)
]

moved-IsLate :
    {s : System} (i : Ptr) (p : Pc) (e : Event)
    → (s.state ≡ this → e.state ≡ this)
    → (((j : Ptr) → late (s.pc j) ≡ true → s.state ≡ this) → late p ≡ true → e.state ≡ this)
    → IsLate s (record { event = e; pc = update s.pc i p })
moved-IsLate {s} i p e stays new = record {
  stays = stays;
  lates = λ f j h. elim (late_moved s.pc i p j h) [ inl x ↦ new f x | inr x ↦ stays (f j x) ];
}

pub Step-IsLate : {s t : System} → IsLinked s → Step s t → IsLate s t
unfolding await_ready await_resume register_load register_cas set_exchange
Step-IsLate l (ready_test i b e _ at y) =
    moved-IsLate i _ e (λ h. ground (arith, h, y)) (λ f h. ground (arith, h, y))
Step-IsLate l (load_set i e at y) =
    moved-IsLate i _ e (λ h. ground (arith, h, y)) (λ f h. ground (arith, y))
Step-IsLate l (load i v e at y) =
    moved-IsLate i _ e (λ h. ground (arith, h, y)) (λ f h. absurd (ground (arith, h)))
Step-IsLate l (cas i {v} b e at y) =
    moved-IsLate i _ e (λ h. ground (arith, h, y, (l.inv.tried i v at).1))
      (λ f h. absurd (ground (arith, h)))
Step-IsLate {s} l (spurious i at) =
    moved-IsLate i _ s.event (λ h. h) (λ f h. absurd (ground (arith, h)))
Step-IsLate {s} l (resume_ready i at) = moved-IsLate i _ _ (λ h. h) (λ f h. f i (ap late at))
Step-IsLate {s} l (resume_woken i at) = moved-IsLate i _ _ (λ h. h) (λ f h. f i (ap late at))
Step-IsLate l (set k flag e at y) =
    moved-IsLate k _ e (λ h. ground (arith, y)) (λ f h. ground (arith, y))
Step-IsLate {s} l (walk_end k at) =
    moved-IsLate k _ s.event (λ h. h) (λ f h. absurd (ground (arith, h)))
Step-IsLate l (walk k at ne) = record { stays = λ h. h; lates = λ f j h. f k (ap late at) }
Step-IsLate {s} l (advance k at) = moved-IsLate k _ s.event (λ h. h) (λ f h. f k (ap late at))
Step-IsLate l (reuses i v at none_reads) = record { stays = λ h. h; lates = λ f j h. f j h }

-- Only set_state sets the event.
pub Step-unset :
    {s t : System}
    → IsLinked s
    → (e : Step s t) → setter_of e ≡ none
    → t.state ≡ this
    → s.state ≡ this
unfolding await_ready await_resume register_load register_cas
Step-unset l (ready_test i b e _ at y) n h = ground (arith, h, y)
Step-unset l (load_set i e at y) n h = ground (arith, h, y)
Step-unset l (load i v e at y) n h = ground (arith, h, y)
Step-unset l (cas i {v} b e at y) n h = ground (arith, h, y, l.inv.address i (ap registers at))
Step-unset l (spurious i at) n h = h
Step-unset l (resume_ready i at) n h = h
Step-unset l (resume_woken i at) n h = h
Step-unset l (set k flag e at y) n h = absurd (ground (arith, n))
Step-unset l (walk_end k at) n h = h
Step-unset l (walk k at ne) n h = h
Step-unset l (advance k at) n h = h
Step-unset l (reuses i v at none_reads) n h = h

-- A coroutine at await_resume is past that point.
pub resumer-late :
    {s t : System} (i : Ptr) (e : Step s t) → resumer_of e ≡ some i → late (s.pc i) ≡ true
resumer-late i (resume_ready j at) y =
    let same : j ≡ i = ground (arith, y) in ap late (rw same at at)
resumer-late i (resume_woken j at) y =
    let same : j ≡ i = ground (arith, y) in ap late (rw same at at)
resumer-late i (ready_test _ _ _ _ _ _) y = absurd (ground (arith, y))
resumer-late i (load_set _ _ _ _) y = absurd (ground (arith, y))
resumer-late i (load _ _ _ _ _) y = absurd (ground (arith, y))
resumer-late i (cas _ _ _ _ _) y = absurd (ground (arith, y))
resumer-late i (spurious _ _) y = absurd (ground (arith, y))
resumer-late i (set _ _ _ _ _) y = absurd (ground (arith, y))
resumer-late i (walk_end _ _) y = absurd (ground (arith, y))
resumer-late i (walk _ _ _) y = absurd (ground (arith, y))
resumer-late i (advance _ _) y = absurd (ground (arith, y))
resumer-late i (reuses _ _ _ _) y = absurd (ground (arith, y))

-- set_state sets the event.
pub Step-set : {s t : System} (k : Ptr) (e : Step s t) → setter_of e ≡ some k → t.state ≡ this
unfolding set_exchange
Step-set k (set j flag e at y) n = ground (arith, y)
Step-set k (ready_test _ _ _ _ _ _) n = absurd (ground (arith, n))
Step-set k (load_set _ _ _ _) n = absurd (ground (arith, n))
Step-set k (load _ _ _ _ _) n = absurd (ground (arith, n))
Step-set k (cas _ _ _ _ _) n = absurd (ground (arith, n))
Step-set k (spurious _ _) n = absurd (ground (arith, n))
Step-set k (resume_ready _ _) n = absurd (ground (arith, n))
Step-set k (resume_woken _ _) n = absurd (ground (arith, n))
Step-set k (walk_end _ _) n = absurd (ground (arith, n))
Step-set k (walk _ _ _) n = absurd (ground (arith, n))
Step-set k (advance _ _) n = absurd (ground (arith, n))
Step-set k (reuses _ _ _ _) n = absurd (ground (arith, n))
