-- ===== src/Task/Invariant.antt =====
-- The invariant of tasks and frames, and that every step keeps it.
use sheepcoro.Base.{◌+◌, ◌≡◌, ◌≢◌, refl, true, false, arith, if◌then◌else◌}
use sheepcoro.Awaiters.{Ptr, null}
use sheepcoro.Task.{
  Handle, is_detach, construct, handle_of, Heap, get_return_object, move_construct, move_assign,
  destroy, destruct, detach_task, release, clean,
}
use sheepcoro.Task.System.{
  Step, creates, adopts, constructs, assigns, destroys, destructs, detaches, releases, finishes,
  cleans, Reach, start, later,
}

pub record Inv (s : Heap) : Type 0 where
  pub owns : (t : Ptr) → s.coroutine t ≢ null → s.live (s.coroutine t) ≡ true
  pub attached : (t : Ptr) → s.coroutine t ≢ null → is_detach (s.state (s.coroutine t)) ≡ false
  pub apart : (t u : Ptr) → s.coroutine t ≢ null → s.coroutine t ≡ s.coroutine u → t ≡ u
  pub times : (h : Handle) → s.created h ≡ s.destroyed h + (if s.live h then 1 else 0)

Step-Inv : {s s' : Heap} → Inv s → Step s s' → Inv s'
unfolding construct handle_of get_return_object move_construct move_assign destroy destruct
    detach_task release clean
Step-Inv inv (creates t h ne at dead) = record {
  owns = λ u n. ground (arith, inv.owns u);
  attached = λ u n. ground (arith, inv.attached u, inv.owns u);
  apart = λ u v n e. ground (arith, inv.apart u v, inv.owns u, inv.owns v);
  times = λ j. ground (arith, inv.times j);
}
Step-Inv inv (adopts t h at alive kept none_has) = record {
  owns = λ u n. ground (arith, inv.owns u, alive);
  attached = λ u n. ground (arith, inv.attached u, kept);
  apart = λ u v n e. ground (arith, inv.apart u v, none_has u, none_has v);
  times = λ j. ground (arith, inv.times j);
}
Step-Inv inv (constructs t other at ne) = record {
  owns = λ u n. ground (arith, inv.owns u, inv.owns other);
  attached = λ u n. ground (arith, inv.attached u, inv.attached other);
  apart = λ u v n e. ground (arith, inv.apart u v, inv.apart other v, inv.apart u other);
  times = λ j. ground (arith, inv.times j);
}
Step-Inv {s} inv (assigns t other) = record {
  owns = λ u n. ground (arith, inv.owns u, inv.owns other, inv.apart t u, inv.apart t other);
  attached = λ u n. ground (arith, inv.attached u, inv.attached other);
  apart = λ u v n e. ground (arith, inv.apart u v, inv.apart other v, inv.apart u other);
  times = λ j. ground (arith, inv.times j, inv.owns t);
}
Step-Inv inv (destroys t b s' e) = record {
  owns = λ u n. ground (arith, inv.owns u, inv.apart t u);
  attached = λ u n. ground (arith, inv.attached u);
  apart = λ u v n q. ground (arith, inv.apart u v);
  times = λ j. ground (arith, inv.times j, inv.owns t);
}
Step-Inv inv (destructs t) = record {
  owns = λ u n. ground (arith, inv.owns u, inv.apart t u);
  attached = λ u n. ground (arith, inv.attached u);
  apart = λ u v n q. ground (arith, inv.apart u v);
  times = λ j. ground (arith, inv.times j, inv.owns t);
}
Step-Inv inv (detaches t s' e) = record {
  owns = λ u n. ground (arith, inv.owns u);
  attached = λ u n. ground (arith, inv.attached u, inv.apart t u);
  apart = λ u v n q. ground (arith, inv.apart u v);
  times = λ j. ground (arith, inv.times j);
}
Step-Inv inv (releases t h s' e) = record {
  owns = λ u n. ground (arith, inv.owns u);
  attached = λ u n. ground (arith, inv.attached u);
  apart = λ u v n q. ground (arith, inv.apart u v);
  times = λ j. ground (arith, inv.times j);
}
Step-Inv inv (finishes h alive) = record {
  owns = inv.owns;
  attached = inv.attached;
  apart = inv.apart;
  times = inv.times;
}
Step-Inv inv (cleans h alive) = record {
  owns = λ u n. ground (arith, inv.owns u, inv.attached u);
  attached = λ u n. ground (arith, inv.attached u);
  apart = λ u v n q. ground (arith, inv.apart u v);
  times = λ j. ground (arith, inv.times j);
}

pub Reach-Inv : {s : Heap} → Reach s → Inv s
Reach-Inv start = record {
  owns = λ t n. absurd (n refl);
  attached = λ t n. absurd (n refl);
  apart = λ t u n. absurd (n refl);
  times = λ h. refl;
}
Reach-Inv (later r st) = Step-Inv (Reach-Inv r) st
