-- ===== src/Event/Linked.antt =====
-- Every step of a system over one event keeps the invariant, so every reachable state has it.
use sheepcoro.Base.{
  ◌≡◌, ◌≢◌, refl, ◌∙◌, true, false, Bool, Option, none, List, [], ◌∷◌, arith, Bool-cases, inl, inr,
  if◌then◌else◌, ◌==◌,
}
use sheepcoro.Awaiters.{Ptr, null, Awaiters, submit_task, update}
use sheepcoro.Event.{this, Event, event_base, set_exchange}
use sheepcoro.Event.System.{
  System, idle, Step, ready_test, load_set, load, cas, spurious, resume_ready, resume_woken, set,
  walk_end, walk, advance, reuses, Reach, start, later, walking, advancing, woken,
}
use sheepcoro.Event.Invariant.{
  Inv, ready_test-Inv, load_set-Inv, load-Inv, cas_lose-Inv, cas_win-Inv, spurious-Inv,
  resume_ready-Inv, resume_woken-Inv, set_again-Inv, set_first-Inv, walk_end-Inv, advance-Inv,
  walk-Inv, reuses-Inv,
}

-- The lists and the setter that a state has.
pub record IsLinked (s : System) : Type 0 where
  pub setter : Option Ptr
  pub head : Ptr
  pub waiting : List Ptr
  pub inv : Inv setter head waiting s

abbrev linked : {o : Option Ptr} {p : Ptr} {w : List Ptr} {s : System} → Inv o p w s → IsLinked s
linked {o} {p} {w} inv = record { setter = o; head = p; waiting = w; inv = inv }

walk-IsLinked :
    {o : Option Ptr} {p : Ptr} (w : List Ptr) {s : System}
    → Inv o p w s
    → (k : Ptr) {c : Ptr} → s.pc k ≡ walking c
    → c ≢ null
    → IsLinked (record {
      event = record s.event { awaiters = submit_task c s.awaiters };
      pc = update (update s.pc k (advancing c)) c woken;
    })
walk-IsLinked [] inv k {c} at ne = absurd (ne (inv.cursor k c at ∙ inv.chain))
walk-IsLinked (x ∷ w) {s} inv k {c} at ne =
    let e : c ≡ x = inv.cursor k c at ∙ inv.chain.0 in rw e (linked (walk-Inv inv k (rw e at at)))

set-IsLinked :
    {o : Option Ptr} {p : Ptr} {w : List Ptr} {s : System}
    → Inv o p w s
    → (k flag : Ptr) (e : Event) → s.pc k ≡ idle
    → set_exchange s.event ≡ (flag, e)
    → IsLinked
        (record { event = e; pc = update s.pc k (if flag == this then idle else walking flag) })
set-IsLinked inv k flag e at ret = elim (Bool-cases (flag == this)) [
  | inl h ↦ rw h (linked (set_again-Inv inv k flag e at ret (ground arith)))
  | inr h ↦ rw h (linked (set_first-Inv inv k flag e at ret (ground arith)))
]

-- Every step keeps the lists.
Step-IsLinked : {s t : System} → Step s t → IsLinked s → IsLinked t
Step-IsLinked (ready_test i b e h at ret) l = linked (ready_test-Inv l.inv i b e h at ret)
Step-IsLinked (load_set i e at ret) l = linked (load_set-Inv l.inv i e at ret)
Step-IsLinked (load i v e at ret) l = linked (load-Inv l.inv i v e at ret)
Step-IsLinked (cas i true e at ret) l = linked (cas_win-Inv l.inv i e at ret)
Step-IsLinked (cas i false e at ret) l = linked (cas_lose-Inv l.inv i e at ret)
Step-IsLinked (spurious i at) l = linked (spurious-Inv l.inv i at)
Step-IsLinked (resume_ready i at) l = linked (resume_ready-Inv l.inv i at)
Step-IsLinked (resume_woken i at) l = linked (resume_woken-Inv l.inv i at)
Step-IsLinked (set k flag e at ret) l = set-IsLinked l.inv k flag e at ret
Step-IsLinked (walk_end k at) l = linked (walk_end-Inv l.inv k at)
Step-IsLinked (walk k at ne) l = walk-IsLinked l.waiting l.inv k at ne
Step-IsLinked (advance k at) l = linked (advance-Inv l.inv k at)
Step-IsLinked (reuses i v at none_reads) l = linked (reuses-Inv l.inv i v at none_reads)

start-IsLinked :
    (b : Bool) (h : Awaiters)
    → IsLinked (record { event = event_base b (record h { submitted = [] }); pc = λ _. idle })
start-IsLinked b h = record {
  setter = none;
  head = null;
  waiting = [];
  inv = record {
    chain = refl;
    unset = λ p. ground arith;
    done = λ p q. refl;
    sleepers = λ j. refl;
    walker = λ j. refl;
    cursor = λ j c p. cc;
    behind = λ j c p. cc;
    passed = λ j c p. cc;
    tried = λ j v p. cc;
    address = λ j p. cc;
    once = λ j. refl;
  };
}

pub Reach-IsLinked : {b : Bool} {h : Awaiters} {s : System} → Reach b h s → IsLinked s
Reach-IsLinked {b} {h} start = start-IsLinked b h
Reach-IsLinked (later r st) = Step-IsLinked st (Reach-IsLinked r)
