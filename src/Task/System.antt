-- ===== src/Task/System.antt =====
-- Task objects and frames: each step is one call of include/coro/task.hpp, or a coroutine that
-- comes to its end.
use sheepcoro.Base.{◌≡◌, ◌≢◌, Bool, true, false, some}
use sheepcoro.Awaiters.{Ptr, null, update}
use sheepcoro.Task.{
  Handle, normal, is_detach, construct, handle_of, Heap, get_return_object, move_construct,
  move_assign, destroy, destruct, detach_task, release, clean,
}

pub data Step (s : Heap) : Heap → Type 0 where
  creates :
      (t : Ptr) (h : Handle)
      → h ≢ null
      → s.coroutine t ≡ null
      → s.live h ≡ false
      → Step s (get_return_object t h s)
  -- code outside task.hpp gives the constructor a handle of an attached frame that no task has, as
  -- one that `handle() &&` took; `handle() &` changes nothing and is no step
  adopts :
      (t : Ptr) (h : Handle)
      → s.coroutine t ≡ null
      → s.live h ≡ true
      → is_detach (s.state h) ≡ false
      → ((u : Ptr) → handle_of u s ≢ h)
      → Step s (construct t h s)
  constructs :
      (t other : Ptr) → s.coroutine t ≡ null → t ≢ other → Step s (move_construct t other s)
  assigns : (t other : Ptr) → Step s (move_assign t other s)
  destroys : (t : Ptr) (b : Bool) (s' : Heap) → destroy t s ≡ (b, s') → Step s s'
  destructs : (t : Ptr) → Step s (destruct t s)
  detaches : (t : Ptr) (s' : Heap) → detach_task t s ≡ some s' → Step s s'
  releases : (t : Ptr) (h : Handle) (s' : Heap) → release t s ≡ (h, s') → Step s s'
  finishes : (h : Handle) → s.live h ≡ true → Step s (record s { done = update s.done h true })
  -- for any frame that exists, done or not: `clean` reads the promise in it
  cleans : (h : Handle) → s.live h ≡ true → Step s (clean h s)

pub data Reach : Heap → Type 0 where
  start : Reach (record {
    live = λ _. false;
    done = λ _. false;
    state = λ _. normal;
    created = λ _. 0;
    destroyed = λ _. 0;
    coroutine = λ _. null;
  })
  later : {s t : Heap} → Reach s → Step s t → Reach t
