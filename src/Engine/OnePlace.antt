-- ===== src/Engine/OnePlace.antt =====
-- The simplest queue that does what an engine relies on, for runs.
use sheepcoro.Base.{
  ◌≡◌, refl, true, false, Option, none, some, List, [], ◌∷◌, ◌++◌, arith, ltb, ◌==◌, if◌then◌else◌,
  length,
}
use sheepcoro.Engine.{Handle, TaskQueue, IsTaskQueue}

-- A queue with room for one handle.
abbrev pub pop_front : List Handle → Option (Handle × List Handle)
pop_front [] = none
pop_front (h ∷ hs) = some (h, hs)

abbrev pub one_place : TaskQueue
one_place = record {
  State = List Handle;
  try_push = λ h t. if ltb (length t) 1 then (true, t ++ h ∷ []) else (false, t);
  pop = pop_front;
  was_size = length;
  was_empty = λ t. length t == 0;
}

pub pushed_last :
    (h : Handle) (t t' : List Handle) → one_place.try_push h t ≡ (true, t') → t' ≡ t ++ h ∷ []
pushed_last h t t' e = ground (arith, e)

pub refused_same : (h : Handle) (t t' : List Handle) → one_place.try_push h t ≡ (false, t') → t' ≡ t
refused_same h t t' e = ground (arith, e)

unfoldable pub one_place-IsTaskQueue : IsTaskQueue one_place
one_place-IsTaskQueue = record {
  contents = λ t. t;
  pushed = pushed_last;
  refused = refused_same;
  popped = λ t h hs e. (hs, rw e refl, refl);
  size = λ t. refl;
  empty = λ t. refl;
}
