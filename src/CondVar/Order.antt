-- ===== src/CondVar/Order.antt =====
-- The order in which a condition variable wakes its waiters.
use sheepcoro.Base.{◌≤◌, ◌≡◌, refl, ap, ap₂, List, [], ◌∷◌, ◌++◌, count}
use sheepcoro.Awaiters.{Ptr, null}
use sheepcoro.CondVar.{CondVar, register_cv, pop_head}
use sheepcoro.CondVar.List.{IsList, register_cv_lem, pop_head_lem, pop_empty}

pub data Call : Type 0 where
  registers : Ptr → Call
  notifies : Call

-- What each notify_one takes off, null where nobody waits.
unfoldable pub run : List Call → CondVar → List Ptr
run [] c = []
run (registers p ∷ cs) c = run cs (register_cv p c)
run (notifies ∷ cs) c = let (x, c') = pop_head c in x ∷ run cs c'

-- A queue, the longest waiter first.
abbrev pub first : List Ptr → Ptr
first [] = null
first (x ∷ w) = x

abbrev pub rest : List Ptr → List Ptr
rest [] = []
rest (x ∷ w) = w

unfoldable pub run_fifo : List Call → List Ptr → List Ptr
run_fifo [] w = []
run_fifo (registers p ∷ cs) w = run_fifo cs (w ++ p ∷ [])
run_fifo (notifies ∷ cs) w = first w ∷ run_fifo cs (rest w)

-- Nobody registers who waits already.
abbrev pub Fits : List Call → List Ptr → Type 0
Fits [] w = Unit {0}
Fits (registers p ∷ cs) w = (2 ≤ p) × (count p w ≡ 0) × Fits cs (w ++ p ∷ [])
Fits (notifies ∷ cs) w = Fits cs (rest w)

-- From a valid list, whatever registers and is notified in whatever order, as long as nobody
-- registers who waits already, is woken as by a first-in first-out queue.
pub notify_order :
    (cs : List Call) (w : List Ptr) (c : CondVar)
    → IsList w c
    → Fits cs w
    → run cs c ≡ run_fifo cs w
unfolding run run_fifo
notify_order [] w c i f = refl
notify_order (registers p ∷ cs) w c i (small, out, f) =
    notify_order cs (w ++ p ∷ []) (register_cv p c) (register_cv_lem p w c small out i) f
notify_order (notifies ∷ cs) [] c i f =
    rw (pop_empty c i) (ap (λ l. null ∷ l) (notify_order cs [] c i f))
notify_order (notifies ∷ cs) (x ∷ w) c i f =
    let (at, i') = pop_head_lem x w c i in
    ap₂ (λ (y : Ptr) l. y ∷ l) at (notify_order cs w (pop_head c).1 i' f)
