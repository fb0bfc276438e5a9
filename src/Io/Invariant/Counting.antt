-- ===== src/Io/Invariant/Counting.antt =====
-- Where the operations stand, and how many there are.
use sheepcoro.Base.{
  ℕ, zero, suc, ◌+◌, ◌^◌, ◌≤◌, ◌≡◌, List, [], ◌∷◌, ◌++◌, arith, ◌==◌, if◌then◌else◌, length,
}
use sheepcoro.Awaiters.{Ptr}
use sheepcoro.Io.{IoInfo, callback_of, word_of, result_of}
use sheepcoro.Io.Ring.{Sqe, Cqe, Ring, take, drop}
use sheepcoro.Io.System.{Status, absent, pending, finished, System, outstanding}

-- How often an awaiter's address stands in the queues.
abbrev pub sqes : Ptr → List Sqe → ℕ
sqes a [] = 0
sqes a (e ∷ l) = (if a == e.user_data then 1 else 0) + sqes a l

abbrev pub cqes : Ptr → List Cqe → ℕ
cqes a [] = 0
cqes a (c ∷ l) = (if a == c.user_data then 1 else 0) + cqes a l

pub sqes-append : (a : Ptr) (l l' : List Sqe) → sqes a (l ++ l') ≡ sqes a l + sqes a l'
sqes-append a [] l' = omega arith
sqes-append a (e ∷ l) l' = omega (arith, sqes-append a l l')

pub cqes-append : (a : Ptr) (l l' : List Cqe) → cqes a (l ++ l') ≡ cqes a l + cqes a l'
cqes-append a [] l' = omega arith
cqes-append a (e ∷ l) l' = omega (arith, cqes-append a l l')

pub sqes-split : (a : Ptr) (n : ℕ) (l : List Sqe) → sqes a (take n l) + sqes a (drop n l) ≡ sqes a l
sqes-split a zero l = omega arith
sqes-split a (suc n) [] = omega arith
sqes-split a (suc n) (e ∷ l) = omega (arith, sqes-split a n l)

pub cqes-split : (a : Ptr) (n : ℕ) (l : List Cqe) → cqes a (take n l) + cqes a (drop n l) ≡ cqes a l
cqes-split a zero l = omega arith
cqes-split a (suc n) [] = omega arith
cqes-split a (suc n) (e ∷ l) = omega (arith, cqes-split a n l)

pub length-split {ℓ} :
    {A : Type ℓ} (n : ℕ) (l : List A) → length (take n l) + length (drop n l) ≡ length l
length-split zero l = omega arith
length-split (suc n) [] = omega arith
length-split (suc n) (e ∷ l) = omega (arith, length-split n l)

pub length-drop {ℓ} :
    {A : Type ℓ} (n : ℕ) (l : List A) → n ≤ length l → length (drop n l) + n ≡ length l
length-drop zero l h = omega arith
length-drop (suc n) [] h = absurd (omega arith)
length-drop (suc n) (e ∷ l) h = omega (arith, length-drop n l)

-- Where an awaiter's address stands, in all.
abbrev pub places : Ptr → Ring → ℕ
places a r = sqes a r.sq + sqes a r.inflight + cqes a r.cq + cqes a r.batch

abbrev pub counted : Ring → ℕ
counted r = r.num_io_wait_submit + r.num_io_running

abbrev pub pends : Status → ℕ
pends (pending _ _) = 1
pends _ = 0

-- The memory of an awaiter that is pending, or finished.
abbrev pub Written : IoInfo → Status → Type 0
Written i absent = Unit {0}
Written i (pending aw h) = (i.handle ≡ h) × (i.cb ≡ callback_of aw) × (word_of aw i.word ≡ i.word)
Written i (finished aw h word res) = i.result ≡ result_of (callback_of aw) (word_of aw word) res

pub record Inv (s : System) : Type 0 where
  pub one : (a : Ptr) → places a s.ring ≡ pends (s.status a)
  pub written : (a : Ptr) → Written (s.infos a) (s.status a)
  pub total : counted s.ring ≡ outstanding s.ring
  pub small : outstanding s.ring ≤ 2 ^ 62
  pub peeked : s.num ≤ s.num_io_running
