-- ===== src/CondVar/List.antt =====
-- The linked list of a condition variable as a list of awaiters.
use sheepcoro.Base.{
  ℕ, zero, suc, ◌≤◌, ◌≡◌, ◌≢◌, refl, sym, ap, subst, some, List, [], ◌∷◌, ◌++◌, arith, length,
  count, count-append,
}
use sheepcoro.Awaiters.{Ptr, null, update}
use sheepcoro.Awaiters.Chain.{Chain}
use sheepcoro.CondVar.{CondVar, register_cv, pop_head, take_all, wake_each}

-- The last awaiter of a list, or null.
abbrev pub last : List Ptr → Ptr
last [] = null
last (x ∷ []) = x
last (x ∷ y ∷ w) = last (y ∷ w)

-- The list w, in the order of registration; no awaiter stands in it twice.
pub record IsList (w : List Ptr) (c : CondVar) : Type 0 where
  pub chain : Chain c.next c.head w
  pub ends : c.tail ≡ last w
  pub once : (j : Ptr) → count j w ≤ 1

last_address : (next : Ptr → Ptr) (p : Ptr) (w : List Ptr) → Chain next p w → w ≢ [] → 2 ≤ last w
last_address next p [] c ne = absurd (ne refl)
last_address next p (x ∷ []) c ne = ground arith
last_address next p (x ∷ y ∷ w) c ne = last_address next (next x) (y ∷ w) c.2 (λ e. cc)

count-last : (x : Ptr) (w : List Ptr) → 1 ≤ count (last (x ∷ w)) (x ∷ w)
count-last x [] = ground arith
count-last x (y ∷ w) = ground (arith, count-last y w)

last-append : (w : List Ptr) (p : Ptr) → last (w ++ p ∷ []) ≡ p
last-append [] p = refl
last-append (x ∷ []) p = refl
last-append (x ∷ y ∷ w) p = last-append (y ∷ w) p

-- Linking p behind the last awaiter.
Chain-append :
    (next : Ptr → Ptr) (q p : Ptr) (x : Ptr) (w : List Ptr)
    → 2 ≤ p
    → Chain next q (x ∷ w)
    → ((j : Ptr) → count j (x ∷ w) ≤ 1)
    → count p (x ∷ w) ≡ 0
    → Chain (update (update next p null) (last (x ∷ w)) p) q (x ∷ w ++ p ∷ [])
Chain-append next q p x [] small c once out = ground arith
Chain-append next q p x (y ∷ w) small c once out =
    let rest =
      Chain-append next (next x) p y w small c.2 (λ j. ground (arith, once j)) (ground arith) in
    let apart : last (y ∷ w) ≢ x =
      λ e. ground (arith, once x, count-last y w, ap (λ j. count j (y ∷ w)) e) in
    (c.0, c.1, subst (λ q. Chain links q (y ∷ w ++ p ∷ [])) (ground arith) rest)
  where
    links : Ptr → Ptr
    links = update (update next p null) (last (y ∷ w)) p

-- Registering appends.
pub register_cv_lem :
    (p : Ptr) (w : List Ptr) (c : CondVar)
    → 2 ≤ p
    → count p w ≡ 0
    → IsList w c
    → IsList (w ++ p ∷ []) (register_cv p c)
unfolding register_cv
register_cv_lem p [] c small out i = record {
  chain = ground (arith, i.ends);
  ends = ground (arith, i.ends);
  once = λ j. ground arith;
}
register_cv_lem p (x ∷ w) c small out i = rw linked (record {
  chain = Chain-append c.next c.head p x w small i.chain i.once out;
  ends = sym (last-append (x ∷ w) p);
  once = λ j. ground (arith, i.once j, out, count-append j (x ∷ w) (p ∷ []));
})
  where
    linked :
        register_cv p c
        ≡ record { head = c.head; tail = p; next = update (update c.next p null) (last (x ∷ w)) p }
    linked = ground (arith, i.ends, last_address c.next c.head (x ∷ w) i.chain (λ e. cc))

-- notify_one takes the first awaiter.
pub pop_head_lem :
    (x : Ptr) (w : List Ptr) (c : CondVar)
    → IsList (x ∷ w) c
    → ((pop_head c).0 ≡ x) × IsList w (pop_head c).1
unfolding pop_head
pop_head_lem x [] c i = (
  ground (arith, i.chain),
  record {
    chain = ground (arith, i.chain);
    ends = ground (arith, i.chain, i.ends);
    once = λ j. ground (arith, i.once j);
  },
)
pop_head_lem x (y ∷ w) c i = (
  ground (arith, i.chain),
  record {
    chain = ground (arith, i.chain);
    ends = ground (arith, i.chain, i.ends);
    once = λ j. ground (arith, i.once j);
  },
)

pub pop_empty : (c : CondVar) → IsList [] c → pop_head c ≡ (null, c)
unfolding pop_head
pop_empty c i = ground (arith, i.chain)

-- notify_all takes the whole list.
pub take_all_lem :
    (w : List Ptr) (c : CondVar)
    → IsList w c
    → Chain c.next (take_all c).0 w × IsList [] (take_all c).1
unfolding take_all
take_all_lem w c i = (i.chain, record { chain = refl; ends = refl; once = λ j. omega arith })

-- Waking the awaiters of a list, one after the other.
unfoldable pub wake_list : {S : Type 0} → (Ptr → S → S) → List Ptr → S → S
wake_list wake [] s = s
wake_list wake (x ∷ w) s = wake_list wake w (wake x s)

-- Where waking an awaiter leaves the rest of the list alone, the walk of notify_all wakes each
-- awaiter of the list once and in its order.
pub wake_each_lem :
    {S : Type 0} (next_of : S → Ptr → Ptr) (wake : Ptr → S → S)
    → ((x p : Ptr) (w : List Ptr) (s : S) → Chain (next_of s) p w → Chain (next_of (wake x s)) p w)
    → (fuel : ℕ) (p : Ptr) (w : List Ptr) (s : S) → length w ≤ fuel
    → Chain (next_of s) p w
    → wake_each next_of wake fuel p s ≡ some (wake_list wake w s)
unfolding wake_each wake_list
wake_each_lem next_of wake keep zero p [] s enough c = ground (arith, c)
wake_each_lem next_of wake keep zero p (x ∷ w) s enough c = absurd (omega arith)
wake_each_lem next_of wake keep (suc n) p [] s enough c = ground (arith, c)
wake_each_lem next_of wake keep (suc n) p (x ∷ w) s enough (at, small, rest) = ground (
  arith,
  wake_each_lem next_of wake keep n (next_of s x) w (wake x s) (omega arith)
      (keep x (next_of s x) w s rest),
)
