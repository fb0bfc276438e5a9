-- ===== src/Channel/Ring.antt =====
-- `channel<T, capacity>` for a capacity that is no power of two: head, tail and count.
use sheepcoro.Base.{
  ℕ, suc, ◌+◌, ◌-◌, ◌%◌, ◌^◌, ◌≤◌, ◌<◌, ◌≡◌, ◌≢◌, refl, sym, ap, ap₂, ◌∙◌, false, Option, some,
  List, [], ◌∷◌, ◌++◌, arith, ◌==◌, leb, length, Bool-cases, inl, inr, if◌then◌else◌,
}
use native.Mathlib.Nat.{mod_self, mod-mod, mod-eq_of_lt, mod-add-mod}
use sheepcoro.Awaiters.{add_size, sub_size}
use sheepcoro.Channel.{Store, no_close}
use sheepcoro.Channel.Spec.{IsQueue, Call, run_fifo}
use sheepcoro.Channel.Refine.{run, run-run_fifo}
use sheepcoro.Channel.Window.{
  get_or, set, length-set, window, length-window, is_nil-window, window-mod, window-set,
}

pub record Ring (A : Type 0) : Type 0 where
  pub head : ℕ
  pub tail : ℕ
  pub num : ℕ
  pub array : List A

module _ {A : Type 0} (d : A) (capacity : ℕ) where
  -- `m_tail++`, and back to 0 at the end of the array.
  abbrev bump : ℕ → ℕ
  bump i = let i' = add_size i 1 in if leb capacity i' then 0 else i'

  unfoldable pub put : A → Ring A → Ring A
  put v r = record r { array = set r.array r.tail v; tail = bump r.tail; num = add_size r.num 1 }

  unfoldable pub take : Ring A → Option A × Ring A
  take r = (some (get_or r.array r.head d), record r { head = bump r.head; num = sub_size r.num 1 })

  abbrev pub ring : Store A
  ring = record {
    State = Ring A;
    empty = λ r. r.num == 0;
    full = λ r. r.num == capacity;
    put = put;
    take = take;
  }

  pub record IsRing (r : Ring A) : Type 0 where
    pub small : capacity < 2 ^ 64
    pub room : length r.array ≡ capacity
    pub head_in : r.head < capacity
    pub num_in : r.num ≤ capacity
    pub tail_at : r.tail ≡ (r.head + r.num) % capacity

  abbrev pub held : Ring A → List A
  held r = window d capacity r.array r.head r.num

  -- One step round the array.
  bump-mod : (i : ℕ) → capacity < 2 ^ 64 → i < capacity → bump i ≡ (i + 1) % capacity
  bump-mod i small h = elim (Bool-cases (leb capacity (add_size i 1))) [
    | inl wraps ↦
        let last : i + 1 ≡ capacity = ground arith in
        rw wraps (sym (ap (λ n. n % capacity) last ∙ mod_self capacity))
    | inr inside ↦
        let below : i + 1 < capacity = ground arith in rw inside (omega (arith, mod-eq_of_lt below))
  ]

  put-IsRing : (v : A) (r : Ring A) → IsRing r → r.num ≢ capacity → IsRing (put v r)
  unfolding put
  put-IsRing v r i ne = record {
    small = i.small;
    room = length-set r.array r.tail v ∙ i.room;
    head_in = i.head_in;
    num_in = omega arith;
    tail_at =
        bump-mod r.tail i.small (omega arith)
        ∙ ap (λ t. (t + 1) % capacity) i.tail_at
        ∙ mod-add-mod (r.head + r.num) capacity 1
        ∙ ap (λ t. t % capacity) (omega arith);
  }

  take-IsRing : (r : Ring A) → IsRing r → r.num ≢ 0 → IsRing (take r).1
  unfolding take
  take-IsRing r i ne = record {
    small = i.small;
    room = i.room;
    head_in = rw (bump-mod r.head i.small i.head_in) (omega arith);
    num_in = omega arith;
    tail_at =
        i.tail_at
        ∙ ap (λ t. t % capacity) (omega arith)
        ∙ sym (mod-add-mod (r.head + 1) capacity (sub_size r.num 1))
        ∙ ap (λ t. (t + sub_size r.num 1) % capacity) (sym (bump-mod r.head i.small i.head_in));
  }

  held-put : (v : A) (r : Ring A) → IsRing r → r.num ≢ capacity → held (put v r) ≡ held r ++ v ∷ []
  unfolding put
  held-put v r i ne =
      ap (window d capacity (set r.array r.tail v) r.head) grows
      ∙ window-set d capacity r.array r.head r.num r.tail v i.room (omega arith) i.tail_at
    where
      grows : add_size r.num 1 ≡ suc r.num
      grows = omega arith

  held-take :
      (r : Ring A) (n : ℕ)
      → IsRing r
      → r.num ≡ suc n
      → held r ≡ get_or r.array r.head d ∷ held (take r).1
  unfolding take
  held-take r n i e =
      ap (window d capacity r.array r.head) e
      ∙ ap₂ ◌∷◌ (ap (λ t. get_or r.array t d) (mod-eq_of_lt i.head_in)) (
          window-mod d capacity r.array (r.head + 1) (bump r.head) n step
          ∙ ap (window d capacity r.array (bump r.head)) (omega arith))
    where
      step : (r.head + 1) % capacity ≡ bump r.head % capacity
      step = sym (
          ap (λ t. t % capacity) (bump-mod r.head i.small i.head_in)
          ∙ mod-mod (r.head + 1) capacity)

  ring_take :
      (r : Ring A) (x : A) (xs : List A)
      → IsRing r
      → held r ≡ x ∷ xs
      → ((take r).0 ≡ some x) × (held (take r).1 ≡ xs)
  unfolding take
  ring_take r x xs i e = split (sym (held-take r (r.num - 1) i some_left) ∙ e)
    where
      some_left : r.num ≡ suc (r.num - 1)
      some_left = omega (arith, length-window d capacity r.array r.head r.num, ap length e)

      split :
          get_or r.array r.head d ∷ held (take r).1 ≡ x ∷ xs
          → (some (get_or r.array r.head d) ≡ some x) × (held (take r).1 ≡ xs)
      split p = (cc, cc)

  length-held : (r : Ring A) → length (held r) ≡ r.num
  length-held r = length-window d capacity r.array r.head r.num

  -- `channel<T, capacity>` keeps the laws of a queue for `capacity` values.
  pub ring-IsQueue : IsQueue ring capacity
  ring-IsQueue = record {
    IsValid = IsRing;
    contents = held;
    empty_iff = λ r i. sym (is_nil-window d capacity r.array r.head r.num);
    full_iff = λ r i. rw (length-held r);
    put-IsValid = λ v r i ne. put-IsRing v r i (λ e. ne (length-held r ∙ e));
    contents-put = λ v r i ne. held-put v r i (λ e. ne (length-held r ∙ e));
    take-IsValid = λ r i ne. take-IsRing r i (λ e. ne (ap (window d capacity r.array r.head) e));
    contents-take = λ r x xs i e. ring_take r x xs i e;
  }

  -- From every valid state of an open `channel<T, capacity>`, whatever is sent, received and closed
  -- in whatever order comes to what a bounded queue of `capacity` values makes of it.
  pub ring_fifo :
      (r : Ring A) (cs : List (Call A))
      → IsRing r
      → run ring (record { values = r; close_state = no_close; notices = [] }) cs
        ≡ run_fifo capacity (record { items = held r; closed = false }) cs
  unfolding ring-IsQueue
  ring_fifo r cs i =
      run-run_fifo ring-IsQueue cs
        (record { valid = i; items = refl; closing = refl; drained = λ h. cc })
