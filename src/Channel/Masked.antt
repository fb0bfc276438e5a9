-- ===== src/Channel/Masked.antt =====
-- `channel<T, capacity>` for a power of two: two free-running positions, masked at each access.
use Prim.Native.Nat.{bit_and}
use sheepcoro.Base.{
  ℕ, suc, ◌+◌, ◌-◌, ◌%◌, ◌^◌, ◌≤◌, ◌<◌, ◌≡◌, ◌≢◌, refl, sym, ap, ap₂, ◌∙◌, false, Option, some,
  List, [], ◌∷◌, ◌++◌, arith, ◌==◌, length, bit_and-mask, pow-split, pow-lt,
}
use native.Mathlib.Nat.{mod-mod_of_dvd}
use sheepcoro.Awaiters.{add_size, sub_size}
use sheepcoro.Channel.{Store, no_close}
use sheepcoro.Channel.Spec.{IsQueue, Call, run_fifo}
use sheepcoro.Channel.Refine.{run, run-run_fifo}
use sheepcoro.Channel.Window.{
  get_or, set, length-set, window, length-window, is_nil-window, window-mod, window-set,
}

pub record Masked (A : Type 0) : Type 0 where
  pub head : ℕ
  pub tail : ℕ
  pub array : List A

-- `std::has_single_bit(capacity)` holds of the powers 2 ^ k below 2 ^ 64.
module _ {A : Type 0} (d : A) (k : ℕ) where
  abbrev pub capacity : ℕ
  capacity = 2 ^ k

  -- `head()` and `tail()`
  abbrev index : ℕ → ℕ
  index i = bit_and i (capacity - 1)

  unfoldable pub put : A → Masked A → Masked A
  put v r = record r { array = set r.array (index r.tail) v; tail = add_size r.tail 1 }

  unfoldable pub take : Masked A → Option A × Masked A
  take r = (some (get_or r.array (index r.head) d), record r { head = add_size r.head 1 })

  abbrev pub masked : Store A
  masked = record {
    State = Masked A;
    empty = λ r. r.head == r.tail;
    full = λ r. sub_size r.tail r.head == capacity;
    put = put;
    take = take;
  }

  pub record IsMasked (r : Masked A) : Type 0 where
    pub bits : k < 64
    pub room : length r.array ≡ capacity
    pub head_in : r.head < 2 ^ 64
    pub tail_in : r.tail < 2 ^ 64
    pub num_in : sub_size r.tail r.head ≤ capacity

  abbrev pub held : Masked A → List A
  held r = window d capacity r.array r.head (sub_size r.tail r.head)

  -- The positions wrap at a multiple of the capacity.
  wrap-mod : (i : ℕ) → k < 64 → i % 2 ^ 64 % capacity ≡ i % capacity
  wrap-mod i h = let (q, e) = pow-split k 64 (omega arith) in mod-mod_of_dvd capacity i ∣ (q, e) ∣₁

  capacity_lt : k < 64 → capacity < 2 ^ 64
  capacity_lt h = pow-lt k 64 h

  put-IsMasked :
      (v : A) (r : Masked A) → IsMasked r → sub_size r.tail r.head ≢ capacity → IsMasked (put v r)
  unfolding put
  put-IsMasked v r i ne = record {
    bits = i.bits;
    room = length-set r.array (index r.tail) v ∙ i.room;
    head_in = i.head_in;
    tail_in = omega arith;
    num_in = omega (arith, capacity_lt i.bits);
  }

  take-IsMasked : (r : Masked A) → IsMasked r → r.head ≢ r.tail → IsMasked (take r).1
  unfolding take
  take-IsMasked r i ne = record {
    bits = i.bits;
    room = i.room;
    head_in = omega arith;
    tail_in = i.tail_in;
    num_in = omega (arith, capacity_lt i.bits);
  }

  -- The place of a value that is `n` steps on.
  index_at : (i h n : ℕ) → k < 64 → i % 2 ^ 64 ≡ (h + n) % 2 ^ 64 → index i ≡ (h + n) % capacity
  index_at i h n lt e =
      bit_and-mask i k ∙ sym (wrap-mod i lt) ∙ ap (λ t. t % capacity) e ∙ wrap-mod (h + n) lt

  held-put :
      (v : A) (r : Masked A)
      → IsMasked r
      → sub_size r.tail r.head ≢ capacity
      → held (put v r) ≡ held r ++ v ∷ []
  unfolding put
  held-put v r i ne =
      ap (window d capacity (set r.array (index r.tail) v) r.head) grows
      ∙ window-set d capacity r.array r.head (sub_size r.tail r.head) (index r.tail) v i.room
          (omega arith) (index_at r.tail r.head (sub_size r.tail r.head) i.bits (omega arith))
    where
      grows : sub_size (add_size r.tail 1) r.head ≡ suc (sub_size r.tail r.head)
      grows = omega (arith, capacity_lt i.bits)

  held-take :
      (r : Masked A) (n : ℕ)
      → IsMasked r
      → sub_size r.tail r.head ≡ suc n
      → held r ≡ get_or r.array (index r.head) d ∷ held (take r).1
  unfolding take
  held-take r n i e =
      ap (window d capacity r.array r.head) e
      ∙ ap₂ ◌∷◌ (ap (λ t. get_or r.array t d) (sym (bit_and-mask r.head k))) (
          window-mod d capacity r.array (r.head + 1) (add_size r.head 1) n
            (sym (wrap-mod (r.head + 1) i.bits))
          ∙ ap (window d capacity r.array (add_size r.head 1)) (omega arith))

  masked_take :
      (r : Masked A) (x : A) (xs : List A)
      → IsMasked r
      → held r ≡ x ∷ xs
      → ((take r).0 ≡ some x) × (held (take r).1 ≡ xs)
  unfolding take
  masked_take r x xs i e = split (sym (held-take r (sub_size r.tail r.head - 1) i some_left) ∙ e)
    where
      some_left : sub_size r.tail r.head ≡ suc (sub_size r.tail r.head - 1)
      some_left =
          omega
            (arith, length-window d capacity r.array r.head (sub_size r.tail r.head), ap length e)

      split :
          get_or r.array (index r.head) d ∷ held (take r).1 ≡ x ∷ xs
          → (some (get_or r.array (index r.head) d) ≡ some x) × (held (take r).1 ≡ xs)
      split p = (cc, cc)

  length-held : (r : Masked A) → length (held r) ≡ sub_size r.tail r.head
  length-held r = length-window d capacity r.array r.head (sub_size r.tail r.head)

  same_place : (r : Masked A) → IsMasked r → (r.head == r.tail) ≡ (sub_size r.tail r.head == 0)
  same_place r i = ground arith

  -- `channel<T, capacity>` for a power of two keeps the laws of a queue for `capacity` values, also
  -- when its positions wrap at 2 ^ 64.
  pub masked-IsQueue : IsQueue masked capacity
  masked-IsQueue = record {
    IsValid = IsMasked;
    contents = held;
    empty_iff = λ r i.
        same_place r i ∙ sym (is_nil-window d capacity r.array r.head (sub_size r.tail r.head));
    full_iff = λ r i. rw (length-held r);
    put-IsValid = λ v r i ne. put-IsMasked v r i (λ e. ne (length-held r ∙ e));
    contents-put = λ v r i ne. held-put v r i (λ e. ne (length-held r ∙ e));
    take-IsValid =
        λ r i ne. take-IsMasked r i (λ e. ne (ap (window d capacity r.array r.head) (apart r i e)));
    contents-take = λ r x xs i e. masked_take r x xs i e;
  }
    where
      apart : (r : Masked A) → IsMasked r → r.head ≡ r.tail → sub_size r.tail r.head ≡ 0
      apart r i e = omega arith

  -- From every valid state of an open `channel<T, capacity>` with a power of two for its capacity,
  -- whatever is sent, received and closed in whatever order comes to what a bounded queue of
  -- `capacity` values makes of it, also when the positions wrap at 2 ^ 64.
  pub masked_fifo :
      (r : Masked A) (cs : List (Call A))
      → IsMasked r
      → run masked (record { values = r; close_state = no_close; notices = [] }) cs
        ≡ run_fifo capacity (record { items = held r; closed = false }) cs
  unfolding masked-IsQueue
  masked_fifo r cs i =
      run-run_fifo masked-IsQueue cs
        (record { valid = i; items = refl; closing = refl; drained = λ h. cc })
