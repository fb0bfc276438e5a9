-- ===== src/Channel/Slot.antt =====
-- `channel<T, 0>`: one optional value.
use sheepcoro.Base.{
  ◌≡◌, ◌≢◌, refl, not, Bool, true, false, Option, none, some, List, [], ◌∷◌, ◌++◌, arith, ◌==◌,
  is_nil, length,
}
use sheepcoro.Channel.{Store}
use sheepcoro.Channel.Spec.{IsQueue}

module _ {A : Type 0} where
  abbrev has_value : Option A → Bool
  has_value none = false
  has_value (some _) = true

  -- `std::move(m_data)`, and `m_data = std::nullopt`
  abbrev take_data : Option A → Option A × Option A
  take_data m_data = (m_data, none)

module _ (A : Type 0) where
  abbrev pub slot : Store A
  slot = record {
    State = Option A;
    empty = λ s. not (has_value s);
    full = has_value;
    put = λ v _. some v;
    take = take_data;
  }

  abbrev pub held : Option A → List A
  held none = []
  held (some x) = x ∷ []

  slot_empty : (s : Option A) → not (has_value s) ≡ is_nil (held s)
  slot_empty none = refl
  slot_empty (some x) = refl

  slot_full : (s : Option A) → has_value s ≡ (length (held s) == 1)
  slot_full none = refl
  slot_full (some x) = refl

  slot_put : (v : A) (s : Option A) → length (held s) ≢ 1 → v ∷ [] ≡ held s ++ v ∷ []
  slot_put v none ne = refl
  slot_put v (some x) ne = absurd (ne refl)

  slot_take : (s : Option A) (x : A) (xs : List A) → held s ≡ x ∷ xs → (s ≡ some x) × ([] ≡ xs)
  slot_take none x xs e = cc
  slot_take (some y) x xs e = ground arith

  -- `channel<T, 0>` keeps the laws of a queue for one value.
  pub slot-IsQueue : IsQueue slot 1
  slot-IsQueue = record {
    IsValid = λ _. Unit {0};
    contents = held;
    empty_iff = λ s _. slot_empty s;
    full_iff = λ s _. slot_full s;
    put-IsValid = λ v s _ _. tt;
    contents-put = λ v s _ ne. slot_put v s ne;
    take-IsValid = λ s _ _. tt;
    contents-take = λ s x xs _ e. slot_take s x xs e;
  }

  pub slot_valid : (s : Option A) → slot-IsQueue.IsValid s
  unfolding slot-IsQueue
  slot_valid s = tt
