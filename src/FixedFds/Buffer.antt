-- ===== src/FixedFds/Buffer.antt =====
-- include/coro/marked_buffer.hpp
use sheepcoro.Base.{
  ℕ, zero, suc, ◌+◌, ◌≡◌, ◌&&◌, Option, none, some, List, [], ◌∷◌, ◌++◌, arith, ltb, leb,
  if◌then◌else◌, count, count-append,
}
use sheepcoro.Awaiters.{update}

-- An item: the index of its slot, to which `ptr` points, or none for an index of -1 and nullptr.
abbrev pub Item : Type 0
Item = Option ℕ

-- `slots` is the array `data`, and `que` lists the free indices.
pub record MarkedBuffer : Type 0 where
  pub slots : ℕ → ℕ
  pub que : List ℕ

unfoldable pub init : MarkedBuffer → MarkedBuffer
init b = record b { que = [] }

-- The loops of `set_data`, from index i on.
unfoldable pub push_indices : (rounds i : ℕ) → List ℕ → List ℕ
push_indices zero i q = q
push_indices (suc n) i q = push_indices n (suc i) (q ++ i ∷ [])

unfoldable pub copy_values : (rounds i : ℕ) → (values : ℕ → ℕ) → (ℕ → ℕ) → ℕ → ℕ
copy_values zero i values d = d
copy_values (suc n) i values d = copy_values n (suc i) values (update d i (values i))

unfoldable pub set_data : (length : ℕ) → (values : ℕ → ℕ) → MarkedBuffer → MarkedBuffer
unfolding push_indices copy_values
set_data length values b = record {
  slots = copy_values length 0 values b.slots;
  que = push_indices length 0 b.que;
}

unfoldable pub pop_front : List ℕ → Item × List ℕ
pop_front [] = (none, [])
pop_front (idx ∷ q) = (some idx, q)

unfoldable pub borrow : MarkedBuffer → Item × MarkedBuffer
unfolding pop_front
borrow b = let (item, q) = pop_front b.que in (item, record b { que = q })

unfoldable pub return_back : Item → MarkedBuffer → MarkedBuffer
return_back none b = b
return_back (some idx) b = record b { que = b.que ++ idx ∷ [] }

-- `*item.ptr = v`
unfoldable pub set_item : ℕ → ℕ → MarkedBuffer → MarkedBuffer
set_item idx v b = record b { slots = update b.slots idx v }

pub count-push_indices :
    (n i : ℕ) (q : List ℕ) (j : ℕ)
    → count j (push_indices n i q) ≡ count j q + (if leb i j && ltb j (i + n) then 1 else 0)
unfolding push_indices
count-push_indices zero i q j = ground arith
count-push_indices (suc n) i q j =
    ground (arith, count-push_indices n (suc i) (q ++ i ∷ []) j, count-append j q (i ∷ []))

pub copy_values_lem :
    (n i : ℕ) (values d : ℕ → ℕ) (j : ℕ)
    → copy_values n i values d j ≡ (if leb i j && ltb j (i + n) then values j else d j)
unfolding copy_values
copy_values_lem zero i values d j = ground arith
copy_values_lem (suc n) i values d j =
    ground (arith, copy_values_lem n (suc i) values (update d i (values i)) j)
