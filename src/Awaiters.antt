-- ===== src/Awaiters.antt =====
-- The awaiter objects that mutex, event, wait_group and condition_variable link into lists, and
-- the calls that they make on their contexts (include/coro/context.hpp).
pub mod Chain
use sheepcoro.Base.{
  ℕ, ◌+◌, ◌-◌, ◌%◌, ◌^◌, List, [], ◌∷◌, ◌++◌, Bool, true, false, ◌==◌, if◌then◌else◌, ◌≡◌, refl,
  arith,
}

-- An awaiter is named by its address.
abbrev pub Ptr : Type 0
Ptr = ℕ

abbrev pub null : Ptr
null = 0

abbrev pub update {ℓ} : {A : Type ℓ} → (ℕ → A) → ℕ → A → ℕ → A
update f i v j = if i == j then v else f j

pub update_here {ℓ} : {A : Type ℓ} (f : ℕ → A) (i : ℕ) (v : A) → update f i v i ≡ v
update_here f i v = rw same refl
  where
    same : (i == i) ≡ true
    same = ground arith

pub update_there {ℓ} :
    {A : Type ℓ} (f : ℕ → A) (i j : ℕ) (v : A) → (i == j) ≡ false → update f i v j ≡ f j
update_there f i j v e = rw e refl

-- `next` and `ctx` are the fields m_next and m_ctx of every awaiter, `num_wait` is
-- m_num_wait_task of every context, and `submitted` lists the awaiters whose handles went to
-- submit_task of their contexts, oldest first.
pub record Awaiters : Type 0 where
  pub next : Ptr → Ptr
  pub ctx : Ptr → ℕ
  pub num_wait : ℕ → ℕ
  pub submitted : List Ptr

-- size_t arithmetic
abbrev pub add_size : ℕ → ℕ → ℕ
add_size a b = (a + b) % 2 ^ 64

abbrev pub sub_size : ℕ → ℕ → ℕ
sub_size a b = (a + 2 ^ 64 - b) % 2 ^ 64

-- `awaiter->m_next = q`
unfoldable pub set_next : Ptr → Ptr → Awaiters → Awaiters
set_next p q h = record h { next = update h.next p q }

-- `awaiter->m_ctx.register_wait(cnt)`
unfoldable pub register_wait : Ptr → ℕ → Awaiters → Awaiters
register_wait p cnt h = record h {
  num_wait = update h.num_wait (h.ctx p) (add_size (h.num_wait (h.ctx p)) cnt);
}

-- `awaiter->m_ctx.unregister_wait(cnt)`
unfoldable pub unregister_wait : Ptr → ℕ → Awaiters → Awaiters
unregister_wait p cnt h = record h {
  num_wait = update h.num_wait (h.ctx p) (sub_size (h.num_wait (h.ctx p)) cnt);
}

-- `awaiter->m_ctx.submit_task(awaiter->m_await_coro)`
unfoldable pub submit_task : Ptr → Awaiters → Awaiters
submit_task p h = record h { submitted = h.submitted ++ p ∷ [] }

-- A compare-exchange on an atomic word that holds `old`: whether it wins, and the new word.
abbrev pub compare_exchange : (old expected desired : ℕ) → Bool × ℕ
compare_exchange old expected desired = if old == expected then (true, desired) else (false, old)
