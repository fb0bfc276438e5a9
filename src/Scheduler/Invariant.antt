-- ===== src/Scheduler/Invariant.antt =====
-- The stop token of src/scheduler.cpp against the flags of the contexts, and that every step keeps
-- their balance.
use sheepcoro.Base.{
  remove, count-remove, length-remove, ℕ, zero, suc, ◌+◌, ◌%◌, ◌^◌, ◌≤◌, ◌<◌, ◌≡◌, refl, Bool,
  Option, none, some, List, [], ◌∷◌, arith, ◌==◌, if◌then◌else◌, length, count,
}
use sheepcoro.Awaiters.{update}
use sheepcoro.Scheduler.{
  Scheduler, init_impl, init, dispatch, choose_ctx, set_flag, add_token, give_task, clear_flag,
  sub_token, stop_impl, or_one,
}
use sheepcoro.Scheduler.Sums.{sum, sum-update, sum-ones}
use sheepcoro.Scheduler.System.{
  Pc, idle, flag, chosen, flagged, counted, Callback, outside, cleared, System, Step, choose, flag,
  count_in, give, clear, count_out, Reach, start, later,
}

-- The thread still has to add one to the token.
abbrev pub adds : Pc → ℕ
adds (flagged _ zero) = 1
adds _ = 0

-- The callback still has to take one from the token.
abbrev pub subs : Callback → ℕ
subs (cleared (suc _)) = 1
subs _ = 0

-- The context to which the thread is submitting.
abbrev pub target : Pc → Option ℕ
target idle = none
target (chosen c) = some c
target (flagged c _) = some c
target (counted c) = some c

-- `us` are the threads that still have to add to the token, `vs` the contexts that still have to
-- subtract.
pub record Inv (n : ℕ) (us vs : List ℕ) (s : System) : Type 0 where
  pub cnt : s.ctx_cnt ≡ n
  pub same_cnt : s.dispatcher.ctx_cnt ≡ n
  pub balance : (s.stop_token + length us) % 2 ^ 32 ≡ (sum n s.stop_flag + length vs) % 2 ^ 32
  pub small : s.stop_token < 2 ^ 32
  pub bit : (i : ℕ) → s.stop_flag i ≤ 1
  pub adding : (j : ℕ) → count j us ≡ adds (s.pc j)
  pub subbing : (i : ℕ) → count i vs ≡ subs (s.callback i)
  pub old_bit : (j c o : ℕ) → s.pc j ≡ flagged c o → o ≤ 1
  pub cnt_bit : (i c : ℕ) → s.callback i ≡ cleared c → c ≤ 1
  pub range : (j c : ℕ) → target (s.pc j) ≡ some c → c < n
  pub inside : (i : ℕ) → subs (s.callback i) ≡ 1 → i < n

-- Some threads have one to add, some contexts one to take, and the token is that much off.
unfoldable pub IsBalanced : ℕ → System → Type 0
IsBalanced n s = (us : List ℕ) × (vs : List ℕ) × Inv n us vs s

init-IsBalanced :
    (n : ℕ)
    → IsBalanced n (record { scheduler = init_impl n; pc = λ _. idle; callback = λ _. outside })
unfolding init_impl init IsBalanced
init-IsBalanced n = (
  [],
  [],
  record {
    cnt = refl;
    same_cnt = refl;
    balance = ground (arith, sum-ones n n (omega arith));
    small = ground arith;
    bit = λ i. ground arith;
    adding = λ j. refl;
    subbing = λ i. refl;
    old_bit = λ j c o h. absurd (ground (arith, h));
    cnt_bit = λ i c h. absurd (ground (arith, h));
    range = λ j c h. absurd (ground (arith, h));
    inside = λ i h. absurd (ground (arith, h));
  },
)

module _ {n : ℕ} (pos : 0 < n) {us vs : List ℕ} {s : System} (inv : Inv n us vs s) where
  open inv use {
    cnt, same_cnt, balance, small, bit, adding, subbing, old_bit, cnt_bit, range, inside,
  }

  choose-Inv :
      (i c : ℕ) (t : Scheduler)
      → s.pc i ≡ idle
      → choose_ctx s.scheduler ≡ (c, t)
      → Inv n us vs (record s { scheduler = t; pc = update s.pc i (chosen c) })
  unfolding choose_ctx dispatch
  choose-Inv i c t at ret = record {
    cnt = ground (arith, cnt);
    same_cnt = ground (arith, same_cnt);
    balance = ground (arith, balance);
    small = ground (arith, small);
    bit = λ j. ground (arith, bit j);
    adding = λ j. ground (arith, adding j);
    subbing = λ j. ground (arith, subbing j);
    old_bit = λ j d o h. ground (arith, old_bit j d o);
    cnt_bit = λ j d h. ground (arith, cnt_bit j d);
    range = λ j d h. ground (arith, range j d, same_cnt, pos);
    inside = λ j h. ground (arith, inside j, cnt);
  }

  count_in-Inv :
      (i c old : ℕ)
      → s.pc i ≡ flagged c old
      → Inv n
          (if old == 0 then remove i us else us)
          vs
          (record s { scheduler = add_token old s.scheduler; pc = update s.pc i (counted c) })
  unfolding add_token
  count_in-Inv i c old at = record {
    cnt = ground (arith, cnt);
    same_cnt = ground (arith, same_cnt);
    balance = ground (arith, balance, adding i, old_bit i c old, length-remove i us);
    small = ground (arith, small);
    bit = λ j. ground (arith, bit j);
    adding = λ j. ground (arith, adding j, adding i, count-remove i j us);
    subbing = λ j. ground (arith, subbing j);
    old_bit = λ j d o h. ground (arith, old_bit j d o);
    cnt_bit = λ j d h. ground (arith, cnt_bit j d);
    range = λ j d h. ground (arith, range j d);
    inside = λ j h. ground (arith, inside j, cnt);
  }

  flag-Inv :
      (i c old : ℕ) (t : Scheduler)
      → s.pc i ≡ chosen c
      → set_flag c s.scheduler ≡ (old, t)
      → Inv n
          (if old == 0 then i ∷ us else us)
          vs
          (record s { scheduler = t; pc = update s.pc i (flagged c old) })
  unfolding set_flag
  flag-Inv i c old t at ret =
      let added = sum-update n s.stop_flag c (or_one (s.stop_flag c)) in
      record {
        cnt = ground (arith, cnt);
        same_cnt = ground (arith, same_cnt);
        balance = ground (arith, balance, bit c, range i c, added);
        small = ground (arith, small);
        bit = λ j. ground (arith, bit j, bit c);
        adding = λ j. ground (arith, adding j, adding i, bit c);
        subbing = λ j. ground (arith, subbing j);
        old_bit = λ j d o h. ground (arith, old_bit j d o, bit c);
        cnt_bit = λ j d h. ground (arith, cnt_bit j d);
        range = λ j d h. ground (arith, range j d);
        inside = λ j h. ground (arith, inside j, cnt);
      }

  give-Inv :
      (i c handle : ℕ)
      → s.pc i ≡ counted c
      → Inv n us vs
          (record s { scheduler = give_task c handle s.scheduler; pc = update s.pc i idle })
  unfolding give_task
  give-Inv i c handle at = record {
    cnt = cnt;
    same_cnt = same_cnt;
    balance = balance;
    small = small;
    bit = bit;
    adding = λ j. ground (arith, adding j);
    subbing = subbing;
    old_bit = λ j d o h. ground (arith, old_bit j d o);
    cnt_bit = cnt_bit;
    range = λ j d h. ground (arith, range j d);
    inside = λ j h. ground (arith, inside j, cnt);
  }

  clear-Inv :
      (i c : ℕ) (t : Scheduler)
      → i < s.ctx_cnt
      → s.callback i ≡ outside
      → clear_flag i s.scheduler ≡ (c, t)
      → Inv n us
          (if c == 0 then vs else i ∷ vs)
          (record s { scheduler = t; callback = update s.callback i (cleared c) })
  unfolding clear_flag
  clear-Inv i c t small_i at ret =
      let taken = sum-update n s.stop_flag i 0 in
      record {
        cnt = ground (arith, cnt);
        same_cnt = ground (arith, same_cnt);
        balance = ground (arith, balance, bit i, cnt, taken);
        small = ground (arith, small);
        bit = λ j. ground (arith, bit j);
        adding = λ j. ground (arith, adding j);
        subbing = λ j. ground (arith, subbing j, subbing i, bit i);
        old_bit = λ j d o h. ground (arith, old_bit j d o);
        cnt_bit = λ j d h. ground (arith, cnt_bit j d, bit i);
        range = λ j d h. ground (arith, range j d);
        inside = λ j h. ground (arith, inside j, cnt);
      }

  count_out-Inv :
      (i c : ℕ) (b : Bool) (t : Scheduler)
      → s.callback i ≡ cleared c
      → sub_token c s.scheduler ≡ (b, t)
      → Inv n us
          (if c == 0 then vs else remove i vs)
          (record s { scheduler = t; callback = update s.callback i outside })
  unfolding sub_token stop_impl
  count_out-Inv i c b t at ret = record {
    cnt = ground (arith, cnt);
    same_cnt = ground (arith, same_cnt);
    balance = ground (arith, balance, small, subbing i, cnt_bit i c, length-remove i vs);
    small = ground (arith, small);
    bit = λ j. ground (arith, bit j);
    adding = λ j. ground (arith, adding j);
    subbing = λ j. ground (arith, subbing j, subbing i, count-remove i j vs);
    old_bit = λ j d o h. ground (arith, old_bit j d o);
    cnt_bit = λ j d h. ground (arith, cnt_bit j d);
    range = λ j d h. ground (arith, range j d);
    inside = λ j h. ground (arith, inside j, cnt);
  }

Step-IsBalanced : {n : ℕ} → 0 < n → {s t : System} → IsBalanced n s → Step s t → IsBalanced n t
unfolding IsBalanced
Step-IsBalanced pos (us, vs, inv) (choose i c t at ret) = (us, vs, choose-Inv pos inv i c t at ret)
Step-IsBalanced pos (us, vs, inv) (flag i c old t at ret) =
    (_, vs, flag-Inv pos inv i c old t at ret)
Step-IsBalanced pos (us, vs, inv) (count_in i c old at) = (_, vs, count_in-Inv pos inv i c old at)
Step-IsBalanced pos (us, vs, inv) (give i c handle at) = (us, vs, give-Inv pos inv i c handle at)
Step-IsBalanced pos (us, vs, inv) (clear i c t h at ret) = (us, _, clear-Inv pos inv i c t h at ret)
Step-IsBalanced pos (us, vs, inv) (count_out i c b t at ret) =
    (us, _, count_out-Inv pos inv i c b t at ret)

pub Reach-IsBalanced : {n : ℕ} → 0 < n → {s : System} → Reach n s → IsBalanced n s
Reach-IsBalanced {n} pos start = init-IsBalanced n
Reach-IsBalanced pos (later r st) = Step-IsBalanced pos (Reach-IsBalanced pos r) st
