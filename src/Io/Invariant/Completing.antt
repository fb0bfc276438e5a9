-- ===== src/Io/Invariant/Completing.antt =====
-- The steps from the kernel on keep the invariant.
use sheepcoro.Base.{
  ℕ, ◌≤◌, ◌≡◌, refl, sym, ap, ap₂, subst, List, [], ◌∷◌, ◌++◌, arith, ◌==◌, length, length-append,
  Bool-cases, inl, inr,
}
use sheepcoro.Awaiters.{Ptr, update}
use sheepcoro.Io.{Handle, Awaiter, IoInfo, result_of}
use sheepcoro.Io.Ring.{Sqe, Cqe, peek_batch_cqe, handle_cqe_entry, finish_batch}
use sheepcoro.Io.System.{
  Status, absent, pending, finished, System, settled, begins, submits, completes, peeks, handles,
  finishes, resumes, Reach, start, later,
}
use sheepcoro.Io.Invariant.Counting.{
  sqes, cqes, sqes-append, cqes-append, cqes-split, length-drop, pends, Written, Inv,
}
use sheepcoro.Io.Invariant.Submitting.{Written-update, begins-Inv, submits-Inv}

completes-Inv :
    {s : System} (l : List Sqe) (e : Sqe) (l' : List Sqe) (res : ℕ)
    → Inv s
    → s.inflight ≡ l ++ e ∷ l'
    → Inv (record s {
      ring = record s.ring {
        inflight = l ++ l';
        cq = s.cq ++ record { user_data = e.user_data; res = res } ∷ [];
      };
    })
completes-Inv {s} l e l' res inv at =
    let entry : Cqe = record { user_data = e.user_data; res = res } in
    record {
      one = λ a. ground (
        arith,
        inv.one a,
        ap (sqes a) at,
        sqes-append a l (e ∷ l'),
        sqes-append a l l',
        cqes-append a s.cq (entry ∷ []),
      );
      written = inv.written;
      total = ground (
        arith,
        inv.total,
        ap length at,
        length-append {0} l (e ∷ l'),
        length-append {0} l l',
        length-append {0} s.cq (entry ∷ []),
      );
      small = ground (
        arith,
        inv.small,
        ap length at,
        length-append {0} l (e ∷ l'),
        length-append {0} l l',
        length-append {0} s.cq (entry ∷ []),
      );
      peeked = inv.peeked;
    }

peeks-Inv :
    {s : System} (n : ℕ)
    → Inv s
    → s.batch ≡ []
    → s.num ≡ 0
    → n ≤ length s.cq
    → n ≤ s.num_io_running
    → Inv (record s { ring = peek_batch_cqe n s.ring })
unfolding peek_batch_cqe
peeks-Inv {s} n inv empty none_left there room = record {
  one = λ a. ground (arith, inv.one a, cqes-split a n s.cq, ap (cqes a) empty);
  written = inv.written;
  total = omega (arith, inv.total, length-drop {0} n s.cq there, none_left);
  small = omega (arith, inv.small, length-drop {0} n s.cq there, none_left);
  peeked = room;
}

finishes-Inv : {s : System} → Inv s → Inv (record s { ring = finish_batch s.ring })
unfolding finish_batch
finishes-Inv {s} inv = record {
  one = inv.one;
  written = inv.written;
  total = omega (arith, inv.total, inv.small, inv.peeked);
  small = omega (arith, inv.small);
  peeked = omega arith;
}

-- An awaiter whose address stands somewhere is pending.
pub pending_of : (st : Status) → 1 ≤ pends st → (aw : Awaiter) × (h : Handle) × (st ≡ pending aw h)
pending_of absent p = absurd (omega arith)
pending_of (pending aw h) p = (aw, h, refl)
pending_of (finished _ _ _ _) p = absurd (omega arith)

-- What the callback of a pending awaiter leaves in its memory.
called_back :
    (i : IoInfo) (aw : Awaiter) (h : Handle) (res : ℕ)
    → Written i (pending aw h)
    → Written (record i { result = result_of i.cb i.word res }) (finished aw h i.word res)
called_back i aw h res (_, cb, word) = ap₂ (λ c w. result_of c w res) cb (sym word)

handles-Inv :
    {s : System} (c : Cqe) (b : List Cqe)
    → Inv s
    → s.batch ≡ c ∷ b
    → Inv (record {
      ring = record (handle_cqe_entry c s.ring) { batch = b };
      status =
          update s.status c.user_data
            (settled c.res (s.infos c.user_data).word (s.status c.user_data));
    })
unfolding handle_cqe_entry
handles-Inv {s} c b inv at =
    let (aw, h, st) =
      pending_of (s.status c.user_data)
        (ground (arith, inv.one c.user_data, ap (cqes c.user_data) at)) in
    record {
      one = λ a. ground (arith, inv.one a, ap (cqes a) at, st);
      written =
          Written-update s.infos s.status c.user_data _ _
            (rw st (
              called_back (s.infos c.user_data) aw h c.res
                (subst (Written (s.infos c.user_data)) st (inv.written c.user_data))))
            inv.written;
      total = inv.total;
      small = inv.small;
      peeked = inv.peeked;
    }

resumes-Inv :
    {s : System} (a : Ptr) {aw : Awaiter} {h : Handle} {word res : ℕ}
    → Inv s
    → s.status a ≡ finished aw h word res
    → Inv (record s { status = update s.status a absent })
resumes-Inv {s} a inv at = record {
  one = λ b. ground (arith, inv.one b, inv.one a);
  written = λ b. elim (Bool-cases (a == b)) [ inl e ↦ rw e tt | inr e ↦ rw e (inv.written b) ];
  total = inv.total;
  small = inv.small;
  peeked = inv.peeked;
}

pub Reach-Inv : {infos : Ptr → IoInfo} {s : System} → Reach infos s → Inv s
Reach-Inv start = record {
  one = λ a. refl;
  written = λ a. tt;
  total = refl;
  small = omega arith;
  peeked = omega arith;
}
Reach-Inv (later r (begins ns a aw h q at few e)) = begins-Inv ns a aw h q (Reach-Inv r) at few e
Reach-Inv (later r (submits n)) = submits-Inv n (Reach-Inv r)
Reach-Inv (later r (completes l e l' res at)) = completes-Inv l e l' res (Reach-Inv r) at
Reach-Inv (later r (peeks n empty none_left there room _)) =
    peeks-Inv n (Reach-Inv r) empty none_left there room
Reach-Inv (later r (handles c b at)) = handles-Inv c b (Reach-Inv r) at
Reach-Inv (later r (finishes at)) = finishes-Inv (Reach-Inv r)
Reach-Inv (later r (resumes a at)) = resumes-Inv a (Reach-Inv r) at
