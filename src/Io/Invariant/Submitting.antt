-- ===== src/Io/Invariant/Submitting.antt =====
-- Starting and submitting operations keeps the invariant.
use sheepcoro.Base.{
  ℕ, ◌^◌, ◌<◌, ◌≡◌, refl, sym, subst, ◌∙◌, some, List, [], ◌∷◌, arith, ◌==◌, ltb, length-append,
  Bool-cases, Option-cases, inl, inr,
}
use sheepcoro.Awaiters.{Ptr, update}
use sheepcoro.Io.{Handle, Awaiter, IoInfo, word_of, info_of, await_suspend, request_of, flags_of}
use sheepcoro.Io.Ring.{
  Sqe, Ring, take, has_free_urs, submit, base_io_awaiter, fill, begin, do_io_submit,
}
use sheepcoro.Io.System.{Status, absent, pending, System, outstanding}
use sheepcoro.Io.Invariant.Counting.{sqes-append, sqes-split, length-split, places, Written, Inv}

-- Submitting moves entries to the kernel, and changes nothing else.
pub submit-same :
    (n : ℕ) (r : Ring)
    → ((a : Ptr) → places a (submit n r) ≡ places a r) × (outstanding (submit n r) ≡ outstanding r)
unfolding submit
submit-same n r = (
  λ a. omega (arith, sqes-append a r.inflight (take n r.sq), sqes-split a n r.sq),
  omega (arith, length-append {0} r.inflight (take n r.sq), length-split {0} n r.sq),
)

-- From r to r' entries have gone to the kernel, and nothing else has changed.
record Moved (r r' : Ring) : Type 0 where
  same_places : (a : Ptr) → places a r' ≡ places a r
  same_outstanding : outstanding r' ≡ outstanding r
  same_infos : (a : Ptr) → r'.infos a ≡ r.infos a
  same_wait : r'.num_io_wait_submit ≡ r.num_io_wait_submit
  same_running : r'.num_io_running ≡ r.num_io_running
  same_num : r'.num ≡ r.num

submit-Moved : (n : ℕ) (r : Ring) → Moved r (submit n r)
unfolding submit
submit-Moved n r = record {
  same_places = (submit-same n r).0;
  same_outstanding = (submit-same n r).1;
  same_infos = λ a. refl;
  same_wait = refl;
  same_running = refl;
  same_num = refl;
}

Moved-refl : (r : Ring) → Moved r r
Moved-refl r = record {
  same_places = λ a. refl;
  same_outstanding = refl;
  same_infos = λ a. refl;
  same_wait = refl;
  same_running = refl;
  same_num = refl;
}

Moved-trans : {r r' r'' : Ring} → Moved r r' → Moved r' r'' → Moved r r''
Moved-trans m m' = record {
  same_places = λ a. m'.same_places a ∙ m.same_places a;
  same_outstanding = m'.same_outstanding ∙ m.same_outstanding;
  same_infos = λ a. m'.same_infos a ∙ m.same_infos a;
  same_wait = m'.same_wait ∙ m.same_wait;
  same_running = m'.same_running ∙ m.same_running;
  same_num = m'.same_num ∙ m.same_num;
}

base_io_awaiter-Moved : (ns : List ℕ) (r r' : Ring) → base_io_awaiter ns r ≡ some r' → Moved r r'
unfolding base_io_awaiter
base_io_awaiter-Moved [] r r' e = subst (Moved r) (ground (arith, e)) (Moved-refl r)
base_io_awaiter-Moved (n ∷ ns) r r' e = elim (Bool-cases (has_free_urs r)) [
  | inl y ↦ subst (Moved r) (ground (arith, e, y)) (Moved-refl r)
  | inr y ↦
      Moved-trans (submit-Moved n r)
        (base_io_awaiter-Moved ns (submit n r) r' (ground (arith, e, y)))
]

pub Written-update :
    (f : Ptr → IoInfo) (g : Ptr → Status) (a : Ptr) (i : IoInfo) (st : Status)
    → Written i st
    → ((b : Ptr) → Written (f b) (g b))
    → (b : Ptr) → Written (update f a i b) (update g a st b)
Written-update f g a i st w ws b = elim (Bool-cases (a == b)) [
  | inl e ↦ rw e w
  | inr e ↦ rw e (ws b)
]

word_of_twice : (aw : Awaiter) (w : ℕ) → word_of aw (word_of aw w) ≡ word_of aw w
word_of_twice aw w = ground arith

filled-Inv :
    {s : System} (a : Ptr) (aw : Awaiter) (h : Handle) (r : Ring)
    → Inv s
    → s.status a ≡ absent
    → outstanding s.ring < 2 ^ 62
    → Moved s.ring r
    → Inv (record { ring = fill a aw h r; status = update s.status a (pending aw h) })
unfolding fill
filled-Inv {s} a aw h r inv at few m =
    let entry : Sqe = record { request = request_of aw; flags = flags_of aw; user_data = a } in
    record {
      one = λ b. ground (arith, inv.one b, m.same_places b, sqes-append b r.sq (entry ∷ []));
      written =
          Written-update r.infos s.status a (await_suspend h (info_of aw (r.infos a)))
            (pending aw h) (refl, refl, word_of_twice aw (r.infos a).word)
            (λ b. subst (λ i. Written i (s.status b)) (sym (m.same_infos b)) (inv.written b));
      total = ground (
        arith,
        inv.total,
        m.same_outstanding,
        m.same_wait,
        m.same_running,
        length-append {0} r.sq (entry ∷ []),
      );
      small = ground (arith, m.same_outstanding, length-append {0} r.sq (entry ∷ []));
      peeked = ground (arith, inv.peeked, m.same_num, m.same_running);
    }

pub begins-Inv :
    {s : System} (ns : List ℕ) (a : Ptr) (aw : Awaiter) (h : Handle) (r : Ring)
    → Inv s
    → s.status a ≡ absent
    → outstanding s.ring < 2 ^ 62
    → begin ns a aw h s.ring ≡ some r
    → Inv (record { ring = r; status = update s.status a (pending aw h) })
unfolding begin
begins-Inv {s} ns a aw h r inv at few e = elim (Option-cases (base_io_awaiter ns s.ring)) [
  | inl z ↦ absurd (ground (arith, e, z))
  | inr (r', y) ↦
      subst (λ q. Inv (record { ring = q; status = update s.status a (pending aw h) }))
        (ground (arith, e, y))
        (filled-Inv a aw h r' inv at few (base_io_awaiter-Moved ns s.ring r' y))
]

pub submits-Inv : {s : System} (n : ℕ) → Inv s → Inv (record s { ring = do_io_submit n s.ring })
unfolding do_io_submit submit
submits-Inv {s} n inv = elim (Bool-cases (ltb 0 s.num_io_wait_submit)) [
  | inl y ↦ rw y (record {
    one = λ a. ground (arith, inv.one a, (submit-same n s.ring).0 a);
    written = inv.written;
    total = omega (arith, inv.total, inv.small, (submit-same n s.ring).1);
    small = omega (arith, inv.small, (submit-same n s.ring).1);
    peeked = omega (arith, inv.peeked, inv.total, inv.small);
  })
  | inr y ↦ rw y inv
]
