-- ===== src/Channel/System.antt =====
-- Senders, receivers and closers of one channel, on any number of threads. Each step is a section of
-- `send`, `recv` or `close` between two places where others may run; the mutex is the lock with a
-- queue of Mutex.Refinement, and the lists of the two condition variables are the queues of
-- CondVar.Order.
use sheepcoro.Base.{
  ℕ, zero, suc, ◌≡◌, ◌≢◌, Bool, true, false, ◌&&◌, List, [], ◌∷◌, ◌++◌, if◌then◌else◌,
}
use sheepcoro.Channel.{
  Store, Channel, Notice, one_producer, one_consumer, part_close, no_close, part_closed,
  complete_closed, send_ready, send_locked, recv_ready, recv_locked,
}

-- A call of send or recv, and whether a notifier has woken it since it last tested its predicate.
pub data Party (A : Type 0) : Type 0 where
  sender : (woken : Bool) → A → Party A
  receiver : (woken : Bool) → Party A

-- What the holder of the mutex is to do next.
pub data Stage (A : Type 0) : Type 0 where
  free : Stage A
  testing : Party A → Stage A  -- the predicate
  registering : Party A → Stage A  -- with the condition variable
  acting : Party A → Stage A  -- what follows the wait
  notifying : Notice → Stage A
  leaving : Stage A  -- to unlock the mutex

module _ {A : Type 0} where
  abbrev pub is_woken : Party A → Bool
  is_woken (sender w v) = w
  is_woken (receiver w) = w

  -- The holder's unlock: the longest waiter gets the mutex, if there is one.
  abbrev pub pass : List (Party A) → Stage A
  pass [] = free
  pass (p ∷ ps) = testing p

  abbrev pub rest : List (Party A) → List (Party A)
  rest [] = []
  rest (p ∷ ps) = ps

  abbrev pub woken_senders : List A → List (Party A)
  woken_senders [] = []
  woken_senders (v ∷ vs) = sender true v ∷ woken_senders vs

  abbrev pub woken_receivers : ℕ → List (Party A)
  woken_receivers zero = []
  woken_receivers (suc n) = receiver true ∷ woken_receivers n

module _ {A : Type 0} (st : Store A) where
  -- `queue` waits for the mutex, `producers` and `consumers` on the condition variables; `called`
  -- has been taken off these and not yet come to the mutex. Of the closers, some have both calls of
  -- notify_all still to make, and some the second.
  pub record System : Type 0 where
    pub channel : Channel st
    pub stage : Stage A
    pub queue : List (Party A)
    pub called : List (Party A)
    pub producers : List A
    pub consumers : ℕ
    pub closing_both : ℕ
    pub closing_consumers : ℕ

  -- The test at the head of `send` and `recv`.
  abbrev pub turned_away : Party A → Channel st → Bool
  turned_away (sender w v) c = part_closed st c
  turned_away (receiver w) c = complete_closed st c

  abbrev pub ready : Party A → Channel st → Bool
  ready (sender w v) c = send_ready st c
  ready (receiver w) c = recv_ready st c

  -- `register_cv`
  abbrev pub registered : Party A → System → System
  registered (sender w v) s = record s { producers = s.producers ++ v ∷ [] }
  registered (receiver w) s = record s { consumers = suc s.consumers }

  -- What `send` and `recv` do after the wait, up to notify_one.
  abbrev pub acted : Party A → System → System
  acted (sender w v) s = record s {
    channel = (send_locked st v s.channel).1;
    stage = if (send_locked st v s.channel).0 then notifying one_consumer else leaving;
  }
  acted (receiver w) s = record s {
    channel = (recv_locked st s.channel).1;
    stage =
        if st.empty s.channel.values && part_closed st s.channel
        then leaving
        else notifying one_producer;
  }

  abbrev pub notify_producer : List A → System → System
  notify_producer [] s = s
  notify_producer (v ∷ vs) s = record s { producers = vs; called = sender true v ∷ s.called }

  abbrev pub notify_consumer : ℕ → System → System
  notify_consumer zero s = s
  notify_consumer (suc n) s = record s { consumers = n; called = receiver true ∷ s.called }

  pub data Step (s : System) : System → Type 0 where
    calls_free :
        (p : Party A)
        → is_woken p ≡ false
        → turned_away p s.channel ≡ false
        → s.stage ≡ free
        → Step s (record s { stage = testing p })
    calls_busy :
        (p : Party A)
        → is_woken p ≡ false
        → turned_away p s.channel ≡ false
        → s.stage ≢ free
        → Step s (record s { queue = s.queue ++ p ∷ [] })
    tests :
        (p : Party A)
        → s.stage ≡ testing p
        → Step s (record s { stage = if ready p s.channel then acting p else registering p })
    registers :
        (p : Party A)
        → s.stage ≡ registering p
        → Step s (record (registered p s) { stage = leaving })
    acts : (p : Party A) → s.stage ≡ acting p → Step s (acted p s)
    notifies_producer :
        s.stage ≡ notifying one_producer
        → Step s (record (notify_producer s.producers s) { stage = leaving })
    notifies_consumer :
        s.stage ≡ notifying one_consumer
        → Step s (record (notify_consumer s.consumers s) { stage = leaving })
    leaves : s.stage ≡ leaving → Step s (record s { stage = pass s.queue; queue = rest s.queue })
    -- `wake_up`
    wakes_free :
        (p : Party A) (ps qs : List (Party A))
        → s.called ≡ ps ++ p ∷ qs
        → s.stage ≡ free
        → Step s (record s { called = ps ++ qs; stage = testing p })
    wakes_busy :
        (p : Party A) (ps qs : List (Party A))
        → s.called ≡ ps ++ p ∷ qs
        → s.stage ≢ free
        → Step s (record s { called = ps ++ qs; queue = s.queue ++ p ∷ [] })
    -- `close`
    closes : Step s (record s {
      channel = record s.channel { close_state = part_close };
      closing_both = suc s.closing_both;
    })
    closes_producers :
        (n : ℕ)
        → s.closing_both ≡ suc n
        → Step s (record s {
          producers = [];
          called = woken_senders s.producers ++ s.called;
          closing_both = n;
          closing_consumers = suc s.closing_consumers;
        })
    closes_consumers :
        (n : ℕ)
        → s.closing_consumers ≡ suc n
        → Step s (record s {
          consumers = 0;
          called = woken_receivers s.consumers ++ s.called;
          closing_consumers = n;
        })

  abbrev pub started : st.State → System
  started values = record {
    channel = record { values = values; close_state = no_close; notices = [] };
    stage = free;
    queue = [];
    called = [];
    producers = [];
    consumers = 0;
    closing_both = 0;
    closing_consumers = 0;
  }

  pub data Reach (values : st.State) : System → Type 0 where
    start : Reach values (started values)
    later : {s t : System} → Reach values s → Step s t → Reach values t
