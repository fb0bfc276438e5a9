-- ===== src/Call/Dangling.antt =====
-- What exec_task of src/engine.cpp reads after it has resumed a coroutine that another one awaits.
use sheepcoro.Base.{
  ℕ, zero, suc, ◌+◌, ◌≤◌, ◌≡◌, refl, ap, ◌∙◌, true, false, none, some, arith, ◌==◌,
}
use sheepcoro.Awaiters.{Ptr, null, update_here, update_there}
use sheepcoro.Container.{Result, returns}
use sheepcoro.Call.Promises.{Promise}
use sheepcoro.Call.{
  Body, co_return, suspends, runs, awaits, Machine, goto, destroy, final_suspend, move, step,
  resume, exec_task,
}
use sheepcoro.Call.Moves.{step_at}

module _ {A X P : Type 0} (pr : Promise A X P) where
  resume_step :
      (m m' : Machine A X P) {h : Ptr}
      → m.control ≡ h
      → 1 ≤ h
      → step pr m ≡ some m'
      → (n : ℕ) → resume pr (suc n) m ≡ resume pr n m'
  unfolding resume
  resume_step m m' here address e n = rw running (rw e refl)
    where
      running : (m.control == null) ≡ false
      running = ground (arith, here, address)

  stopped : (m : Machine A X P) → m.control ≡ null → (n : ℕ) → resume pr n m ≡ some m
  unfolding resume
  stopped m at_null zero = rw at_null refl
  stopped m at_null (suc n) = rw at_null refl

  -- The coroutine p awaits h, which is about to return v; then p suspends.
  pub record LastResume (m : Machine A X P) (h p : Ptr) (v : A) (k : Result A X → Body A X)
      (b : Body A X) : Type 0 where
    pub h_address : 1 ≤ h
    pub p_address : 1 ≤ p
    pub distinct : (h == p) ≡ false
    pub h_live : m.live h ≡ true
    pub p_live : m.live p ≡ true
    pub h_frame :
        m.frames h ≡ record { point = runs (co_return v); promise = pr.empty; continuation = p }
    pub p_point : (m.frames p).point ≡ awaits h k
    pub goes_on : k (returns v) ≡ suspends b

  module _ (m : Machine A X P) (h p : Ptr) (v : A) (k : Result A X → Body A X) (b : Body A X)
      (l : LastResume m h p v k b) where
    abbrev first : Machine A X P
    first = final_suspend h (pr.return_value v) (record m { control = h })

    abbrev second : Machine A X P
    second = destroy h (goto p (runs (k (pr.result (first.frames h).promise))) first)

    abbrev third : Machine A X P
    third = record (goto p (runs b) second) { control = null; suspended = p }

    -- `handle.resume()` of a coroutine that returns to the one that awaits it comes back when that one
    -- suspends, and the frame of the handle does not exist any more: whenever this is the state,
    -- `exec_task` goes on to read `handle.done()` in a frame that has been destroyed.
    pub exec_task_dangles :
        (n : ℕ)
        → (m' : Machine A X P) × (resume pr (3 + n) (record m { control = h }) ≡ some m')
          × (m'.control ≡ null)
          × (m'.live h ≡ false)
          × (exec_task pr (3 + n) h m ≡ none)
    unfolding exec_task move final_suspend
    exec_task_dangles n = (third, comes_back, refl, gone, rw (exec_task, comes_back) (rw gone refl))
      where
        s1 : step pr (record m { control = h }) ≡ some first
        s1 = step_at pr (record m { control = h }) refl l.h_live (ap (λ f. f.point) l.h_frame) refl

        to_p : first.control ≡ p
        to_p = ap (λ f. f.continuation) l.h_frame

        gives : pr.result (first.frames h).promise ≡ returns v
        gives =
            ap (λ f. pr.result f.promise) (update_here m.frames h _)
            ∙ (ap (λ f. pr.result (pr.return_value v f.promise)) l.h_frame ∙ pr.returned v)

        s2 : step pr first ≡ some second
        s2 =
            step_at pr first to_p l.p_live
              (ap (λ f. f.point) (update_there m.frames h p _ l.distinct) ∙ l.p_point)
              (rw l.h_live refl)

        s3 : step pr second ≡ some third
        s3 =
            step_at pr second to_p (update_there m.live h p false l.distinct ∙ l.p_live)
              (ap (λ f. f.point) (update_here first.frames p _)
                ∙ (ap (λ res. runs (k res)) gives ∙ ap runs l.goes_on))
              refl

        three : 3 + n ≡ suc (suc (suc n))
        three = omega arith

        comes_back : resume pr (3 + n) (record m { control = h }) ≡ some third
        comes_back =
            ap (λ f. resume pr f (record m { control = h })) three
            ∙ (resume_step (record m { control = h }) first refl l.h_address s1 (suc (suc n))
                ∙ (resume_step first second to_p l.p_address s2 (suc n)
                    ∙ (resume_step second third to_p l.p_address s3 n ∙ stopped third refl n)))

        gone : third.live h ≡ false
        gone = update_here m.live h false
