-- ===== src/Timer/Tests.antt =====
-- Runs and witnesses for Timer.antt.
use sheepcoro.Base.{◌+◌, ◌≡◌, refl, [], ◌∷◌, arith}
use sheepcoro.Timer.{Timer, add_mseconds}
use sheepcoro.Timer.Total.{seconds, mseconds, chain, to_sec, to_nsec, sum, chain_lem}

abbrev zero_timer : Timer
zero_timer = record { tv_sec = 0; tv_nsec = 0; flag = 0 }

-- The nanoseconds are not carried into the seconds.
not_carried : (add_mseconds 1500 zero_timer).tv_nsec ≡ 1500000000
unfolding add_mseconds
not_carried = refl

chain_lem_example :
    ((chain (seconds 2 ∷ mseconds 1500 ∷ []) zero_timer).tv_sec
      ≡ zero_timer.tv_sec + sum to_sec (seconds 2 ∷ mseconds 1500 ∷ []))
    × ((chain (seconds 2 ∷ mseconds 1500 ∷ []) zero_timer).tv_nsec
        ≡ zero_timer.tv_nsec + sum to_nsec (seconds 2 ∷ mseconds 1500 ∷ []))
chain_lem_example =
    chain_lem (seconds 2 ∷ mseconds 1500 ∷ []) zero_timer (omega arith) (omega arith)
