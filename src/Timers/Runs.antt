-- ===== src/Timers/Runs.antt =====
-- Common/timermgr.c: runs of timers.
use aalto_mme.Prelude.{ℕ, suc, ◌≡◌, arith, Bool, true, some, ◌==◌}
use aalto_mme.Timers.Timer.{Timer, tm_add_timer, expiries}
use aalto_mme.Timers.Expiry.{IsOver, expiries-IsOver}

-- Callbacks that stop the timer at its third expiry.
abbrev at_third : ℕ → Bool
at_third n = n == 3

expiries-IsOver_example :
    (t : Timer) × (u : Timer) × (tm_add_timer 6 0 4 true true ≡ some t)
    × (expiries at_third (suc 4) t ≡ some u)
    × IsOver 4 u
expiries-IsOver_example =
    expiries-IsOver at_third 6 0 4 true (omega arith) (omega arith) (omega arith)
