-- ===== src/Trials/Examples.antt =====
-- Runs of the trials, and the theorems on them at concrete values.
use nettool.Base.{◌≡◌, refl, ltb_ℤ, [], ◌∷◌, map, pos, arith, ◌+ℤ◌, ◌-ℤ◌, ◌==ℤ◌, scale}
use nettool.Trials.Time.{
  Timespec, IsNormal, nanoseconds, truth, ts_add, ts_compare, ts_is_greater_than, ts_is_less_than,
  ts_is_equal, ts_subtract,
}
use nettool.Trials.Time.Values.{ts_subtract-ts_add}
use nettool.Trials.Time.Order.{sign, ts_compare-sign}
use nettool.Trials.Condition.{Timeval, deadline}
use nettool.Trials.Condition.Deadline.{IsReading, Deadline, nanoseconds_now, deadline-Deadline}
use nettool.Trials.Calls.{timeouts}
use nettool.Trials.Signals.{Round, wait_signal_func_thread}
use nettool.Trials.Signals.Rounds.{waits, period, wait_signal-waits}

-- 1.5 and 2.25 seconds.
abbrev early : Timespec
early = record { tv_sec = pos 1; tv_nsec = pos 500000000 }

abbrev late : Timespec
late = record { tv_sec = pos 2; tv_nsec = pos 250000000 }

early-IsNormal : IsNormal early
early-IsNormal = record { not_below = refl; below = omega arith }

late-IsNormal : IsNormal late
late-IsNormal = record { not_below = refl; below = omega arith }

borrowed : ts_subtract late early ≡ record { tv_sec = pos 0; tv_nsec = pos 750000000 }
unfolding ts_subtract ◌-ℤ◌ ◌+ℤ◌
borrowed = refl

ts_compare-sign_example :
    (ts_compare early late ≡ sign (nanoseconds early -ℤ nanoseconds late))
    × (ts_is_greater_than early late ≡ truth (ltb_ℤ (nanoseconds late) (nanoseconds early)))
    × (ts_is_less_than early late ≡ truth (ltb_ℤ (nanoseconds early) (nanoseconds late)))
    × (ts_is_equal early late ≡ truth (nanoseconds early ==ℤ nanoseconds late))
ts_compare-sign_example = ts_compare-sign early late early-IsNormal late-IsNormal

ts_subtract-ts_add_example : ts_subtract (ts_add early late) late ≡ early
unfolding scale ◌+ℤ◌
ts_subtract-ts_add_example =
    ts_subtract-ts_add early late early-IsNormal late-IsNormal (omega arith)

-- Half a second past the tenth one.
abbrev reading : Timeval
reading = record { tv_sec = pos 10; tv_usec = pos 500000 }

reading-IsReading : IsReading reading
reading-IsReading = record { not_below = refl; below = omega arith }

-- A timeout of half a second more makes a deadline that is not normal.
whole_second : deadline reading (pos 500) ≡ record { tv_sec = pos 10; tv_nsec = pos 1000000000 }
unfolding deadline ◌+ℤ◌ ◌-ℤ◌ scale
whole_second = refl

deadline-Deadline_example :
    (nanoseconds (deadline reading (pos 500)) ≡ nanoseconds_now reading +ℤ scale 1000000 (pos 500))
    × Deadline reading (pos 500)
deadline-Deadline_example = deadline-Deadline reading (pos 500) reading-IsReading (omega arith)

-- A round that worked for three quarters of a second.
abbrev working : Round
working = record { answer = pos 35; errno = pos 0; woken = early; after = late }

wait_signal-waits_example :
    map nanoseconds (timeouts (wait_signal_func_thread early (working ∷ working ∷ [])))
    ≡ waits period (working ∷ working ∷ [])
wait_signal-waits_example =
    wait_signal-waits early (working ∷ working ∷ [])
      ((early-IsNormal, late-IsNormal), ((early-IsNormal, late-IsNormal), tt))
