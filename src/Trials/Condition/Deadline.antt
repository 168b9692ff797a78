-- ===== src/Trials/Condition/Deadline.antt =====
-- The time that ConditionVariable_wait waits until.
use nettool.Base.{
  ◌<◌, ◌≡◌, ◌≢◌, refl, inl, inr, Bool-cases, ◌==ℤ◌, tmod, All, map, [], ◌∷◌, List, ℤ, pos, pos_part,
  neg_part, ◌+ℤ◌, ◌≤ℤ◌, scale, int_laws,
}
use nettool.Trials.Time.{Timespec, IsNormal, billion, nanoseconds}
use nettool.Trials.Calls.{deadlines}
use nettool.Trials.Condition.{
  Timeval, deadline, condition_variable_wait, wait_rounds, condition_variable_func_thread,
}

-- The microseconds are from 0 to 999999.
pub record IsReading (now : Timeval) : Type 0 where
  pub not_below : neg_part now.tv_usec ≡ 0
  pub below : pos_part now.tv_usec < 1000000

-- The time of a reading in nanoseconds.
abbrev pub nanoseconds_now : Timeval → ℤ
nanoseconds_now now = scale billion now.tv_sec +ℤ scale 1000 now.tv_usec

-- What the reading and the timeout hold below a second, in nanoseconds.
abbrev pub below_seconds : Timeval → ℤ → ℤ
below_seconds now timeout_ms = scale 1000 now.tv_usec +ℤ scale 1000000 (tmod timeout_ms 1000)

-- A normal deadline, or one of 1000000000 nanoseconds, which is not normal.
pub data Deadline (now : Timeval) (timeout_ms : ℤ) : Type 0 where
  normal :
      IsNormal (deadline now timeout_ms)
      → below_seconds now timeout_ms ≢ pos billion
      → Deadline now timeout_ms
  whole_second :
      (deadline now timeout_ms).tv_nsec ≡ pos billion
      → below_seconds now timeout_ms ≡ pos billion
      → Deadline now timeout_ms

-- For a normal reading of the clock and a timeout that is not negative, the deadline is the
-- timeout after the reading. It is normal unless the parts below a second make exactly a second:
-- then it has 1000000000 nanoseconds.
pub deadline-Deadline :
    (now : Timeval) (timeout_ms : ℤ)
    → IsReading now
    → pos 0 ≤ℤ timeout_ms
    → (nanoseconds (deadline now timeout_ms) ≡ nanoseconds_now now +ℤ scale 1000000 timeout_ms)
      × Deadline now timeout_ms
unfolding deadline
deadline-Deadline now timeout_ms r h = (
  grind int_laws,
  elim (Bool-cases (below_seconds now timeout_ms ==ℤ pos billion)) [
    | inl e ↦ whole_second (grind int_laws) (grind int_laws)
    | inr e ↦ normal (grind int_laws) (grind int_laws)
  ],
)

-- The time 20 seconds after a reading.
abbrev pub in_20_seconds : Timeval → Timespec
in_20_seconds now = record { tv_sec = now.tv_sec +ℤ pos 20; tv_nsec = scale 1000 now.tv_usec }

deadline_20 : (now : Timeval) → IsReading now → deadline now (pos 20000) ≡ in_20_seconds now
unfolding deadline
deadline_20 now r = grind int_laws

wait_rounds-deadlines :
    (readings : List Timeval)
    → All IsReading readings
    → deadlines (wait_rounds readings) ≡ map in_20_seconds readings
unfolding wait_rounds condition_variable_wait
wait_rounds-deadlines [] rs = refl
wait_rounds-deadlines (now ∷ readings) (r, rs) =
    rw (deadline_20 now r, wait_rounds-deadlines readings rs) refl

-- For normal readings of the clock, the rounds of the thread wait until the times exactly 20
-- seconds after them, one after the other.
func_thread-deadlines :
    (readings : List Timeval)
    → All IsReading readings
    → deadlines (condition_variable_func_thread readings) ≡ map in_20_seconds readings
unfolding condition_variable_func_thread
func_thread-deadlines readings rs = wait_rounds-deadlines readings rs
