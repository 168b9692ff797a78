-- ===== src/Trials/Counter.antt =====
-- test_cpp/src/CCounter.cpp: a counter of the seconds since it was started. What sysinfo reads as
-- the uptime is a parameter.
use nettool.Base.{ℕ, ◌+◌, ◌^◌, ◌<◌, ◌≡◌, Bool, ltb, arith, ℤ, pos, ◌-ℤ◌, ltb_ℤ}
use nettool.Netlink.Headers.{to_int, to_unsigned}

-- The uptimes of m_TimeStart, m_TimeIntermediaire and m_TimeStop, and m_Timeout, an unsigned int.
pub record Counter : Type 0 where
  pub time_start : ℤ
  pub time_intermediaire : ℤ
  pub time_stop : ℤ
  pub timeout : ℕ

-- The two constructors, with what the members held.
unfoldable pub counter : Counter → Counter
counter c = record c { timeout = 0 }

unfoldable pub counter_with : ℕ → Counter → Counter
counter_with timeout c = record c { timeout = timeout }

unfoldable pub start : ℤ → Counter → Counter
start uptime c = record c { time_start = uptime }

unfoldable pub stop : ℤ → Counter → Counter
stop uptime c = record c { time_stop = uptime }

-- Initialize
unfoldable pub initialize : Counter → ℤ × Counter
initialize c =
    (pos 0, record c { time_start = pos 0; time_intermediaire = pos 0; time_stop = pos 0 })

-- isTimeout, with or without its argument, which it does not look at: the difference is cut to an
-- int, and m_Timeout is taken as one.
unfoldable pub is_timeout : ℤ → Counter → Bool × Counter
is_timeout uptime c =
    let diff = to_int (to_unsigned (uptime -ℤ c.time_start)) in
    (ltb_ℤ (to_int c.timeout) diff, record c { time_intermediaire = uptime })

-- Less than 2 ^ 31 seconds after its start, a counter with a timeout below 2 ^ 31 is timed out
-- exactly when more seconds than that passed.
pub is_timeout-start :
    (c : Counter) (begun passed : ℕ)
    → c.timeout < 2 ^ 31
    → passed < 2 ^ 31
    → (is_timeout (pos (begun + passed)) (start (pos begun) c)).0 ≡ ltb c.timeout passed
unfolding is_timeout start ◌-ℤ◌
is_timeout-start c begun passed small short = ground arith
