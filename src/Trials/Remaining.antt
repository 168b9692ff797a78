-- ===== src/Trials/Remaining.antt =====
-- test_cpp/src/CCountDown.h and CCountDown.cpp: the time that is left of a timeout in minutes. A
-- reading of the clock is its seconds and nanoseconds, or nothing where clock_gettime fails. The
-- lines that are printed are left out. What overflows an `int` has no result.
pub mod Left
use mathlib.Core.Option
use nettool.Base.{
  ◌==ℤ◌, if◌then◌else◌, ℕ, ◌^◌, Bool, Option, none, some, ℤ, pos, negsuc, minus_one, scale, suc,
}
use nettool.Netlink.Headers.{to_int, to_unsigned}
use nettool.Trials.Double.{Double, seconds_of}

abbrev pub Reading : Type 0
Reading = Option (ℤ × ℤ)

-- llabs
abbrev pub magnitude : ℤ → ℤ
magnitude (pos n) = pos n
magnitude (negsuc n) = pos (suc n)

module _ (D : Double) where
  open D use {R, of_int, add, sub, mul, div, lt, to_int64}

  pub record CountDown : Type 0 where
    pub time_start : R
    pub timeout_min : ℤ
    pub time_remaining : ℕ

  -- vTimeStart: the structure stays at zeros where the clock fails.
  abbrev pub time_of : Reading → R
  time_of none = seconds_of D (10 ^ 9) (pos 0) (pos 0)
  time_of (some (sec, nsec)) = seconds_of D (10 ^ 9) sec nsec

  abbrev pub code_of : Reading → ℤ
  code_of none = minus_one
  code_of (some reading) = pos 0

  -- The constructors; m_TimeRemaining keeps what the memory held.
  unfoldable pub count_down_with : ℤ → ℕ → Reading → CountDown
  count_down_with timeout held reading = record {
    time_start = time_of reading;
    timeout_min = timeout;
    time_remaining = held;
  }

  unfoldable pub count_down : ℕ → Reading → CountDown
  count_down held reading = record {
    time_start = time_of reading;
    timeout_min = pos 0;
    time_remaining = held;
  }

  unfoldable pub start : Reading → CountDown → ℤ × CountDown
  start reading c = (code_of reading, record c { time_start = time_of reading })

  -- getDateNow: the result and the date, which is -1 where the clock fails.
  unfoldable pub get_date_now : Reading → ℤ × R
  get_date_now none = (minus_one, of_int minus_one)
  get_date_now (some (sec, nsec)) = (pos 0, seconds_of D (10 ^ 9) sec nsec)

  -- getDateStart
  unfoldable pub get_date_start : CountDown → ℤ × R
  get_date_start c = (pos 0, c.time_start)

  -- getTimeoutMin
  unfoldable pub get_timeout_min : CountDown → ℤ
  get_timeout_min c = c.timeout_min

  -- getTimeoutDate: the product of two `int`s, which must not overflow.
  unfoldable pub get_timeout_date : CountDown → Option R
  unfolding get_date_start get_timeout_min
  get_timeout_date c =
      let seconds = scale 60 (get_timeout_min c) in
      if to_int (to_unsigned seconds) ==ℤ seconds
      then some (add (get_date_start c).1 (of_int seconds))
      else none

  -- isTimeout
  unfoldable pub is_timeout : Reading → CountDown → Option Bool
  unfolding get_date_now get_timeout_date
  is_timeout now c =
      Option.map (λ date. lt (sub date (get_date_now now).1) (of_int (pos 0))) (get_timeout_date c)

  -- getTimeLeftMicrosecond
  unfoldable pub get_time_left_microsecond : Reading → CountDown → Option ℤ
  unfolding get_date_now get_timeout_date
  get_time_left_microsecond now c =
      Option.map (λ date. to_int64 (mul (sub date (get_date_now now).1) (of_int (pos (10 ^ 6)))))
        (get_timeout_date c)

  -- getTimeLeft: what llabs answers, cut to an int.
  unfoldable pub get_time_left : Reading → CountDown → Option ℤ
  unfolding get_time_left_microsecond
  get_time_left now c =
      Option.map
        (λ left.
          to_int (to_unsigned (magnitude (to_int64 (div (of_int left) (of_int (pos (10 ^ 6))))))))
        (get_time_left_microsecond now c)

  -- setTimeoutMin, getTimeStart, getTimeRemaining, setTimeRemaining
  unfoldable pub set_timeout_min : ℤ → CountDown → CountDown
  set_timeout_min timeout c = record c { timeout_min = timeout }

  unfoldable pub get_time_start : CountDown → R
  get_time_start c = c.time_start

  unfoldable pub get_time_remaining : CountDown → ℕ
  get_time_remaining c = c.time_remaining

  unfoldable pub set_time_remaining : ℕ → CountDown → CountDown
  set_time_remaining remaining c = record c { time_remaining = remaining }
