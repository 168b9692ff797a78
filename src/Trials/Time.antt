-- ===== src/Trials/Time.antt =====
-- test_cpp/src/ts_util.c: sums, differences and comparisons of times in seconds and nanoseconds.
-- Both fields are integers without a width: the sums of seconds are taken to fit C's type.
pub mod Values
pub mod Order
use nettool.Base.{
  ℕ, ◌<◌, ◌≡◌, Bool, true, false, ◌&&◌, ◌||◌, if◌then◌else◌, ℤ, pos, pos_part, neg_part, ◌+ℤ◌, ◌-ℤ◌,
  ltb_ℤ, leb_ℤ, ◌==ℤ◌, minus_one, scale,
}

pub record Timespec : Type 0 where
  pub tv_sec : ℤ
  pub tv_nsec : ℤ

-- 1000000000L
abbrev pub billion : ℕ
billion = 1000000000

unfoldable pub ts_add : Timespec → Timespec → Timespec
ts_add time1 time2 =
    let sec = time1.tv_sec +ℤ time2.tv_sec in
    let nsec = time1.tv_nsec +ℤ time2.tv_nsec in
    if leb_ℤ (pos billion) nsec
    then record { tv_sec = sec +ℤ pos 1; tv_nsec = nsec -ℤ pos billion }
    else record { tv_sec = sec; tv_nsec = nsec }

-- -1, 0 or 1.
unfoldable pub ts_compare : Timespec → Timespec → ℤ
ts_compare time1 time2 =
    if ltb_ℤ time1.tv_sec time2.tv_sec
    then minus_one
    else if ltb_ℤ time2.tv_sec time1.tv_sec
    then pos 1
    else if ltb_ℤ time1.tv_nsec time2.tv_nsec
    then minus_one
    else if ltb_ℤ time2.tv_nsec time1.tv_nsec
    then pos 1
    else pos 0

-- The result of a test in C.
abbrev pub truth : Bool → ℤ
truth true = pos 1
truth false = pos 0

unfoldable pub ts_is_greater_than : Timespec → Timespec → ℤ
ts_is_greater_than time1 time2 = truth (ts_compare time1 time2 ==ℤ pos 1)

unfoldable pub ts_is_less_than : Timespec → Timespec → ℤ
ts_is_less_than time1 time2 = truth (ts_compare time1 time2 ==ℤ minus_one)

unfoldable pub ts_is_equal : Timespec → Timespec → ℤ
ts_is_equal time1 time2 = truth (ts_compare time1 time2 ==ℤ pos 0)

-- A time that is not after the other gives zero.
unfoldable pub ts_subtract : Timespec → Timespec → Timespec
ts_subtract time1 time2 =
    if ltb_ℤ time1.tv_sec time2.tv_sec
      || (time1.tv_sec ==ℤ time2.tv_sec && leb_ℤ time1.tv_nsec time2.tv_nsec)
    then record { tv_sec = pos 0; tv_nsec = pos 0 }
    else let sec = time1.tv_sec -ℤ time2.tv_sec in
      if ltb_ℤ time1.tv_nsec time2.tv_nsec
      then record { tv_sec = sec -ℤ pos 1; tv_nsec = time1.tv_nsec +ℤ pos billion -ℤ time2.tv_nsec }
      else record { tv_sec = sec; tv_nsec = time1.tv_nsec -ℤ time2.tv_nsec }

-- The time in nanoseconds.
abbrev pub nanoseconds : Timespec → ℤ
nanoseconds t = scale billion t.tv_sec +ℤ t.tv_nsec

-- The nanoseconds are from 0 to 999999999, as POSIX asks.
pub record IsNormal (t : Timespec) : Type 0 where
  pub not_below : neg_part t.tv_nsec ≡ 0
  pub below : pos_part t.tv_nsec < billion
