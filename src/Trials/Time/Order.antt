-- ===== src/Trials/Time/Order.antt =====
-- Comparison of times against the order of their nanoseconds.
use nettool.Base.{◌≡◌, if◌then◌else◌, ℤ, pos, ◌-ℤ◌, ltb_ℤ, ◌==ℤ◌, minus_one, int_laws}
use nettool.Trials.Time.{
  Timespec, IsNormal, nanoseconds, truth, ts_compare, ts_is_greater_than, ts_is_less_than,
  ts_is_equal,
}

-- The sign of an integer.
abbrev pub sign : ℤ → ℤ
sign a = if ltb_ℤ a (pos 0) then minus_one else if ltb_ℤ (pos 0) a then pos 1 else pos 0

ts_compare_lem :
    (a b : Timespec)
    → IsNormal a
    → IsNormal b
    → ts_compare a b ≡ sign (nanoseconds a -ℤ nanoseconds b)
unfolding ts_compare
ts_compare_lem a b na nb = grind int_laws

-- For normal times, ts_Compare answers the sign of the difference of their nanoseconds, and
-- ts_IsGreaterThan, ts_IsLessThan and ts_IsEqual answer 1 or 0 by the order of their nanoseconds.
pub ts_compare-sign :
    (a b : Timespec)
    → IsNormal a
    → IsNormal b
    → (ts_compare a b ≡ sign (nanoseconds a -ℤ nanoseconds b))
      × (ts_is_greater_than a b ≡ truth (ltb_ℤ (nanoseconds b) (nanoseconds a)))
      × (ts_is_less_than a b ≡ truth (ltb_ℤ (nanoseconds a) (nanoseconds b)))
      × (ts_is_equal a b ≡ truth (nanoseconds a ==ℤ nanoseconds b))
unfolding ts_is_greater_than ts_is_less_than ts_is_equal
ts_compare-sign a b na nb =
    let e = ts_compare_lem a b na nb in
    (e, rw e (grind int_laws), rw e (grind int_laws), rw e (grind int_laws))
