-- ===== src/Trials/Units/Passes.antt =====
-- What the tests of CTimespec print for a class that compares times by their nanoseconds.
use nettool.Base.{◌≡◌, refl, All, List, [], ◌∷◌, ◌++◌, pos, ◌+ℤ◌, ◌-ℤ◌, scale, leb_ℤ, arith, ◌<◌, ℕ}
use nettool.Netlink.System.{number}
use nettool.Trials.Calls.{Call, line}
use nettool.Trials.Time.Order.{ts_compare-sign}
use nettool.Trials.Time.{
  IsNormal, billion, nanoseconds, truth, ts_add, ts_subtract, ts_compare, ts_is_equal,
  ts_is_less_than, ts_is_greater_than,
}
use nettool.Trials.Units.{
  CTimespec, IsLawful, time, test_compare, test_is_equal, test_is_less_than, test_is_greater_than,
}

-- A line of a test that prints anything prints 1.
abbrev pub Passed : Call → Type 0
Passed (line format (number n ∷ [])) = n ≡ pos 1
Passed call = Unit {0}

time-IsNormal : (sec nsec : ℕ) → nsec < billion → IsNormal (time sec nsec)
time-IsNormal sec nsec h = record { not_below = refl; below = h }

All-append : (xs ys : List Call) → All Passed xs → All Passed ys → All Passed (xs ++ ys)
All-append [] ys h k = k
All-append (x ∷ xs) ys (p, h) k = (p, All-append xs ys h k)

module _ (c : CTimespec) (lawful : IsLawful c) where
  test_compare-Passed : All Passed (test_compare c)
  unfolding test_compare scale ◌+ℤ◌ ◌-ℤ◌
  test_compare-Passed =
      let a = time-IsNormal 1 2345 (omega arith) in
      let b = time-IsNormal 1 3456 (omega arith) in
      (
        tt,
        (
          rw (lawful.compare-sign (time 1 2345) (time 1 3456) a b) refl,
          (
            rw (lawful.compare-sign (time 1 2345) (time 1 2345) a a) refl,
            (
              rw (lawful.compare-sign (time 1 3456) (time 1 2345) b a) refl,
              (
                rw (lawful.compare-sign (time 1 2345) (time 1 3456) a b) refl,
                (rw (lawful.compare-sign (time 1 3456) (time 1 2345) b a) refl, tt),
              ),
            ),
          ),
        ),
      )

  test_is_equal-Passed : All Passed (test_is_equal c)
  unfolding test_is_equal scale ◌+ℤ◌ ◌-ℤ◌
  test_is_equal-Passed =
      let a = time-IsNormal 1 2345 (omega arith) in
      let b = time-IsNormal 1 3456 (omega arith) in
      (
        tt,
        (
          rw (lawful.equal (time 1 2345) (time 1 2345) a a) refl,
          (
            rw (lawful.equal (time 1 2345) (time 1 3456) a b) refl,
            (rw (lawful.equal (time 1 3456) (time 1 2345) b a) refl, tt),
          ),
        ),
      )

  test_is_less_than-Passed : All Passed (test_is_less_than c)
  unfolding test_is_less_than scale ◌+ℤ◌ ◌-ℤ◌
  test_is_less_than-Passed =
      let a = time-IsNormal 0 2345 (omega arith) in
      let b = time-IsNormal 1 5678 (omega arith) in
      (
        tt,
        (
          rw (lawful.less (time 0 2345) (time 1 5678) a b) refl,
          (
            rw (lawful.less (time 1 5678) (time 0 2345) b a) refl,
            (
              rw (lawful.less (time 0 2345) (time 0 2345) a a) refl,
              (
                rw (lawful.less_or_equal (time 0 2345) (time 0 2345) a a) refl,
                (
                  rw (lawful.less_or_equal (time 0 2345) (time 0 2345) a a) refl,
                  (rw (lawful.less_or_equal (time 1 5678) (time 0 2345) b a) refl, tt),
                ),
              ),
            ),
          ),
        ),
      )

  test_is_greater_than-Passed : All Passed (test_is_greater_than c)
  unfolding test_is_greater_than scale ◌+ℤ◌ ◌-ℤ◌
  test_is_greater_than-Passed =
      let a = time-IsNormal 0 2345 (omega arith) in
      let b = time-IsNormal 1 5678 (omega arith) in
      (
        tt,
        (
          rw (lawful.greater (time 0 2345) (time 1 5678) a b) refl,
          (
            rw (lawful.greater (time 1 5678) (time 0 2345) b a) refl,
            (
              rw (lawful.greater (time 0 2345) (time 0 2345) a a) refl,
              (
                rw (lawful.greater_or_equal (time 0 2345) (time 0 2345) a a) refl,
                (
                  rw (lawful.greater_or_equal (time 0 2345) (time 1 5678) a b) refl,
                  (rw (lawful.greater_or_equal (time 1 5678) (time 0 2345) b a) refl, tt),
                ),
              ),
            ),
          ),
        ),
      )

  -- For a class that compares normal times by their nanoseconds, every comparison that the tests
  -- print says 1.
  pub comparisons-Passed :
      All Passed
        (test_compare c ++ (test_is_equal c ++ (test_is_less_than c ++ test_is_greater_than c)))
  comparisons-Passed = All-append (test_compare c) _ test_compare-Passed (
      All-append (test_is_equal c) _ test_is_equal-Passed (
        All-append (test_is_less_than c) (test_is_greater_than c) test_is_less_than-Passed
          test_is_greater_than-Passed))

-- The functions of ts_util.c in the place of the class.
abbrev pub ts_class : CTimespec
ts_class = record {
  add_ts = ts_add;
  add_ll = λ a b. nanoseconds a +ℤ nanoseconds b;
  substract_ts = ts_subtract;
  substract_ll = λ a b. nanoseconds a -ℤ nanoseconds b;
  get_nano = nanoseconds;
  compare = ts_compare;
  is_equal = ts_is_equal;
  is_less_than = ts_is_less_than;
  is_less_or_equal = λ a b. truth (leb_ℤ (nanoseconds a) (nanoseconds b));
  is_greater_than = ts_is_greater_than;
  is_greater_or_equal = λ a b. truth (leb_ℤ (nanoseconds b) (nanoseconds a));
}

ts_class-IsLawful : IsLawful ts_class
ts_class-IsLawful = record {
  compare-sign = λ a b na nb. (ts_compare-sign a b na nb).0;
  equal = λ a b na nb. (ts_compare-sign a b na nb).3;
  less = λ a b na nb. (ts_compare-sign a b na nb).2;
  less_or_equal = λ a b na nb. refl;
  greater = λ a b na nb. (ts_compare-sign a b na nb).1;
  greater_or_equal = λ a b na nb. refl;
}

-- The tests pass for the functions of ts_util.c.
ts_util-Passed : All Passed (
    test_compare ts_class
    ++ (test_is_equal ts_class ++ (test_is_less_than ts_class ++ test_is_greater_than ts_class)))
ts_util-Passed = comparisons-Passed ts_class ts_class-IsLawful
