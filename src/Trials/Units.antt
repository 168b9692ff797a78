-- ===== src/Trials/Units.antt =====
-- test_cpp/src/tu_UTIL_Timespec.cpp: the tests of the class CTimespec, whose source is elsewhere: it
-- is an interface. Three lines also print a number of nanoseconds divided by 1e9 with `%Lf`: the text
-- of this quotient, which the C library makes in floating point, is a parameter.
pub mod Passes
use Prim.Native.String.{String}
use nettool.Base.{
  ◌≡◌, not, List, [], ◌∷◌, ◌++◌, ℤ, pos, minus_one, ◌-ℤ◌, ◌==ℤ◌, ltb_ℤ, leb_ℤ, Bool, ℕ,
}
use nettool.Netlink.System.{number, text}
use nettool.Trials.Calls.{Call, line}
use nettool.Trials.Time.{Timespec, IsNormal, nanoseconds, truth}
use nettool.Trials.Time.Order.{sign}

-- The static functions of CTimespec that are tested.
pub record CTimespec : Type 0 where
  pub add_ts : Timespec → Timespec → Timespec
  pub add_ll : Timespec → Timespec → ℤ
  pub substract_ts : Timespec → Timespec → Timespec
  pub substract_ll : Timespec → Timespec → ℤ
  pub get_nano : Timespec → ℤ
  pub compare : Timespec → Timespec → ℤ
  pub is_equal : Timespec → Timespec → ℤ
  pub is_less_than : Timespec → Timespec → ℤ
  pub is_less_or_equal : Timespec → Timespec → ℤ
  pub is_greater_than : Timespec → Timespec → ℤ
  pub is_greater_or_equal : Timespec → Timespec → ℤ

-- The comparisons go by the order of the nanoseconds.
pub record IsLawful (c : CTimespec) : Type 0 where
  pub compare-sign :
      (a b : Timespec)
      → IsNormal a
      → IsNormal b
      → c.compare a b ≡ sign (nanoseconds a -ℤ nanoseconds b)
  pub equal :
      (a b : Timespec)
      → IsNormal a
      → IsNormal b
      → c.is_equal a b ≡ truth (nanoseconds a ==ℤ nanoseconds b)
  pub less :
      (a b : Timespec)
      → IsNormal a
      → IsNormal b
      → c.is_less_than a b ≡ truth (ltb_ℤ (nanoseconds a) (nanoseconds b))
  pub less_or_equal :
      (a b : Timespec)
      → IsNormal a
      → IsNormal b
      → c.is_less_or_equal a b ≡ truth (leb_ℤ (nanoseconds a) (nanoseconds b))
  pub greater :
      (a b : Timespec)
      → IsNormal a
      → IsNormal b
      → c.is_greater_than a b ≡ truth (ltb_ℤ (nanoseconds b) (nanoseconds a))
  pub greater_or_equal :
      (a b : Timespec)
      → IsNormal a
      → IsNormal b
      → c.is_greater_or_equal a b ≡ truth (leb_ℤ (nanoseconds b) (nanoseconds a))

abbrev pub time : ℕ → ℕ → Timespec
time sec nsec = record { tv_sec = pos sec; tv_nsec = pos nsec }

-- A line with the two fields of a time, one with a number, and one with the result of a test.
abbrev pub time_line : String → Timespec → Call
time_line format t = line format (number t.tv_sec ∷ number t.tv_nsec ∷ [])

abbrev pub number_line : String → ℤ → Call
number_line format n = line format (number n ∷ [])

abbrev pub quotient_line : String → ℤ → (ℤ → String) → Call
quotient_line format n quotient = line format (number n ∷ text (quotient n) ∷ [])

abbrev pub verdict : String → Bool → Call
verdict format holds = number_line format (truth holds)

module _ (c : CTimespec) where
  -- Test_unit_Util_timespec_Add
  unfoldable pub test_add : List Call
  test_add =
      let times_1 = time 0 234000456 in
      let times_2 = time 1 345000678 in
      line "\nTest_unit_Util_timespec_Add\n" []
      ∷ time_line "\tAdd_ts 1 + 2 = %ld.%ld \n" (c.add_ts times_1 times_2)
      ∷ number_line "\tAdd_ll 1 + 2 = %lld \n" (c.add_ll times_1 times_2)
      ∷ []

  -- Test_unit_Util_timespec_Compare
  unfoldable pub test_compare : List Call
  test_compare =
      let times_1 = time 1 2345 in
      let times_2 = time 1 3456 in
      let times_3 = time 1 2345 in
      line "\nTest_unit_Util_timespec_Compare\n" []
      ∷ verdict "\tcompare  (1 == 2) = %d \n" (not (c.compare times_1 times_2 ==ℤ pos 0))
      ∷ verdict "\tCompare  (1 == 3) = %d \n" (c.compare times_1 times_3 ==ℤ pos 0)
      ∷ verdict "\tCompare  (2 == 3) = %d \n" (not (c.compare times_2 times_3 ==ℤ pos 0))
      ∷ verdict "\tCompare  ( 1 < 2 ) = %d \n" (c.compare times_1 times_2 ==ℤ minus_one)
      ∷ verdict "\tCompare  ( 2 > 1 ) = %d \n" (c.compare times_2 times_1 ==ℤ pos 1)
      ∷ []

  -- Test_unit_Util_timespec_getNano
  abbrev pub nano_lines : List ℕ → List Call
  nano_lines [] = []
  nano_lines (nsec ∷ rest) =
      line "\tgetNano(%ld.%09ld) : vRetvalue = %ld \n"
        (number (pos 123) ∷ number (pos nsec) ∷ number (c.get_nano (time 123 nsec)) ∷ [])
      ∷ nano_lines rest

  unfoldable pub test_get_nano : List Call
  test_get_nano =
      line "\ntimespec_getNano : \n" [] ∷ nano_lines (456 ∷ 4560 ∷ 45600 ∷ 456000 ∷ 456000000 ∷ [])

  -- Test_unit_Util_timespec_Substract
  unfoldable pub test_substract : (ℤ → String) → List Call
  test_substract quotient =
      let times_1 = time 0 234000456 in
      let times_2 = time 1 345000678 in
      line "\nTest_unit_Util_timespec_Substract \n\n" []
      ∷ time_line "\tSubstract  1 - 2 = %ld.%ld \n" (c.substract_ts times_1 times_2)
      ∷ time_line "\tSubstract  2 - 1 = %ld.%ld \n" (c.substract_ts times_2 times_1)
      ∷ time_line "\tSubstract  1 - 1 = %ld.%ld \n" (c.substract_ts times_1 times_1)
      ∷ quotient_line "\n\tSubstract  1 - 2 : ns=%lld , %Lf \n" (c.substract_ll times_1 times_2)
          quotient
      ∷ quotient_line "\tSubstract  2 - 1 : ns=%lld , %Lf \n" (c.substract_ll times_2 times_1)
          quotient
      ∷ quotient_line "\tSubstract  1 - 1 : ns=%lld , %Lf \n" (c.substract_ll times_1 times_1)
          quotient
      ∷ []

  -- Test_unit_Util_timespec_IsEqual
  unfoldable pub test_is_equal : List Call
  test_is_equal =
      let times_1 = time 1 2345 in
      let times_2 = time 1 3456 in
      let times_3 = time 1 2345 in
      line "\nTest_unit_Util_timespec_IsEqual \n\n" []
      ∷ verdict "\tIsEqual  (1 == 3) = %d \n" (not (c.is_equal times_1 times_3 ==ℤ pos 0))
      ∷ verdict "\tIsEqual  (1 == 2) = %d \n" (c.is_equal times_1 times_2 ==ℤ pos 0)
      ∷ verdict "\tIsEqual  (2 == 3) = %d \n" (c.is_equal times_2 times_3 ==ℤ pos 0)
      ∷ []

  -- Test_unit_Util_timespec_IsLessThan: the first test of IsLessOrEqual is for one time twice.
  unfoldable pub test_is_less_than : List Call
  test_is_less_than =
      let times_1 = time 0 2345 in
      let times_2 = time 1 5678 in
      line "\nTest_unit_Util_timespec_IsLessThan \n\n" []
      ∷ verdict "\tIsLessThan : 1 < 2 = %d\n" (not (c.is_less_than times_1 times_2 ==ℤ pos 0))
      ∷ verdict "\tIsLessThan : 2 < 1 = %d\n" (c.is_less_than times_2 times_1 ==ℤ pos 0)
      ∷ verdict "\tIsLessThan : 1 < 1 = %d\n" (c.is_less_than times_1 times_1 ==ℤ pos 0)
      ∷ verdict "\tIsLessThanOrEqual : 1 <= 2 = %d\n"
          (not (c.is_less_or_equal times_1 times_1 ==ℤ pos 0))
      ∷ verdict "\tIsLessThanOrEqual : 1 <= 1 = %d\n"
          (not (c.is_less_or_equal times_1 times_1 ==ℤ pos 0))
      ∷ verdict "\tIsLessThanOrEqual : 2 <= 1 = %d\n" (c.is_less_or_equal times_2 times_1 ==ℤ pos 0)
      ∷ []

  -- Test_unit_Util_timespec_IsGreaterThan
  unfoldable pub test_is_greater_than : List Call
  test_is_greater_than =
      let times_1 = time 0 2345 in
      let times_2 = time 1 5678 in
      line "\nTest_unit_Util_timespec_IsGreaterThan \n\n" []
      ∷ verdict "\tIsGreaterThan : 1 > 2 = %d\n" (c.is_greater_than times_1 times_2 ==ℤ pos 0)
      ∷ verdict "\tIsGreaterThan : 2 > 1 = %d\n" (not (c.is_greater_than times_2 times_1 ==ℤ pos 0))
      ∷ verdict "\tIsGreaterThan : 1 > 1 = %d\n" (c.is_greater_than times_1 times_1 ==ℤ pos 0)
      ∷ verdict "\tIsGreaterOrEqual : 1 >= 1 = %d\n"
          (not (c.is_greater_or_equal times_1 times_1 ==ℤ pos 0))
      ∷ verdict "\tIsGreaterOrEqual : 1 >= 2 = %d\n"
          (c.is_greater_or_equal times_1 times_2 ==ℤ pos 0)
      ∷ verdict "\tIsGreaterOrEqual : 2 >= 1 = %d\n"
          (not (c.is_greater_or_equal times_2 times_1 ==ℤ pos 0))
      ∷ []

  -- Test_unit_Util_timespec_main
  unfoldable pub test_main : (ℤ → String) → List Call
  unfolding test_add test_compare test_get_nano test_substract test_is_equal test_is_less_than
      test_is_greater_than
  test_main quotient =
      test_add
      ++ (test_compare
          ++ (test_get_nano
              ++ (test_substract quotient
                  ++ (test_is_equal ++ (test_is_less_than ++ test_is_greater_than)))))
