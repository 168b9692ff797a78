-- ===== src/Trials/Double.antt =====
-- Floating point, which the trials compute in, as an interface: a type with the operations that
-- they use; and the functions of test_cpp/src that compute a number of seconds: ts_Float of
-- ts_util.c, Test_gettimeofday of main.cpp, Check_Modf and Check_LongDouble of test.cpp.
use nettool.Base.{
  ℕ, ◌+◌, ◌^◌, ◌<◌, ◌≡◌, ◌≢◌, Bool, ℤ, pos, pos_part, neg_part, ◌+ℤ◌, ◌-ℤ◌, ltb_ℤ, scale, List, [],
  ◌∷◌,
}
use nettool.Trials.Time.{Timespec}

-- double, or long double. `to_int64` is the conversion to an integer of 64 bits; `modf` answers
-- the fraction and the integral part.
pub record Double : Type 1 where
  pub R : Type 0
  pub of_int : ℤ → R
  pub add : R → R → R
  pub sub : R → R → R
  pub mul : R → R → R
  pub div : R → R → R
  pub lt : R → R → Bool
  pub to_int64 : R → ℤ
  pub modf : R → R × R

-- Integers below 2 ^ 53 are exact.
abbrev pub IsSmall : ℤ → Type 0
IsSmall a = pos_part a + neg_part a < 2 ^ 53

-- What IEEE 754 says of integers: where the operands and the result are exact, so is the operation.
pub record IsExact (D : Double) : Type 0 where
  pub add-of_int :
      (a b : ℤ)
      → IsSmall a
      → IsSmall b
      → IsSmall (a +ℤ b)
      → D.add (D.of_int a) (D.of_int b) ≡ D.of_int (a +ℤ b)
  pub sub-of_int :
      (a b : ℤ)
      → IsSmall a
      → IsSmall b
      → IsSmall (a -ℤ b)
      → D.sub (D.of_int a) (D.of_int b) ≡ D.of_int (a -ℤ b)
  pub mul-of_int :
      (a : ℤ) (k : ℕ)
      → IsSmall (scale k a)
      → k < 2 ^ 53
      → D.mul (D.of_int a) (D.of_int (pos k)) ≡ D.of_int (scale k a)
  pub div-of_int :
      (a : ℤ) (k : ℕ)
      → IsSmall (scale k a)
      → k < 2 ^ 53
      → k ≢ 0
      → D.div (D.of_int (scale k a)) (D.of_int (pos k)) ≡ D.of_int a
  pub lt-of_int : (a b : ℤ) → IsSmall a → IsSmall b → D.lt (D.of_int a) (D.of_int b) ≡ ltb_ℤ a b
  pub to_int64-of_int : (a : ℤ) → IsSmall a → D.to_int64 (D.of_int a) ≡ a

module _ (D : Double) where
  open D use {R, of_int, add, sub, mul, div, to_int64, modf}

  -- A number of seconds and of parts of a second.
  abbrev pub seconds_of : ℕ → ℤ → ℤ → R
  seconds_of parts sec part = add (of_int sec) (div (of_int part) (of_int (pos parts)))

  -- ts_Float
  unfoldable pub ts_float : Timespec → R
  ts_float time = seconds_of (10 ^ 9) time.tv_sec time.tv_nsec

  -- Test_gettimeofday: the two differences that it prints, from the seconds and microseconds of
  -- the readings in front of and behind each sleep.
  abbrev pub make_sec : ℤ × ℤ → R
  make_sec (sec, usec) = seconds_of (10 ^ 6) sec usec

  unfoldable pub get_time_of_day : ℤ × ℤ → ℤ × ℤ → ℤ × ℤ → ℤ × ℤ → List R
  get_time_of_day before_1 behind_1 before_2 behind_2 =
      sub (make_sec behind_1) (make_sec before_1) ∷ sub (make_sec behind_2) (make_sec before_2) ∷ []

  -- Check_Modf: 1007 milliseconds as a timespec.
  unfoldable pub check_modf : Timespec
  check_modf =
      let (fraction, integral) = modf (div (of_int (pos 1007)) (of_int (pos 1000))) in
      record {
        tv_sec = to_int64 integral;
        tv_nsec = to_int64 (mul fraction (of_int (pos (10 ^ 9))));
      }

  -- Check_LongDouble: 123 seconds and 456 nanoseconds.
  unfoldable pub check_long_double : R
  check_long_double =
      let thousand = of_int (pos 1000) in
      add (of_int (pos 123)) (div (div (div (of_int (pos 456)) thousand) thousand) thousand)
