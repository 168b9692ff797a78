-- ===== src/Trials/Remaining/Left.antt =====
-- When a countdown is over, and what it says is left, for a clock that reads whole seconds.
use mathlib.Core.Option
use nettool.Base.{
  ◌==ℤ◌, true, refl, ℕ, ◌+◌, ◌-◌, ◌*◌, ◌^◌, ◌<◌, ◌≡◌, sym, ◌∙◌, ap, ltb, ltb_ℤ, if◌then◌else◌, some,
  pos, scale, sub_ℕ, ◌+ℤ◌, ◌-ℤ◌, arith,
}
use nettool.Netlink.Headers.{to_int, to_unsigned}
use nettool.Trials.Double.{Double, IsExact, IsSmall, seconds_of}
use nettool.Trials.Remaining.{
  get_timeout_min, CountDown, magnitude, start, get_date_now, get_date_start, get_timeout_date,
  is_timeout, get_time_left_microsecond, get_time_left,
}

pub scale-pos : (k n : ℕ) → scale k (pos n) ≡ pos (k * n)
unfolding scale
scale-pos k n = ground arith

pos-add : (a b : ℕ) → pos a +ℤ pos b ≡ pos (a + b)
unfolding ◌+ℤ◌
pos-add a b = ground arith

pos-sub : (a b : ℕ) → pos a -ℤ pos b ≡ sub_ℕ a b
unfolding ◌-ℤ◌
pos-sub a b = ground arith

scale-IsSmall : (k n : ℕ) → k * n < 2 ^ 53 → IsSmall (scale k (pos n))
scale-IsSmall k n h = rw (scale-pos k n) (omega arith)

sum-IsSmall : (a b : ℕ) → a + b < 2 ^ 53 → IsSmall (pos a +ℤ pos b)
sum-IsSmall a b h = rw (pos-add a b) (omega arith)

difference-IsSmall : (a b : ℕ) → a < 2 ^ 53 → b < 2 ^ 53 → IsSmall (sub_ℕ a b)
difference-IsSmall a b h k = ground arith

below_zero : (a b : ℕ) → ltb_ℤ (sub_ℕ a b) (pos 0) ≡ ltb a b
below_zero a b = ground arith

-- The distance of two numbers.
abbrev pub distance : ℕ → ℕ → ℕ
distance a b = if ltb a b then b - a else a - b

micros-IsSmall : (a b : ℕ) → a < 2 ^ 32 → b < 2 ^ 32 → IsSmall (scale (10 ^ 6) (sub_ℕ a b))
unfolding scale
micros-IsSmall a b h k = ground arith

cut_distance :
    (a b : ℕ)
    → distance a b < 2 ^ 31
    → to_int (to_unsigned (magnitude (sub_ℕ a b))) ≡ pos (distance a b)
cut_distance a b h = ground arith

fitting : (n : ℕ) → n < 2 ^ 31 → to_int (to_unsigned (pos n)) ==ℤ pos n ≡ true
fitting n h = ground arith

module _ (D : Double) (exact : IsExact D) where
  open D use {of_int, add, sub, mul, div, lt, to_int64}

  whole_seconds : (s : ℕ) → s < 2 ^ 53 → seconds_of D (10 ^ 9) (pos s) (pos 0) ≡ of_int (pos s)
  whole_seconds s small =
      let none_left : div (of_int (pos 0)) (of_int (pos (10 ^ 9))) ≡ of_int (pos 0) =
        ap (λ z. div (of_int z) (of_int (pos (10 ^ 9)))) (sym (scale-pos (10 ^ 9) 0))
        ∙ exact.div-of_int (pos 0) (10 ^ 9) (scale-IsSmall (10 ^ 9) 0 (omega arith)) (omega arith)
            (λ e. ground arith) in
      ap (add (of_int (pos s))) none_left
      ∙ exact.add-of_int (pos s) (pos 0) (omega arith) (omega arith) (sum-IsSmall s 0 (omega arith))
      ∙ ap of_int (pos-add s 0 ∙ ap pos (omega arith))

  module _ (c : CountDown D) (m begun now : ℕ) (minutes : c.timeout_min ≡ pos m)
      (fits : 60 * m < 2 ^ 31) (small : begun + 60 * m < 2 ^ 32) (small_now : now < 2 ^ 32) where
    abbrev started : CountDown D
    started = (start D (some (pos begun, pos 0)) c).1

    product_fits : to_int (to_unsigned (scale 60 (pos m))) ==ℤ scale 60 (pos m) ≡ true
    product_fits = rw (scale-pos 60 m) (fitting (60 * m) fits)

    timeout_date : get_timeout_date D started ≡ some (of_int (pos (begun + 60 * m)))
    unfolding get_timeout_date get_timeout_min get_date_start start
    timeout_date =
        let sum : add (seconds_of D (10 ^ 9) (pos begun) (pos 0)) (of_int (scale 60 (pos m)))
            ≡ of_int (pos (begun + 60 * m)) =
          ap (λ x. add x (of_int (scale 60 (pos m)))) (whole_seconds begun (omega arith))
          ∙ ap (λ z. add (of_int (pos begun)) (of_int z)) (scale-pos 60 m)
          ∙ exact.add-of_int (pos begun) (pos (60 * m)) (omega arith) (omega arith)
              (sum-IsSmall begun (60 * m) (omega arith))
          ∙ ap of_int (pos-add begun (60 * m)) in
        rw (minutes, product_fits, sum) refl

    remaining_time :
        sub (of_int (pos (begun + 60 * m))) (get_date_now D (some (pos now, pos 0))).1
        ≡ of_int (sub_ℕ (begun + 60 * m) now)
    unfolding get_date_now
    remaining_time =
        ap (sub (of_int (pos (begun + 60 * m)))) (whole_seconds now (omega arith))
        ∙ exact.sub-of_int (pos (begun + 60 * m)) (pos now) (omega arith) (omega arith) (
            rw (pos-sub (begun + 60 * m) now)
              (difference-IsSmall (begun + 60 * m) now (omega arith) (omega arith)))
        ∙ ap of_int (pos-sub (begun + 60 * m) now)

    -- For readings of whole seconds, fewer than 35791395 minutes, and times below 2 ^ 32: a countdown
    -- that is started is timed out, at a later or earlier reading, exactly when more than its
    -- minutes have passed since.
    pub is_timeout-started :
        is_timeout D (some (pos now, pos 0)) started ≡ some (ltb (begun + 60 * m) now)
    unfolding is_timeout
    is_timeout-started =
        let T = begun + 60 * m in
        ap (Option.map (λ date. lt (sub date _) (of_int (pos 0)))) timeout_date
        ∙ ap (λ x. some (lt x (of_int (pos 0)))) remaining_time
        ∙ ap some (
            exact.lt-of_int (sub_ℕ T now) (pos 0)
              (difference-IsSmall T now (omega arith) (omega arith)) (omega arith)
            ∙ below_zero T now)

    microseconds_left :
        get_time_left_microsecond D (some (pos now, pos 0)) started
        ≡ some (scale (10 ^ 6) (sub_ℕ (begun + 60 * m) now))
    unfolding get_time_left_microsecond
    microseconds_left =
        let z = sub_ℕ (begun + 60 * m) now in
        let small_z = micros-IsSmall (begun + 60 * m) now small small_now in
        ap (Option.map (λ date. to_int64 (mul (sub date _) (of_int (pos (10 ^ 6)))))) timeout_date
        ∙ ap (λ x. some (to_int64 (mul x (of_int (pos (10 ^ 6)))))) remaining_time
        ∙ ap (λ x. some (to_int64 x)) (exact.mul-of_int z (10 ^ 6) small_z (omega arith))
        ∙ ap some (exact.to_int64-of_int (scale (10 ^ 6) z) small_z)

    -- For readings of whole seconds, fewer than 35791395 minutes, and times below 2 ^ 32 whose
    -- distance is below 2 ^ 31: what getTimeLeft answers is the distance to the end of the countdown,
    -- before it and behind it alike. Once the countdown is over, the time left grows again.
    pub get_time_left-started :
        distance (begun + 60 * m) now < 2 ^ 31
        → get_time_left D (some (pos now, pos 0)) started
          ≡ some (pos (distance (begun + 60 * m) now))
    unfolding get_time_left
    get_time_left-started short =
        let T = begun + 60 * m in
        let z = sub_ℕ T now in
        let million = of_int (pos (10 ^ 6)) in
        let small_z = micros-IsSmall T now small small_now in
        ap (Option.map (λ x. to_int (to_unsigned (magnitude (to_int64 (div (of_int x) million))))))
          microseconds_left
        ∙ ap (λ x. some (to_int (to_unsigned (magnitude (to_int64 x)))))
            (exact.div-of_int z (10 ^ 6) small_z (omega arith) (λ e. ground arith))
        ∙ ap (λ x. some (to_int (to_unsigned (magnitude x))))
            (exact.to_int64-of_int z (difference-IsSmall T now (omega arith) (omega arith)))
        ∙ ap some (cut_distance T now short)
