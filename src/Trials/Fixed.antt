-- ===== src/Trials/Fixed.antt =====
-- The trials of flags, lines, texts and floating point at concrete inputs.
use native.Mathlib.Nat.{mul-div_cancel_left}
use mathlib.Core.Logic.{◌↔◌}
use nettool.Base.{
  ℕ, suc, ◌+◌, ◌-◌, ◌*◌, ◌/◌, ◌<◌, ◌≡◌, refl, true, false, ltb_ℤ, [], ◌∷◌, length, none, some, ℤ,
  pos, negsuc, ◌+ℤ◌, ◌-ℤ◌, scale, sub_ℕ, arith,
}
use nettool.Trials.Double.{Double, IsExact}
use nettool.Trials.Remaining.{CountDown, count_down_with, start, is_timeout, get_time_left}
use nettool.Trials.Remaining.Left.{scale-pos, is_timeout-started, get_time_left-started}
use nettool.Trials.States.{Flag, reset_state, is_set}
use nettool.Trials.States.Flags.{set_states, replay, reset_state_refines}
use nettool.Trials.Lines.{digits, repeat, printf_ln}
use nettool.Trials.Lines.Bounds.{printf_ln-fits}
use nettool.Trials.Scan.{Outcome, split, string_substr, sscanf_trial}
use nettool.Trials.Scan.Items.{sscanf_trial-one, string_substr-throws}

-- Numbers without a fraction.
abbrev factor : ℤ → ℤ → ℤ
factor a (pos k) = scale k a
factor a (negsuc k) = pos 0

abbrev quotient : ℤ → ℤ → ℤ
quotient (pos n) (pos k) = pos (n / k)
quotient (negsuc n) (pos k) = sub_ℕ 0 (suc n / k)
quotient a (negsuc k) = pos 0

abbrev whole : Double
whole = record {
  R = ℤ;
  of_int = λ a. a;
  add = ◌+ℤ◌;
  sub = ◌-ℤ◌;
  mul = factor;
  div = quotient;
  lt = ltb_ℤ;
  to_int64 = λ a. a;
  modf = λ a. (pos 0, a);
}

scale-negsuc : (k n : ℕ) → 0 < k * suc n → scale k (negsuc n) ≡ negsuc (k * suc n - 1)
unfolding scale
scale-negsuc k n h = ground arith

positive_product : (k n : ℕ) → 0 < k → 0 < k * suc n
positive_product k n h = grind arith

quotient-scale : (a : ℤ) (k : ℕ) → 0 < k → quotient (scale k a) (pos k) ≡ a
quotient-scale (pos n) k h = rw (scale-pos k n, mul-div_cancel_left n h) refl
quotient-scale (negsuc n) k h =
    let product = positive_product k n h in
    let same : suc (k * suc n - 1) ≡ k * suc n = omega arith in
    rw (scale-negsuc k n product, same, mul-div_cancel_left (suc n) h) (ground arith)

whole-IsExact : IsExact whole
whole-IsExact = record {
  add-of_int = λ a b p q r. refl;
  sub-of_int = λ a b p q r. refl;
  mul-of_int = λ a k p q. refl;
  div-of_int = λ a k p q nonzero. quotient-scale a k (omega arith);
  lt-of_int = λ a b p q. refl;
  to_int64-of_int = λ a p. refl;
}

-- Two minutes, started after 1000 seconds.
abbrev two_minutes : CountDown whole
two_minutes = count_down_with whole (pos 2) 0 none

is_timeout-started_example :
    is_timeout whole (some (pos 1150, pos 0)) (start whole (some (pos 1000, pos 0)) two_minutes).1
    ≡ some true
unfolding count_down_with
is_timeout-started_example =
    is_timeout-started whole whole-IsExact two_minutes 2 1000 1150 refl (omega arith) (omega arith)
      (omega arith)

-- 30 seconds late, 30 seconds are left.
get_time_left-started_example :
    get_time_left whole
      (some (pos 1150, pos 0))
      (start whole (some (pos 1000, pos 0)) two_minutes).1
    ≡ some (pos 30)
unfolding count_down_with
get_time_left-started_example =
    get_time_left-started whole whole-IsExact two_minutes 2 1000 1150 refl (omega arith)
      (omega arith) (omega arith) (omega arith)

reset_state_refines_example :
    (λ a.
      is_set a
        (set_states ((Flag.ip, true) ∷ (Flag.link, true) ∷ (Flag.ip, false) ∷ []) reset_state))
    ≡ replay ((Flag.ip, true) ∷ (Flag.link, true) ∷ (Flag.ip, false) ∷ []) (λ a. false)
reset_state_refines_example =
    reset_state_refines ((Flag.ip, true) ∷ (Flag.link, true) ∷ (Flag.ip, false) ∷ [])

-- A thread whose number has 15 digits, and the line of 61 bytes at most that fits.
printf_ln-fits_example : printf_ln (pos 1234) (pos 5) 140000000000000 (repeat 62 65) ≡ none
unfolding digits
printf_ln-fits_example =
    printf_ln-fits 1234 5 140000000000000 (repeat 62 65) (omega arith) (omega arith)

-- "10" and "ab:cd".
sscanf_trial-one_example :
    sscanf_trial ((49 ∷ 48 ∷ []) ∷ (97 ∷ 98 ∷ 58 ∷ 99 ∷ 100 ∷ []) ∷ [])
    ≡ Outcome.prints (pos 1, (97 ∷ 98 ∷ []) ∷ [])
unfolding split
sscanf_trial-one_example = sscanf_trial-one (49 ∷ 48 ∷ []) (97 ∷ 98 ∷ 58 ∷ 99 ∷ 100 ∷ []) []

string_substr-throws_example :
    (string_substr ((57 ∷ []) ∷ [] ∷ [] ∷ []) ≡ Outcome.throws)
    ↔ (length {A = ℕ} [] + length {A = ℕ} [] ≡ 0)
string_substr-throws_example = string_substr-throws (57 ∷ []) [] [] []
