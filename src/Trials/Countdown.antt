-- ===== src/Trials/Countdown.antt =====
-- test_cpp/src/test.cpp: the countdowns and the printing of arguments. The readings of the clock
-- and of the uptime, one for each second slept, are parameters.
use Prim.Native.String.{String}
use mathlib.Core.List.{append-nil}
use nettool.Base.{
  ℕ, ◌+◌, ◌^◌, ◌<◌, ◌≤◌, ◌≡◌, refl, sym, ap, ◌∙◌, map, Bool, true, false, leb_ℤ, if◌then◌else◌,
  List, [], ◌∷◌, ◌++◌, All, ℤ, pos, ◌-ℤ◌, arith,
}
use nettool.Netlink.Headers.{to_int, to_unsigned}
use nettool.Netlink.System.{number, text}
use nettool.Trials.Calls.{Call, line}
use nettool.Trials.Counter.{Counter, counter_with, start, is_timeout}

-- A loop that sleeps: it ended, or it waits for another reading.
pub data Countdown : Type 0 where
  ended waits : List Call → Countdown

abbrev pub after : Call → Countdown → Countdown
after call (ended calls) = ended (call ∷ calls)
after call (waits calls) = waits (call ∷ calls)

-- vDiff of CountDown_2, an int.
abbrev pub difference : ℤ → ℤ → ℤ
difference now begun = to_int (to_unsigned (now -ℤ begun))

-- The loop of CountDown_2, from the seconds that the clock reads.
unfoldable pub count_down_rounds : ℤ → List ℤ → Countdown
count_down_rounds begun [] = waits (Call.sleep 1 ∷ [])
count_down_rounds begun (now ∷ readings) =
    let rest = count_down_rounds begun readings in
    let diff = difference now begun in
    after (Call.sleep 1) (
      after (line "CountDown_2 : now = %d diff = %d \n" (number now ∷ number diff ∷ []))
        (if leb_ℤ (pos 100) diff then ended [] else rest))

-- CountDown_2
unfoldable pub count_down_2 : ℤ → List ℤ → Countdown
count_down_2 begun readings =
    after (line "\nCountDown_2 : start = %d \n\n" (number begun ∷ []))
      (count_down_rounds begun readings)

-- CountDown
unfoldable pub count_down : ℤ → List ℤ → Countdown
count_down begun readings = count_down_2 begun readings

-- The loop of CountDown_1, from the uptimes that sysinfo reads; isTimeout prints a line of its own,
-- which is left out.
unfoldable pub timeout_rounds : Counter → List ℤ → Countdown
timeout_rounds c [] = waits (Call.sleep 1 ∷ [])
timeout_rounds c (now ∷ uptimes) =
    let next = is_timeout now c in
    let rest = timeout_rounds next.1 uptimes in
    after (Call.sleep 1) (if next.0 then ended (line "\nTimeOut !!!!!!!!!!\n" [] ∷ []) else rest)

-- CountDown_1 with three arguments, of which the last one reads as a number; what the counter
-- held is a parameter.
unfoldable pub count_down_1 : Counter → String → ℕ → ℤ → List ℤ → Countdown
count_down_1 c arg timeout uptime uptimes =
    after (line "\nCountDown :  timeout=%s \n\n" (text arg ∷ []))
      (timeout_rounds (start uptime (counter_with timeout c)) uptimes)

-- Print_Argv from an index on, over the arguments in front of the null pointer, of which it needs
-- one.
unfoldable pub print_argv : ℕ → String → List String → List Call
print_argv ii arg [] = line "%d=%s\n" (number (pos ii) ∷ text arg ∷ []) ∷ []
print_argv ii arg (next ∷ args) =
    line "%d=%s\n" (number (pos ii) ∷ text arg ∷ []) ∷ print_argv (ii + 1) next args

-- Test_Argv
unfoldable pub test_argv : List Call
test_argv = print_argv 0 "arg_0" ("arg_1" ∷ "arg_2" ∷ "arg_3" ∷ [])

-- CheckStateMachine, whose body is commented out.
unfoldable pub check_state_machine : List Call
check_state_machine = []

-- The loop ended.
abbrev pub has_ended : Countdown → Bool
has_ended (ended calls) = true
has_ended (waits calls) = false

has_ended-after : (call : Call) (c : Countdown) → has_ended (after call c) ≡ has_ended c
has_ended-after call (ended calls) = refl
has_ended-after call (waits calls) = refl

-- The seconds since the start are fewer than 100.
abbrev pub IsShort : ℕ → ℕ → Type 0
IsShort begun now = (begun ≤ now) × (now < begun + 100)

has_ended-if :
    (b : Bool) (c : Countdown)
    → has_ended (if b then ended [] else c) ≡ (if b then true else has_ended c)
has_ended-if true c = refl
has_ended-if false c = refl

round_ended :
    (begun now : ℤ) (rest : List ℤ)
    → has_ended (count_down_rounds begun (now ∷ rest)) ≡ (
        if leb_ℤ (pos 100) (difference now begun)
        then true
        else has_ended (count_down_rounds begun rest))
unfolding count_down_rounds
round_ended begun now rest =
    has_ended-after (Call.sleep 1) _
    ∙ has_ended-after _ _
    ∙ has_ended-if (leb_ℤ (pos 100) (difference now begun)) (count_down_rounds begun rest)

early_round :
    (begun now : ℕ) → IsShort begun now → leb_ℤ (pos 100) (difference (pos now) (pos begun)) ≡ false
unfolding ◌-ℤ◌
early_round begun now h = ground arith

late_round :
    (begun now : ℕ)
    → begun + 100 ≤ now
    → now < begun + 2 ^ 31
    → leb_ℤ (pos 100) (difference (pos now) (pos begun)) ≡ true
unfolding ◌-ℤ◌
late_round begun now h l = ground arith

rounds_early :
    (begun : ℕ) (early : List ℕ) (rest : List ℤ)
    → All (IsShort begun) early
    → has_ended (count_down_rounds (pos begun) (map pos early ++ rest))
      ≡ has_ended (count_down_rounds (pos begun) rest)
rounds_early begun [] rest h = refl
rounds_early begun (now ∷ early) rest (h, hs) =
    round_ended (pos begun) (pos now) (map pos early ++ rest)
    ∙ rw (early_round begun now h) (rounds_early begun early rest hs)

count_down_2_rounds :
    (begun : ℤ) (readings : List ℤ)
    → has_ended (count_down_2 begun readings) ≡ has_ended (count_down_rounds begun readings)
unfolding count_down_2
count_down_2_rounds begun readings = has_ended-after _ (count_down_rounds begun readings)

-- While the clock reads fewer than 100 seconds since the start, CountDown_2 goes on; it ends at the
-- first reading of 100 seconds or more, as long as they are fewer than 2 ^ 31.
pub count_down_2-ended :
    (begun : ℕ) (early : List ℕ) (now : ℕ) (rest : List ℤ)
    → All (IsShort begun) early
    → begun + 100 ≤ now
    → now < begun + 2 ^ 31
    → (has_ended (count_down_2 (pos begun) (map pos early)) ≡ false)
      × (has_ended (count_down_2 (pos begun) (map pos early ++ pos now ∷ rest)) ≡ true)
unfolding count_down_rounds
count_down_2-ended begun early now rest h l b = (
  count_down_2_rounds (pos begun) (map pos early)
      ∙ ap (λ r. has_ended (count_down_rounds (pos begun) r)) (sym (append-nil (map pos early)))
      ∙ rounds_early begun early [] h,
  count_down_2_rounds (pos begun) (map pos early ++ pos now ∷ rest)
      ∙ rounds_early begun early (pos now ∷ rest) h
      ∙ round_ended (pos begun) (pos now) rest
      ∙ rw (late_round begun now l b) refl,
)
