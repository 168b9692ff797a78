-- ===== src/Trials/Menu.antt =====
-- test_cpp/src/main.cpp: the choice of a trial by its number, and the trial of WaitGpio.
use Prim.Native.String.{String}
use nettool.Base.{
  ℕ, zero, suc, ◌≡◌, refl, ◌==ℤ◌, if◌then◌else◌, List, [], ◌∷◌, map, Option, none, some, ℤ, pos,
  arith,
}
use nettool.Trials.Gpio.{wait_gpio_start}
use nettool.Trials.Gpio.Reads.{wait_gpio-endless}

-- What main runs.
pub data Trial : Type 0 where
  check_read_file nothing test_gettimeofday test_wait_gpio test_wait_fifo test_string : Trial
  ipcalc_main net_inet_pton string_substr sscanf calc_mask check_state_machine : Trial
  test_argv count_down main_timer main_condition_variable main_wait_signal main_sleep : Trial
  check_modf check_long_double test_unit_util_timespec_main test_gpio_select main_queue : Trial
  print_usage : Trial

-- The numbers of the trials, in order.
abbrev pub trials : List (ℕ × Trial)
trials =
    (1, Trial.check_read_file)
    ∷ (2, Trial.nothing)
    ∷ (3, Trial.test_gettimeofday)
    ∷ (4, Trial.test_wait_gpio)
    ∷ (5, Trial.test_wait_fifo)
    ∷ (6, Trial.test_string)
    ∷ (7, Trial.ipcalc_main)
    ∷ (8, Trial.net_inet_pton)
    ∷ (9, Trial.string_substr)
    ∷ (10, Trial.sscanf)
    ∷ (11, Trial.calc_mask)
    ∷ (12, Trial.check_state_machine)
    ∷ (13, Trial.test_argv)
    ∷ (14, Trial.count_down)
    ∷ (15, Trial.main_timer)
    ∷ (16, Trial.main_condition_variable)
    ∷ (17, Trial.main_wait_signal)
    ∷ (18, Trial.main_sleep)
    ∷ (19, Trial.check_modf)
    ∷ (20, Trial.check_long_double)
    ∷ (21, Trial.test_unit_util_timespec_main)
    ∷ (22, Trial.test_gpio_select)
    ∷ (23, Trial.main_queue)
    ∷ []

-- The switch of main.
unfoldable pub choose_trial : List (ℕ × Trial) → ℤ → Trial
choose_trial [] val = Trial.print_usage
choose_trial ((n, trial) ∷ rest) val =
    let other = choose_trial rest val in if val ==ℤ pos n then trial else other

-- main, with atoi and the arguments behind the program's name.
unfoldable pub main_trial : (String → ℤ) → List String → Trial
main_trial atoi [] = Trial.print_usage
main_trial atoi (arg ∷ args) = choose_trial trials (atoi arg)

-- The numbers and texts of PrintUsage.
abbrev pub usage : List (ℕ × String)
usage =
    (1, "CheckReadFile(argc, argv);")
    ∷ (2, "CheckPipe")
    ∷ (3, "Test_gettimeofday")
    ∷ (4, "Test_WaitGpio")
    ∷ (5, "Test_WaitFifo")
    ∷ (6, "TestString")
    ∷ (7, "ipcalcMain( argc, argv);")
    ∷ (8, "Net_inet_pton( argc, argv) : 8 [01] ip ")
    ∷ (9, "StringSubstr( argc, argv);")
    ∷ (10, "Sscanf(int argc, char **argv)")
    ∷ (11, "CalcMask(int argc, char **argv)")
    ∷ (12, "CheckStateMachine")
    ∷ (13, "Test_Argv")
    ∷ (14, "Countdown(int argc, char **argv)")
    ∷ (15, "timer(int argc, char **argv)")
    ∷ (16, "TEST_CONDITION_VARIABLE")
    ∷ (17, "TEST_WAIT_SIGNAL")
    ∷ (18, "TEST_SLEEP")
    ∷ (19, "TEST_MODF")
    ∷ (20, "TEST_LONG_DOUBLE")
    ∷ (21, "TEST_UTIL_TIMESPEC")
    ∷ (22, "TEST_GPIO_SELECT")
    ∷ (23, "TEST_QUEUE")
    ∷ []

-- PrintUsage lists the number of each trial once.
usage_numbers : map (λ (e : ℕ × String). e.0) usage ≡ map (λ (e : ℕ × Trial). e.0) trials
usage_numbers = refl

-- Test_WaitFifo: its calls of WaitFifoChar are commented out.
unfoldable pub run_test_wait_fifo : List String
run_test_wait_fifo = "passage_1\n" ∷ "passage_2\n" ∷ []

-- A call that returns, and what follows it.
abbrev pub after_call : Option ℤ → Option ℤ → Option ℤ
after_call none rest = none
after_call (some code) rest = rest

-- The loop of Test_WaitGpio, which calls WaitGpio for the condition 1. `none`: out of fuel.
unfoldable pub wait_gpio_calls : ℕ → ℕ → Option ℤ
wait_gpio_calls fuel zero = some (pos 0)
wait_gpio_calls fuel (suc left) =
    let rest = wait_gpio_calls fuel left in after_call (wait_gpio_start fuel (pos 1)) rest

-- Test_WaitGpio
unfoldable pub run_test_wait_gpio : ℕ → Option ℤ
run_test_wait_gpio fuel = wait_gpio_calls fuel 10

-- The trial of number 4 never returns from its first call of WaitGpio.
run_test_wait_gpio-endless : (fuel : ℕ) → run_test_wait_gpio fuel ≡ none
unfolding run_test_wait_gpio wait_gpio_calls
run_test_wait_gpio-endless fuel = rw (wait_gpio-endless fuel (pos 1) (λ e. ground arith)) refl
