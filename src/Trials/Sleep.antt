-- ===== src/Trials/Sleep.antt =====
-- test_cpp/src/Sleep.c: a thread that sleeps ten seconds at a time, with SIGUSR1 blocked. What the
-- calls answer is a parameter.
use Prim.Native.String.{String}
use nettool.Base.{ℕ, List, [], ◌∷◌, ◌++◌, ℤ, pos}
use nettool.Netlink.System.{number, text}
use nettool.Trials.Calls.{Call, line, create_thread, set_mask, block, sigaction, sigqueue, getchar}

-- A call's answer, and the errno behind it with its text.
pub record Answer : Type 0 where
  pub answer : ℤ
  pub errno : ℤ
  pub message : String

abbrev pub sigusr1 : ℕ
sigusr1 = 10

unfoldable pub sleep_static_handler : ℤ → List Call
sleep_static_handler signal =
    line "Sleep_staticHandler  a_Signal= %X-%d" (number signal ∷ number signal ∷ []) ∷ []

unfoldable pub sleep_config_signal : ℕ → ℤ × List Call
sleep_config_signal signal = (
  pos 0,
  set_mask signal
      ∷ block signal
      ∷ sigaction signal
      ∷ line "*** CTimeout::ConfigSignal() : Blocking signal %X-%d"
          (number (pos signal) ∷ number (pos signal) ∷ [])
      ∷ [],
)

-- The rounds of the thread's endless loop, one for each answer of sleep.
unfoldable pub sleep_rounds : List Answer → List Call
sleep_rounds [] = []
sleep_rounds (a ∷ answers) =
    line "Sleep_funcThread_2 WAIT()" []
    ∷ Call.sleep 10
    ∷ line "Sleep_funcThread_3 : sleep vRetcode=%d errno=%d %s"
        (number a.answer ∷ number a.errno ∷ text a.message ∷ [])
    ∷ sleep_rounds answers

unfoldable pub sleep_func_thread : List Answer → List Call
sleep_func_thread answers =
    (sleep_config_signal sigusr1).1 ++ line "Sleep_funcThread_1" [] ∷ sleep_rounds answers

-- The endless loop of main_Sleep, one round for each answer of pthread_sigqueue.
unfoldable pub queue_rounds : List Answer → List Call
queue_rounds [] = []
queue_rounds (a ∷ answers) =
    line "main_Sleep : Type to continue ..." []
    ∷ getchar
    ∷ sigqueue sigusr1
    ∷ line "main_Sleep : pthread_sigqueue vRetcode=%d errno=%d %s"
        (number a.answer ∷ number a.errno ∷ text a.message ∷ [])
    ∷ queue_rounds answers

unfoldable pub main_sleep : List Answer → List Call
main_sleep answers = create_thread ∷ queue_rounds answers
