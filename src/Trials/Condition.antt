-- ===== src/Trials/Condition.antt =====
-- test_cpp/src/Test_condition_variable.c: a thread that waits on a condition for 20 seconds at a
-- time. The readings of the clock are parameters.
pub mod Deadline
use nettool.Base.{
  ℕ, zero, suc, ◌+◌, if◌then◌else◌, List, [], ◌∷◌, ◌++◌, ℤ, pos, ◌+ℤ◌, ◌-ℤ◌, ltb_ℤ, scale, tdiv,
  tmod,
}
use nettool.Netlink.System.{number}
use nettool.Trials.Time.{Timespec, billion}
use nettool.Trials.Calls.{
  Call, line, mutex_init, mutex_lock, mutex_unlock, create_thread, cond_signal, cond_timedwait,
  usleep,
}

pub record Timeval : Type 0 where
  pub tv_sec : ℤ
  pub tv_usec : ℤ

-- absTimeToWait, by the clock's reading and the timeout in milliseconds.
unfoldable pub deadline : Timeval → ℤ → Timespec
deadline now timeout_ms =
    let sec = now.tv_sec +ℤ tdiv timeout_ms 1000 in
    let nsec = scale 1000 now.tv_usec +ℤ scale 1000000 (tmod timeout_ms 1000) in
    if ltb_ℤ (pos billion) nsec
    then record { tv_sec = sec +ℤ pos 1; tv_nsec = nsec -ℤ pos billion }
    else record { tv_sec = sec; tv_nsec = nsec }

unfoldable pub condition_variable_wait : Timeval → ℤ → List Call
condition_variable_wait now timeout_ms =
    mutex_lock
    ∷ line "ConditionVariable_wait_1" []
    ∷ cond_timedwait (deadline now timeout_ms)
    ∷ line "ConditionVariable_wait_2" []
    ∷ mutex_unlock
    ∷ []

-- The rounds of the thread's endless loop, one for each reading of the clock.
unfoldable pub wait_rounds : List Timeval → List Call
wait_rounds [] = []
wait_rounds (now ∷ readings) =
    line "funcThread_2" [] ∷ condition_variable_wait now (pos 20000)
    ++ line "funcThread_3" [] ∷ wait_rounds readings

-- ConditionVariable_funcThread
unfoldable pub condition_variable_func_thread : List Timeval → List Call
condition_variable_func_thread readings = line "funcThread_1 " [] ∷ wait_rounds readings

-- ConditionVariable_CreateThread, with the answer of pthread_create.
unfoldable pub condition_variable_create_thread : ℤ → ℤ × List Call
condition_variable_create_thread answer = (answer, line "CreateThread" [] ∷ create_thread ∷ [])

-- The loop of main_ConditionVariable from a count on.
unfoldable pub count_seconds : ℕ → ℕ → List Call
count_seconds ii zero = []
count_seconds ii (suc left) =
    line "ConditionVariable_main : ii = %d" (number (pos ii) ∷ [])
    ∷ Call.sleep 1
    ∷ count_seconds (ii + 1) left

-- main_ConditionVariable
unfoldable pub main_condition_variable : ℤ → ℤ × List Call
main_condition_variable answer = (
  pos 0,
  mutex_init ∷ (condition_variable_create_thread answer).1
      ++ usleep 10000 ∷ count_seconds 0 60
      ++ line "ConditionVariable_main_1 : " []
        ∷ cond_signal
        ∷ line "ConditionVariable_main_2 : " []
        ∷ [],
)
