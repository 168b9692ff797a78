-- ===== src/Trials/Signals.antt =====
-- test_cpp/src/Test_waitSignal.c: a thread that waits for a signal for at most two seconds, less the
-- time its work took. What the clock and the calls answer in a round is a parameter.
pub mod Rounds
use Prim.Native.String.{String}
use nettool.Base.{ℕ, if◌then◌else◌, List, [], ◌∷◌, ◌++◌, ℤ, pos, ltb_ℤ, ◌==ℤ◌}
use nettool.Netlink.System.{number, text}
use nettool.Trials.Time.{Timespec, ts_subtract}
use nettool.Trials.Calls.{
  Call, line, mutex_init, create_thread, set_mask, block, sigtimedwait, sigqueue, getchar,
}

-- SIGRTMIN + 1, with SIGRTMIN of the GNU C library.
abbrev pub sig_stop : ℕ
sig_stop = 35

-- A round of the thread: what sigtimedwait answered and left in errno, and the clock after
-- sigtimedwait and after the work.
pub record Round : Type 0 where
  pub answer : ℤ
  pub errno : ℤ
  pub woken : Timespec
  pub after : Timespec

-- g_Timeout and g_DateStart.
pub record Globals : Type 0 where
  pub timeout : Timespec
  pub date_start : Timespec

-- The text for errno behind a call that failed.
unfoldable pub wait_verdict : ℤ → ℤ → String
wait_verdict answer errno =
    if ltb_ℤ (pos 0) answer
    then "***********************   OK"
    else if errno ==ℤ pos 11
    then "EAGAIN"
    else if errno ==ℤ pos 4
    then "EINTR"
    else if errno ==ℤ pos 22
    then "EINVAL"
    else "ERROR !!!"

-- WaitSignal_Wait
unfoldable pub wait_signal_wait : Round → Globals → Globals × List Call
wait_signal_wait r g = (
  record { timeout = g.timeout; date_start = r.woken },
  sigtimedwait g.timeout
      ∷ line "WaitSignal_Wait_2 : vretcode=%d %s"
          (number r.answer ∷ text (wait_verdict r.answer r.errno) ∷ [])
      ∷ [],
)

-- WaitSignal_Config
unfoldable pub wait_signal_config : List Call
wait_signal_config =
    set_mask sig_stop
    ∷ block sig_stop
    ∷ line "WaitSignal_Config : Blocking signal %d" (number (pos sig_stop) ∷ [])
    ∷ []

abbrev pub two_seconds : Timespec
two_seconds = record { tv_sec = pos 2; tv_nsec = pos 0 }

-- A round of the loop of WaitSignal_funcThread. Its arithmetic on vdDiff has no effect.
unfoldable pub wait_signal_round : Round → Globals → Globals × List Call
wait_signal_round r g =
    let woken = wait_signal_wait r g in
    let spent = ts_subtract r.after woken.0.date_start in
    let left = ts_subtract two_seconds spent in
    (
      record { timeout = left; date_start = woken.0.date_start },
      line "funcThread_2" [] ∷ woken.1
          ++ line "funcThread_3" []
            ∷ line "funcThread_4 diff_sec=%ld diff_ns=%ld"
                (number left.tv_sec ∷ number left.tv_nsec ∷ [])
            ∷ line "funcThread_4" []
            ∷ [],
    )

-- The rounds of the loop, which NbLoop never ends.
unfoldable pub wait_signal_rounds : List Round → Globals → List Call
wait_signal_rounds [] g = []
wait_signal_rounds (r ∷ rounds) g =
    let next = wait_signal_round r g in next.1 ++ wait_signal_rounds rounds next.0

-- WaitSignal_funcThread, which finds g_Timeout as {0, 0}.
unfoldable pub wait_signal_func_thread : Timespec → List Round → List Call
wait_signal_func_thread date_start rounds =
    wait_signal_config
    ++ line "funcThread_1 " []
      ∷ wait_signal_rounds rounds (record { timeout = two_seconds; date_start = date_start })

-- WaitSignal_CreateThread, with the answer of pthread_create.
unfoldable pub wait_signal_create_thread : ℤ → ℤ × List Call
wait_signal_create_thread answer = (answer, line "CreateThread" [] ∷ create_thread ∷ [])

unfoldable pub queue_verdict : ℤ → String
queue_verdict answer =
    if answer ==ℤ pos 0
    then "NO_ERROR"
    else if answer ==ℤ pos 11
    then "EAGAIN"
    else if answer ==ℤ pos 22
    then "EINVAL"
    else if answer ==ℤ pos 38
    then "ENOSYS"
    else if answer ==ℤ pos 3
    then "ESRCH"
    else "ERROR !!!"

-- The endless loop of main_WaitSignal, one round for each answer of pthread_sigqueue.
unfoldable pub key_rounds : List ℤ → List Call
key_rounds [] = []
key_rounds (answer ∷ answers) =
    line "main_WaitSignal : Apuyer sur une touche pour continuer" []
    ∷ getchar
    ∷ sigqueue sig_stop
    ∷ line "main_WaitSignal : pthread_sigqueue = %d %s"
        (number answer ∷ text (queue_verdict answer) ∷ [])
    ∷ key_rounds answers

-- main_WaitSignal, with the answer of pthread_create.
unfoldable pub main_wait_signal : ℤ → List ℤ → List Call
main_wait_signal answer answers =
    mutex_init ∷ (wait_signal_create_thread answer).1 ++ key_rounds answers
