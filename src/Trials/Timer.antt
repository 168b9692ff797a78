-- ===== src/Trials/Timer.antt =====
-- test_cpp/src/Timer.c: a thread that waits for the signal of a timer until it is told to stop,
-- beside main_Timer, with the steps of the two and of the kernel in any order. Lines that are
-- printed are left out. A call that can fail has a step for each of its outcomes.
pub mod Invariant
pub mod Awake
use nettool.Base.{ℕ, ◌+◌, ◌-◌, ◌<◌, ◌≡◌, ◌≢◌, Bool, true, false}

-- Where main_Timer stands: behind the test of argc, Timer_CreateTimer, Timer_SetTime,
-- Timer_CreateThread with the seconds it counted, the store to gExit in Timer_StopTimer, its
-- pthread_sigqueue, pthread_join, and sigprocmask. errExit ends the process, as a signal without
-- a handler does; a call for a thread that was never created is undefined.
pub data MainPc : Type 0 where
  started created armed : MainPc
  counting : ℕ → MainPc
  stopping queued joined returned : MainPc
  usage failed killed undefined : MainPc

-- Where Timer_funcThread stands: not created, behind its creation, Timer_ConfigureSignal and the
-- two steps of a round of its loop, and behind its end.
pub data WorkerPc : Type 0 where
  absent begun waiting woken finished : WorkerPc

-- What SIGRTMIN does.
pub data Action : Type 0 where
  default handler ignored : Action

-- `pending` counts the signals of SIGRTMIN that wait for the thread; `told` says whether that of
-- pthread_sigqueue was among them.
pub record System : Type 0 where
  pub g_exit : ℕ
  pub pending : ℕ
  pub told : Bool
  pub action : Action
  pub main : MainPc
  pub worker : WorkerPc

-- main_Timer with argc arguments, of which it needs four.
abbrev pub init : System
init = record {
  g_exit = 0;
  pending = 0;
  told = false;
  action = default;
  main = started;
  worker = absent;
}

abbrev pub at_main : System → MainPc → System
at_main s m = record {
  g_exit = s.g_exit;
  pending = s.pending;
  told = s.told;
  action = s.action;
  main = m;
  worker = s.worker;
}

abbrev pub at_worker : System → WorkerPc → System
at_worker s w = record {
  g_exit = s.g_exit;
  pending = s.pending;
  told = s.told;
  action = s.action;
  main = s.main;
  worker = w;
}

-- The process still runs.
abbrev pub runs : MainPc → Bool
runs returned = false
runs usage = false
runs failed = false
runs killed = false
runs undefined = false
runs _ = true

-- The timer is set.
abbrev pub is_armed : MainPc → Bool
is_armed started = false
is_armed created = false
is_armed _ = true

-- Steps of main_Timer.
pub data MainStep (argc : ℕ) (s : System) : System → Type 0 where
  refuse : s.main ≡ started → argc ≢ 4 → MainStep argc s (at_main s usage)
  create_timer : s.main ≡ started → argc ≡ 4 → MainStep argc s (at_main s created)
  create_timer_fails : s.main ≡ started → argc ≡ 4 → MainStep argc s (at_main s failed)
  set_time : s.main ≡ created → MainStep argc s (at_main s armed)
  set_time_fails : s.main ≡ created → MainStep argc s (at_main s failed)
  create_thread : s.main ≡ armed → MainStep argc s (at_worker (at_main s (counting 0)) begun)
  -- The answer of Timer_CreateThread is not looked at.
  create_thread_fails : s.main ≡ armed → MainStep argc s (at_main s (counting 0))
  count :
      (ii : ℕ) → s.main ≡ counting ii → ii < 10 → MainStep argc s (at_main s (counting (ii + 1)))
  stop :
      s.main ≡ counting 10
      → MainStep argc s (record {
        g_exit = 1;
        pending = s.pending;
        told = s.told;
        action = s.action;
        main = stopping;
        worker = s.worker;
      })
  queue :
      s.main ≡ stopping
      → s.worker ≢ absent
      → s.worker ≢ begun
      → MainStep argc s (record {
        g_exit = s.g_exit;
        pending = s.pending + 1;
        told = true;
        action = s.action;
        main = queued;
        worker = s.worker;
      })
  -- A signal that is ignored, or that no room is left for, does not reach the thread.
  queue_fails : s.main ≡ stopping → s.worker ≢ absent → MainStep argc s (at_main s queued)
  -- The thread has not yet blocked the signal, which has no handler.
  queue_kills : s.main ≡ stopping → s.worker ≡ begun → MainStep argc s (at_main s killed)
  queue_no_thread : s.main ≡ stopping → s.worker ≡ absent → MainStep argc s (at_main s undefined)
  join : s.main ≡ queued → s.worker ≡ finished → MainStep argc s (at_main s joined)
  unblock : s.main ≡ joined → MainStep argc s (at_main s returned)
  unblock_fails : s.main ≡ joined → MainStep argc s (at_main s failed)

-- Steps of Timer_funcThread.
pub data WorkerStep (s : System) : System → Type 0 where
  -- sigaction and sigprocmask of Timer_ConfigureSignal.
  configure :
      s.worker ≡ begun
      → WorkerStep s (record {
        g_exit = s.g_exit;
        pending = s.pending;
        told = s.told;
        action = handler;
        main = s.main;
        worker = waiting;
      })
  configure_fails : s.worker ≡ begun → WorkerStep s (at_main s failed)
  -- sigtimedwait answers a signal, or fails: after 1000 seconds or for a handler.
  wake :
      s.worker ≡ waiting
      → 0 < s.pending
      → WorkerStep s (record {
        g_exit = s.g_exit;
        pending = s.pending - 1;
        told = s.told;
        action = s.action;
        main = s.main;
        worker = woken;
      })
  wake_empty : s.worker ≡ waiting → WorkerStep s (at_worker s woken)
  -- `if( gExit ) break;`
  leave : s.worker ≡ woken → s.g_exit ≢ 0 → WorkerStep s (at_worker s finished)
  again : s.worker ≡ woken → s.g_exit ≡ 0 → WorkerStep s (at_worker s waiting)

-- The timer expires. Its signal waits for the thread, or it is delivered to main_Timer: then
-- Timer_handler ignores the next ones, by which signal(2) discards those that wait, also for the
-- thread; and without a handler the process ends.
pub data TimerStep (s : System) : System → Type 0 where
  wait :
      is_armed s.main ≡ true
      → s.worker ≡ waiting
      → TimerStep s (record {
        g_exit = s.g_exit;
        pending = s.pending + 1;
        told = s.told;
        action = s.action;
        main = s.main;
        worker = s.worker;
      })
  timer_handler :
      is_armed s.main ≡ true
      → s.action ≡ handler
      → TimerStep s (record {
        g_exit = s.g_exit;
        pending = 0;
        told = s.told;
        action = ignored;
        main = s.main;
        worker = s.worker;
      })
  kill : is_armed s.main ≡ true → s.action ≡ default → TimerStep s (at_main s killed)

pub data Step (argc : ℕ) (s : System) : System → Type 0 where
  of_main : {t : System} → runs s.main ≡ true → MainStep argc s t → Step argc s t
  of_worker : {t : System} → runs s.main ≡ true → WorkerStep s t → Step argc s t
  of_timer : {t : System} → runs s.main ≡ true → TimerStep s t → Step argc s t

-- The states of a run of main_Timer.
pub data Reach (argc : ℕ) : System → Type 0 where
  start : Reach argc init
  later : {s t : System} → Reach argc s → Step argc s t → Reach argc t
