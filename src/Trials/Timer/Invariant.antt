-- ===== src/Trials/Timer/Invariant.antt =====
-- What holds in every state of a run of main_Timer.
use nettool.Base.{
  ℕ, ◌≤◌, ◌<◌, ◌≡◌, ◌≢◌, ◌⊎◌, inl, inr, refl, Bool, Bool-cases, true, false, arith, ◌||◌, ltb,
}
use nettool.Trials.Timer.{
  System, MainPc, WorkerPc, init, MainStep, WorkerStep, TimerStep, Step, Reach, runs, started,
  created, armed, counting, stopping, queued, joined, returned, woken, finished, ignored, absent,
  begun,
}

-- main_Timer is behind the store to gExit, and still in its function.
abbrev is_stopping : MainPc → Bool
is_stopping stopping = true
is_stopping queued = true
is_stopping joined = true
is_stopping returned = true
is_stopping _ = false

-- main_Timer is behind pthread_join.
abbrev is_joined : MainPc → Bool
is_joined joined = true
is_joined returned = true
is_joined _ = false

abbrev is_finished : WorkerPc → Bool
is_finished finished = true
is_finished _ = false

abbrev is_queued : MainPc → Bool
is_queued queued = true
is_queued _ = false

-- main_Timer is in front of the store to gExit.
abbrev pub is_before : MainPc → Bool
is_before started = true
is_before created = true
is_before armed = true
is_before (counting ii) = true
is_before _ = false

-- main_Timer is in front of pthread_sigqueue.
abbrev is_early : MainPc → Bool
is_early started = true
is_early created = true
is_early armed = true
is_early (counting ii) = true
is_early stopping = true
is_early _ = false

-- The thread has left sigtimedwait since, or has ended.
abbrev pub is_awake : WorkerPc → Bool
is_awake finished = true
is_awake woken = true
is_awake _ = false

-- The thread has not yet made its handler.
abbrev is_new : WorkerPc → Bool
is_new absent = true
is_new begun = true
is_new _ = false

pub record Inv (s : System) : Type 0 where
  stopped : is_stopping s.main ≡ true → s.g_exit ≡ 1
  ended : is_finished s.worker ≡ true → s.g_exit ≡ 1
  joins : is_joined s.main ≡ true → is_finished s.worker ≡ true
  notified :
      is_queued s.main ≡ true
      → s.told ≡ true
      → s.action ≢ ignored
      → is_awake s.worker || ltb 0 s.pending ≡ true
  early : is_early s.main ≡ true → s.told ≡ false
  ready : s.told ≡ true → is_new s.worker ≡ false
  flag : s.g_exit ≤ 1
  pub before : is_before s.main ≡ true → s.g_exit ≡ 0

init-Inv : Inv init
init-Inv = record {
  stopped = λ e. ground arith;
  ended = λ e. ground arith;
  joins = λ e. ground arith;
  notified = λ e d h. ground arith;
  early = λ e. refl;
  ready = λ e. ground arith;
  flag = omega arith;
  before = λ e. refl;
}

MainStep-Inv : (argc : ℕ) (s t : System) → Inv s → MainStep argc s t → Inv t
MainStep-Inv argc s _ inv (MainStep.refuse e q) = grind arith
MainStep-Inv argc s _ inv (MainStep.create_timer e q) = grind arith
MainStep-Inv argc s _ inv (MainStep.create_timer_fails e q) = grind arith
MainStep-Inv argc s _ inv (MainStep.set_time e) = grind arith
MainStep-Inv argc s _ inv (MainStep.set_time_fails e) = grind arith
MainStep-Inv argc s _ inv (MainStep.create_thread e) = grind arith
MainStep-Inv argc s _ inv (MainStep.create_thread_fails e) = grind arith
MainStep-Inv argc s _ inv (MainStep.count ii e q) = grind arith
MainStep-Inv argc s _ inv (MainStep.stop e) = grind arith
MainStep-Inv argc s _ inv (MainStep.queue e a b) = grind arith
MainStep-Inv argc s _ inv (MainStep.queue_fails e a) = grind arith
MainStep-Inv argc s _ inv (MainStep.queue_kills e q) = grind arith
MainStep-Inv argc s _ inv (MainStep.queue_no_thread e q) = grind arith
MainStep-Inv argc s _ inv (MainStep.join e q) = grind arith
MainStep-Inv argc s _ inv (MainStep.unblock e) = grind arith
MainStep-Inv argc s _ inv (MainStep.unblock_fails e) = grind arith

WorkerStep-Inv : (s t : System) → runs s.main ≡ true → Inv s → WorkerStep s t → Inv t
WorkerStep-Inv s _ r inv (WorkerStep.configure e) = grind arith
WorkerStep-Inv s _ r inv (WorkerStep.configure_fails e) = grind arith
WorkerStep-Inv s _ r inv (WorkerStep.wake e q) = grind arith
WorkerStep-Inv s _ r inv (WorkerStep.wake_empty e) = grind arith
WorkerStep-Inv s _ r inv (WorkerStep.leave e q) = grind arith
WorkerStep-Inv s _ r inv (WorkerStep.again e q) = grind arith

TimerStep-Inv : (s t : System) → Inv s → TimerStep s t → Inv t
TimerStep-Inv s _ inv (TimerStep.wait a e) = grind arith
TimerStep-Inv s _ inv (TimerStep.timer_handler a e) = grind arith
TimerStep-Inv s _ inv (TimerStep.kill a e) = grind arith

Step-Inv : (argc : ℕ) (s t : System) → Inv s → Step argc s t → Inv t
Step-Inv argc s t inv (Step.of_main r step) = MainStep-Inv argc s t inv step
Step-Inv argc s t inv (Step.of_worker r step) = WorkerStep-Inv s t r inv step
Step-Inv argc s t inv (Step.of_timer r step) = TimerStep-Inv s t inv step

pub Reach-Inv : (argc : ℕ) (s : System) → Reach argc s → Inv s
Reach-Inv argc _ Reach.start = init-Inv
Reach-Inv argc t (Reach.later {s} r step) = Step-Inv argc s t (Reach-Inv argc s r) step

-- No wake-up is lost as long as Timer_handler has not run: while main_Timer waits in pthread_join,
-- its signal was queued for the thread, and signals are not ignored, gExit is 1, and the thread has
-- ended, or it is awake and ends at its test of gExit, or a signal waits for it.
pub Reach-notified :
    (argc : ℕ) (s : System)
    → Reach argc s
    → s.main ≡ queued
    → s.told ≡ true
    → s.action ≢ ignored
    → (s.g_exit ≡ 1) × ((is_awake s.worker ≡ true) ⊎ (0 < s.pending))
Reach-notified argc s r e d heard =
    let inv = Reach-Inv argc s r in
    let after : is_awake s.worker || ltb 0 s.pending ≡ true = inv.notified (ground arith) d heard in
    (
      inv.stopped (ground arith),
      elim (Bool-cases (is_awake s.worker)) [ inl q ↦ inl q | inr q ↦ inr (ground arith) ],
    )
