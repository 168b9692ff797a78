-- ===== src/Trials/Timer/Awake.antt =====
-- Once gExit is set, the thread of Timer.c ends at its next wake-up.
use nettool.Base.{ℕ, ◌≡◌, refl, true, arith}
use nettool.Trials.Timer.{System, MainStep, WorkerStep, TimerStep, Step, Reach}
use nettool.Trials.Timer.Invariant.{Inv, Reach-Inv, is_awake}

-- The flag stays set, and who is awake stays awake.
abbrev Stays : System → System → Type 0
Stays s t = (t.g_exit ≡ 1) × (is_awake s.worker ≡ true → is_awake t.worker ≡ true)

MainStep-Stays : (argc : ℕ) (s t : System) → Inv s → s.g_exit ≡ 1 → MainStep argc s t → Stays s t
MainStep-Stays argc s _ inv e (MainStep.create_thread q) = absurd (ground (arith, inv.before))
MainStep-Stays argc s _ inv e (MainStep.stop q) = (refl, λ a. a)
MainStep-Stays argc s _ inv e _ = (e, λ a. a)

WorkerStep-Stays : (s t : System) → s.g_exit ≡ 1 → WorkerStep s t → Stays s t
WorkerStep-Stays s _ e (WorkerStep.configure q) = (e, λ a. ground arith)
WorkerStep-Stays s _ e (WorkerStep.configure_fails q) = (e, λ a. a)
WorkerStep-Stays s _ e (WorkerStep.again q n) = absurd (ground arith)
WorkerStep-Stays s _ e _ = (e, λ a. refl)

TimerStep-Stays : (s t : System) → s.g_exit ≡ 1 → TimerStep s t → Stays s t
TimerStep-Stays s _ e (TimerStep.wait a q) = (e, λ a. a)
TimerStep-Stays s _ e (TimerStep.timer_handler a q) = (e, λ a. a)
TimerStep-Stays s _ e (TimerStep.kill a q) = (e, λ a. a)

stays : (argc : ℕ) (s t : System) → Reach argc s → Step argc s t → s.g_exit ≡ 1 → Stays s t
stays argc s t r (Step.of_main q step) e = MainStep-Stays argc s t (Reach-Inv argc s r) e step
stays argc s t r (Step.of_worker q step) e = WorkerStep-Stays s t e step
stays argc s t r (Step.of_timer q step) e = TimerStep-Stays s t e step

-- In a run, when main_Timer has set gExit and the thread has left sigtimedwait since or has ended,
-- no step clears the flag or makes the thread wait again.
pub Step-stays_awake :
    (argc : ℕ) (s t : System)
    → Reach argc s
    → Step argc s t
    → s.g_exit ≡ 1
    → is_awake s.worker ≡ true
    → (t.g_exit ≡ 1) × (is_awake t.worker ≡ true)
Step-stays_awake argc s t r step e a = let kept = stays argc s t r step e in (kept.0, kept.1 a)
