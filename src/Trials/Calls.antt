-- ===== src/Trials/Calls.antt =====
-- The calls of the system that the trials on threads and signals make, in the order they are made,
-- with the values that the program passes. A line stands for PrintfLn or Printf (Common.c).
use Prim.Native.String.{String}
use nettool.Base.{ℕ, List, [], ◌∷◌}
use nettool.Netlink.System.{Arg}
use nettool.Trials.Time.{Timespec}

pub data Call : Type 0 where
  line : String → List Arg → Call
  mutex_init mutex_lock mutex_unlock : Call
  -- pthread_create of the trial's thread.
  create_thread : Call
  cond_signal : Call
  cond_timedwait : Timespec → Call
  sleep usleep : ℕ → Call
  -- pthread_sigmask with SIG_SETMASK and SIG_BLOCK for a signal, or sigprocmask with SIG_UNBLOCK.
  set_mask block unblock : ℕ → Call
  -- sigaction with the handler of the trial.
  sigaction : ℕ → Call
  sigtimedwait : Timespec → Call
  -- pthread_sigqueue to the trial's thread.
  sigqueue : ℕ → Call
  getchar : Call

-- The deadlines that threads wait for on the condition, and the times they wait for a signal.
abbrev pub deadlines : List Call → List Timespec
deadlines [] = []
deadlines (Call.cond_timedwait t ∷ calls) = t ∷ deadlines calls
deadlines (_ ∷ calls) = deadlines calls

abbrev pub timeouts : List Call → List Timespec
timeouts [] = []
timeouts (Call.sigtimedwait t ∷ calls) = t ∷ timeouts calls
timeouts (_ ∷ calls) = timeouts calls
