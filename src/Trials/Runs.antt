-- ===== src/Trials/Runs.antt =====
-- Runs of the trials on addresses, on the timer and on files, and the theorems on them at concrete
-- values.
use nettool.Base.{
  ℕ, ◌+◌, ◌-◌, ◌*◌, ◌<◌, ◌≡◌, ◌⊎◌, refl, true, false, ltb, if◌then◌else◌, List, [], ◌∷◌, some, none,
  pos, arith,
}
use nettool.Trials.Fields.{getcolon}
use nettool.Trials.Fields.Texts.{IsField}
use nettool.Trials.Fields.Compressed.{compressed}
use nettool.Trials.Fields.Expansion.{getcolon-compressed}
use nettool.Trials.Pton.{Libc, printf, number, bytes, print_fields, net_inet_pton}
use nettool.Trials.Pton.Bits.{LastSet, bits_of_digits, digits_of}
use nettool.Base.{map}
use nettool.Trials.Pton.{Texts, take, digit}
use nettool.Trials.Pton.Prints.{IsAddress, spelled, print_fields-LastSet}
use nettool.Trials.Pton.Overflow.{net_inet_pton-undefined}
use nettool.Trials.Timer.{
  System, counting, stopping, queued, waiting, woken, finished, handler, MainStep, WorkerStep, Step,
  Reach,
}
use nettool.Trials.Timer.Invariant.{is_awake, Reach-notified}
use nettool.Trials.Timer.Awake.{Step-stays_awake}
use nettool.Trials.Gpio.{Rights}
use nettool.Trials.NetLib.Says.{Runs, net_2-Runs}
use nettool.Library.Examples.{acking}

-- The value of a digit, and strtol on digits.
abbrev value : ℕ → ℕ
value c = if ltb c 58 then c - 48 else if ltb c 97 then c - 55 else c - 87

abbrev hex : ℕ → List ℕ → ℕ
hex n [] = n
hex n (c ∷ text) = hex (n * 16 + value c) text

-- "fe80" and "1"
abbrev fe80 : List ℕ
fe80 = 102 ∷ 101 ∷ 56 ∷ 48 ∷ []

abbrev one : List ℕ
one = 49 ∷ []

fe80-IsField : IsField fe80
fe80-IsField = record { some_byte = omega arith; four_bytes = omega arith; plain = grind arith }

one-IsField : IsField one
one-IsField = record { some_byte = omega arith; four_bytes = omega arith; plain = grind arith }

-- "fe80::1"
abbrev link_local : List ℕ
link_local = compressed (fe80 ∷ []) (one ∷ [])

getcolon-compressed_example : getcolon (λ t. pos (hex 0 t)) link_local (pos 7) ≡ some (pos 1)
getcolon-compressed_example =
    getcolon-compressed (λ t. pos (hex 0 t)) (fe80 ∷ []) (one ∷ []) 7 one (fe80-IsField, tt)
      (one-IsField, tt) (omega arith) (omega arith) refl

abbrev libc : Libc
libc = record {
  strtol = λ t. pos (hex 0 t);
  inet_pton = λ f t. (pos 1, []);
  sscanf = λ c before. value c;
  errno = pos 0;
  strerror = λ e. "";
}

abbrev numbers : List ℕ
numbers = 0xfe80 ∷ 0 ∷ 0 ∷ 0 ∷ 0 ∷ 0 ∷ 0 ∷ 1 ∷ []

print_fields-LastSet_example :
    (nb : ℕ) × (print_fields libc link_local
        (record { str_output = 63 ∷ []; str = map digit (15 ∷ 15 ∷ []) })
      ≡ some (
          printf "\n\n %s\n\n" (bytes (63 ∷ spelled numbers) ∷ [])
          ∷ printf "\n bit = %d \n" (number (pos nb) ∷ [])
          ∷ []))
    × LastSet (bits_of_digits (take 32 (15 ∷ 15 ∷ digits_of numbers))) nb
print_fields-LastSet_example =
    print_fields-LastSet libc link_local _ numbers (63 ∷ []) (15 ∷ 15 ∷ [])
      (IsAddress.short (fe80 ∷ []) (one ∷ []) (fe80-IsField, tt) (one-IsField, tt) (omega arith)
        refl)
      (
        refl,
        omega arith,
        (
          refl,
          omega arith,
          (
            refl,
            omega arith,
            (
              refl,
              omega arith,
              (
                refl,
                omega arith,
                (refl, omega arith, (refl, omega arith, (refl, omega arith, tt))),
              ),
            ),
          ),
        ),
      )
      (λ d before h. ground arith) (omega arith) (omega arith) (omega arith, (omega arith, tt))

abbrev no_texts : Texts
no_texts = record { str_output = []; str = [] }

-- "1.2.3.4" for IPv4, whatever the arrays hold.
abbrev arguments : List (List ℕ)
arguments = [] ∷ one ∷ (48 ∷ []) ∷ (49 ∷ 46 ∷ 50 ∷ 46 ∷ 51 ∷ 46 ∷ 52 ∷ []) ∷ []

net_inet_pton-undefined_example : net_inet_pton libc arguments no_texts ≡ none
net_inet_pton-undefined_example =
    net_inet_pton-undefined libc arguments no_texts (omega arith) refl (grind arith) (omega arith)

-- The thread waits, and main_Timer has counted some seconds.
abbrev counted : ℕ → System
counted n = record {
  g_exit = 0;
  pending = 0;
  told = false;
  action = handler;
  main = counting n;
  worker = waiting;
}

configured : Reach 4 (counted 0)
configured =
    Reach.later
      (Reach.later
        (Reach.later (Reach.later Reach.start (Step.of_main refl (MainStep.create_timer refl refl)))
          (Step.of_main refl (MainStep.set_time refl)))
        (Step.of_main refl (MainStep.create_thread refl)))
      (Step.of_worker refl (WorkerStep.configure refl))

one_more : (n : ℕ) → n < 10 → Reach 4 (counted n) → Reach 4 (counted (n + 1))
one_more n lt r = Reach.later r (Step.of_main refl (MainStep.count n refl lt))

all_counted : Reach 4 (counted 10)
all_counted = one_more 9 (omega arith) (
    one_more 8 (omega arith) (
      one_more 7 (omega arith) (
        one_more 6 (omega arith) (
          one_more 5 (omega arith) (
            one_more 4 (omega arith) (
              one_more 3 (omega arith) (
                one_more 2 (omega arith)
                  (one_more 1 (omega arith) (one_more 0 (omega arith) configured)))))))))

-- main_Timer has set gExit, and then told the thread.
abbrev stopped : System
stopped = record {
  g_exit = 1;
  pending = 0;
  told = false;
  action = handler;
  main = stopping;
  worker = waiting;
}

abbrev told : System
told = record {
  g_exit = 1;
  pending = 1;
  told = true;
  action = handler;
  main = queued;
  worker = waiting;
}

all_stopped : Reach 4 stopped
all_stopped = Reach.later all_counted (Step.of_main refl (MainStep.stop refl))

telling : Step 4 stopped told
telling = Step.of_main refl (MainStep.queue refl (λ e. ground arith) (λ e. ground arith))

notified : Reach 4 told
notified = Reach.later all_stopped telling

Reach-notified_example : (told.g_exit ≡ 1) × ((is_awake told.worker ≡ true) ⊎ (0 < told.pending))
Reach-notified_example = Reach-notified 4 told notified refl refl (λ e. ground arith)

-- The thread wakes for the signal, and leaves its loop.
abbrev awake : System
awake = record {
  g_exit = 1;
  pending = 0;
  told = true;
  action = handler;
  main = queued;
  worker = woken;
}

abbrev ended : System
ended = record {
  g_exit = 1;
  pending = 0;
  told = true;
  action = handler;
  main = queued;
  worker = finished;
}

all_awake : Reach 4 awake
all_awake = Reach.later notified (Step.of_worker refl (WorkerStep.wake refl (omega arith)))

leaving : Step 4 awake ended
leaving = Step.of_worker refl (WorkerStep.leave refl (λ e. ground arith))

Step-stays_awake_example : (ended.g_exit ≡ 1) × (is_awake ended.worker ≡ true)
Step-stays_awake_example = Step-stays_awake 4 awake ended all_awake leaving refl refl

abbrev all_rights : Rights
all_rights = record { can_update = true; can_create = true }

net_2-Runs_example : Runs acking []
net_2-Runs_example = net_2-Runs acking []
