-- ===== src/Trials/Signals/Rounds.antt =====
-- How long the thread of Test_waitSignal.c waits for its signal in each round.
use nettool.Base.{◌≡◌, refl, ap, ◌∙◌, arith, List, [], ◌∷◌, map, All, ℤ, pos, ◌≤ℤ◌, int_laws}
use nettool.Trials.Time.{Timespec, IsNormal, nanoseconds, ts_subtract}
use nettool.Trials.Time.Values.{difference, ts_subtract-Difference}
use nettool.Trials.Calls.{timeouts}
use nettool.Trials.Signals.{
  Round, Globals, two_seconds, wait_signal_wait, wait_signal_round, wait_signal_rounds,
  wait_signal_func_thread, wait_signal_config,
}

-- The clock gives normal times.
abbrev pub IsReading : Round → Type 0
IsReading r = IsNormal r.woken × IsNormal r.after

-- Two seconds in nanoseconds.
abbrev pub period : ℤ
period = pos 2000000000

-- What is left of two seconds after a round, in nanoseconds.
abbrev pub left_after : Round → ℤ
left_after r = difference period (difference (nanoseconds r.after) (nanoseconds r.woken))

-- The waits of the rounds, of which the first is given.
abbrev pub waits : ℤ → List Round → List ℤ
waits first [] = []
waits first (r ∷ rounds) = first ∷ waits (left_after r) rounds

two_seconds-IsNormal : IsNormal two_seconds
two_seconds-IsNormal = grind arith

nanoseconds-two_seconds : nanoseconds two_seconds ≡ period
nanoseconds-two_seconds = grind int_laws

-- A round leaves a normal timeout of what is left of two seconds.
round_timeout :
    (r : Round) (g : Globals)
    → IsReading r
    → IsNormal (wait_signal_round r g).0.timeout
      × (nanoseconds (wait_signal_round r g).0.timeout ≡ left_after r)
unfolding wait_signal_round wait_signal_wait
round_timeout r g (nw, na) =
    let spent = ts_subtract-Difference r.after r.woken na nw in
    let rest =
      ts_subtract-Difference two_seconds (ts_subtract r.after r.woken) two_seconds-IsNormal
        spent.0 in
    (rest.0, rest.1 ∙ rw (nanoseconds-two_seconds, spent.1) refl)

rounds_waits :
    (rounds : List Round) (g : Globals)
    → All IsReading rounds
    → map nanoseconds (timeouts (wait_signal_rounds rounds g))
      ≡ waits (nanoseconds g.timeout) rounds
unfolding wait_signal_rounds wait_signal_round wait_signal_wait
rounds_waits [] g h = refl
rounds_waits (r ∷ rounds) g (h, hs) =
    let next = wait_signal_round r g in
    ap (λ w. nanoseconds g.timeout ∷ w)
      (rounds_waits rounds next.0 hs ∙ ap (λ n. waits n rounds) (round_timeout r g h).1)

-- When the clock gives normal times, the thread waits two seconds for its first signal and then,
-- in each round, two seconds less the time that passed since it woke in the round before, or no
-- time when that is longer.
pub wait_signal-waits :
    (date_start : Timespec) (rounds : List Round)
    → All IsReading rounds
    → map nanoseconds (timeouts (wait_signal_func_thread date_start rounds)) ≡ waits period rounds
unfolding wait_signal_func_thread wait_signal_config
wait_signal-waits date_start rounds h =
    rounds_waits rounds (record { timeout = two_seconds; date_start = date_start }) h
    ∙ ap (λ n. waits n rounds) nanoseconds-two_seconds

-- A normal time of at most two seconds.
pub record IsShort (t : Timespec) : Type 0 where
  pub normal : IsNormal t
  pub short : nanoseconds t ≤ℤ period

rounds-IsShort :
    (rounds : List Round) (g : Globals)
    → All IsReading rounds
    → IsShort g.timeout
    → All IsShort (timeouts (wait_signal_rounds rounds g))
unfolding wait_signal_rounds wait_signal_round wait_signal_wait
rounds-IsShort [] g h s = tt
rounds-IsShort (r ∷ rounds) g (h, hs) s =
    let next = round_timeout r g h in
    (
      s,
      rounds-IsShort rounds (wait_signal_round r g).0 hs
          (record { normal = next.0; short = rw next.1 (grind int_laws) }),
    )

-- When the clock gives normal times, every timeout that the thread passes to sigtimedwait is
-- normal and at most two seconds, also when the clock runs backwards.
wait_signal-IsShort :
    (date_start : Timespec) (rounds : List Round)
    → All IsReading rounds
    → All IsShort (timeouts (wait_signal_func_thread date_start rounds))
unfolding wait_signal_func_thread wait_signal_config
wait_signal-IsShort date_start rounds h =
    rounds-IsShort rounds (record { timeout = two_seconds; date_start = date_start }) h
      (record { normal = two_seconds-IsNormal; short = grind int_laws })
