-- ===== src/Nettool/Service.antt =====
-- A series of commands against the kernel of the examples, which acknowledges every request, and
-- against one that keeps its network.
use nettool.Base.{
  ℕ, ap, ◌∙◌, ◌-ℤ◌, refl, pos, ℤ, ◌%◌, ◌==◌, ◌&&◌, if◌then◌else◌, ◌≡◌, Bool, true, false, some,
  List, [], ◌∷◌, length, arith,
}
use nettool.Netlink.Headers.{rtm_newlink, rtm_getlink}
use nettool.Netlink.Buffer.{Buf, zeros, set, nlmsg_len, nlmsg_type, ifi_index, ifi_flags}
use nettool.Netlink.System.{Kernel, Trace, sent, received, printed}
use nettool.Library.Examples.{acking, ack}
use nettool.Library.Network.{network, effect, is_dump, AsksAck, IsHonest}
use nettool.Library.Network.Shown.{IsShowing}
use nettool.Library.Link.Found.{here, Holds, Printed, same, more}
use nettool.Library.Link.Dump.{Passes, stop, past}
use nettool.Library.Link.Search.{heard}
use nettool.Library.Link.Sent.{Ifinfomsg, read_ifinfomsg}
use nettool.Nettool.Main.{main}
use nettool.Nettool.Shown.{shown_up, as_number, series-Shows}
use nettool.Library.Runs.{acking-IsHonest, bare}
use nettool.Nettool.Series.{Change, IsReady, series, told, onto, outcomes, series-Applies}

acking-IsReady : IsReady acking
acking-IsReady = record {
  opens = λ t. omega arith;
  nonzero = λ t e. ground arith;
  binds = λ t. omega arith;
}

-- The device goes up and down again.
abbrev up_and_down : List Change
up_and_down = ("eth1", true) ∷ ("eth1", false) ∷ []

series-Applies_example :
    (tells : List Bool) × (t' : Trace) × (series acking 40 "nettool" 45 9 zeros up_and_down []
      ≡ some (tt, t'))
    × (length tells ≡ 2)
    × (told t' ≡ onto tells [])
    × (network (λ t. true) bare t' ≡ outcomes acking up_and_down tells bare)
unfolding network
series-Applies_example =
    series-Applies acking 40 "nettool" 45 9 zeros (λ t. true) bare acking-IsHonest acking-IsReady
      up_and_down (λ e. ground arith, (λ e. ground arith, tt)) []

-- A reply with one device.
abbrev one_device : ℕ → ℕ → Buf
one_device index flags =
    set (set (set (set zeros 0 nlmsg_len 32) 0 nlmsg_type rtm_newlink) 16 ifi_index index) 16
      ifi_flags flags

abbrev asks_devices : Buf → Bool
asks_devices b = is_dump b && (b.word 0 nlmsg_type == rtm_getlink)

-- What is received behind the events: for a dump first device 1, then device 5; else an
-- acknowledgement.
abbrev reply_to : Trace → ℤ × Buf
reply_to (sent fd b n ∷ t) = if asks_devices b then (pos 32, one_device 1 0x49) else (pos 36, ack)
reply_to (received fd status b ∷ t) =
    (pos 32, one_device 5 (if (network (λ u. true) bare t).is_up 5 then 0x41 else 0))
reply_to (printed format args ∷ t) = reply_to t
reply_to _ = (pos 36, ack)

abbrev keeping : Kernel
keeping = record acking { recvmsg = reply_to }

not_dump : (b : Buf) → AsksAck b → asks_devices b ≡ false
not_dump b (asks, single) = rw single refl

for_devices :
    (b : Buf) → b.word 0 nlmsg_type ≡ rtm_getlink → is_dump b ≡ true → asks_devices b ≡ true
for_devices b e dump = rw (dump, e)

keeping-IsHonest : IsHonest keeping (λ t. true)
keeping-IsHonest = record {
  answers = λ fd b n t asks. rw (not_dump b asks) (record {
    size = 36;
    status = refl;
    small = omega arith;
    whole = omega arith;
    fits = omega arith;
    type = refl;
  });
  accepted = λ fd b n t asks taken. rw (not_dump b asks);
  turned_down = λ fd b n t asks e. refl;
}

up_bit : (up : Bool) → ((if up then 0x41 else 0) % 2 == 1) ≡ up
up_bit true = refl
up_bit false = refl

second_reply : (t u : Trace) → Printed t u → reply_to u ≡ reply_to t
second_reply t _ same = refl
second_reply t _ (more format args u p) = second_reply t u p

module _ (fd : ℤ) (b : Buf) (n : ℕ) (t : Trace) (dump : asks_devices b ≡ true) where
  abbrev up : Bool
  up = (network (λ u. true) bare (sent fd b n ∷ t)).is_up 5

  abbrev device_5 : Ifinfomsg
  device_5 = read_ifinfomsg (one_device 5 (if up then 0x41 else 0)) 16

  first_passes : Passes (reply_to (sent fd b n ∷ t)).1 5 0 (reply_to (sent fd b n ∷ t)).0
  unfolding ◌-ℤ◌
  first_passes = rw dump (past 0 (pos 32) refl refl refl (stop 32 _ refl))

  second_holds :
      (u : Trace)
      → Printed (heard keeping fd (sent fd b n ∷ t)) u
      → Holds (reply_to u).1 5 device_5 0 (reply_to u).0
  second_holds u p =
      rw (second_reply (heard keeping fd (sent fd b n ∷ t)) u p)
        (here 0 (pos 32) refl refl refl refl)

unchanged :
    (fd : ℤ) (b : Buf) (n : ℕ) (t : Trace)
    → b.word 0 nlmsg_type ≡ rtm_getlink
    → network (λ u. true) bare (sent fd b n ∷ t) ≡ network (λ u. true) bare t
unfolding network effect
unchanged fd b n t e = rw e refl

keeping-IsShowing : IsShowing keeping (λ t. true) bare 2
keeping-IsShowing = record {
  shows = λ fd b n t e e' device known.
      let dump = for_devices b e e' in
      (
        1,
        device_5 fd b n t dump,
        omega arith,
        (first_passes fd b n t dump, second_holds fd b n t dump),
        up_bit (up fd b n t dump) ∙ ap (λ m. m.is_up 5) (unchanged fd b n t e),
      );
}

series-Shows_example :
    (tells : List Bool) × (t' : Trace) × (t'' : Trace) × (series keeping 40 "nettool" 45 9 zeros
        up_and_down []
      ≡ some (tt, t'))
    × (length tells ≡ 2)
    × (told t' ≡ onto tells [])
    × (main keeping 40 "nettool" 45 9 zeros ("li" ∷ "eth1" ∷ []) t' ≡ some (pos 0, t''))
    × (shown_up t'' ≡ some (as_number ((outcomes keeping up_and_down tells bare).is_up 5)))
unfolding network
series-Shows_example =
    series-Shows keeping "nettool" 45 9 zeros 40 2 (λ t. true) bare keeping-IsHonest
      keeping-IsShowing (omega arith)
      (record { opens = λ t. omega arith; nonzero = λ t e. ground arith; binds = λ t. omega arith })
      up_and_down (λ e. ground arith, (λ e. ground arith, tt)) "eth1" (λ e. ground arith) []
