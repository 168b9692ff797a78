-- ===== src/Nettool/Examples.antt =====
-- The command against the kernels of the library's examples.
use nettool.Base.{
  ℕ, pos, pos_part, minus_one, ◌+◌, ◌-ℤ◌, ◌≡◌, refl, ◌++◌, if◌then◌else◌, ◌==◌, Bool-cases, inl,
  inr, some, All, List, [], ◌∷◌, arith,
}
use nettool.Netlink.Headers.{align}
use nettool.Netlink.Buffer.{Buf, zeros, set, nlmsg_len, nlmsg_type}
use nettool.Netlink.Attributes.{run_at, Within}
use nettool.Netlink.System.{Trace, Event, printed, closed, ◌>>=◌}
use nettool.Library.Examples.{ack, acking, ending}
use nettool.Library.Link.Receive.{info_replies, info_messages}
use nettool.Library.Link.Search.{heard}
use nettool.Library.Link.Outcome.{info_sent}
use nettool.Nettool.Tables.{ArrayFamily}
use nettool.Nettool.Links.{new_link_attribute, rtm_newlink_check, checked_flags, print_message_flag}
use nettool.Nettool.Flags.{Changed, rtm_newlink_check-Changed, space, link_lines}
use nettool.Nettool.Events.{read_messages}
use nettool.Netlink.Finishes.{Finishes}
use nettool.Nettool.Reading.{read_messages-Finishes}
use nettool.Nettool.Overrun.{read_messages-overrun}
use nettool.Nettool.Main.{ip_link_info}
use nettool.Nettool.Command.{blank, ip_link_info-not_found}

-- Two items, in a table of three places.
abbrev small : ArrayFamily
small = record {
  number = 2;
  array = λ i.
      if i == 0
      then (record { id = 4; name = "AF_IPX" })
      else (record { id = 2; name = "AF_INET" });
  max = 3;
}

rtm_newlink_check-Changed_example :
    (lines : List Event) × (ps : List ℕ) × Changed 0 1 checked_flags lines
    × All (Within ack 32 (32 + pos_part (space acking small ack 0 1 []))) ps
    × (rtm_newlink_check acking small ack 0 1 []
        ≡ some (
          0,
          printed "RTM_NEWLINK_Check\n" []
              ∷ run_at
                  (new_link_attribute acking ack 16)
                  ps
                  (printed "\n" [] ∷ (lines ++ link_lines acking small ack 0 1 [])),
        ))
rtm_newlink_check-Changed_example = rtm_newlink_check-Changed acking small ack 0 1 []

aligned_ack : (p : ℕ) → align (ack.word p nlmsg_len) ≡ ack.word p nlmsg_len
aligned_ack p = elim (Bool-cases (p == 0)) [ inl first ↦ rw first | inr later ↦ rw later ]

read_messages-Finishes_example : Finishes (read_messages acking small 9 ack 37 0 (pos 36) 0) []
read_messages-Finishes_example =
    read_messages-Finishes acking small 9 ack 37 0 36 (pos 36) 0 [] refl aligned_ack (omega arith)
      (omega arith)

-- A message of 18 bytes, and stale bytes of an error behind it.
abbrev overrun : Buf
overrun = set (set (set (set zeros 0 nlmsg_len 18) 0 nlmsg_type 17) 20 nlmsg_len 36) 20 nlmsg_type 2

read_messages-overrun_example :
    (t : Trace) × (read_messages acking small 9 overrun 5 0 (pos 18) 0 []
      ≡ some ((some minus_one, 0), t))
read_messages-overrun_example =
    read_messages-overrun acking small 9 overrun 3 0 [] (omega arith) (omega arith) (omega arith)
      refl (omega arith) (omega arith) refl

-- What has happened when the search for device 5 meets the end of the dump.
abbrev searched : Trace
searched =
    printed "link_info_receive_2 : NLMSG_DONE\n" []
    ∷ heard ending (pos 3) (info_sent ending 10 zeros "eth1" blank [])

ip_link_info-not_found_example :
    ip_link_info ending 10 "nettool" zeros "eth1" []
    ≡ (print_message_flag 0 >>= λ _ u. some (pos 0, u)) (closed (pos 3) ∷ searched)
unfolding info_replies info_messages ◌-ℤ◌
ip_link_info-not_found_example =
    ip_link_info-not_found ending 10 "nettool" zeros "eth1" [] searched (λ e. ground arith)
      (λ e. ground arith) refl
