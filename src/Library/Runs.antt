-- ===== src/Library/Runs.antt =====
-- The functions of the library against the kernels of the examples.
use nettool.Library.Listing.Ends.{IsAligned}
use nettool.Base.{ℕ, pos, ◌≤◌, ◌≡◌, ◌≢◌, refl, some, true, false, ℤ, [], ◌∷◌, arith}
use nettool.Netlink.Buffer.{Buf, zeros, set, nlmsg_len, nlmsg_type, ifi_index}
use nettool.Netlink.System.{Trace, printed}
use nettool.Library.Util.{util_parse_nl_msg_ok}
use nettool.Library.Exchange.{is_last}
use nettool.Library.Verdict.{Verdict, no_answer, done}
use nettool.Library.Parse.{nettool_ip_add-stale}
use mathlib.Core.Logic.{◌↔◌}
use nettool.Library.Network.{Network, network, set_entry, IsHonest}
use nettool.Library.Network.Addresses.{entry, nettool_ip_add-Applies}
use nettool.Library.Address.Sessions.{nettool_ip_add}
use nettool.Library.Address.Outcome.{add_received, add_lines}
use nettool.Library.Link.Sent.{Ifinfomsg}
use nettool.Library.Link.Receive.{info_messages, link_info_receive}
use nettool.Library.Link.Search.{
  heard, Ends, info_messages-Ends, Answers, link_info_receive-Answers,
}
use nettool.Library.Link.Sessions.{Notify}
use nettool.Library.Link.Outcome.{info_sent}
use nettool.Library.Link.Notify.{notify_all, threads, notify_all-threads}
use nettool.Library.Examples.{ack, dump_end, acking, ending, failing, stale}

-- A failed `recvmsg` over zeros reads as no message.
unread : (u : Trace) → is_last (failing.recvmsg u) ≡ false
unfolding util_parse_nl_msg_ok
unread u = refl

nettool_ip_add-stale_example :
    nettool_ip_add stale [] ≡ some (pos 0, printed "ip_add : Success\n" [] ∷ add_received stale [])
nettool_ip_add-stale_example =
    nettool_ip_add-stale stale [] 0 ack (omega arith) refl (omega arith) (omega arith) refl refl

-- A structure of zeros.
abbrev blank : Ifinfomsg
blank = record { family = 0; type = 0; index = 0; flags = 0; change = 0 }

info_messages-Ends_example : Ends 5 blank (info_messages dump_end 5 21 0 (pos 20) 0 blank [])
info_messages-Ends_example = info_messages-Ends dump_end 5 21 0 (pos 20) 0 blank [] (omega arith)

link_info_receive-Answers_example : Answers 5 blank (link_info_receive ending 10 (pos 3) 5 blank [])
link_info_receive-Answers_example = link_info_receive-Answers ending 10 (pos 3) 5 blank []

-- A call with all its arguments.
abbrev notify_eth1 : Notify
notify_eth1 = record { device_name = some "eth1"; function = 1; flag_to_check = pos 64 }

notify_all-threads_example :
    (m : ℕ) × (t : Trace) × (notify_all acking (notify_eth1 ∷ notify_eth1 ∷ []) 0 [] ≡ some (m, t))
    × (threads t ≤ 1)
notify_all-threads_example = notify_all-threads acking (notify_eth1 ∷ notify_eth1 ∷ []) [] refl

-- What has happened when the search for device 5 meets the end of the dump.
abbrev searched : Trace
searched =
    printed "link_info_receive_2 : NLMSG_DONE\n" []
    ∷ heard ending (pos 3) (info_sent ending 10 zeros "eth1" blank [])

-- A message of RTM_NEWLINK for device 5.
abbrev eth1_up : Buf
eth1_up = set (set (set zeros 0 nlmsg_len 32) 0 nlmsg_type 16) 16 ifi_index 5

-- One message, of a route without attributes.
abbrev one_route : Buf
one_route = set (set zeros 0 nlmsg_len 28) 0 nlmsg_type 24

one_route-IsAligned : IsAligned one_route
one_route-IsAligned = record { multiple = λ p. ground arith; room = λ p e. ground arith }

-- The kernel that acknowledges every request accepts every request.
pub acking-IsHonest : IsHonest acking (λ t. true)
acking-IsHonest = record {
  answers = λ fd b n t asks. (record {
    size = 36;
    status = refl;
    small = omega arith;
    whole = omega arith;
    fits = omega arith;
    type = refl;
  });
  accepted = λ fd b n t asks yes. refl;
  turned_down = λ fd b n t asks e. refl;
}

-- No device is up, and none has an address.
abbrev pub bare : Network
bare = record { is_up = λ i. false; has = λ e. false }

nettool_ip_add-Applies_example :
    (v : Verdict) × (error : ℤ) × (nettool_ip_add acking []
      ≡ some (pos 0, add_lines acking [] v error))
    × (v ≢ no_answer)
    × ((v ≡ done) ↔ (true ≡ true))
    × (network (λ t. true) bare (add_lines acking [] v error)
        ≡ set_entry (entry acking 3 "192.168.1.2") true bare)
unfolding network
nettool_ip_add-Applies_example = nettool_ip_add-Applies acking (λ t. true) bare [] acking-IsHonest
