-- ===== src/Nettool/Unused.antt =====
-- Functions of nettool/src/main_nettool.c that nothing calls: PrintMessageType, PrintIfinfomsg and
-- IpLink, which asks for a state of a device on the socket of the events.
use nettool.Base.{ℕ, ℤ, pos, ◌==◌, ◌||◌, Bool, false, if◌then◌else◌, List, [], ◌∷◌}
use nettool.Netlink.Headers.{
  nlmsg_data, to_int, rtm_newlink, rtm_dellink, rtm_getlink, rtm_setlink, rtm_newaddr, rtm_deladdr,
  rtm_getaddr, rtm_newroute, rtm_delroute, rtm_getroute,
}
use nettool.Netlink.Buffer.{
  Buf, zeros, nlmsg_len, nlmsg_type, ifi_family, ifi_type, ifi_index, ifi_change,
}
use nettool.Netlink.System
use nettool.Netlink.System.{Kernel, Prog, number, text, print, pure, ◌>>=◌}
use nettool.Nettool.SetLink.{set_link_request}
use nettool.Nettool.Names.{get_rtm_type}

-- One of the numbers.
abbrev pub one_of : ℕ → List ℕ → Bool
one_of type [] = false
one_of type (x ∷ types) = type == x || one_of type types

-- The types of PrintMessageType that have names here only: RTM_BASE, those of neighbours, of
-- prefixes and of network configurations.
abbrev pub other_types : List ℕ
other_types = 16 ∷ 28 ∷ 29 ∷ 30 ∷ 52 ∷ 80 ∷ 82 ∷ []

-- PrintMessageType
unfoldable pub print_message_type : Buf → ℕ → Prog (Unit {0})
print_message_type b at =
    let type = b.word at nlmsg_type in
    if one_of type (
      rtm_newlink ∷ rtm_dellink ∷ rtm_getlink ∷ rtm_setlink ∷ rtm_newaddr ∷ rtm_deladdr
      ∷ rtm_getaddr ∷ rtm_newroute ∷ rtm_delroute ∷ rtm_getroute ∷ other_types)
    then print "\nnlmsg_type %s = %d\n" (text (get_rtm_type type) ∷ number (pos type) ∷ [])
    else pure tt

-- PrintIfinfomsg
unfoldable pub print_ifinfomsg : Buf → ℕ → Prog (Unit {0})
print_ifinfomsg b at =
    let ifinfomsg = nlmsg_data at in
    print "\nifi_change = %12d \nifi_family = %12d \nifi_index  = %12d \nifi_type   = %12d \n\n" (
      number (to_int (b.word ifinfomsg ifi_change))
      ∷ number (pos (b.word ifinfomsg ifi_family))
      ∷ number (to_int (b.word ifinfomsg ifi_index))
      ∷ number (pos (b.word ifinfomsg ifi_type))
      ∷ [])

-- IpLink
unfoldable pub set_link : Kernel → ℤ → ℤ → Prog (Unit {0})
set_link k fd up = do
  let request = (set_link_request up zeros).1
  code ← System.sendmsg k fd request (request.word 0 nlmsg_len)
  print "IpLink(%d) vRetcode  = %d \n" (number up ∷ number code ∷ [])
