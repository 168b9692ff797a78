-- ===== src/Library/Link/Receive.antt =====
-- rtnl_print_link and link_info_receive of libnettool/src/ip_link.c. The buffer of the replies is
-- read only where `recvmsg` has filled it.
use nettool.Base.{
  ℕ, zero, suc, ℤ, pos, pos_part, minus_one, ◌+◌, ◌-ℤ◌, Bool, true, false, ◌==◌, ◌==ℤ◌,
  if◌then◌else◌, Option, none, some, [], ◌∷◌,
}
use nettool.Netlink.Headers.{
  align, nlmsg_data, nlmsg_length, attributes_after, rta_data, nlmsg_done, rtm_newlink, rtm_getlink,
  ifla_ifname, sizeof_ifinfomsg,
}
use nettool.Netlink.Buffer.{Buf, nlmsg_len, nlmsg_type, ifi_index, ifi_flags, rta_type, payload}
use nettool.Netlink.Messages.{nlmsg_ok}
use nettool.Netlink.Attributes.{for_each_attribute}
use nettool.Netlink.System
use nettool.Netlink.System.{
  Kernel, Prog, Trace, printed, number, chars, print, pure, stuck, ◌>>=◌, ◌>>◌,
}
use nettool.Library.Link.Sent.{Ifinfomsg, read_ifinfomsg}

-- The run of a loop whose state is the trace.
abbrev pub leave : Option Trace → Option (Unit {0} × Trace)
leave none = none
leave (some t) = some (tt, t)

-- What one round of the loop of rtnl_print_link prints.
abbrev pub print_link_attribute : Buf → ℕ → ℕ → Trace → Trace
print_link_attribute b iface p t =
    if b.word p rta_type == ifla_ifname
    then (printed "rtnl_print_link : IFLA_IFNAME =  %d : %s ifi_flags =0x%X\n" (
        number (pos (b.word iface ifi_index))
        ∷ chars (b.word (rta_data p) payload)
        ∷ number (pos (b.word iface ifi_flags))
        ∷ []))
      ∷ t
    else t

-- rtnl_print_link
unfoldable pub rtnl_print_link : Buf → ℕ → Prog (Unit {0})
rtnl_print_link b h t =
    let iface = nlmsg_data h in
    let len = pos (b.word h nlmsg_len) -ℤ pos (nlmsg_length sizeof_ifinfomsg) in
    leave (
      for_each_attribute b (print_link_attribute b iface) (suc (pos_part len))
        (attributes_after sizeof_ifinfomsg iface) len t)

-- The variables of link_info_receive behind one run of its inner loop: vFind, end, *a_pInfomsg.
pub record Search : Type 0 where
  pub find : Bool
  pub end : ℕ
  pub infomsg : Ifinfomsg

-- The loop over the messages of one reply.
unfoldable pub info_messages : Buf → ℕ → ℕ → ℕ → ℤ → ℕ → Ifinfomsg → Prog Search
info_messages b index zero at len end infomsg = stuck
info_messages b index (suc fuel) at len end infomsg =
    let step = align (b.word at nlmsg_len) in
    let type = b.word at nlmsg_type in
    let end' = if type == nlmsg_done then suc end else end in
    let rest = info_messages b index fuel (at + step) (len -ℤ pos step) end' infomsg in
    let iface = nlmsg_data at in
    if nlmsg_ok b at len
    then (if type == nlmsg_done
        then print "link_info_receive_2 : NLMSG_DONE\n" [] >> rest
        else if type == rtm_newlink
        then (if index == b.word iface ifi_index
            then pure (record { find = true; end = end; infomsg = read_ifinfomsg b iface })
            else (do print "link_info_receive_2 : RTM_NEWLINK \n" []; rtnl_print_link b at; rest))
        else if type == rtm_getlink
        then (do print "link_info_receive_2 : RTM_GETLINK \n" []; rtnl_print_link b at; rest)
        else (do
          print "message type %d, length %d\n"
              (number (pos type) ∷ number (pos (b.word at nlmsg_len)) ∷ [])
          rest))
    else pure (record { find = false; end = end; infomsg = infomsg })

-- link_info_receive, from the loop on: `end` rounds have met NLMSG_DONE.
unfoldable pub info_replies : Kernel → ℤ → ℕ → ℕ → ℕ → Ifinfomsg → Prog (ℤ × Ifinfomsg)
info_replies k fd index zero end infomsg = stuck
info_replies k fd index (suc fuel) end infomsg =
    let rest = λ (s : Search).
      let next = info_replies k fd index fuel s.end s.infomsg in
      if s.find then pure (pos 0, s.infomsg) else next in
    if end == 0
    then (do
      (len, b) ← System.recvmsg k fd
      print "link_info_receive_2 : len = %d \n" (number len ∷ [])
      s ←
          if len ==ℤ pos 0
          then pure (record { find = false; end = end; infomsg = infomsg })
          else info_messages b index (suc (pos_part len)) 0 len end infomsg
      rest s)
    else pure (minus_one, infomsg)

-- link_info_receive
abbrev pub link_info_receive : Kernel → ℕ → ℤ → ℕ → Ifinfomsg → Prog (ℤ × Ifinfomsg)
link_info_receive k fuel fd index infomsg = info_replies k fd index fuel 0 infomsg
