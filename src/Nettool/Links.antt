-- ===== src/Nettool/Links.antt =====
-- PrintMessageFlag of nettool/src/print_info.c, and RTM_NEWLINK_Check of main_nettool.c.
use Prim.Native.String.{String}
use Prim.Native.Nat.{bit_and}
use nettool.Base.{ℕ, suc, pos, pos_part, ◌-ℤ◌, Bool, ◌==◌, not, if◌then◌else◌, List, [], ◌∷◌, some}
use nettool.Netlink.Headers.{
  nlmsg_data, nlmsg_space, attributes_after, rta_data, to_int, sizeof_ifinfomsg, ifla_address,
  ifla_broadcast, ifla_ifname, ifla_mtu, ifla_link, ifla_qdisc, ifla_stats, iff_up, iff_broadcast,
  iff_debug, iff_loopback, iff_pointopoint, iff_running, iff_noarp, iff_promisc, iff_notrailers,
  iff_allmulti, iff_master, iff_slave, iff_multicast, iff_portsel, iff_automedia, iff_dynamic,
  iff_lower_up, iff_dormant, iff_echo,
}
use nettool.Netlink.Buffer.{
  Buf, nlmsg_len, ifi_family, ifi_type, ifi_index, ifi_flags, ifi_change, rta_type, payload,
}
use nettool.Netlink.Attributes.{for_each_attribute}
use nettool.Netlink.System.{
  Kernel, Prog, Trace, Event, printed, number, text, chars, pointer, print, pure, ◌>>◌,
}
use nettool.Library.Link.Receive.{leave}
use nettool.Nettool.Tables.{ArrayFamily, array_find_item}

-- The value that is printed for a flag.
abbrev pub flag_value : ℕ → ℕ → ℕ
flag_value flags flag = if bit_and flags flag == 0 then 0 else 1

-- The lines of PrintMessageFlag, in turn.
abbrev pub message_flags : List (ℕ × String)
message_flags =
    (iff_up, "IFF_UP")
    ∷ (iff_running, "IFF_RUNNING")
    ∷ (iff_broadcast, "IFF_BROADCAST")
    ∷ (iff_debug, "IFF_DEBUG")
    ∷ (iff_loopback, "IFF_LOOPBACK")
    ∷ (iff_pointopoint, "IFF_POINTOPOINT")
    ∷ (iff_notrailers, "IFF_NOTRAILERS")
    ∷ (iff_noarp, "IFF_NOARP")
    ∷ (iff_promisc, "IFF_PROMISC")
    ∷ (iff_allmulti, "IFF_ALLMULTI")
    ∷ (iff_master, "IFF_MASTER")
    ∷ (iff_slave, "IFF_SLAVE")
    ∷ (iff_multicast, "IFF_MULTICAST")
    ∷ (iff_portsel, "IFF_PORTSEL")
    ∷ (iff_automedia, "IFF_AUTOMEDIA")
    ∷ (iff_dynamic, "IFF_DYNAMIC")
    ∷ []

unfoldable pub print_flags : ℕ → List (ℕ × String) → Prog (Unit {0})
print_flags flags [] = pure tt
print_flags flags ((flag, name) ∷ rest) = do
  print "%-20s -  %d \n" (text name ∷ number (pos (flag_value flags flag)) ∷ [])
  print_flags flags rest

-- PrintMessageFlag
abbrev pub print_message_flag : ℕ → Prog (Unit {0})
print_message_flag flags = print_flags flags message_flags

-- The flags that RTM_NEWLINK_Check looks at, in turn.
abbrev pub checked_flags : List (ℕ × String)
checked_flags =
    (iff_up, "IFF_UP")
    ∷ (iff_broadcast, "IFF_BROADCAST")
    ∷ (iff_debug, "IFF_DEBUG")
    ∷ (iff_loopback, "IFF_LOOPBACK")
    ∷ (iff_pointopoint, "IFF_POINTOPOINT")
    ∷ (iff_running, "IFF_RUNNING")
    ∷ (iff_noarp, "IFF_NOARP")
    ∷ (iff_promisc, "IFF_PROMISC")
    ∷ (iff_notrailers, "IFF_NOTRAILERS")
    ∷ (iff_allmulti, "IFF_ALLMULTI")
    ∷ (iff_master, "IFF_MASTER")
    ∷ (iff_slave, "IFF_SLAVE")
    ∷ (iff_multicast, "IFF_MULTICAST")
    ∷ (iff_portsel, "IFF_PORTSEL")
    ∷ (iff_automedia, "IFF_AUTOMEDIA")
    ∷ (iff_dynamic, "IFF_DYNAMIC")
    ∷ (iff_lower_up, "IFF_LOWER_UP")
    ∷ (iff_dormant, "IFF_DORMANT")
    ∷ (iff_echo, "IFF_ECHO")
    ∷ []

-- CHECK_FLAG: the flag differs from the one kept.
abbrev pub check_flag : ℕ → ℕ → ℕ → Bool
check_flag flags kept flag = not (bit_and flags flag == bit_and kept flag)

-- The line of a flag.
abbrev pub flag_line : ℕ → ℕ → String → Event
flag_line flags flag name =
    printed " %-20s = %d \n" (text name ∷ number (pos (flag_value flags flag)) ∷ [])

-- The lines `CHECK_FLAG(...) printf(...)`, in turn.
unfoldable pub check_flags : ℕ → ℕ → List (ℕ × String) → Trace → Trace
check_flags flags kept [] t = t
check_flags flags kept ((flag, name) ∷ rest) t =
    check_flags flags kept rest
      (if check_flag flags kept flag then flag_line flags flag name ∷ t else t)

-- One round of the loop over the attributes. What is printed for IFLA_LINK is the pointer to its
-- data, cut to an `int`.
abbrev pub new_link_attribute : Kernel → Buf → ℕ → ℕ → Trace → Trace
new_link_attribute k b ifinfomsg p t =
    let type = b.word p rta_type in
    let bytes = b.word (rta_data p) payload in
    let family = b.word ifinfomsg ifi_family in
    if type == ifla_address
    then printed "%-15s = %s \n" (text "IFLA_ADDRESS" ∷ text (k.inet_ntop family bytes) ∷ []) ∷ t
    else if type == ifla_broadcast
    then printed "%-15s = %s \n" (text "IFLA_BROADCAST" ∷ text (k.inet_ntop family bytes) ∷ []) ∷ t
    else if type == ifla_ifname
    then printed "%-15s = %s \n" (text "IFLA_IFNAME" ∷ chars bytes ∷ []) ∷ t
    else if type == ifla_mtu
    then printed "%-15s = %u \n" (text "IFLA_MTU" ∷ number (pos bytes) ∷ []) ∷ t
    else if type == ifla_link
    then printed "%-15s = %d \n" (text ",IFLA_LINK" ∷ pointer (rta_data p) ∷ []) ∷ t
    else if type == ifla_qdisc
    then printed "%-15s = %s \n" (text "IFLA_QDISC" ∷ chars bytes ∷ []) ∷ t
    else if type == ifla_stats
    then printed "%-15s =  \n" (text "IFLA_STATS" ∷ []) ∷ t
    else t

-- RTM_NEWLINK_Check. Its static variable vIfi_flags is the state: `kept` before, the result
-- after.
unfoldable pub rtm_newlink_check : Kernel → ArrayFamily → Buf → ℕ → ℕ → Prog ℕ
rtm_newlink_check k families b at kept =
    let ifinfomsg = nlmsg_data at in
    let len = pos (b.word at nlmsg_len) -ℤ pos (nlmsg_space sizeof_ifinfomsg) in
    let flags = b.word ifinfomsg ifi_flags in
    let family = b.word ifinfomsg ifi_family in
    do
      print "\n RTM_NEWLINK_Check \n" []
      print "\t %-15s : %10d %s\n"
          (text "ifi_family" ∷ number (pos family) ∷ text (array_find_item families family) ∷ [])
      print "\t %-15s : %10d \n"
          (text "ifi_index" ∷ number (to_int (b.word ifinfomsg ifi_index)) ∷ [])
      print "\t %-15s : %10d \n" (text "ifi_type" ∷ number (pos (b.word ifinfomsg ifi_type)) ∷ [])
      print "\t %-15s : %10d \n"
          (text "ifi_change" ∷ number (to_int (b.word ifinfomsg ifi_change)) ∷ [])
      print "\t %-30s : %10d \n" (text "ifi_flags" ∷ number (to_int flags) ∷ [])
      (λ t. some (tt, check_flags flags kept checked_flags t))
      print "\n" []
      (λ t. leave (
          for_each_attribute b (new_link_attribute k b ifinfomsg) (suc (pos_part len))
            (attributes_after sizeof_ifinfomsg ifinfomsg) len t))
      print "RTM_NEWLINK_Check\n" []
      pure flags
