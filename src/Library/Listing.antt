-- ===== src/Library/Listing.antt =====
-- What libnettool/src can print of a reply: parse_ifa_msg of ip_show.c, parse_rt_msg and
-- parse_nl_msg_gateway of gateway_show.c, and util_ntop. Nothing calls them. Their lengths are of
-- type `size_t`, which RTA_NEXT and NLMSG_NEXT make smaller modulo 2 ^ 64.
pub mod Ends
use Prim.Native.String.{String}
use nettool.Base.{
  ℕ, zero, suc, ◌+◌, ◌-◌, ◌%◌, ◌^◌, Bool, ◌&&◌, not, leb, ◌==◌, if◌then◌else◌, Option, none, some,
  [], ◌∷◌, ℤ, pos,
}
use nettool.Netlink.Headers.{
  align, nlmsg_data, attributes_after, rta_data, nlmsg_space, sizeof_rtattr, sizeof_rtmsg,
  nlmsg_error, nlmsg_done, rtm_newroute, af_inet, ifa_address, ifa_local, ifa_broadcast,
  rta_gateway,
}
use nettool.Netlink.Buffer.{
  Buf, nlmsg_len, nlmsg_type, ifa_family, ifa_prefixlen, ifa_index, rtm_family, rtm_table,
  rtm_protocol, rtm_scope, rtm_type, rta_len, rta_type, payload,
}
use nettool.Netlink.Messages.{nlmsg_ok}
use nettool.Netlink.System.{
  Arg, Kernel, Prog, Trace, number, text, null_text, printed, print, stuck, pure, ◌>>=◌, ◌>>◌,
}

-- RTA_OK for a `size_t`, and a `size_t` less some bytes.
abbrev pub rta_ok_size : Buf → ℕ → ℕ → Bool
rta_ok_size b at len =
    leb sizeof_rtattr len && leb sizeof_rtattr (b.word at rta_len) && leb (b.word at rta_len) len

abbrev pub less : ℕ → ℕ → ℕ
less len n = (len + 2 ^ 64 - n) % 2 ^ 64

-- for_each_rattr with a `size_t`, over what is printed. `none`: out of fuel.
unfoldable pub print_attributes : Buf → (ℕ → Trace → Trace) → ℕ → ℕ → ℕ → Prog (Unit {0})
print_attributes b body zero at len t = none
print_attributes b body (suc fuel) at len t =
    let step = align (b.word at rta_len) in
    let rest = print_attributes b body fuel (at + step) (less len step) (body at t) in
    if rta_ok_size b at len then rest else some (tt, t)

-- util_ntop
unfoldable pub util_ntop : Kernel → ℕ → ℕ → String
util_ntop k domain address = k.inet_ntop domain address

-- The number of a family, as it is printed.
abbrev pub family_number : ℕ → ℤ
family_number family = if family == af_inet then pos 4 else pos 6

-- The body of the loop of parse_ifa_msg: the types exclude one another.
unfoldable pub ifa_lines : Kernel → Buf → ℕ → ℕ → Trace → Trace
ifa_lines k b family at t =
    let type = b.word at rta_type in
    let address = text (util_ntop k family (b.word (rta_data at) payload)) ∷ [] in
    if type == ifa_address
    then printed "%-15s  " address ∷ t
    else if type == ifa_local
    then printed "%-15s  " address ∷ t
    else if type == ifa_broadcast
    then printed "%-15s" address ∷ t
    else t

-- if_indextoname, as an argument of printf.
abbrev pub device_name : Option String → Arg
device_name none = null_text
device_name (some name) = text name

module _ (k : Kernel) (if_indextoname : ℕ → Option String) (fuel : ℕ) (b : Buf) where
  -- parse_ifa_msg
  unfoldable pub parse_ifa_msg : ℕ → ℕ → ℕ → Prog ℤ
  parse_ifa_msg ifa at len = do
    print "==================================\n" []
    print "%-15s  %-15s  %-15s \n" (text "family" ∷ text "dev" ∷ text "prefix length" ∷ [])
    print "%-15d  %-15s  %-15d \n" (
        number (family_number (b.word ifa ifa_family))
        ∷ device_name (if_indextoname (b.word ifa ifa_index))
        ∷ number (pos (b.word ifa ifa_prefixlen))
        ∷ [])
    print "\n" []
    print "%-15s  %-15s  %-15s \n"
        (text "if address" ∷ text "local address" ∷ text "broadcast" ∷ [])
    print_attributes b (ifa_lines k b (b.word ifa ifa_family)) fuel at len
    print "\n" []
    pure (pos 0)

-- The body of the loop of parse_rt_msg.
unfoldable pub rt_lines : Kernel → Buf → ℕ → ℕ → Trace → Trace
rt_lines k b family at t =
    if b.word at rta_type == rta_gateway
    then printed "gateway:\t%s\n" (text (util_ntop k family (b.word (rta_data at) payload)) ∷ [])
      ∷ t
    else t

module _ (k : Kernel) (fuel : ℕ) (b : Buf) where
  -- parse_rt_msg
  unfoldable pub parse_rt_msg : ℕ → ℕ → ℕ → Prog ℤ
  parse_rt_msg rt at len = do
    print "==================================\n" []
    print "family:\t\t%d\n" (number (family_number (b.word rt rtm_family)) ∷ [])
    print "table id:\t%d\n" (number (pos (b.word rt rtm_table)) ∷ [])
    print "protocol:\t%d\n" (number (pos (b.word rt rtm_protocol)) ∷ [])
    print "scope:\t\t%d\n" (number (pos (b.word rt rtm_scope)) ∷ [])
    print "type:\t\t%d\n" (number (pos (b.word rt rtm_type)) ∷ [])
    print "\n" []
    print_attributes b (rt_lines k b (b.word rt rtm_family)) fuel at len
    pure (pos 0)

  -- parse_nl_msg_gateway, with fuel for its loop.
  unfoldable pub parse_nl_msg_gateway : ℕ → ℕ → ℕ → Prog ℕ
  parse_nl_msg_gateway zero at len = stuck
  parse_nl_msg_gateway (suc rounds) at len =
      let step = align (b.word at nlmsg_len) in
      let rest = parse_nl_msg_gateway rounds (at + step) (less len step) in
      let type = b.word at nlmsg_type in
      let rt = nlmsg_data at in
      if not (nlmsg_ok b at (pos (len % 2 ^ 32)) && not (type == nlmsg_done))
      then pure type
      else if type == nlmsg_error
      then (print "error" [] >> pure (2 ^ 32 - 1))
      else if type == rtm_newroute
      then (parse_rt_msg rt (attributes_after sizeof_rtmsg rt)
            (less (b.word at nlmsg_len) (nlmsg_space sizeof_rtmsg))
          >>= λ _. rest)
      else rest
