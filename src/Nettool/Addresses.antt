-- ===== src/Nettool/Addresses.antt =====
-- RTM_NEWADDR_Check of nettool/src/main_nettool.c. Texts that `strncpy` cuts are kept whole.
use Prim.Native.String.{String}
use nettool.Base.{
  ℕ, suc, pos, pos_part, ◌-ℤ◌, ◌||◌, ◌==◌, if◌then◌else◌, Option, some, none, [], ◌∷◌,
}
use nettool.Netlink.Headers.{
  nlmsg_data, nlmsg_space, attributes_after, rta_data, sizeof_ifaddrmsg, ifa_address, ifa_local,
  ifa_label, ifa_broadcast, ifa_anycast, ifa_cacheinfo, to_int,
}
use nettool.Netlink.Buffer.{
  Buf, nlmsg_len, ifa_family, ifa_prefixlen, ifa_flags, ifa_scope, ifa_index, rta_type, rta_len,
  payload,
}
use nettool.Netlink.Attributes.{for_each_attribute}
use nettool.Netlink.System.{Kernel, Prog, Trace, Arg, printed, number, text, chars, null_text}
use nettool.Nettool.Names.{get_ifa_type}

-- The variables of the loop, with what is printed.
pub record AddressLoop : Type 0 where
  pub address : Arg
  pub ifname : Arg
  pub trace : Trace

abbrev pub text_or_null : Option String → Arg
text_or_null none = null_text
text_or_null (some s) = text s

-- The line at the end of a round.
abbrev pub attribute_line : Buf → ℕ → ℕ → Arg → Trace → Trace
attribute_line b ifa_max p tmp t =
    printed "RTM_NEWADDR_Check : Attribut rta_type=%d-%s '%s' rta_len=%d \n" (
      number (pos (b.word p rta_type))
      ∷ text_or_null (get_ifa_type ifa_max (b.word p rta_type))
      ∷ tmp
      ∷ number (pos (b.word p rta_len))
      ∷ [])
    ∷ t

-- One round of the loop over the attributes.
abbrev pub new_address_attribute : Kernel → Buf → ℕ → ℕ → ℕ → AddressLoop → AddressLoop
new_address_attribute k b ifa_max ifa p s =
    let type = b.word p rta_type in
    let bytes = b.word (rta_data p) payload in
    let shown = λ (tmp : Arg). attribute_line b ifa_max p tmp s.trace in
    if type == ifa_address || type == ifa_local || type == ifa_broadcast || type == ifa_anycast
    then (let tmp = text (k.inet_ntop (b.word ifa ifa_family) bytes) in
        record s { address = tmp; trace = shown tmp })
    else if type == ifa_label
    then record s { ifname = chars bytes; trace = shown (chars bytes) }
    else if type == ifa_cacheinfo
    then record s { trace = shown (chars bytes) }
    else record s { trace = shown (text "*unknown*") }

abbrev pub last_line : Buf → ℕ → Option AddressLoop → Option (Unit {0} × Trace)
last_line b ifa none = none
last_line b ifa (some s) = some (
  tt,
  printed "RTM_NEWADDR_Check : OUT %s: %s/%d %s\n"
        (text "RTM_NEWADDR" ∷ s.address ∷ number (pos (b.word ifa ifa_prefixlen)) ∷ s.ifname ∷ [])
      ∷ s.trace,
)

-- The lines in front of those of the attributes.
abbrev pub address_lines : Buf → ℕ → Trace → Trace
address_lines b at t =
    let ifa = nlmsg_data at in
    printed "RTM_NEWADDR_Check : %s %s index=%d fam=%d prefixlen=%d flags=%d scope=%d\n" (
      text "ProcessInterfaceWatchNotify"
      ∷ text "RTM_NEWADDR"
      ∷ number (to_int (b.word ifa ifa_index))
      ∷ number (pos (b.word ifa ifa_family))
      ∷ number (pos (b.word ifa ifa_prefixlen))
      ∷ number (pos (b.word ifa ifa_flags))
      ∷ number (pos (b.word ifa ifa_scope))
      ∷ [])
    ∷ printed "RTM_NEWADDR_Check\n" []
    ∷ t

-- RTM_NEWADDR_Check
unfoldable pub rtm_newaddr_check : Kernel → ℕ → Buf → ℕ → Prog (Unit {0})
rtm_newaddr_check k ifa_max b at t =
    let ifa = nlmsg_data at in
    let len = pos (b.word at nlmsg_len) -ℤ pos (nlmsg_space sizeof_ifaddrmsg) in
    last_line b ifa (
      for_each_attribute b (new_address_attribute k b ifa_max ifa) (suc (pos_part len))
        (attributes_after sizeof_ifaddrmsg ifa) len
        (record { address = text ""; ifname = text ""; trace = address_lines b at t }))
