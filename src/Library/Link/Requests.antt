-- ===== src/Library/Link/Requests.antt =====
-- link_up and link_info_request up to their call of `sendmsg`.
use Prim.Native.Nat.{bit_or}
use nettool.Base.{ℕ, ℤ, pos, ◌+◌, ◌==ℤ◌, if◌then◌else◌}
use nettool.Netlink.Headers.{
  align, nlmsg_length, nlmsg_data, attributes_after, rta_data, rta_length, rtm_newlink, rtm_getlink,
  nlm_f_request, nlm_f_ack, nlm_f_dump, af_unspec, ifla_link, iff_up, iff_running, sizeof_ifinfomsg,
  sizeof_rtgenmsg, sizeof_int,
}
use nettool.Netlink.Buffer.{
  Build, ◌>>=◌, ◌>>◌, poke, peek, nlmsg_len, nlmsg_type, nlmsg_flags, nlmsg_seq, nlmsg_pid,
  ifi_family, ifi_index, ifi_flags, ifi_change, rta_len, rta_type, payload,
}
use nettool.Netlink.System.{Kernel}

-- link_up; the domain is not looked at.
unfoldable pub link_up_request : ℕ → ℤ → ℕ → Build (Unit {0})
link_up_request domain up index_device = do
  poke 0 nlmsg_len (nlmsg_length sizeof_ifinfomsg)
  poke 0 nlmsg_type rtm_newlink
  poke 0 nlmsg_flags (bit_or nlm_f_request nlm_f_ack)
  let ifinfomsg = nlmsg_data 0
  poke ifinfomsg ifi_family af_unspec
  poke ifinfomsg ifi_index index_device
  poke ifinfomsg ifi_change 0xffffffff
  poke ifinfomsg ifi_flags (if up ==ℤ pos 0 then 0 else bit_or iff_up iff_running)
  let link_attribut = if up ==ℤ pos 0 then 0 else 1
  let rt_attr = attributes_after sizeof_ifinfomsg ifinfomsg
  poke rt_attr rta_type ifla_link
  poke (rta_data rt_attr) payload link_attribut
  poke rt_attr rta_len (rta_length sizeof_int)
  len ← peek 0 nlmsg_len
  used ← peek rt_attr rta_len
  poke 0 nlmsg_len (align len + used)

-- link_info_request
unfoldable pub link_info_request_buf : Kernel → Build (Unit {0})
link_info_request_buf k = do
  poke 0 nlmsg_len (nlmsg_length sizeof_rtgenmsg)
  poke 0 nlmsg_type rtm_getlink
  poke 0 nlmsg_flags (bit_or (bit_or nlm_f_request nlm_f_dump) nlm_f_ack)
  poke 0 nlmsg_pid k.getpid
  poke 0 nlmsg_seq 1
