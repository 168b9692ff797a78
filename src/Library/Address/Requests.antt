-- ===== src/Library/Address/Requests.antt =====
-- add_ip, del_ip and get_ip up to their call of `sendmsg`: a request built in a buffer of zeros.
-- RTA_NEXT also takes the attribute from the room that is left, which nothing reads.
use Prim.Native.String.{String}
use Prim.Native.Nat.{bit_or}
use nettool.Base.{ℕ, ◌+◌}
use nettool.Netlink.Headers.{
  align, nlmsg_length, nlmsg_data, attributes_after, rta_data, rtm_newaddr, rtm_deladdr,
  rtm_getaddr, nlm_f_request, nlm_f_ack, nlm_f_root, ifa_address, ifa_local, ifa_f_permanent,
  sizeof_ifaddrmsg,
}
use nettool.Netlink.Buffer.{
  Build, ◌>>=◌, ◌>>◌, poke, peek, nlmsg_len, nlmsg_type, nlmsg_flags, ifa_family, ifa_prefixlen,
  ifa_flags, ifa_scope, ifa_index, rta_len, rta_type,
}
use nettool.Netlink.System.{Kernel}
use nettool.Library.Util.{util_pton, rta_length_of}

module _ (k : Kernel) where
  -- add_ip
  unfoldable pub add_ip_request : ℕ → String → Build (Unit {0})
  add_ip_request domain ip = do
    poke 0 nlmsg_len (nlmsg_length sizeof_ifaddrmsg)
    poke 0 nlmsg_type rtm_newaddr
    poke 0 nlmsg_flags (bit_or nlm_f_request nlm_f_ack)
    let ifa = nlmsg_data 0
    poke ifa ifa_family domain
    poke ifa ifa_prefixlen 16
    poke ifa ifa_flags ifa_f_permanent
    poke ifa ifa_scope 0
    poke ifa ifa_index 3
    let rta = attributes_after sizeof_ifaddrmsg ifa
    poke rta rta_type ifa_local
    ip_len ← util_pton k domain (rta_data rta) ip
    poke rta rta_len (rta_length_of ip_len)
    len ← peek 0 nlmsg_len
    used ← peek rta rta_len
    poke 0 nlmsg_len (align len + used)
    let after = rta + align used
    poke after rta_type ifa_address
    ip_len ← util_pton k domain (rta_data after) ip
    poke after rta_len (rta_length_of ip_len)
    len ← peek 0 nlmsg_len
    used ← peek after rta_len
    poke 0 nlmsg_len (len + used)

  -- del_ip
  unfoldable pub del_ip_request : ℕ → String → Build (Unit {0})
  del_ip_request domain ip = do
    poke 0 nlmsg_len (nlmsg_length sizeof_ifaddrmsg)
    poke 0 nlmsg_type rtm_deladdr
    poke 0 nlmsg_flags (bit_or nlm_f_request nlm_f_ack)
    let ifa = nlmsg_data 0
    poke ifa ifa_family domain
    poke ifa ifa_prefixlen 16
    poke ifa ifa_flags ifa_f_permanent
    poke ifa ifa_scope 0
    poke ifa ifa_index 2
    let rta = attributes_after sizeof_ifaddrmsg ifa
    poke rta rta_type ifa_local
    ip_len ← util_pton k domain (rta_data rta) ip
    poke rta rta_len (rta_length_of ip_len)
    len ← peek 0 nlmsg_len
    used ← peek rta rta_len
    poke 0 nlmsg_len (align len + used)
    let after = rta + align used
    poke after rta_type ifa_address
    ip_len ← util_pton k domain (rta_data after) ip
    poke after rta_len (rta_length_of ip_len)
    len ← peek 0 nlmsg_len
    used ← peek after rta_len
    poke 0 nlmsg_len (len + used)

-- get_ip
unfoldable pub get_ip_request : ℕ → Build (Unit {0})
get_ip_request domain = do
  poke 0 nlmsg_len (nlmsg_length sizeof_ifaddrmsg)
  poke 0 nlmsg_type rtm_getaddr
  poke 0 nlmsg_flags (bit_or nlm_f_request nlm_f_root)
  poke (nlmsg_data 0) ifa_family domain
