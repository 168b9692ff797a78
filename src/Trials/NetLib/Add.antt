-- ===== src/Trials/NetLib/Add.antt =====
-- Net_2: adds an address to device 2 and prints what the kernel says.
use Prim.Native.String.{String}
use Prim.Native.Nat.{bit_or}
use nettool.Base.{ℕ, ℤ, pos, ◌+◌, minus_one, ◌==◌, if◌then◌else◌, not}
use nettool.Netlink.Headers.{
  align, nlmsg_length, nlmsg_data, attributes_after, rta_data, rtm_newaddr, nlm_f_request,
  nlm_f_ack, ifa_address, ifa_local, ifa_f_permanent, sizeof_ifaddrmsg, sizeof_in_addr,
  sizeof_in6_addr, af_inet, af_inet6, to_size_t,
}
use nettool.Netlink.Buffer.{
  Buf, Build, ◌>>=◌, ◌>>◌, poke, peek, give, nlmsg_len, nlmsg_type, nlmsg_flags, ifa_family,
  ifa_prefixlen, ifa_flags, ifa_scope, ifa_index, rta_len, rta_type,
}
use nettool.Netlink.Messages.{nlmsg_ok}
use nettool.Netlink.System.{Kernel}
use nettool.Library.Util.{write_address, rta_length_of}

-- pton
unfoldable pub pton : Kernel → ℕ → ℕ → String → Build ℤ
pton k domain at ip =
    if domain == af_inet
    then (λ b. (pos sizeof_in_addr, write_address k af_inet at ip b))
    else if domain == af_inet6
    then (λ b. (pos sizeof_in6_addr, write_address k af_inet6 at ip b))
    else give minus_one

-- add_ip of NetLib.c up to its call of sendmsg.
unfoldable pub net_add_ip_request : Kernel → ℕ → String → Build (Unit {0})
net_add_ip_request k domain ip = do
  poke 0 nlmsg_len (nlmsg_length sizeof_ifaddrmsg)
  poke 0 nlmsg_type rtm_newaddr
  poke 0 nlmsg_flags (bit_or nlm_f_request nlm_f_ack)
  let ifa = nlmsg_data 0
  poke ifa ifa_family domain
  poke ifa ifa_prefixlen 16
  poke ifa ifa_flags ifa_f_permanent
  poke ifa ifa_scope 0
  poke ifa ifa_index 2
  let rta = attributes_after sizeof_ifaddrmsg ifa
  poke rta rta_type ifa_local
  ip_len ← pton k domain (rta_data rta) ip
  poke rta rta_len (rta_length_of ip_len)
  len ← peek 0 nlmsg_len
  used ← peek rta rta_len
  poke 0 nlmsg_len (align len + used)
  let after = rta + align used
  poke after rta_type ifa_address
  ip_len ← pton k domain (rta_data after) ip
  poke after rta_len (rta_length_of ip_len)
  len ← peek 0 nlmsg_len
  used ← peek after rta_len
  poke 0 nlmsg_len (len + used)

-- parse_nl_msg
unfoldable pub parse_nl_msg : Buf → ℤ → ℕ
parse_nl_msg b len = if not (nlmsg_ok b 0 (pos (to_size_t len))) then 0 else b.word 0 nlmsg_type
