-- ===== src/Library/Route/Requests.antt =====
-- add_gateway, del_gateway and get_gateway up to their call of `sendmsg`.
use Prim.Native.String.{String}
use Prim.Native.Nat.{bit_or}
use nettool.Base.{ℕ, ◌+◌}
use nettool.Netlink.Headers.{
  align, nlmsg_length, nlmsg_data, attributes_after, rta_data, rta_length, rtm_newroute,
  rtm_delroute, rtm_getroute, nlm_f_request, nlm_f_ack, nlm_f_root, nlm_f_replace, nlm_f_create,
  rt_table_main, rtprot_static, rt_scope_universe, rtn_unicast, rta_gateway, rta_oif, sizeof_rtmsg,
  sizeof_int,
}
use nettool.Netlink.Buffer.{
  Build, ◌>>=◌, ◌>>◌, poke, peek, nlmsg_len, nlmsg_type, nlmsg_flags, rtm_family, rtm_table,
  rtm_protocol, rtm_scope, rtm_type, rta_len, rta_type, payload,
}
use nettool.Netlink.System.{Kernel}
use nettool.Library.Util.{util_pton, rta_length_of}

module _ (k : Kernel) where
  -- add_gateway
  unfoldable pub add_gateway_request : ℕ → String → Build (Unit {0})
  add_gateway_request domain ip = do
    poke 0 nlmsg_len (nlmsg_length sizeof_rtmsg)
    poke 0 nlmsg_type rtm_newroute
    poke 0 nlmsg_flags (bit_or (bit_or (bit_or nlm_f_request nlm_f_replace) nlm_f_ack) nlm_f_create)
    let rt = nlmsg_data 0
    poke rt rtm_family domain
    poke rt rtm_table rt_table_main
    poke rt rtm_protocol rtprot_static
    poke rt rtm_scope rt_scope_universe
    poke rt rtm_type rtn_unicast
    let rta = attributes_after sizeof_rtmsg rt
    poke rta rta_type rta_gateway
    ip_len ← util_pton k domain (rta_data rta) ip
    poke rta rta_len (rta_length_of ip_len)
    len ← peek 0 nlmsg_len
    used ← peek rta rta_len
    poke 0 nlmsg_len (align len + used)
    let after = rta + align used
    poke after rta_type rta_oif
    poke after rta_len (rta_length sizeof_int)
    poke (rta_data after) payload 2
    len ← peek 0 nlmsg_len
    used ← peek after rta_len
    poke 0 nlmsg_len (len + used)

  -- del_gateway: the table and the protocol are left at zero.
  unfoldable pub del_gateway_request : ℕ → String → Build (Unit {0})
  del_gateway_request domain ip = do
    poke 0 nlmsg_len (nlmsg_length sizeof_rtmsg)
    poke 0 nlmsg_type rtm_delroute
    poke 0 nlmsg_flags (bit_or nlm_f_request nlm_f_ack)
    let rt = nlmsg_data 0
    poke rt rtm_family domain
    poke rt rtm_scope rt_scope_universe
    poke rt rtm_type rtn_unicast
    let rta = attributes_after sizeof_rtmsg rt
    poke rta rta_type rta_gateway
    ip_len ← util_pton k domain (rta_data rta) ip
    poke rta rta_len (rta_length_of ip_len)
    len ← peek 0 nlmsg_len
    used ← peek rta rta_len
    poke 0 nlmsg_len (align len + used)
    let after = rta + align used
    poke after rta_type rta_oif
    poke after rta_len (rta_length sizeof_int)
    poke (rta_data after) payload 2
    len ← peek 0 nlmsg_len
    used ← peek after rta_len
    poke 0 nlmsg_len (len + used)

-- get_gateway
unfoldable pub get_gateway_request : ℕ → Build (Unit {0})
get_gateway_request domain = do
  poke 0 nlmsg_len (nlmsg_length sizeof_rtmsg)
  poke 0 nlmsg_type rtm_getroute
  poke 0 nlmsg_flags (bit_or nlm_f_request nlm_f_root)
  poke (nlmsg_data 0) rtm_family domain
