-- ===== src/Library/Route/Sent.antt =====
-- What add_gateway, del_gateway and get_gateway ask of the kernel, read back by a receiver.
use Prim.Native.String.{String}
use nettool.Base.{ℕ, ◌+◌, ◌-ℤ◌, ◌≤◌, ◌≡◌, refl, Option, some, List, [], ◌∷◌, arith}
use nettool.Netlink.Headers.{
  sizeof_rtmsg, rtm_newroute, rtm_delroute, rtm_getroute, rta_gateway, rta_oif, rt_table_main,
  rtprot_static, rtn_unicast, rt_scope_universe,
}
use nettool.Netlink.Buffer.{
  Buf, zeros, nlmsg_len, rtm_family, rtm_table, rtm_protocol, rtm_scope, rtm_type,
}
use nettool.Netlink.Attributes.{for_each_attribute}
use nettool.Netlink.Requests.{attributes, Request, sent_request}
use nettool.Netlink.System.{Kernel}
use nettool.Library.Util.{Family, domain_of, size_of, inet, inet6, util_pton, or_else, buflen}
use nettool.Library.Route.Requests.{add_gateway_request, del_gateway_request, get_gateway_request}

pub record Route : Type 0 where
  pub family : ℕ
  pub table : ℕ
  pub protocol : ℕ
  pub scope : ℕ
  pub kind : ℕ

-- A request about routes, as it is sent.
abbrev pub sent_route : Buf → Option (Request Route)
sent_route = sent_request sizeof_rtmsg (λ b at. record {
  family = b.word at rtm_family;
  table = b.word at rtm_table;
  protocol = b.word at rtm_protocol;
  scope = b.word at rtm_scope;
  kind = b.word at rtm_type;
})

module _ (k : Kernel) (ip : String) where
  -- The gateway that `inet_pton` reads, through the device of index 2.
  abbrev pub attached_gateway : ℕ → Option (List (ℕ × ℕ))
  attached_gateway domain =
      some ((rta_gateway, or_else (k.inet_pton domain ip) 0) ∷ (rta_oif, 2) ∷ [])

  -- The request of add_gateway fits its buffer. A receiver reads in it the acknowledged creation or
  -- replacement of a static unicast route of the main table, through the address that `inet_pton`
  -- reads in the text (or zeros) and device 2.
  pub sent_route-add_gateway_request :
      (f : Family)
      → let b = (add_gateway_request k (domain_of f) ip zeros).1 in
        (sent_route b
          ≡ some (record {
            type = rtm_newroute;
            flags = 0x505;
            body = record {
              family = domain_of f;
              table = rt_table_main;
              protocol = rtprot_static;
              scope = rt_scope_universe;
              kind = rtn_unicast;
            };
            attached = attached_gateway (domain_of f);
          }))
        × (b.word 0 nlmsg_len ≡ 40 + size_of f)
        × (b.word 0 nlmsg_len ≤ buflen)
  unfolding add_gateway_request sent_request attributes for_each_attribute ◌-ℤ◌ util_pton
  sent_route-add_gateway_request inet = (refl, refl, omega arith)
  sent_route-add_gateway_request inet6 = (refl, refl, omega arith)

  -- The request of del_gateway fits its buffer. A receiver reads in it the acknowledged removal of
  -- a unicast route of no named table or protocol, through the address that `inet_pton` reads in
  -- the text (or zeros) and device 2.
  pub sent_route-del_gateway_request :
      (f : Family)
      → let b = (del_gateway_request k (domain_of f) ip zeros).1 in
        (sent_route b
          ≡ some (record {
            type = rtm_delroute;
            flags = 5;
            body = record {
              family = domain_of f;
              table = 0;
              protocol = 0;
              scope = rt_scope_universe;
              kind = rtn_unicast;
            };
            attached = attached_gateway (domain_of f);
          }))
        × (b.word 0 nlmsg_len ≡ 40 + size_of f)
        × (b.word 0 nlmsg_len ≤ buflen)
  unfolding del_gateway_request sent_request attributes for_each_attribute ◌-ℤ◌ util_pton
  sent_route-del_gateway_request inet = (refl, refl, omega arith)
  sent_route-del_gateway_request inet6 = (refl, refl, omega arith)

-- The request of get_gateway asks for the routes of the family, and has no attributes.
pub sent_route-get_gateway_request :
    (domain : ℕ)
    → let b = (get_gateway_request domain zeros).1 in
      (sent_route b
        ≡ some (record {
          type = rtm_getroute;
          flags = 0x101;
          body = record { family = domain; table = 0; protocol = 0; scope = 0; kind = 0 };
          attached = some [];
        }))
      × (b.word 0 nlmsg_len ≡ 28)
unfolding get_gateway_request sent_request attributes for_each_attribute ◌-ℤ◌
sent_route-get_gateway_request domain = (refl, refl)
