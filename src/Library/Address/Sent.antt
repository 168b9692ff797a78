-- ===== src/Library/Address/Sent.antt =====
-- What add_ip, del_ip and get_ip ask of the kernel: each request, read back by a receiver.
use Prim.Native.String.{String}
use nettool.Base.{ℕ, ◌+◌, ◌*◌, ◌-ℤ◌, ◌≤◌, ◌≡◌, refl, Option, some, List, [], ◌∷◌, arith}
use nettool.Netlink.Headers.{
  sizeof_ifaddrmsg, rtm_newaddr, rtm_deladdr, rtm_getaddr, ifa_address, ifa_local,
}
use nettool.Netlink.Buffer.{Buf, zeros, nlmsg_len, ifa_family, ifa_prefixlen, ifa_index}
use nettool.Netlink.Attributes.{for_each_attribute}
use nettool.Netlink.System.{Kernel}
use nettool.Library.Util.{Family, domain_of, size_of, inet, inet6, util_pton, or_else, buflen}
use nettool.Library.Address.Requests.{add_ip_request, del_ip_request, get_ip_request}
use nettool.Netlink.Requests.{attributes, Request, sent_request}

pub record Address : Type 0 where
  pub family : ℕ
  pub prefixlen : ℕ
  pub index : ℕ

-- A request about addresses, as it is sent.
abbrev pub sent_address : Buf → Option (Request Address)
sent_address = sent_request sizeof_ifaddrmsg (λ b at. record {
  family = b.word at ifa_family;
  prefixlen = b.word at ifa_prefixlen;
  index = b.word at ifa_index;
})

module _ (k : Kernel) (ip : String) where
  -- The address as the local one and as the address, with the one that `inet_pton` reads.
  abbrev pub attached_twice : ℕ → Option (List (ℕ × ℕ))
  attached_twice domain =
      let a = or_else (k.inet_pton domain ip) 0 in some ((ifa_local, a) ∷ (ifa_address, a) ∷ [])

  -- The request of add_ip fits its buffer. A receiver reads in it an acknowledged addition, for
  -- device 3, of an address with a prefix of 16 bits: as local address and as address it has the
  -- one that `inet_pton` reads in the text, or zeros when it reads none.
  pub sent_address-add_ip_request :
      (f : Family)
      → let b = (add_ip_request k (domain_of f) ip zeros).1 in
        (sent_address b
          ≡ some (record {
            type = rtm_newaddr;
            flags = 5;
            body = record { family = domain_of f; prefixlen = 16; index = 3 };
            attached = attached_twice (domain_of f);
          }))
        × (b.word 0 nlmsg_len ≡ 32 + 2 * size_of f)
        × (b.word 0 nlmsg_len ≤ buflen)
  unfolding sent_request add_ip_request attributes for_each_attribute ◌-ℤ◌ util_pton
  sent_address-add_ip_request inet = (refl, refl, omega arith)
  sent_address-add_ip_request inet6 = (refl, refl, omega arith)

  -- The request of del_ip fits its buffer. A receiver reads in it an acknowledged removal, from
  -- device 2, of an address with a prefix of 16 bits: the one that `inet_pton` reads in the text,
  -- or zeros.
  pub sent_address-del_ip_request :
      (f : Family)
      → let b = (del_ip_request k (domain_of f) ip zeros).1 in
        (sent_address b
          ≡ some (record {
            type = rtm_deladdr;
            flags = 5;
            body = record { family = domain_of f; prefixlen = 16; index = 2 };
            attached = attached_twice (domain_of f);
          }))
        × (b.word 0 nlmsg_len ≡ 32 + 2 * size_of f)
        × (b.word 0 nlmsg_len ≤ buflen)
  unfolding sent_request del_ip_request attributes for_each_attribute ◌-ℤ◌ util_pton
  sent_address-del_ip_request inet = (refl, refl, omega arith)
  sent_address-del_ip_request inet6 = (refl, refl, omega arith)

-- The request of get_ip asks for the addresses of the family, and has no attributes.
pub sent_address-get_ip_request :
    (domain : ℕ)
    → let b = (get_ip_request domain zeros).1 in
      (sent_address b
        ≡ some (record {
          type = rtm_getaddr;
          flags = 0x101;
          body = record { family = domain; prefixlen = 0; index = 0 };
          attached = some [];
        }))
      × (b.word 0 nlmsg_len ≡ 24)
unfolding sent_request get_ip_request attributes for_each_attribute ◌-ℤ◌
sent_address-get_ip_request domain = (refl, refl)
