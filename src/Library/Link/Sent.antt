-- ===== src/Library/Link/Sent.antt =====
-- What link_up and link_info_request ask of the kernel, read back by a receiver.
use nettool.Base.{ℕ, ℤ, pos, ◌==ℤ◌, if◌then◌else◌, ◌-ℤ◌, ◌≡◌, refl, Option, some, [], ◌∷◌}
use nettool.Netlink.Headers.{sizeof_ifinfomsg, rtm_newlink, ifla_link}
use nettool.Netlink.Buffer.{
  Buf, zeros, nlmsg_len, ifi_family, ifi_type, ifi_index, ifi_flags, ifi_change,
}
use nettool.Netlink.Attributes.{for_each_attribute}
use nettool.Netlink.Requests.{attributes, Request, sent_request}
use nettool.Library.Link.Requests.{link_up_request}

-- struct ifinfomsg
pub record Ifinfomsg : Type 0 where
  pub family : ℕ
  pub type : ℕ
  pub index : ℕ
  pub flags : ℕ
  pub change : ℕ

abbrev pub read_ifinfomsg : Buf → ℕ → Ifinfomsg
read_ifinfomsg b at = record {
  family = b.word at ifi_family;
  type = b.word at ifi_type;
  index = b.word at ifi_index;
  flags = b.word at ifi_flags;
  change = b.word at ifi_change;
}

-- A request about a device, as it is sent.
abbrev pub sent_link : Buf → Option (Request Ifinfomsg)
sent_link = sent_request sizeof_ifinfomsg read_ifinfomsg

-- The device goes up with the flags IFF_UP and IFF_RUNNING, or down with none, all flags being
-- set anew; the attribute IFLA_LINK repeats the choice.
pub sent_link-link_up_request :
    (domain index_device : ℕ) (up : ℤ)
    → let b = (link_up_request domain up index_device zeros).1 in
      (sent_link b
        ≡ some (record {
          type = rtm_newlink;
          flags = 5;
          body = record {
            family = 0;
            type = 0;
            index = index_device;
            flags = if up ==ℤ pos 0 then 0 else 0x41;
            change = 0xffffffff;
          };
          attached = some ((ifla_link, if up ==ℤ pos 0 then 0 else 1) ∷ []);
        }))
      × (b.word 0 nlmsg_len ≡ 40)
unfolding link_up_request sent_request attributes for_each_attribute ◌-ℤ◌
sent_link-link_up_request domain index_device up = (refl, refl)
