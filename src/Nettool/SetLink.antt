-- ===== src/Nettool/SetLink.antt =====
-- The request of IpLink of nettool/src/main_nettool.c, and what a receiver reads in it.
use nettool.Base.{ℤ, pos, ◌+◌, ◌==ℤ◌, ◌-ℤ◌, ◌≡◌, refl, if◌then◌else◌, some, [], ◌∷◌}
use nettool.Netlink.Headers.{
  align, nlmsg_length, nlmsg_data, rta_data, rta_length, rtm_newlink, nlm_f_request, af_unspec,
  ifla_link, iff_up, sizeof_ifinfomsg, sizeof_int,
}
use nettool.Netlink.Buffer.{
  Build, ◌>>=◌, ◌>>◌, zeros, poke, peek, nlmsg_len, nlmsg_type, nlmsg_flags, ifi_family, ifi_index,
  ifi_flags, ifi_change, rta_len, rta_type, payload,
}
use nettool.Netlink.Attributes.{for_each_attribute}
use nettool.Netlink.Requests.{attributes, sent_request}
use nettool.Library.Link.Sent.{sent_link}

-- IpLink up to its call of sendmsg, for device 5. The flags start as zeros.
unfoldable pub set_link_request : ℤ → Build (Unit {0})
set_link_request up = do
  let state_link = if up ==ℤ pos 0 then 0 else 1
  poke 0 nlmsg_len (nlmsg_length sizeof_ifinfomsg)
  poke 0 nlmsg_flags nlm_f_request
  poke 0 nlmsg_type rtm_newlink
  let ifinfomsg = nlmsg_data 0
  poke ifinfomsg ifi_family af_unspec
  poke ifinfomsg ifi_index 5
  poke ifinfomsg ifi_change 0xffffffff
  poke ifinfomsg ifi_flags iff_up
  len ← peek 0 nlmsg_len
  let rt_attr = align len
  poke rt_attr rta_type ifla_link
  poke rt_attr rta_len (rta_length sizeof_int)
  poke 0 nlmsg_len (align len + rta_length sizeof_int)
  poke (rta_data rt_attr) payload state_link

-- Whatever state IpLink is asked for, a receiver reads in its request that the device 5 goes up;
-- only the attribute IFLA_LINK tells the two states apart.
sent_link-set_link_request :
    (up : ℤ)
    → let b = (set_link_request up zeros).1 in
      (sent_link b
        ≡ some (record {
          type = rtm_newlink;
          flags = 1;
          body = record { family = 0; type = 0; index = 5; flags = 1; change = 0xffffffff };
          attached = some ((ifla_link, if up ==ℤ pos 0 then 0 else 1) ∷ []);
        }))
      × (b.word 0 nlmsg_len ≡ 40)
unfolding set_link_request sent_request attributes for_each_attribute ◌-ℤ◌
sent_link-set_link_request up = (refl, refl)
