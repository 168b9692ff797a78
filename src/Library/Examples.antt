-- ===== src/Library/Examples.antt =====
-- The library against kernels that answer alike each time.
use nettool.Base.{ℕ, suc, ℤ, pos, minus_one, ◌+◌, ◌*◌, ◌≤◌, ◌≡◌, some, All, List, [], ◌∷◌, arith}
use nettool.Netlink.Headers.{rtm_newaddr, rtm_newlink, af_inet6, ifla_link}
use nettool.Netlink.Buffer.{Buf, zeros, set, nlmsg_len, nlmsg_type}
use nettool.Netlink.Attributes.{for_each_attribute, for_each_attribute-Within, run_at, Within}
use nettool.Netlink.System.{Kernel}
use nettool.Library.Util.{inet6, buflen}
use nettool.Library.Address.Requests.{add_ip_request}
use nettool.Library.Address.Sent.{sent_address, attached_twice, sent_address-add_ip_request}
use nettool.Library.Link.Requests.{link_up_request}
use nettool.Library.Link.Sent.{sent_link, sent_link-link_up_request}

-- A message of a header and an error number, 36 bytes, as an acknowledgement has.
abbrev pub ack : Buf
ack = set (set zeros 0 nlmsg_len 36) 0 nlmsg_type 2

-- The end of a dump.
abbrev pub dump_end : Buf
dump_end = set (set zeros 0 nlmsg_len 20) 0 nlmsg_type 3

-- Each `recvmsg` answers the same; the socket is 3, the device eth1 is number 5.
abbrev pub answering : ℤ → Buf → Kernel
answering status b = record {
  socket = λ t. pos 3;
  bind = λ t. pos 0;
  sendmsg = λ t. pos 40;
  recvmsg = λ t. (status, b);
  pthread_create = λ t. pos 11;
  errno = λ t. pos 0;
  getpid = 77;
  if_nametoindex = λ name. 5;
  inet_pton = λ domain ip. some 0xc0a80102;
  inet_ntop = λ domain a. "192.168.1.2";
  select = λ t. pos 1;
  strerror = λ e. "";
}

abbrev pub acking : Kernel
acking = answering (pos 36) ack

abbrev pub ending : Kernel
ending = answering (pos 20) dump_end

abbrev pub failing : Kernel
failing = answering minus_one zeros

-- A failing `recvmsg` that leaves an old acknowledgement.
abbrev pub stale : Kernel
stale = answering minus_one ack

for_each_attribute-Within_example :
    (ps : List ℕ) × (for_each_attribute ack (λ p n. suc n) 37 0 (pos 36) 0
      ≡ some (run_at (λ p n. suc n) ps 0))
    × All (Within ack 0 36) ps
for_each_attribute-Within_example =
    for_each_attribute-Within ack ℕ (λ p n. suc n) 37 0 (pos 36) 0 (omega arith)

sent_address-add_ip_request_example :
    let b = (add_ip_request acking af_inet6 "::1" zeros).1 in
    (sent_address b
      ≡ some (record {
        type = rtm_newaddr;
        flags = 5;
        body = record { family = af_inet6; prefixlen = 16; index = 3 };
        attached = attached_twice acking "::1" af_inet6;
      }))
    × (b.word 0 nlmsg_len ≡ 32 + 2 * 16)
    × (b.word 0 nlmsg_len ≤ buflen)
sent_address-add_ip_request_example = sent_address-add_ip_request acking "::1" inet6

sent_link-link_up_request_example :
    let b = (link_up_request 2 (pos 1) 5 zeros).1 in
    (sent_link b
      ≡ some (record {
        type = rtm_newlink;
        flags = 5;
        body = record { family = 0; type = 0; index = 5; flags = 0x41; change = 0xffffffff };
        attached = some ((ifla_link, 1) ∷ []);
      }))
    × (b.word 0 nlmsg_len ≡ 40)
sent_link-link_up_request_example = sent_link-link_up_request 2 5 (pos 1)
