-- ===== src/Library/Parse.antt =====
-- util_parse_nl_msg_OK of libnettool/src/util.c over the answers of `recvmsg`.
use nettool.Base.{ℕ, pos, negsuc, ◌≡◌, ◌≢◌, ◌≤◌, ◌<◌, ◌^◌, some, [], ◌∷◌, arith}
use nettool.Netlink.Headers.{nlmsg_data, nlmsg_error, sizeof_nlmsghdr}
use nettool.Netlink.Buffer.{Buf, nlmsg_len, nlmsg_type}
use nettool.Netlink.System.{Kernel, Trace, printed}
use nettool.Library.Util.{util_parse_nl_msg_ok}
use nettool.Library.Address.Sessions.{nettool_ip_add}
use nettool.Library.Address.Outcome.{add_sent, add_received, add_chosen}
use nettool.Library.Verdict.{done}

-- A type that is found is that of a message that lies wholly in the bytes received.
pub util_parse_nl_msg_ok-bounds :
    (b : Buf) (n : ℕ)
    → n < 2 ^ 31
    → util_parse_nl_msg_ok b (pos n) ≢ 0
    → (sizeof_nlmsghdr ≤ b.word 0 nlmsg_len)
      × (b.word 0 nlmsg_len ≤ n)
      × (util_parse_nl_msg_ok b (pos n) ≡ b.word 0 nlmsg_type)
unfolding util_parse_nl_msg_ok
util_parse_nl_msg_ok-bounds b n l found = ground arith

-- When `recvmsg` fails, its status becomes a length of nearly 2 ^ 64 bytes, and the type of
-- whatever the buffer held before is found.
pub util_parse_nl_msg_ok-failed :
    (b : Buf) (n : ℕ)
    → n < 2 ^ 31
    → sizeof_nlmsghdr ≤ b.word 0 nlmsg_len
    → b.word 0 nlmsg_len < 2 ^ 32
    → util_parse_nl_msg_ok b (negsuc n) ≡ b.word 0 nlmsg_type
unfolding util_parse_nl_msg_ok
util_parse_nl_msg_ok-failed b n l whole fits = ground arith

-- A failed `recvmsg` over a buffer that held an acknowledgement: nettool_ip_add prints Success.
pub nettool_ip_add-stale :
    (k : Kernel) (t : Trace) (n : ℕ) (b : Buf)
    → n < 2 ^ 31
    → k.recvmsg (add_sent k t) ≡ (negsuc n, b)
    → sizeof_nlmsghdr ≤ b.word 0 nlmsg_len
    → b.word 0 nlmsg_len < 2 ^ 32
    → b.word 0 nlmsg_type ≡ nlmsg_error
    → b.error (nlmsg_data 0) ≡ pos 0
    → nettool_ip_add k t ≡ some (pos 0, printed "ip_add : Success\n" [] ∷ add_received k t)
nettool_ip_add-stale k t n b l e whole fits type acked =
    add_chosen k t done
      (λ x y z v w. rw (e, util_parse_nl_msg_ok-failed b n l whole fits, type, acked))
