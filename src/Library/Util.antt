-- ===== src/Library/Util.antt =====
-- libnettool/src/util.c and util.h: reading one message, and addresses as text.
use Prim.Native.String.{String}
use nettool.Base.{
  ℕ, ℤ, pos, ◌%◌, ◌^◌, minus_one, Option, none, some, ◌==◌, ◌==ℤ◌, ltb_ℤ, if◌then◌else◌, not,
}
use nettool.Netlink.Headers.{
  af_inet, af_inet6, sizeof_in_addr, sizeof_in6_addr, to_size_t, rta_length,
}
use nettool.Netlink.Buffer.{Buf, nlmsg_type, payload, set, Build, give}
use nettool.Netlink.Messages.{nlmsg_ok}
use nettool.Netlink.System
use nettool.Netlink.System.{Kernel, Prog, pure, ◌>>=◌}

-- BUFLEN
abbrev pub buflen : ℕ
buflen = 4096

-- util_get_msg
abbrev pub util_get_msg : Kernel → ℤ → Prog (ℤ × Buf)
util_get_msg k fd = System.recvmsg k fd

-- util_parse_nl_msg_OK: `len` arrives as a `size_t`.
unfoldable pub util_parse_nl_msg_ok : Buf → ℤ → ℕ
util_parse_nl_msg_ok b len =
    if not (nlmsg_ok b 0 (pos (to_size_t len))) then 0 else b.word 0 nlmsg_type

abbrev pub or_else : Option ℕ → ℕ → ℕ
or_else none old = old
or_else (some a) old = a

-- What `inet_pton` writes at an address; a text that is no address writes nothing.
abbrev pub write_address : Kernel → ℕ → ℕ → String → Buf → Buf
write_address k domain at ip b =
    set b at payload (or_else (k.inet_pton domain ip) (b.word at payload))

-- util_pton: what `inet_pton` answers is not looked at.
unfoldable pub util_pton : Kernel → ℕ → ℕ → String → Build ℤ
util_pton k domain at ip =
    if domain == af_inet
    then (λ b. (pos sizeof_in_addr, write_address k af_inet at ip b))
    else if domain == af_inet6
    then (λ b. (pos sizeof_in6_addr, write_address k af_inet6 at ip b))
    else give minus_one

-- RTA_LENGTH of an `int`, as an `unsigned short`.
abbrev pub rta_length_of : ℤ → ℕ
rta_length_of n = rta_length (to_size_t n) % 2 ^ 16

-- util_OpenSocket of the library: a failed `bind` puts its result in the place of the socket.
unfoldable pub util_open_socket : Kernel → Prog ℤ
util_open_socket k = do
  nl_socket ← System.socket k
  if ltb_ℤ (pos 0) nl_socket
      then (do code ← System.bind k nl_socket; pure (if code ==ℤ pos 0 then nl_socket else code))
      else pure nl_socket

-- The two families of addresses that the library knows.
pub data Family : Type 0 where
  inet inet6 : Family

abbrev pub domain_of : Family → ℕ
domain_of inet = af_inet
domain_of inet6 = af_inet6

abbrev pub size_of : Family → ℕ
size_of inet = sizeof_in_addr
size_of inet6 = sizeof_in6_addr
