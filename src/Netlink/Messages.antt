-- ===== src/Netlink/Messages.antt =====
-- NLMSG_OK. The length is given as the value that it has after C's conversions: an `int` may be
-- negative, an `unsigned int` or a `size_t` may not.
use nettool.Base.{ℕ, ℤ, pos, Bool, ◌&&◌, leb, leb_ℤ}
use nettool.Netlink.Headers.{sizeof_nlmsghdr}
use nettool.Netlink.Buffer.{Buf, nlmsg_len}

abbrev pub nlmsg_ok : Buf → ℕ → ℤ → Bool
nlmsg_ok b at len =
    leb_ℤ (pos sizeof_nlmsghdr) len
    && leb sizeof_nlmsghdr (b.word at nlmsg_len)
    && leb_ℤ (pos (b.word at nlmsg_len)) len
