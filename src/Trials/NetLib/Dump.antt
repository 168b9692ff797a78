-- ===== src/Trials/NetLib/Dump.antt =====
-- Net_1: asks for the addresses of IPv6 and prints those of one reply. `send` and `recv` are the
-- kernel's sendmsg and recvmsg; an address stands for the eight numbers that NIP6 makes of it.
use Prim.Native.Nat.{bit_or}
use nettool.Base.{
  ℕ, zero, suc, ℤ, pos, pos_part, minus_one, ◌+◌, ◌-ℤ◌, ltb, ltb_ℤ, ◌==◌, ◌==ℤ◌, ◌||◌, not,
  if◌then◌else◌, Option, none, some, [], ◌∷◌,
}
use nettool.Netlink.Headers.{
  align, nlmsg_length, nlmsg_space, nlmsg_data, attributes_after, rta_data, rta_length, to_size_t,
  to_int, sizeof_nlmsghdr, sizeof_ifaddrmsg, sizeof_in6_addr, rtm_getaddr, nlm_f_request,
  nlm_f_root, af_inet6, ifa_address, ifa_local, ifa_broadcast, ifa_anycast, ifa_cacheinfo,
}
use nettool.Netlink.Buffer.{
  Buf, Build, zeros, poke, nlmsg_len, nlmsg_type, nlmsg_flags, ifa_family, ifa_index, rta_len,
  rta_type, payload,
}
use nettool.Netlink.Messages.{nlmsg_ok}
use nettool.Netlink.Attributes.{for_each_attribute}
use nettool.Netlink.System
use nettool.Netlink.System.{
  Kernel, Prog, Trace, number, printed, print, print_error, pure, stuck, ◌>>=◌, ◌>>◌,
}

-- The request. The length of its attribute is written behind the structure, which ends at 24.
unfoldable pub net_1_request : Build (Unit {0})
net_1_request b =
    let b1 = (poke 0 nlmsg_len (nlmsg_length sizeof_ifaddrmsg) b).1 in
    let b2 = (poke 0 nlmsg_flags (bit_or nlm_f_request nlm_f_root) b1).1 in
    let b3 = (poke 0 nlmsg_type rtm_getaddr b2).1 in
    let b4 = (poke (nlmsg_data 0) ifa_family af_inet6 b3).1 in
    let rta = align (b4.word 0 nlmsg_len) in poke rta rta_len (rta_length sizeof_in6_addr) b4

-- INFINITY_LIFE_TIME
abbrev pub infinity_life_time : ℕ
infinity_life_time = 0xffffffff

-- The lines of a life time: ifa_prefered stands at RTA_DATA, ifa_valid four bytes behind it.
unfoldable pub life_time_lines : Buf → ℕ → Trace → Trace
life_time_lines b at t =
    let valid = b.word (rta_data at + 4) payload in
    let prefered = b.word (rta_data at) payload in
    let t1 =
      if valid == infinity_life_time
      then printed "valid_lft forever\n" [] ∷ t
      else printed "valid_lft %usec\n" (number (pos valid) ∷ []) ∷ t in
    if prefered == infinity_life_time
    then printed " preferred_lft forever\n" [] ∷ t1
    else printed " preferred_lft %usec\n" (number (pos prefered) ∷ []) ∷ t1

-- The body of the loop over the attributes: the types exclude one another.
unfoldable pub print_attribute : Buf → ℕ → Trace → Trace
print_attribute b at t =
    let type = b.word at rta_type in
    let address = number (pos (b.word (rta_data at) payload)) ∷ [] in
    if type == ifa_cacheinfo
    then life_time_lines b at t
    else if type == ifa_address
    then printed "addr0: %s\n" address ∷ t
    else if type == ifa_local
    then printed "addr1: %s\n" address ∷ t
    else if type == ifa_broadcast
    then printed "bcataddr: %s\n" address ∷ t
    else if type == ifa_anycast
    then printed "anycastaddr: %s\n" address ∷ t
    else t

abbrev pub printed_all : Option Trace → Option (Unit {0} × Trace)
printed_all none = none
printed_all (some t) = some (tt, t)

-- The lines of one message: its index and its attributes.
unfoldable pub print_address : Buf → ℕ → Prog (Unit {0})
print_address b at t =
    let ifa = nlmsg_data at in
    let len = to_int (b.word at nlmsg_len) -ℤ pos (nlmsg_space sizeof_ifaddrmsg) in
    printed_all (
      for_each_attribute b (print_attribute b) (suc (pos_part len))
        (attributes_after sizeof_ifaddrmsg ifa) len
        (printed "Index Of Iface= %d\n" (number (to_int (b.word ifa ifa_index)) ∷ []) ∷ t))

-- The loop over the messages of the reply, with fuel. `status` is compared as a `size_t`.
unfoldable pub net_1_messages : ℕ → Buf → ℕ → ℤ → Prog ℤ
net_1_messages zero b at status = stuck
net_1_messages (suc fuel) b at status =
    let len = to_int (b.word at nlmsg_len) in
    let step = align (pos_part len) in
    let rest = net_1_messages fuel b (at + step) (status -ℤ pos step) in
    if not (ltb sizeof_nlmsghdr (to_size_t status))
    then pure (pos 0)
    else if ltb_ℤ (len -ℤ pos sizeof_nlmsghdr) (pos 0) || ltb_ℤ status len
    then print "error\n" [] >> pure minus_one
    else if not (nlmsg_ok b at status)
    then print "NLMSG not OK\n" [] >> pure (pos 1)
    else print_address b at >> rest

-- Net_1
unfoldable pub net_1 : Kernel → ℕ → Prog ℤ
net_1 k fuel = do
  fd ← System.socket k
  let request = (net_1_request zeros).1
  status ← System.sendmsg k fd request (request.word 0 nlmsg_len)
  if ltb_ℤ status (pos 0) then (print_error "send" [] >> pure (pos 1)) else (do
    (status, buf) ← System.recvmsg k fd
    if ltb_ℤ status (pos 0)
        then (print_error "recv" [] >> pure (pos 1))
        else if status ==ℤ pos 0
        then (print "EOF\n" [] >> pure (pos 1))
        else net_1_messages fuel buf 0 status)
