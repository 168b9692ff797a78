-- ===== src/Netlink/Headers.antt =====
-- Numbers of the Linux headers that the program names, and the arithmetic of their macros.
-- `int` has 32 bits, `size_t` 64.
use nettool.Base.{ℕ, ℤ, pos, negsuc, ◌+◌, ◌-◌, ◌*◌, ◌/◌, ◌%◌, ◌^◌, ltb, if◌then◌else◌}

-- Sizes of the structures.
abbrev pub sizeof_nlmsghdr : ℕ
sizeof_nlmsghdr = 16

abbrev pub sizeof_rtattr : ℕ
sizeof_rtattr = 4

abbrev pub sizeof_ifaddrmsg : ℕ
sizeof_ifaddrmsg = 8

abbrev pub sizeof_rtmsg : ℕ
sizeof_rtmsg = 12

abbrev pub sizeof_ifinfomsg : ℕ
sizeof_ifinfomsg = 16

abbrev pub sizeof_rtgenmsg : ℕ
sizeof_rtgenmsg = 1

abbrev pub sizeof_in_addr : ℕ
sizeof_in_addr = 4

abbrev pub sizeof_in6_addr : ℕ
sizeof_in6_addr = 16

abbrev pub sizeof_int : ℕ
sizeof_int = 4

-- Message types.
abbrev pub nlmsg_error : ℕ
nlmsg_error = 2

abbrev pub nlmsg_done : ℕ
nlmsg_done = 3

abbrev pub rtm_newlink : ℕ
rtm_newlink = 16

abbrev pub rtm_dellink : ℕ
rtm_dellink = 17

abbrev pub rtm_getlink : ℕ
rtm_getlink = 18

abbrev pub rtm_setlink : ℕ
rtm_setlink = 19

abbrev pub rtm_newaddr : ℕ
rtm_newaddr = 20

abbrev pub rtm_deladdr : ℕ
rtm_deladdr = 21

abbrev pub rtm_getaddr : ℕ
rtm_getaddr = 22

abbrev pub rtm_newroute : ℕ
rtm_newroute = 24

abbrev pub rtm_delroute : ℕ
rtm_delroute = 25

abbrev pub rtm_getroute : ℕ
rtm_getroute = 26

-- Flags of a request.
abbrev pub nlm_f_request : ℕ
nlm_f_request = 0x1

abbrev pub nlm_f_ack : ℕ
nlm_f_ack = 0x4

abbrev pub nlm_f_root : ℕ
nlm_f_root = 0x100

abbrev pub nlm_f_dump : ℕ
nlm_f_dump = 0x300

abbrev pub nlm_f_replace : ℕ
nlm_f_replace = 0x100

abbrev pub nlm_f_create : ℕ
nlm_f_create = 0x400

-- Address families.
abbrev pub af_unspec : ℕ
af_unspec = 0

abbrev pub af_inet : ℕ
af_inet = 2

abbrev pub af_inet6 : ℕ
af_inet6 = 10

-- Attributes of addresses, of routes and of links.
abbrev pub ifa_address : ℕ
ifa_address = 1

abbrev pub ifa_local : ℕ
ifa_local = 2

abbrev pub ifa_label : ℕ
ifa_label = 3

abbrev pub ifa_broadcast : ℕ
ifa_broadcast = 4

abbrev pub ifa_anycast : ℕ
ifa_anycast = 5

abbrev pub ifa_cacheinfo : ℕ
ifa_cacheinfo = 6

abbrev pub ifa_f_permanent : ℕ
ifa_f_permanent = 0x80

abbrev pub rta_oif : ℕ
rta_oif = 4

abbrev pub rta_gateway : ℕ
rta_gateway = 5

abbrev pub ifla_address : ℕ
ifla_address = 1

abbrev pub ifla_broadcast : ℕ
ifla_broadcast = 2

abbrev pub ifla_ifname : ℕ
ifla_ifname = 3

abbrev pub ifla_mtu : ℕ
ifla_mtu = 4

abbrev pub ifla_link : ℕ
ifla_link = 5

abbrev pub ifla_qdisc : ℕ
ifla_qdisc = 6

abbrev pub ifla_stats : ℕ
ifla_stats = 7

-- Routes: the main table, static, universal, unicast.
abbrev pub rt_table_main : ℕ
rt_table_main = 254

abbrev pub rtprot_static : ℕ
rtprot_static = 4

abbrev pub rt_scope_universe : ℕ
rt_scope_universe = 0

abbrev pub rtn_unicast : ℕ
rtn_unicast = 1

-- Flags of a device.
abbrev pub iff_up : ℕ
iff_up = 0x1

abbrev pub iff_running : ℕ
iff_running = 0x40

abbrev pub iff_broadcast : ℕ
iff_broadcast = 0x2

abbrev pub iff_debug : ℕ
iff_debug = 0x4

abbrev pub iff_loopback : ℕ
iff_loopback = 0x8

abbrev pub iff_pointopoint : ℕ
iff_pointopoint = 0x10

abbrev pub iff_notrailers : ℕ
iff_notrailers = 0x20

abbrev pub iff_noarp : ℕ
iff_noarp = 0x80

abbrev pub iff_promisc : ℕ
iff_promisc = 0x100

abbrev pub iff_allmulti : ℕ
iff_allmulti = 0x200

abbrev pub iff_master : ℕ
iff_master = 0x400

abbrev pub iff_slave : ℕ
iff_slave = 0x800

abbrev pub iff_multicast : ℕ
iff_multicast = 0x1000

abbrev pub iff_portsel : ℕ
iff_portsel = 0x2000

abbrev pub iff_automedia : ℕ
iff_automedia = 0x4000

abbrev pub iff_dynamic : ℕ
iff_dynamic = 0x8000

abbrev pub iff_lower_up : ℕ
iff_lower_up = 0x10000

abbrev pub iff_dormant : ℕ
iff_dormant = 0x20000

abbrev pub iff_echo : ℕ
iff_echo = 0x40000

-- NLMSG_ALIGN and RTA_ALIGN: the next multiple of four.
abbrev pub align : ℕ → ℕ
align n = (n + 3) / 4 * 4

-- NLMSG_LENGTH(n) and NLMSG_SPACE(n)
abbrev pub nlmsg_length : ℕ → ℕ
nlmsg_length n = n + align sizeof_nlmsghdr

abbrev pub nlmsg_space : ℕ → ℕ
nlmsg_space n = align (nlmsg_length n)

-- NLMSG_DATA, and what IFA_RTA, RTM_RTA and IFLA_RTA add for the structure in front.
abbrev pub nlmsg_data : ℕ → ℕ
nlmsg_data at = at + align sizeof_nlmsghdr

abbrev pub attributes_after : ℕ → ℕ → ℕ
attributes_after size at = at + align size

-- RTA_DATA(rta) and RTA_LENGTH(n)
abbrev pub rta_data : ℕ → ℕ
rta_data at = at + align sizeof_rtattr

abbrev pub rta_length : ℕ → ℕ
rta_length n = align sizeof_rtattr + n

-- The value of an `int` as a `size_t` and as an `unsigned int`.
abbrev pub to_size_t : ℤ → ℕ
to_size_t (pos n) = n % 2 ^ 64
to_size_t (negsuc n) = 2 ^ 64 - 1 - n % 2 ^ 64

abbrev pub to_unsigned : ℤ → ℕ
to_unsigned (pos n) = n % 2 ^ 32
to_unsigned (negsuc n) = 2 ^ 32 - 1 - n % 2 ^ 32

-- The value of an `unsigned int` as an `int`.
abbrev pub to_int : ℕ → ℤ
to_int n = if ltb (n % 2 ^ 32) (2 ^ 31) then pos (n % 2 ^ 32) else negsuc (2 ^ 32 - 1 - n % 2 ^ 32)
