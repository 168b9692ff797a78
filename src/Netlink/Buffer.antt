-- ===== src/Netlink/Buffer.antt =====
-- A message buffer, seen through the members of the structures that the program lays over it:
-- a member of a structure at an offset has a value. Members of the structures that one message
-- holds do not overlap, since each structure starts behind the one in front of it.
use nettool.Base.{ℕ, ℤ, pos, ◌&&◌, ◌==◌, if◌then◌else◌}

-- The members of nlmsghdr, ifaddrmsg, rtmsg, ifinfomsg, rtgenmsg and rtattr that the program
-- reads or writes. `payload` is the number (or address) that stands at RTA_DATA.
pub data Member : Type 0 where
  nlmsg_len nlmsg_type nlmsg_flags nlmsg_seq nlmsg_pid : Member
  ifa_family ifa_prefixlen ifa_flags ifa_scope ifa_index : Member
  rtm_family rtm_table rtm_protocol rtm_scope rtm_type : Member
  ifi_family ifi_type ifi_index ifi_flags ifi_change : Member
  rta_len rta_type payload : Member

abbrev tag : Member → ℕ
tag nlmsg_len = 0
tag nlmsg_type = 1
tag nlmsg_flags = 2
tag nlmsg_seq = 3
tag nlmsg_pid = 4
tag ifa_family = 5
tag ifa_prefixlen = 6
tag ifa_flags = 7
tag ifa_scope = 8
tag ifa_index = 9
tag rtm_family = 10
tag rtm_table = 11
tag rtm_protocol = 12
tag rtm_scope = 13
tag rtm_type = 14
tag ifi_family = 15
tag ifi_type = 16
tag ifi_index = 17
tag ifi_flags = 18
tag ifi_change = 19
tag rta_len = 20
tag rta_type = 21
tag payload = 22

pub record Buf : Type 0 where
  pub word : ℕ → Member → ℕ
  -- The `error` of the nlmsgerr at an offset.
  pub error : ℕ → ℤ

-- memset(buf, 0, BUFLEN)
abbrev pub zeros : Buf
zeros = record { word = λ p m. 0; error = λ p. pos 0 }

abbrev pub set : Buf → ℕ → Member → ℕ → Buf
set b at m v = record b { word = λ p x. if (tag x == tag m) && (p == at) then v else b.word p x }

-- Straight-line code over one buffer.
abbrev pub Build : Type 0 → Type 0
Build A = Buf → A × Buf

abbrev pub give : {A : Type 0} → A → Build A
give a b = (a, b)

infixl 5 ◌>>=◌ ◌>>◌
abbrev pub ◌>>=◌ : {A B : Type 0} → Build A → (A → Build B) → Build B
◌>>=◌ m f b = let (a, b') = m b in f a b'

abbrev pub ◌>>◌ : {B : Type 0} → Build (Unit {0}) → Build B → Build B
m >> k = m >>= λ _. k

abbrev pub poke : ℕ → Member → ℕ → Build (Unit {0})
poke at m v b = (tt, set b at m v)

abbrev pub peek : ℕ → Member → Build ℕ
peek at m b = (b.word at m, b)
