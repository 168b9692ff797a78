-- ===== src/Library/Network.antt =====
-- The network that a kernel keeps, and what the requests that it accepts make of it, as netlink(7),
-- rtnetlink(7) and netdevice(7) say: of a device, whether it has the flag IFF_UP, and its addresses,
-- of which it forgets the order. The other flags of a device, which the requests of the library set
-- anew too, and routes are not part of it; neither is what a kernel does of its own accord.
pub mod Answers
pub mod Links
pub mod Addresses
pub mod Shown
use nettool.Base.{
  ℕ, ℤ, pos, ◌≡◌, ◌≤◌, ◌<◌, ◌^◌, ◌/◌, ◌%◌, Bool, true, false, not, ◌&&◌, ◌==◌, if◌then◌else◌,
  Option, none, some, List, [], ◌∷◌,
}
use nettool.Netlink.Headers.{
  nlmsg_data, nlmsg_error, rtm_newlink, rtm_newaddr, rtm_deladdr, ifa_local, sizeof_nlmsghdr,
}
use nettool.Netlink.Buffer.{Buf, nlmsg_len, nlmsg_type, nlmsg_flags}
use nettool.Netlink.Requests.{Request}
use nettool.Netlink.System.{Kernel, Trace, sent}
use nettool.Library.Address.Sent.{Address, sent_address}
use nettool.Library.Link.Sent.{Ifinfomsg, sent_link}

-- An address of a device.
pub record Entry : Type 0 where
  pub index : ℕ
  pub family : ℕ
  pub prefixlen : ℕ
  pub address : ℕ

abbrev pub same_entry : Entry → Entry → Bool
same_entry a b =
    (a.index == b.index)
    && (a.family == b.family)
    && (a.prefixlen == b.prefixlen)
    && (a.address == b.address)

pub record Network : Type 0 where
  pub is_up : ℕ → Bool
  pub has : Entry → Bool

abbrev pub set_up : ℕ → Bool → Network → Network
set_up index up n = record n { is_up = λ i. if i == index then up else n.is_up i }

abbrev pub set_entry : Entry → Bool → Network → Network
set_entry e there n = record n { has = λ a. if same_entry a e then there else n.has a }

-- RTM_NEWLINK: of the flags, IFF_UP, where `ifi_change` lets it change.
abbrev pub new_link : Option (Request Ifinfomsg) → Network → Network
new_link none n = n
new_link (some r) n =
    if r.body.change % 2 == 1 then set_up r.body.index (r.body.flags % 2 == 1) n else n

-- The value of the first attribute of a type.
abbrev pub attribute : ℕ → List (ℕ × ℕ) → Option ℕ
attribute wanted [] = none
attribute wanted ((type, value) ∷ rest) =
    if type == wanted then some value else attribute wanted rest

abbrev pub attached : ℕ → Option (List (ℕ × ℕ)) → Option ℕ
attached wanted none = none
attached wanted (some attributes) = attribute wanted attributes

-- RTM_NEWADDR and RTM_DELADDR.
abbrev pub put_address : Address → Bool → Option ℕ → Network → Network
put_address a there none n = n
put_address a there (some local) n =
    set_entry
      (record { index = a.index; family = a.family; prefixlen = a.prefixlen; address = local })
      there n

abbrev pub change_address : Bool → Option (Request Address) → Network → Network
change_address there none n = n
change_address there (some r) n = put_address r.body there (attached ifa_local r.attached) n

-- What an accepted request makes of the network.
unfoldable pub effect : Buf → Network → Network
effect b n =
    let type = b.word 0 nlmsg_type in
    if type == rtm_newlink
    then new_link (sent_link b) n
    else if type == rtm_newaddr
    then change_address true (sent_address b) n
    else if type == rtm_deladdr
    then change_address false (sent_address b) n
    else n

-- The network behind a run, from which requests are accepted; the latest event is the request.
unfoldable pub network : (Trace → Bool) → Network → Trace → Network
network accepts start [] = start
network accepts start (sent fd b n ∷ t) =
    let before = network accepts start t in
    if accepts (sent fd b n ∷ t) then effect b before else before
network accepts start (_ ∷ t) = network accepts start t

-- A received message of type NLMSG_ERROR.
pub record IsAnswer (reply : ℤ × Buf) : Type 0 where
  pub size : ℕ
  pub status : reply.0 ≡ pos size
  pub small : size < 2 ^ 31
  pub whole : sizeof_nlmsghdr ≤ reply.1.word 0 nlmsg_len
  pub fits : reply.1.word 0 nlmsg_len ≤ size
  pub type : reply.1.word 0 nlmsg_type ≡ nlmsg_error

-- A request to get something, a type of 2 modulo 4, with a flag of NLM_F_DUMP, which is 0x300.
abbrev pub is_dump : Buf → Bool
is_dump b = (b.word 0 nlmsg_type % 4 == 2) && not ((b.word 0 nlmsg_flags / 0x100) % 4 == 0)

-- A request with NLM_F_ACK, which is 4, that is not for a dump.
abbrev pub AsksAck : Buf → Type 0
AsksAck b = ((b.word 0 nlmsg_flags / 4) % 2 ≡ 1) × (is_dump b ≡ false)

-- Such a request is answered at once, with the error 0 exactly when it is accepted.
pub record IsHonest (k : Kernel) (accepts : Trace → Bool) : Type 0 where
  pub answers :
      (fd : ℤ) (b : Buf) (n : ℕ) (t : Trace) → AsksAck b → IsAnswer (k.recvmsg (sent fd b n ∷ t))
  pub accepted :
      (fd : ℤ) (b : Buf) (n : ℕ) (t : Trace)
      → AsksAck b
      → accepts (sent fd b n ∷ t) ≡ true
      → (k.recvmsg (sent fd b n ∷ t)).1.error (nlmsg_data 0) ≡ pos 0
  pub turned_down :
      (fd : ℤ) (b : Buf) (n : ℕ) (t : Trace)
      → AsksAck b
      → (k.recvmsg (sent fd b n ∷ t)).1.error (nlmsg_data 0) ≡ pos 0
      → accepts (sent fd b n ∷ t) ≡ true
