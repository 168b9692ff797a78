-- ===== src/Library/Link/Found.antt =====
-- A device that stands in one reply is found by the loop over its messages.
use Prim.Native.String.{String}
use nettool.Base.{
  ℕ, zero, suc, ℤ, pos, pos_part, ◌<◌, ◌+◌, ◌-ℤ◌, ◌≡◌, refl, sym, Bool-cases, true, false, ◌&&◌,
  ◌==◌, inl, inr, List, [], ◌∷◌, some, Option, arith,
}
use nettool.Netlink.Headers.{
  align, nlmsg_data, nlmsg_length, attributes_after, sizeof_ifinfomsg, nlmsg_done, rtm_newlink,
  rtm_getlink, ifla_ifname,
}
use nettool.Netlink.Buffer.{Buf, nlmsg_len, nlmsg_type, ifi_index, rta_type}
use nettool.Netlink.Messages.{nlmsg_ok}
use nettool.Netlink.Attributes.{for_each_attribute-Within, run_at}
use nettool.Netlink.System.{Trace, Arg, printed}
use nettool.Library.Link.Sent.{Ifinfomsg, read_ifinfomsg}
use nettool.Library.Link.Receive.{rtnl_print_link, print_link_attribute, Search, info_messages}
use nettool.Library.Link.Search.{nlmsg_ok_step}

-- A trace with some lines printed behind another one.
pub data Printed (t : Trace) : Trace → Type 0 where
  same : Printed t t
  more :
      (format : String) (args : List Arg) (u : Trace)
      → Printed t u
      → Printed t (printed format args ∷ u)

pub Printed-trans : {t u v : Trace} → Printed t u → Printed u v → Printed t v
Printed-trans p same = p
Printed-trans p (more format args w q) = more format args w (Printed-trans p q)

-- Among the messages from an offset on, the first one of RTM_NEWLINK for the index has this
-- structure.
pub data Holds (b : Buf) (index : ℕ) (i : Ifinfomsg) : ℕ → ℤ → Type 0 where
  here :
      (at : ℕ) (len : ℤ)
      → nlmsg_ok b at len ≡ true
      → b.word at nlmsg_type ≡ rtm_newlink
      → b.word (nlmsg_data at) ifi_index ≡ index
      → read_ifinfomsg b (nlmsg_data at) ≡ i
      → Holds b index i at len
  later :
      (at : ℕ) (len : ℤ)
      → nlmsg_ok b at len ≡ true
      → ((b.word at nlmsg_type == rtm_newlink) && (index == b.word (nlmsg_data at) ifi_index))
        ≡ false
      → Holds b index i
          (at + align (b.word at nlmsg_len))
          (len -ℤ pos (align (b.word at nlmsg_len)))
      → Holds b index i at len

attribute-Printed :
    (b : Buf) (iface p : ℕ) (t : Trace) → Printed t (print_link_attribute b iface p t)
attribute-Printed b iface p t = elim (Bool-cases (b.word p rta_type == ifla_ifname)) [
  | inl name ↦ rw name (more _ _ t same)
  | inr other ↦ rw other same
]

run_at-Printed :
    (b : Buf) (iface : ℕ) (ps : List ℕ) (t : Trace)
    → Printed t (run_at (print_link_attribute b iface) ps t)
run_at-Printed b iface [] t = same
run_at-Printed b iface (p ∷ ps) t =
    Printed-trans (attribute-Printed b iface p t)
      (run_at-Printed b iface ps (print_link_attribute b iface p t))

pub rtnl_print_link-Printed :
    (b : Buf) (h : ℕ) (t : Trace)
    → (u : Trace) × (rtnl_print_link b h t ≡ some (tt, u)) × Printed t u
unfolding rtnl_print_link
rtnl_print_link-Printed b h t =
    let iface = nlmsg_data h in
    let len = pos (b.word h nlmsg_len) -ℤ pos (nlmsg_length sizeof_ifinfomsg) in
    let (ps, run, within) =
      for_each_attribute-Within b Trace (print_link_attribute b iface) (suc (pos_part len))
        (attributes_after sizeof_ifinfomsg iface) len t (omega arith) in
    (run_at (print_link_attribute b iface) ps t, rw run, run_at-Printed b iface ps t)

-- What a run of the loop over messages does that finds the device.
abbrev pub Finds : Ifinfomsg → Trace → Option (Search × Trace) → Type 0
Finds i t o =
    (s : Search) × (u : Trace) × (o ≡ some (s, u)) × (s.find ≡ true) × (s.infomsg ≡ i) × Printed t u

Finds-behind :
    (i : Ifinfomsg) (t u : Trace) (o : Option (Search × Trace))
    → Printed t u
    → Finds i u o
    → Finds i t o
Finds-behind i t u o p (s, v, run, hit, e, q) = (s, v, run, hit, e, Printed-trans p q)

new_not_done : (n : ℕ) → n ≡ rtm_newlink → n == nlmsg_done ≡ false
new_not_done n e = ground arith

test_eq : (m n : ℕ) → m ≡ n → n == m ≡ true
test_eq m n e = ground arith

-- The loop over the messages of a reply finds a device that stands in it, and takes the structure
-- of its first message; else it only prints.
pub info_messages-Finds :
    (b : Buf) (index : ℕ) (i : Ifinfomsg) (fuel at : ℕ) (len : ℤ) (end : ℕ) (infomsg : Ifinfomsg)
    (t : Trace)
    → Holds b index i at len
    → pos_part len < fuel
    → Finds i t (info_messages b index fuel at len end infomsg t)
unfolding info_messages
info_messages-Finds b index i zero at len end infomsg t h l = absurd (omega arith)
info_messages-Finds b index i (suc fuel) at len end infomsg t (here _ _ ok new hit e) l =
    rw
      (
        ok,
        new_not_done (b.word at nlmsg_type) new,
        test_eq rtm_newlink (b.word at nlmsg_type) (sym new),
        test_eq (b.word (nlmsg_data at) ifi_index) index hit,
      )
      (
        record { find = true; end = end; infomsg = read_ifinfomsg b (nlmsg_data at) },
        t,
        refl,
        refl,
        e,
        same,
      )
info_messages-Finds b index i (suc fuel) at len end infomsg t (later _ _ ok pass h) l =
    let less = nlmsg_ok_step b at len ok in
    let step = align (b.word at nlmsg_len) in
    let next = λ (e : ℕ) (u : Trace) (p : Printed t u). Finds-behind i t u _ p (
      info_messages-Finds b index i fuel (at + step) (len -ℤ pos step) e infomsg u h
        (omega arith)) in
    elim (Bool-cases (b.word at nlmsg_type == nlmsg_done)) [
      | inl over ↦ rw (ok, over) (next (suc end) _ (more _ _ t same))
      | inr on ↦ elim (Bool-cases (b.word at nlmsg_type == rtm_newlink)) [
        | inl new ↦
            let told = printed "link_info_receive_2 : RTM_NEWLINK \n" [] ∷ t in
            let (u, shown, p) = rtnl_print_link-Printed b at told in
            let miss : index == b.word (nlmsg_data at) ifi_index ≡ false = rw new at pass in
            rw (ok, on, new, miss, shown) (next end u (Printed-trans (more _ _ t same) p))
        | inr old ↦ elim (Bool-cases (b.word at nlmsg_type == rtm_getlink)) [
          | inl get ↦
              let told = printed "link_info_receive_2 : RTM_GETLINK \n" [] ∷ t in
              let (u, shown, p) = rtnl_print_link-Printed b at told in
              rw (ok, on, old, get, shown) (next end u (Printed-trans (more _ _ t same) p))
          | inr other ↦ rw (ok, on, old, other) (next end _ (more _ _ t same))
        ]
      ]
    ]
