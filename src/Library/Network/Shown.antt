-- ===== src/Library/Network/Shown.antt =====
-- nettool_link_info of libnettool/src/ip_link.c against a kernel that keeps a network.
use Prim.Native.String.{String}
use nettool.Base.{
  ◌≤◌, ◌<◌, arith, true, ℕ, ℤ, pos, ◌≡◌, ◌≢◌, refl, ◌∙◌, ◌%◌, Bool, ◌==◌, some, ◌∷◌, inl, inr,
  Bool-cases,
}
use nettool.Netlink.Headers.{rtm_getlink}
use nettool.Netlink.Buffer.{Buf, zeros, nlmsg_type, nlmsg_len}
use nettool.Netlink.System.{Kernel, Trace, closed, opened, sent}
use nettool.Library.Link.Requests.{link_info_request_buf}
use nettool.Library.Link.Sent.{Ifinfomsg}
use nettool.Library.Link.Dump.{Listened, at_once, prints, receives, InDump, link_info_receive-found}
use nettool.Library.Link.Sessions.{nettool_link_info}
use nettool.Library.Link.Outcome.{info_sent, nettool_link_info-drops}
use nettool.Library.Network.{Network, effect, network, is_dump}

-- RTM_GETLINK for a dump is answered with the devices of the network, in any number of replies up
-- to `parts`, one for each `recvmsg`. A device is in one of them, with IFF_UP, which is 1, when it is
-- up.
pub record IsShowing (k : Kernel) (accepts : Trace → Bool) (start : Network) (parts : ℕ)
    : Type 0 where
  pub shows :
      (fd : ℤ) (b : Buf) (n : ℕ) (t : Trace)
      → b.word 0 nlmsg_type ≡ rtm_getlink
      → is_dump b ≡ true
      → (device : String) → k.if_nametoindex device ≢ 0
      → let index = k.if_nametoindex device in
        (number : ℕ) × (i : Ifinfomsg) × (number < parts)
        × InDump k fd index i number (sent fd b n ∷ t)
        × ((i.flags % 2 == 1) ≡ (network accepts start t).is_up index)

module _ (k : Kernel) (accepts : Trace → Bool) (start : Network) where
  -- What is printed and received changes nothing.
  network-Listened :
      (t u : Trace) → Listened t u → network accepts start u ≡ network accepts start t
  unfolding network
  network-Listened t _ at_once = refl
  network-Listened t _ (prints format args u p) = network-Listened t u p
  network-Listened t _ (receives fd status b u p) = network-Listened t u p

  -- Neither does the request of nettool_link_info.
  network-info_sent :
      (fuel : ℕ) (buf : Buf) (device : String) (infomsg : Ifinfomsg) (t : Trace)
      → network accepts start (info_sent k fuel buf device infomsg t) ≡ network accepts start t
  unfolding network effect link_info_request_buf
  network-info_sent fuel buf device infomsg t =
      elim (Bool-cases (accepts (info_sent k fuel buf device infomsg t))) [
        | inl taken ↦ rw taken refl
        | inr refused ↦ rw refused refl
      ]

  network-closed :
      (fd : ℤ) (t : Trace) → network accepts start (closed fd ∷ t) ≡ network accepts start t
  unfolding network
  network-closed fd t = refl

  module _ (fuel : ℕ) (buf : Buf) (device : String) (infomsg : Ifinfomsg) (t : Trace) where
    asks_dump :
        ((link_info_request_buf k zeros).1.word 0 nlmsg_type ≡ rtm_getlink)
        × (is_dump (link_info_request_buf k zeros).1 ≡ true)
    unfolding link_info_request_buf
    asks_dump = (refl, refl)

    -- Against a kernel that shows its network in at most `parts` replies, for a known device, a socket
    -- other than 0 and as many rounds: nettool_link_info returns 0, the structure that it answers has
    -- IFF_UP exactly when the device is up, and the network is left as it was.
    pub nettool_link_info-Shows :
        (parts : ℕ)
        → IsShowing k accepts start parts
        → parts ≤ fuel
        → k.if_nametoindex device ≢ 0
        → k.socket t ≢ pos 0
        → (i : Ifinfomsg) × (u : Trace) × (nettool_link_info k fuel buf device infomsg t
            ≡ some ((pos 0, i), closed (k.socket t) ∷ u))
          × ((i.flags % 2 == 1) ≡ (network accepts start t).is_up (k.if_nametoindex device))
          × (network accepts start (closed (k.socket t) ∷ u) ≡ network accepts start t)
    unfolding network
    nettool_link_info-Shows parts showing enough known opens =
        let b = (link_info_request_buf k zeros).1 in
        let (number, i, early, inside, shown) =
          showing.shows (k.socket t) b (b.word 0 nlmsg_len) (opened (k.socket t) ∷ t) asks_dump.0
            asks_dump.1 device known in
        let asked = info_sent k fuel buf device infomsg t in
        let (u, run, p) =
          link_info_receive-found k fuel number (k.socket t) (k.if_nametoindex device) infomsg i
            asked inside (omega arith) in
        (
          i,
          u,
          nettool_link_info-drops k fuel buf device infomsg t (pos 0) i u known opens run,
          shown,
          network-closed (k.socket t) u
              ∙ network-Listened asked u p
              ∙ network-info_sent fuel buf device infomsg t,
        )
