-- ===== src/Library/Network/Links.antt =====
-- nettool_link_up of libnettool/src/ip_link.c against a kernel that keeps a network.
use Prim.Native.String.{String}
use mathlib.Core.Logic.{◌↔◌}
use nettool.Base.{
  ℕ, ℤ, pos, ◌≡◌, ◌≢◌, refl, ◌∙◌, ap, ◌%◌, Bool, true, not, ◌==◌, ◌==ℤ◌, some, [], ◌∷◌, inl, inr,
  Bool-cases, if◌then◌else◌,
}
use nettool.Netlink.Headers.{af_inet, nlmsg_data, rtm_newlink, ifla_link}
use nettool.Netlink.Buffer.{zeros, nlmsg_len}
use nettool.Netlink.System.{Kernel, Trace, closed, opened}
use nettool.Library.Verdict.{Verdict, no_answer, done, no_address, not_permitted, other_error}
use nettool.Library.Link.Requests.{link_up_request}
use nettool.Library.Link.Sent.{sent_link, sent_link-link_up_request}
use nettool.Library.Link.Sessions.{nettool_link_up}
use nettool.Library.Link.Outcome.{up_sent, up_lines, nettool_link_up-Says}
use nettool.Library.Network.{Network, set_up, effect, network, AsksAck, IsHonest, new_link}
use nettool.Library.Network.Answers.{honest-answered, honest-done}

up_flag : (up : ℤ) → (if up ==ℤ pos 0 then 0 else 0x41) % 2 == 1 ≡ not (up ==ℤ pos 0)
up_flag up = elim (Bool-cases (up ==ℤ pos 0)) [ inl down ↦ rw down | inr goes_up ↦ rw goes_up ]

-- The request of link_up sets the one device up or down.
pub effect-link_up_request :
    (domain index_device : ℕ) (up : ℤ) (n : Network)
    → effect (link_up_request domain up index_device zeros).1 n
      ≡ set_up index_device (not (up ==ℤ pos 0)) n
unfolding effect link_up_request
effect-link_up_request domain index_device up n =
    ap (λ r. new_link r n) (sent_link-link_up_request domain index_device up).0
    ∙ ap (λ b. set_up index_device b n) (up_flag up)

link_up_request-AsksAck :
    (domain index_device : ℕ) (up : ℤ) → AsksAck (link_up_request domain up index_device zeros).1
unfolding link_up_request
link_up_request-AsksAck domain index_device up = (refl, refl)

module _ (k : Kernel) (accepts : Trace → Bool) (start : Network) (device : String) (up : ℤ)
    (t : Trace) where
  -- The lines that are printed change nothing.
  network-up_lines :
      (v : Verdict) (error : ℤ)
      → network accepts start (closed (k.socket t) ∷ up_lines k device up t v error)
        ≡ network accepts start (up_sent k device up t)
  unfolding network
  network-up_lines no_answer error = refl
  network-up_lines done error = refl
  network-up_lines no_address error = refl
  network-up_lines not_permitted error = refl
  network-up_lines other_error error = refl

  network-up_sent : network accepts start (up_sent k device up t) ≡ (
      if accepts (up_sent k device up t)
      then set_up (k.if_nametoindex device) (not (up ==ℤ pos 0)) (network accepts start t)
      else network accepts start t)
  unfolding network
  network-up_sent =
      rw (effect-link_up_request af_inet (k.if_nametoindex device) up (network accepts start t))

  pub nettool_link_up-Applies :
      IsHonest k accepts
      → k.if_nametoindex device ≢ 0
      → k.socket t ≢ pos 0
      → let taken = accepts (up_sent k device up t) in
        (v : Verdict) × (error : ℤ) × (nettool_link_up k device up t
          ≡ some (pos 0, closed (k.socket t) ∷ up_lines k device up t v error))
        × (v ≢ no_answer)
        × ((v ≡ done) ↔ (taken ≡ true))
        × (network accepts start (closed (k.socket t) ∷ up_lines k device up t v error) ≡ (
            if taken
            then set_up (k.if_nametoindex device) (not (up ==ℤ pos 0)) (network accepts start t)
            else network accepts start t))
        × (sent_link (link_up_request af_inet up (k.if_nametoindex device) zeros).1
            ≡ some (record {
              type = rtm_newlink;
              flags = 5;
              body = record {
                family = 0;
                type = 0;
                index = k.if_nametoindex device;
                flags = if up ==ℤ pos 0 then 0 else 0x41;
                change = 0xffffffff;
              };
              attached = some ((ifla_link, if up ==ℤ pos 0 then 0 else 1) ∷ []);
            }))
  nettool_link_up-Applies honest known opens =
      let (v, says, run) = nettool_link_up-Says k device up t known opens in
      let b = (link_up_request af_inet up (k.if_nametoindex device) zeros).1 in
      let error = (k.recvmsg (up_sent k device up t)).1.error (nlmsg_data 0) in
      (
        v,
        error,
        run,
        honest-answered k accepts honest (k.socket t) b (b.word 0 nlmsg_len)
            (opened (k.socket t) ∷ t) (link_up_request-AsksAck af_inet (k.if_nametoindex device) up)
            v says,
        honest-done k accepts honest (k.socket t) b (b.word 0 nlmsg_len) (opened (k.socket t) ∷ t)
            (link_up_request-AsksAck af_inet (k.if_nametoindex device) up) v says,
        network-up_lines v error ∙ network-up_sent,
        (sent_link-link_up_request af_inet (k.if_nametoindex device) up).0,
      )
