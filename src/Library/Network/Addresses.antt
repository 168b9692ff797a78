-- ===== src/Library/Network/Addresses.antt =====
-- nettool_ip_add and ip_del of libnettool/src against a kernel that keeps a network.
use Prim.Native.String.{String}
use mathlib.Core.Logic.{◌↔◌}
use nettool.Base.{
  ℕ, ℤ, pos, ◌≡◌, ◌≢◌, refl, ◌∙◌, ap, Bool, true, false, ◌==◌, some, ◌∷◌, if◌then◌else◌,
}
use nettool.Netlink.Headers.{af_inet, nlmsg_data}
use nettool.Netlink.Buffer.{zeros, nlmsg_len}
use nettool.Netlink.System.{Kernel, Trace, opened}
use nettool.Library.Util.{inet, or_else, util_pton}
use nettool.Library.Verdict.{
  Verdict, no_answer, done, no_address, not_permitted, other_error, plain_lines,
}
use nettool.Library.Address.Requests.{add_ip_request, del_ip_request}
use nettool.Library.Address.Sent.{sent_address-add_ip_request, sent_address-del_ip_request}
use nettool.Library.Address.Sessions.{new_ip, nettool_ip_add, ip_del}
use nettool.Library.Address.Outcome.{
  add_sent, add_lines, nettool_ip_add-Says, del_sent, del_received, ip_del-Says,
}
use nettool.Library.Network.{
  Network, Entry, set_entry, effect, network, AsksAck, IsHonest, change_address,
}
use nettool.Library.Network.Answers.{honest-answered, honest-done, network-plain_lines}

-- An IPv4 address with 16 bits of prefix.
abbrev pub entry : Kernel → ℕ → String → Entry
entry k index ip = record {
  index = index;
  family = af_inet;
  prefixlen = 16;
  address = or_else (k.inet_pton af_inet ip) 0;
}

-- The request of add_ip puts the address on device 3.
effect-add_ip_request :
    (k : Kernel) (ip : String) (n : Network)
    → effect (add_ip_request k af_inet ip zeros).1 n ≡ set_entry (entry k 3 ip) true n
unfolding effect add_ip_request util_pton
effect-add_ip_request k ip n =
    ap (λ r. change_address true r n) (sent_address-add_ip_request k ip inet).0

-- The request of del_ip takes the address from device 2.
effect-del_ip_request :
    (k : Kernel) (ip : String) (n : Network)
    → effect (del_ip_request k af_inet ip zeros).1 n ≡ set_entry (entry k 2 ip) false n
unfolding effect del_ip_request util_pton
effect-del_ip_request k ip n =
    ap (λ r. change_address false r n) (sent_address-del_ip_request k ip inet).0

add_ip_request-AsksAck : (k : Kernel) (ip : String) → AsksAck (add_ip_request k af_inet ip zeros).1
unfolding add_ip_request util_pton
add_ip_request-AsksAck k ip = (refl, refl)

del_ip_request-AsksAck : (k : Kernel) (ip : String) → AsksAck (del_ip_request k af_inet ip zeros).1
unfolding del_ip_request util_pton
del_ip_request-AsksAck k ip = (refl, refl)

module _ (k : Kernel) (accepts : Trace → Bool) (start : Network) (t : Trace) where
  network-add_lines :
      (v : Verdict) (error : ℤ)
      → network accepts start (add_lines k t v error) ≡ network accepts start (add_sent k t)
  unfolding network
  network-add_lines no_answer error = refl
  network-add_lines done error = refl
  network-add_lines no_address error = refl
  network-add_lines not_permitted error = refl
  network-add_lines other_error error = refl

  network-add_sent : network accepts start (add_sent k t) ≡ (
      if accepts (add_sent k t)
      then set_entry (entry k 3 new_ip) true (network accepts start t)
      else network accepts start t)
  unfolding network
  network-add_sent = rw (effect-add_ip_request k new_ip (network accepts start t))

  -- Against an honest kernel nettool_ip_add prints its line of success exactly when the kernel
  -- accepted its request. Then device 3 has the address NEW_IP, with a prefix of 16 bits, and
  -- nothing else changed; otherwise nothing changed at all.
  pub nettool_ip_add-Applies :
      IsHonest k accepts
      → let taken = accepts (add_sent k t) in
        (v : Verdict) × (error : ℤ) × (nettool_ip_add k t ≡ some (pos 0, add_lines k t v error))
        × (v ≢ no_answer)
        × ((v ≡ done) ↔ (taken ≡ true))
        × (network accepts start (add_lines k t v error) ≡ (
            if taken
            then set_entry (entry k 3 new_ip) true (network accepts start t)
            else network accepts start t))
  nettool_ip_add-Applies honest =
      let (v, says, run) = nettool_ip_add-Says k t in
      let b = (add_ip_request k af_inet new_ip zeros).1 in
      let error = (k.recvmsg (add_sent k t)).1.error (nlmsg_data 0) in
      let u = opened (k.socket t) ∷ t in
      let asks = add_ip_request-AsksAck k new_ip in
      (
        v,
        error,
        run,
        honest-answered k accepts honest (k.socket t) b (b.word 0 nlmsg_len) u asks v says,
        honest-done k accepts honest (k.socket t) b (b.word 0 nlmsg_len) u asks v says,
        network-add_lines v error ∙ network-add_sent,
      )

  network-del_received : network accepts start (del_received k t) ≡ (
      if accepts (del_sent k t)
      then set_entry (entry k 2 "172.16.10.111") false (network accepts start t)
      else network accepts start t)
  unfolding network
  network-del_received = rw (effect-del_ip_request k "172.16.10.111" (network accepts start t))

  -- Against an honest kernel ip_del prints its line of success exactly when the kernel accepted
  -- its request. Then device 2 is without the address 172.16.10.111 of 16 bits of prefix, and
  -- nothing else changed; otherwise nothing changed at all.
  pub ip_del-Applies :
      IsHonest k accepts
      → let taken = accepts (del_sent k t) in
        (v : Verdict) × (error : ℤ) × (ip_del k t
          ≡ some (pos 0, plain_lines k v error (del_received k t)))
        × (v ≢ no_answer)
        × ((v ≡ done) ↔ (taken ≡ true))
        × (network accepts start (plain_lines k v error (del_received k t)) ≡ (
            if taken
            then set_entry (entry k 2 "172.16.10.111") false (network accepts start t)
            else network accepts start t))
  ip_del-Applies honest =
      let (v, says, run) = ip_del-Says k t in
      let b = (del_ip_request k af_inet "172.16.10.111" zeros).1 in
      let error = (k.recvmsg (del_sent k t)).1.error (nlmsg_data 0) in
      let u = opened (k.socket t) ∷ t in
      let asks = del_ip_request-AsksAck k "172.16.10.111" in
      (
        v,
        error,
        run,
        honest-answered k accepts honest (k.socket t) b (b.word 0 nlmsg_len) u asks v says,
        honest-done k accepts honest (k.socket t) b (b.word 0 nlmsg_len) u asks v says,
        network-plain_lines k accepts start v error (del_received k t) ∙ network-del_received,
      )

other_index : (i j : ℕ) → i ≡ 3 → j ≡ 2 → i == j ≡ false
other_index i j e f = rw (e, f)

other_device :
    (taken : Bool) (gone e : Entry) (n : Network)
    → e.index ≡ 3
    → gone.index ≡ 2
    → n.has e ≡ true
    → (if taken then set_entry gone false n else n).has e ≡ true
other_device false gone e n third second there = there
other_device true gone e n third second there =
    rw (other_index e.index gone.index third second) there

-- ip_del is no way back from nettool_ip_add: whatever the kernel answers, an address that device 3
-- has is still there behind ip_del.
pub ip_del-keeps :
    (k : Kernel) (accepts : Trace → Bool) (start : Network) (t t' : Trace) (code : ℤ) (e : Entry)
    → e.index ≡ 3
    → (network accepts start t).has e ≡ true
    → ip_del k t ≡ some (code, t')
    → (network accepts start t').has e ≡ true
ip_del-keeps k accepts start t t' code e third there run =
    let (v, says, ran) = ip_del-Says k t in
    let error = (k.recvmsg (del_sent k t)).1.error (nlmsg_data 0) in
    let same : plain_lines k v error (del_received k t) ≡ t' = cc in
    rw (← same) (
      rw (network-plain_lines k accepts start v error (del_received k t)) (
        rw (network-del_received k accepts start t) (
          other_device (accepts (del_sent k t)) (entry k 2 "172.16.10.111") e
            (network accepts start t) third refl there)))
