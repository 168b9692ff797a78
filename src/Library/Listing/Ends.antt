-- ===== src/Library/Listing/Ends.antt =====
-- When the loops of parse_ifa_msg, parse_rt_msg and parse_nl_msg_gateway end.
use nettool.Base.{
  ℕ, zero, suc, ◌+◌, ◌-◌, ◌%◌, ◌^◌, ◌≤◌, ◌<◌, ◌≡◌, refl, Bool, Bool-cases, true, false, ◌&&◌, not,
  ◌==◌, inl, inr, if◌then◌else◌, [], ◌∷◌, ℤ, pos, arith,
}
use nettool.Netlink.Headers.{
  align, nlmsg_data, attributes_after, nlmsg_space, sizeof_rtmsg, nlmsg_error, nlmsg_done,
  rtm_newroute,
}
use nettool.Netlink.Buffer.{
  Buf, nlmsg_len, nlmsg_type, rta_len, rtm_family, rtm_table, rtm_protocol, rtm_scope, rtm_type,
}
use nettool.Netlink.Messages.{nlmsg_ok}
use nettool.Netlink.System.{Kernel, Prog, Trace, number, printed, print, pure, ◌>>=◌, ◌>>◌}
use nettool.Netlink.Finishes.{Finishes, finished, if-Finishes, go_on}
use nettool.Library.Listing.{
  family_number, rta_ok_size, less, print_attributes, rt_lines, parse_rt_msg, parse_nl_msg_gateway,
}

-- An attribute that fits takes its aligned length off a length that is a multiple of four.
attribute_step :
    (b : Buf) (at len : ℕ)
    → rta_ok_size b at len ≡ true
    → len % 4 ≡ 0
    → len < 2 ^ 64
    → (less len (align (b.word at rta_len)) + 4 ≤ len)
      × (less len (align (b.word at rta_len)) % 4 ≡ 0)
attribute_step b at len ok m h = ground arith

print_attributes-Finishes :
    (b : Buf) (body : ℕ → Trace → Trace) (fuel at len : ℕ) (t : Trace)
    → len % 4 ≡ 0
    → len < 2 ^ 64
    → len < fuel
    → Finishes (print_attributes b body fuel at len) t
unfolding print_attributes
print_attributes-Finishes b body zero at len t m h enough = absurd (omega arith)
print_attributes-Finishes b body (suc fuel) at len t m h enough =
    elim (Bool-cases (rta_ok_size b at len)) [
      | inl ok ↦
          let (fits, m') = attribute_step b at len ok m h in
          let step = align (b.word at rta_len) in
          elim (print_attributes-Finishes b body fuel (at + step) (less len step) (body at t) m'
            (omega arith) (omega arith)) [ finished a t' e ↦ finished a t' (rw ok e) ]
      | inr stop ↦ finished tt t (rw stop refl)
    ]

-- The lines in front of those of the attributes.
abbrev route_lines : Buf → ℕ → Trace → Trace
route_lines b rt t =
    printed "\n" []
    ∷ printed "type:\t\t%d\n" (number (pos (b.word rt rtm_type)) ∷ [])
    ∷ printed "scope:\t\t%d\n" (number (pos (b.word rt rtm_scope)) ∷ [])
    ∷ printed "protocol:\t%d\n" (number (pos (b.word rt rtm_protocol)) ∷ [])
    ∷ printed "table id:\t%d\n" (number (pos (b.word rt rtm_table)) ∷ [])
    ∷ printed "family:\t\t%d\n" (number (family_number (b.word rt rtm_family)) ∷ [])
    ∷ printed "==================================\n" []
    ∷ t

parse_rt_msg-Finishes :
    (k : Kernel) (fuel : ℕ) (b : Buf) (rt at len : ℕ) (t : Trace)
    → len % 4 ≡ 0
    → len < 2 ^ 64
    → len < fuel
    → Finishes (parse_rt_msg k fuel b rt at len) t
unfolding parse_rt_msg
parse_rt_msg-Finishes k fuel b rt at len t m h enough =
    elim (print_attributes-Finishes b (rt_lines k b (b.word rt rtm_family)) fuel at len
      (route_lines b rt t) m h enough) [ finished a t' e ↦ finished (pos 0) t' (rw e refl) ]

-- Every message has a length that is a multiple of four, and one of a route has room for its
-- structure.
pub record IsAligned (b : Buf) : Type 0 where
  pub multiple : (p : ℕ) → b.word p nlmsg_len % 4 ≡ 0
  pub room : (p : ℕ) → b.word p nlmsg_type ≡ rtm_newroute → 28 ≤ b.word p nlmsg_len

-- A message that fits takes its length off.
message_step :
    (b : Buf) (at len : ℕ)
    → nlmsg_ok b at (pos (len % 2 ^ 32)) ≡ true
    → len < 2 ^ 32
    → b.word at nlmsg_len % 4 ≡ 0
    → (less len (align (b.word at nlmsg_len)) + 16 ≤ len) × (b.word at nlmsg_len ≤ len)
message_step b at len ok h m = ground arith

-- The length of the attributes of a route.
route_payload :
    (n len : ℕ)
    → n ≤ len
    → len < 2 ^ 32
    → n % 4 ≡ 0
    → 28 ≤ n
    → (less n (nlmsg_space sizeof_rtmsg) % 4 ≡ 0) × (less n (nlmsg_space sizeof_rtmsg) ≤ len)
route_payload n len b h m r = (omega arith, omega arith)

-- One round, with what the rest of the loop does.
gateway_round :
    (type : ℕ) (goes : Bool) (route : Prog ℤ) (rest : Prog ℕ) (t : Trace)
    → (goes ≡ true → type ≡ rtm_newroute → Finishes route t)
    → (goes ≡ true → (t' : Trace) → Finishes rest t')
    → Finishes
        (if not (goes && not (type == nlmsg_done))
          then pure type
          else if type == nlmsg_error
          then print "error" [] >> pure (2 ^ 32 - 1)
          else if type == rtm_newroute
          then (route >>= λ _. rest)
          else rest)
        t
gateway_round type false route rest t go on = finished type t refl
gateway_round type true route rest t go on =
    if-Finishes (not (not (type == nlmsg_done))) (pure type) _ t (finished type t refl) (
      if-Finishes (type == nlmsg_error) (print "error" [] >> pure (2 ^ 32 - 1)) _ t
        (finished (2 ^ 32 - 1) (printed "error" [] ∷ t) refl)
        (elim (Bool-cases (type == rtm_newroute)) [
          | inl e ↦ rw e (go_on route (λ _. rest) t (go refl (ground arith)) (λ _. on refl))
          | inr e ↦ rw e (on refl t)
        ]))

-- When every message has a length that is a multiple of four, and those of routes have room for
-- their structure, parse_nl_msg_gateway returns: one round more than there are bytes is enough
-- for both of its loops.
pub parse_nl_msg_gateway-Finishes :
    (k : Kernel) (fuel : ℕ) (b : Buf) (rounds at len : ℕ) (t : Trace)
    → IsAligned b
    → len < 2 ^ 32
    → len < rounds
    → len < fuel
    → Finishes (parse_nl_msg_gateway k fuel b rounds at len) t
unfolding parse_nl_msg_gateway
parse_nl_msg_gateway-Finishes k fuel b zero at len t a h enough more = absurd (omega arith)
parse_nl_msg_gateway-Finishes k fuel b (suc rounds) at len t a h enough more =
    let n = b.word at nlmsg_len in
    let step = align n in
    let rt = nlmsg_data at in
    gateway_round (b.word at nlmsg_type) (nlmsg_ok b at (pos (len % 2 ^ 32)))
      (parse_rt_msg k fuel b rt (attributes_after sizeof_rtmsg rt)
        (less n (nlmsg_space sizeof_rtmsg)))
      (parse_nl_msg_gateway k fuel b rounds (at + step) (less len step)) t
      (λ ok e.
        let (fits, within) = message_step b at len ok h (a.multiple at) in
        let (m, small) = route_payload n len within h (a.multiple at) (a.room at e) in
        parse_rt_msg-Finishes k fuel b rt (attributes_after sizeof_rtmsg rt)
          (less n (nlmsg_space sizeof_rtmsg)) t m (omega arith) (omega arith))
      (λ ok t'.
        let (fits, within) = message_step b at len ok h (a.multiple at) in
        parse_nl_msg_gateway-Finishes k fuel b rounds (at + step) (less len step) t' a (omega arith)
          (omega arith) (omega arith))
