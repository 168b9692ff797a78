-- ===== src/Trials/NetLib/Says.antt =====
-- What Net_2 asks of the kernel, and what it does with the answers.
use Prim.Native.String.{String}
use nettool.Base.{
  pos, ◌+◌, ◌*◌, ◌-ℤ◌, ◌≤◌, ◌≡◌, ltb_ℤ, true, false, refl, some, [], ◌∷◌, arith, Bool-cases, inl,
  inr,
}
use nettool.Netlink.Headers.{nlmsg_data, af_inet, rtm_newaddr}
use nettool.Netlink.Buffer.{zeros, nlmsg_len}
use nettool.Netlink.Attributes.{for_each_attribute}
use nettool.Netlink.Requests.{attributes, sent_request}
use nettool.Netlink.System.{Kernel, Prog, Trace, opened, sent, received, printed, text}
use nettool.Library.Util.{Family, domain_of, size_of, inet, inet6, buflen}
use nettool.Library.Verdict.{
  Verdict, no_answer, done, no_address, not_permitted, other_error, Says, Chooses, reply-Says,
  plain_lines,
}
use nettool.Library.Address.Sent.{sent_address, attached_twice}
use nettool.Trials.NetLib.Add.{pton, net_add_ip_request, parse_nl_msg}
use nettool.Trials.NetLib.Session.{returned, exited, new_ip, net_add_ip, net_2}

-- The request of add_ip in NetLib.c fits its buffer. A receiver reads in it an acknowledged
-- addition, for device 2, of an address with a prefix of 16 bits, as the request of the library
-- for device 3.
sent_address-net_add_ip_request :
    (k : Kernel) (ip : String) (f : Family)
    → let b = (net_add_ip_request k (domain_of f) ip zeros).1 in
      (sent_address b
        ≡ some (record {
          type = rtm_newaddr;
          flags = 5;
          body = record { family = domain_of f; prefixlen = 16; index = 2 };
          attached = attached_twice k ip (domain_of f);
        }))
      × (b.word 0 nlmsg_len ≡ 32 + 2 * size_of f)
      × (b.word 0 nlmsg_len ≤ buflen)
unfolding sent_request net_add_ip_request attributes for_each_attribute ◌-ℤ◌ pton
sent_address-net_add_ip_request k ip inet = (refl, refl, omega arith)
sent_address-net_add_ip_request k ip inet6 = (refl, refl, omega arith)

module _ (k : Kernel) (t : Trace) where
  abbrev pub net_2_sent : Trace
  net_2_sent =
      let fd = k.socket t in
      let b = (net_add_ip_request k af_inet new_ip zeros).1 in
      sent fd b (b.word 0 nlmsg_len) ∷ opened fd ∷ t

  abbrev pub net_2_received : Trace
  net_2_received =
      received (k.socket t) (k.recvmsg net_2_sent).0 (k.recvmsg net_2_sent).1 ∷ net_2_sent

  -- The line of `check`.
  abbrev pub check_line : Trace → Trace
  check_line t' = printed "check error: %s\n" (text (k.strerror (k.errno t')) ∷ []) ∷ t'

  -- How a run of Net_2 goes: without a socket or a reply it exits with 1, and nothing else
  -- happens than the line of `check`; otherwise it prints what the reply says.
  pub data Runs : Type 0 where
    no_socket :
        ltb_ℤ (k.socket t) (pos 0) ≡ true
        → net_2 k t ≡ some (exited (pos 1), check_line (opened (k.socket t) ∷ t))
        → Runs
    no_reply :
        ltb_ℤ (k.socket t) (pos 0) ≡ false
        → ltb_ℤ (k.recvmsg net_2_sent).0 (pos 0) ≡ true
        → net_2 k t ≡ some (exited (pos 1), check_line net_2_received)
        → Runs
    replied :
        ltb_ℤ (k.socket t) (pos 0) ≡ false
        → ltb_ℤ (k.recvmsg net_2_sent).0 (pos 0) ≡ false
        → (v : Verdict)
        → Says
            (parse_nl_msg (k.recvmsg net_2_sent).1 (k.recvmsg net_2_sent).0)
            ((k.recvmsg net_2_sent).1.error (nlmsg_data 0))
            v
        → net_2 k t
          ≡ some (
            returned (pos 0),
            plain_lines k v ((k.recvmsg net_2_sent).1.error (nlmsg_data 0)) net_2_received,
          )
        → Runs

  net_2_chosen :
      ltb_ℤ (k.socket t) (pos 0) ≡ false
      → ltb_ℤ (k.recvmsg net_2_sent).0 (pos 0) ≡ false
      → (v : Verdict)
      → Chooses
          (Prog (Unit {0}))
          (parse_nl_msg (k.recvmsg net_2_sent).1 (k.recvmsg net_2_sent).0)
          ((k.recvmsg net_2_sent).1.error (nlmsg_data 0))
          v
      → net_2 k t
        ≡ some (
          returned (pos 0),
          plain_lines k v ((k.recvmsg net_2_sent).1.error (nlmsg_data 0)) net_2_received,
        )
  unfolding net_2 net_add_ip
  net_2_chosen s r no_answer c = rw (s, r, c _ _ _ _ _)
  net_2_chosen s r done c = rw (s, r, c _ _ _ _ _)
  net_2_chosen s r no_address c = rw (s, r, c _ _ _ _ _)
  net_2_chosen s r not_permitted c = rw (s, r, c _ _ _ _ _)
  net_2_chosen s r other_error c = rw (s, r, c _ _ _ _ _)

  net_2_unsocketed :
      ltb_ℤ (k.socket t) (pos 0) ≡ true
      → net_2 k t ≡ some (exited (pos 1), check_line (opened (k.socket t) ∷ t))
  unfolding net_2
  net_2_unsocketed s = rw s refl

  net_2_unanswered :
      ltb_ℤ (k.socket t) (pos 0) ≡ false
      → ltb_ℤ (k.recvmsg net_2_sent).0 (pos 0) ≡ true
      → net_2 k t ≡ some (exited (pos 1), check_line net_2_received)
  unfolding net_2 net_add_ip
  net_2_unanswered s r = rw (s, r) refl

  -- Whatever the kernel answers, Net_2 exits with 1 behind the line of `check` when it gets no
  -- socket or no reply, whether its request was sent or not; otherwise it prints at most one line,
  -- that of what the reply says, and returns 0. It closes nothing.
  pub net_2-Runs : Runs
  net_2-Runs = elim (Bool-cases (ltb_ℤ (k.socket t) (pos 0))) [
    | inl s ↦ no_socket s (net_2_unsocketed s)
    | inr s ↦ elim (Bool-cases (ltb_ℤ (k.recvmsg net_2_sent).0 (pos 0))) [
      | inl r ↦ no_reply s r (net_2_unanswered s r)
      | inr r ↦
          let buf = (k.recvmsg net_2_sent).1 in
          let (v, says, c) =
            reply-Says (Prog (Unit {0})) (parse_nl_msg buf (k.recvmsg net_2_sent).0)
              (buf.error (nlmsg_data 0)) in
          replied s r v says (net_2_chosen s r v c)
    ]
  ]
