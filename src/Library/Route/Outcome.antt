-- ===== src/Library/Route/Outcome.antt =====
-- What a run of gateway_add, gateway_del and gateway_show does.
use nettool.Base.{ℕ, suc, pos, ◌≡◌, ◌<◌, some, none, true, false, ◌∷◌}
use nettool.Netlink.Headers.{nlmsg_data, af_inet}
use nettool.Netlink.Buffer.{zeros, nlmsg_len}
use nettool.Netlink.System.{Kernel, Prog, Trace, opened, sent, received}
use nettool.Library.Util.{util_parse_nl_msg_ok}
use nettool.Library.Verdict.{
  Verdict, no_answer, done, no_address, not_permitted, other_error, Says, Chooses, reply-Says,
  plain_lines,
}
use nettool.Library.Exchange.{receive_all-first, receive_all-endless, after_receiving, is_last}
use nettool.Library.Route.Requests.{add_gateway_request, del_gateway_request, get_gateway_request}
use nettool.Library.Route.Sessions.{
  add_gateway, del_gateway, get_gateway, gateway_add, gateway_del, gateway_show,
}

module _ (k : Kernel) (t : Trace) where
  abbrev pub add_sent : Trace
  add_sent =
      let fd = k.socket t in
      let b = (add_gateway_request k af_inet "172.16.0.1" zeros).1 in
      sent fd b (b.word 0 nlmsg_len) ∷ opened fd ∷ t

  abbrev pub add_received : Trace
  add_received = received (k.socket t) (k.recvmsg add_sent).0 (k.recvmsg add_sent).1 ∷ add_sent

  add_chosen :
      (v : Verdict)
      → let buf = (k.recvmsg add_sent).1 in
        let error = buf.error (nlmsg_data 0) in
        Chooses (Prog (Unit {0})) (util_parse_nl_msg_ok buf (k.recvmsg add_sent).0) error v
        → gateway_add k t ≡ some (pos 0, plain_lines k v error add_received)
  unfolding gateway_add add_gateway
  add_chosen no_answer c = rw (c _ _ _ _ _)
  add_chosen done c = rw (c _ _ _ _ _)
  add_chosen no_address c = rw (c _ _ _ _ _)
  add_chosen not_permitted c = rw (c _ _ _ _ _)
  add_chosen other_error c = rw (c _ _ _ _ _)

  -- Whatever the kernel answers, gateway_add returns 0. It opens a socket, sends one
  -- request, receives one message and prints at most one line, that of what the reply says; it
  -- closes nothing.
  pub gateway_add-Says :
      let buf = (k.recvmsg add_sent).1 in
      let error = buf.error (nlmsg_data 0) in
      (v : Verdict) × Says (util_parse_nl_msg_ok buf (k.recvmsg add_sent).0) error v
      × (gateway_add k t ≡ some (pos 0, plain_lines k v error add_received))
  gateway_add-Says =
      let buf = (k.recvmsg add_sent).1 in
      let (v, says, c) =
        reply-Says (Prog (Unit {0})) (util_parse_nl_msg_ok buf (k.recvmsg add_sent).0)
          (buf.error (nlmsg_data 0)) in
      (v, says, add_chosen v c)

module _ (k : Kernel) (t : Trace) where
  abbrev pub del_sent : Trace
  del_sent =
      let fd = k.socket t in
      let b = (del_gateway_request k af_inet "172.16.0.1" zeros).1 in
      sent fd b (b.word 0 nlmsg_len) ∷ opened fd ∷ t

  abbrev pub del_received : Trace
  del_received = received (k.socket t) (k.recvmsg del_sent).0 (k.recvmsg del_sent).1 ∷ del_sent

  del_chosen :
      (v : Verdict)
      → let buf = (k.recvmsg del_sent).1 in
        let error = buf.error (nlmsg_data 0) in
        Chooses (Prog (Unit {0})) (util_parse_nl_msg_ok buf (k.recvmsg del_sent).0) error v
        → gateway_del k t ≡ some (pos 0, plain_lines k v error del_received)
  unfolding gateway_del del_gateway
  del_chosen no_answer c = rw (c _ _ _ _ _)
  del_chosen done c = rw (c _ _ _ _ _)
  del_chosen no_address c = rw (c _ _ _ _ _)
  del_chosen not_permitted c = rw (c _ _ _ _ _)
  del_chosen other_error c = rw (c _ _ _ _ _)

  -- Whatever the kernel answers, gateway_del returns 0. It opens a socket, sends one
  -- request, receives one message and prints at most one line, that of what the reply says; it
  -- closes nothing.
  pub gateway_del-Says :
      let buf = (k.recvmsg del_sent).1 in
      let error = buf.error (nlmsg_data 0) in
      (v : Verdict) × Says (util_parse_nl_msg_ok buf (k.recvmsg del_sent).0) error v
      × (gateway_del k t ≡ some (pos 0, plain_lines k v error del_received))
  gateway_del-Says =
      let buf = (k.recvmsg del_sent).1 in
      let (v, says, c) =
        reply-Says (Prog (Unit {0})) (util_parse_nl_msg_ok buf (k.recvmsg del_sent).0)
          (buf.error (nlmsg_data 0)) in
      (v, says, del_chosen v c)

module _ (k : Kernel) (t : Trace) where
  abbrev pub show_sent : Trace
  show_sent =
      let fd = k.socket t in
      let b = (get_gateway_request af_inet zeros).1 in
      sent fd b (b.word 0 nlmsg_len) ∷ opened fd ∷ t

  -- gateway_show returns 0 at the first reply that reads as NLMSG_DONE or NLMSG_ERROR, which is
  -- the message of number `n`: it has then received `n + 1` messages and printed nothing.
  pub gateway_show-first :
      (n fuel : ℕ)
      → n < fuel
      → ((i : ℕ) → i < n → is_last (k.recvmsg (after_receiving k (k.socket t) i show_sent)) ≡ false)
      → is_last (k.recvmsg (after_receiving k (k.socket t) n show_sent)) ≡ true
      → gateway_show k fuel t ≡ some (pos 0, after_receiving k (k.socket t) (suc n) show_sent)
  unfolding gateway_show get_gateway
  gateway_show-first n fuel l others last =
      rw (receive_all-first k (k.socket t) n fuel show_sent l others last)

  -- gateway_show never returns when no reply reads as NLMSG_DONE or NLMSG_ERROR, as when
  -- every `recvmsg` fails and leaves a buffer that reads as something else.
  pub gateway_show-endless :
      (fuel : ℕ)
      → ((i : ℕ) → is_last (k.recvmsg (after_receiving k (k.socket t) i show_sent)) ≡ false)
      → gateway_show k fuel t ≡ none
  unfolding gateway_show get_gateway
  gateway_show-endless fuel others = rw (receive_all-endless k (k.socket t) fuel show_sent others)
