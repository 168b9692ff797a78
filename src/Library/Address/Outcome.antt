-- ===== src/Library/Address/Outcome.antt =====
-- What a run of nettool_ip_add, ip_del and nettool_ip_show does.
use nettool.Base.{ℕ, suc, ℤ, pos, ◌≡◌, ◌<◌, some, none, true, false, [], ◌∷◌}
use nettool.Netlink.Headers.{nlmsg_data, af_inet}
use nettool.Netlink.Buffer.{zeros, nlmsg_len}
use nettool.Netlink.System.{Kernel, Prog, Trace, opened, sent, received, printed, number, text}
use nettool.Library.Util.{util_parse_nl_msg_ok}
use nettool.Library.Verdict.{
  Verdict, no_answer, done, no_address, not_permitted, other_error, Says, Chooses, reply-Says,
  plain_lines,
}
use nettool.Library.Exchange.{receive_all-first, receive_all-endless, after_receiving, is_last}
use nettool.Library.Address.Requests.{add_ip_request, del_ip_request, get_ip_request}
use nettool.Library.Address.Sessions.{
  new_ip, add_ip, del_ip, get_ip, nettool_ip_add, ip_del, nettool_ip_show,
}

module _ (k : Kernel) (t : Trace) where
  -- The socket, and what has happened once the request for a new address is out.
  abbrev pub add_sent : Trace
  add_sent =
      let fd = k.socket t in
      let b = (add_ip_request k af_inet new_ip zeros).1 in
      sent fd b (b.word 0 nlmsg_len) ∷ opened fd ∷ t

  abbrev pub add_received : Trace
  add_received = received (k.socket t) (k.recvmsg add_sent).0 (k.recvmsg add_sent).1 ∷ add_sent

  -- The lines for each verdict, with the number of the call's error and the text of the reply's.
  abbrev pub add_lines : Verdict → ℤ → Trace
  add_lines no_answer error = add_received
  add_lines done error = printed "ip_add : Success\n" [] ∷ add_received
  add_lines no_address error = printed "ip_add : Failed\n" [] ∷ add_received
  add_lines not_permitted error = printed "ip_add : Permission denied\n" [] ∷ add_received
  add_lines other_error error =
      printed "ip_add : errno=%d %s\n"
        (number (k.errno add_received) ∷ text (k.strerror error) ∷ [])
      ∷ add_received

  pub add_chosen :
      (v : Verdict)
      → let buf = (k.recvmsg add_sent).1 in
        let error = buf.error (nlmsg_data 0) in
        Chooses (Prog (Unit {0})) (util_parse_nl_msg_ok buf (k.recvmsg add_sent).0) error v
        → nettool_ip_add k t ≡ some (pos 0, add_lines v error)
  unfolding nettool_ip_add add_ip
  add_chosen no_answer c = rw (c _ _ _ _ _)
  add_chosen done c = rw (c _ _ _ _ _)
  add_chosen no_address c = rw (c _ _ _ _ _)
  add_chosen not_permitted c = rw (c _ _ _ _ _)
  add_chosen other_error c = rw (c _ _ _ _ _)

  -- Whatever the kernel answers, nettool_ip_add returns 0. It opens a socket, sends one request,
  -- receives one message and prints at most one line, that of what the reply says; it closes
  -- nothing.
  pub nettool_ip_add-Says :
      let buf = (k.recvmsg add_sent).1 in
      let error = buf.error (nlmsg_data 0) in
      (v : Verdict) × Says (util_parse_nl_msg_ok buf (k.recvmsg add_sent).0) error v
      × (nettool_ip_add k t ≡ some (pos 0, add_lines v error))
  nettool_ip_add-Says =
      let buf = (k.recvmsg add_sent).1 in
      let (v, says, c) =
        reply-Says (Prog (Unit {0})) (util_parse_nl_msg_ok buf (k.recvmsg add_sent).0)
          (buf.error (nlmsg_data 0)) in
      (v, says, add_chosen v c)

module _ (k : Kernel) (t : Trace) where
  abbrev pub del_sent : Trace
  del_sent =
      let fd = k.socket t in
      let b = (del_ip_request k af_inet "172.16.10.111" zeros).1 in
      sent fd b (b.word 0 nlmsg_len) ∷ opened fd ∷ t

  abbrev pub del_received : Trace
  del_received = received (k.socket t) (k.recvmsg del_sent).0 (k.recvmsg del_sent).1 ∷ del_sent

  del_chosen :
      (v : Verdict)
      → let buf = (k.recvmsg del_sent).1 in
        let error = buf.error (nlmsg_data 0) in
        Chooses (Prog (Unit {0})) (util_parse_nl_msg_ok buf (k.recvmsg del_sent).0) error v
        → ip_del k t ≡ some (pos 0, plain_lines k v error del_received)
  unfolding ip_del del_ip
  del_chosen no_answer c = rw (c _ _ _ _ _)
  del_chosen done c = rw (c _ _ _ _ _)
  del_chosen no_address c = rw (c _ _ _ _ _)
  del_chosen not_permitted c = rw (c _ _ _ _ _)
  del_chosen other_error c = rw (c _ _ _ _ _)

  -- Whatever the kernel answers, ip_del returns 0. It opens a socket, sends one
  -- request, receives one message and prints at most one line, that of what the reply says; it
  -- closes nothing.
  pub ip_del-Says :
      let buf = (k.recvmsg del_sent).1 in
      let error = buf.error (nlmsg_data 0) in
      (v : Verdict) × Says (util_parse_nl_msg_ok buf (k.recvmsg del_sent).0) error v
      × (ip_del k t ≡ some (pos 0, plain_lines k v error del_received))
  ip_del-Says =
      let buf = (k.recvmsg del_sent).1 in
      let (v, says, c) =
        reply-Says (Prog (Unit {0})) (util_parse_nl_msg_ok buf (k.recvmsg del_sent).0)
          (buf.error (nlmsg_data 0)) in
      (v, says, del_chosen v c)

module _ (k : Kernel) (t : Trace) where
  abbrev pub show_sent : Trace
  show_sent =
      let fd = k.socket t in
      let b = (get_ip_request af_inet zeros).1 in sent fd b (b.word 0 nlmsg_len) ∷ opened fd ∷ t

  -- nettool_ip_show returns 0 at the first reply that reads as NLMSG_DONE or NLMSG_ERROR, which is
  -- the message of number `n`: it has then received `n + 1` messages and printed nothing.
  pub nettool_ip_show-first :
      (n fuel : ℕ)
      → n < fuel
      → ((i : ℕ) → i < n → is_last (k.recvmsg (after_receiving k (k.socket t) i show_sent)) ≡ false)
      → is_last (k.recvmsg (after_receiving k (k.socket t) n show_sent)) ≡ true
      → nettool_ip_show k fuel t ≡ some (pos 0, after_receiving k (k.socket t) (suc n) show_sent)
  unfolding nettool_ip_show get_ip
  nettool_ip_show-first n fuel l others last =
      rw (receive_all-first k (k.socket t) n fuel show_sent l others last)

  -- nettool_ip_show never returns when no reply reads as NLMSG_DONE or NLMSG_ERROR, as when
  -- every `recvmsg` fails and leaves a buffer that reads as something else.
  pub nettool_ip_show-endless :
      (fuel : ℕ)
      → ((i : ℕ) → is_last (k.recvmsg (after_receiving k (k.socket t) i show_sent)) ≡ false)
      → nettool_ip_show k fuel t ≡ none
  unfolding nettool_ip_show get_ip
  nettool_ip_show-endless fuel others =
      rw (receive_all-endless k (k.socket t) fuel show_sent others)
