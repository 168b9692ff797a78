-- ===== src/Library/Link/Outcome.antt =====
-- What a run of nettool_link_up and nettool_link_info does.
use Prim.Native.String.{String}
use nettool.Base.{ℕ, ℤ, pos, negsuc, ◌≡◌, ◌≢◌, some, false, [], ◌∷◌, ◌==◌, ◌==ℤ◌, arith}
use nettool.Netlink.Headers.{nlmsg_data, af_inet}
use nettool.Netlink.Buffer.{Buf, zeros, nlmsg_len}
use nettool.Netlink.System.{
  Kernel, Prog, Trace, opened, sent, received, printed, closed, number, text,
}
use nettool.Library.Util.{util_parse_nl_msg_ok}
use nettool.Library.Verdict.{
  Verdict, no_answer, done, no_address, not_permitted, other_error, Says, Chooses, reply-Says,
}
use nettool.Library.Link.Requests.{link_up_request, link_info_request_buf}
use nettool.Library.Link.Sent.{Ifinfomsg}
use nettool.Library.Link.Receive.{link_info_receive}
use nettool.Library.Link.Sessions.{link_up, link_info_request, nettool_link_up, nettool_link_info}

module _ (k : Kernel) (device : String) (up : ℤ) (t : Trace) where
  abbrev pub up_sent : Trace
  up_sent =
      let fd = k.socket t in
      let b = (link_up_request af_inet up (k.if_nametoindex device) zeros).1 in
      sent fd b (b.word 0 nlmsg_len) ∷ opened fd ∷ t

  abbrev pub up_received : Trace
  up_received = received (k.socket t) (k.recvmsg up_sent).0 (k.recvmsg up_sent).1 ∷ up_sent

  -- The line for each verdict.
  abbrev pub up_lines : Verdict → ℤ → Trace
  up_lines no_answer error = up_received
  up_lines done error = printed "nettool_link_up : Success\n" [] ∷ up_received
  up_lines no_address error = printed "nettool_link_up : Failed\n" [] ∷ up_received
  up_lines not_permitted error = printed "nettool_link_up : Permission denied\n" [] ∷ up_received
  up_lines other_error error =
      printed "nettool_link_up : errno=%d %s\n"
        (number (k.errno up_received) ∷ text (k.strerror error) ∷ [])
      ∷ up_received

  up_chosen :
      (k.if_nametoindex device == 0) ≡ false
      → (k.socket t ==ℤ pos 0) ≡ false
      → (v : Verdict)
      → let buf = (k.recvmsg up_sent).1 in
        let error = buf.error (nlmsg_data 0) in
        Chooses (Prog (Unit {0})) (util_parse_nl_msg_ok buf (k.recvmsg up_sent).0) error v
        → nettool_link_up k device up t ≡ some (pos 0, closed (k.socket t) ∷ up_lines v error)
  unfolding nettool_link_up link_up
  up_chosen known opens no_answer c = rw (known, c _ _ _ _ _, opens)
  up_chosen known opens done c = rw (known, c _ _ _ _ _, opens)
  up_chosen known opens no_address c = rw (known, c _ _ _ _ _, opens)
  up_chosen known opens not_permitted c = rw (known, c _ _ _ _ _, opens)
  up_chosen known opens other_error c = rw (known, c _ _ _ _ _, opens)

  is_nonzero : (n : ℕ) → n ≢ 0 → n == 0 ≡ false
  is_nonzero n h = ground arith

  is_open : (fd : ℤ) → fd ≢ pos 0 → fd ==ℤ pos 0 ≡ false
  is_open (pos n) h = ground arith
  is_open (negsuc n) h = ground arith

  -- For a known device, and a socket other than 0: nettool_link_up sends one request, receives one
  -- message, prints the line of what it says, closes the socket and returns 0.
  pub nettool_link_up-Says :
      k.if_nametoindex device ≢ 0
      → k.socket t ≢ pos 0
      → let buf = (k.recvmsg up_sent).1 in
        let error = buf.error (nlmsg_data 0) in
        (v : Verdict) × Says (util_parse_nl_msg_ok buf (k.recvmsg up_sent).0) error v
        × (nettool_link_up k device up t ≡ some (pos 0, closed (k.socket t) ∷ up_lines v error))
  nettool_link_up-Says known opens =
      let buf = (k.recvmsg up_sent).1 in
      let (v, says, c) =
        reply-Says (Prog (Unit {0})) (util_parse_nl_msg_ok buf (k.recvmsg up_sent).0)
          (buf.error (nlmsg_data 0)) in
      (v, says, up_chosen (is_nonzero _ known) (is_open _ opens) v c)

module _ (k : Kernel) (fuel : ℕ) (buf : Buf) (device : String) (infomsg : Ifinfomsg)
    (t : Trace) where
  abbrev pub info_sent : Trace
  info_sent =
      let fd = k.socket t in
      let b = (link_info_request_buf k zeros).1 in sent fd b (b.word 0 nlmsg_len) ∷ opened fd ∷ t

  -- nettool_link_info returns 0 when its search does, whatever the search answers: that the
  -- device was not found, -1, is not passed on. Whatever its own buffer holds, which is never
  -- written, it prints nothing of it. It closes the socket.
  pub nettool_link_info-drops :
      (r : ℤ) (i : Ifinfomsg) (t' : Trace)
      → k.if_nametoindex device ≢ 0
      → k.socket t ≢ pos 0
      → link_info_receive k fuel (k.socket t) (k.if_nametoindex device) infomsg info_sent
        ≡ some ((r, i), t')
      → nettool_link_info k fuel buf device infomsg t ≡ some ((pos 0, i), closed (k.socket t) ∷ t')
  unfolding nettool_link_info link_info_request util_parse_nl_msg_ok
  nettool_link_info-drops r i t' known opens found =
      rw (is_nonzero k device (pos 0) t _ known, found, is_open k device (pos 0) t _ opens)
