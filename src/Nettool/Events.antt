-- ===== src/Nettool/Events.antt =====
-- read_event of nettool/src/main_nettool.c.
use Prim.Native.String.{String}
use nettool.Base.{
  ℕ, zero, suc, ℤ, pos, minus_one, ◌+◌, ◌-ℤ◌, ◌==◌, ◌==ℤ◌, ltb_ℤ, if◌then◌else◌, Option, some, none,
  [], ◌∷◌,
}
use nettool.Netlink.Headers.{
  align, nlmsg_space, to_int, to_unsigned, nlmsg_error, nlmsg_done, rtm_newaddr, rtm_deladdr,
  rtm_getaddr, rtm_newlink, rtm_dellink, rtm_getlink, rtm_setlink,
}
use nettool.Netlink.Buffer.{Buf, nlmsg_len, nlmsg_type, nlmsg_flags, nlmsg_pid, nlmsg_seq}
use nettool.Netlink.Messages.{nlmsg_ok}
use nettool.Netlink.System
use nettool.Netlink.System.{
  Kernel, Prog, number, text, print, print_error, pure, stuck, ◌>>=◌, ◌>>◌,
}
use nettool.Nettool.Tables.{ArrayFamily}
use nettool.Nettool.Links.{rtm_newlink_check}
use nettool.Nettool.Addresses.{rtm_newaddr_check}
use nettool.Nettool.Names.{get_rtm_type}

-- One line is printed, and vIfi_flags is kept.
abbrev pub note : String → ℕ → Prog ℕ
note line kept = print line [] >> pure kept

module _ (k : Kernel) (families : ArrayFamily) (ifa_max : ℕ) (b : Buf) where
  -- The branches that handle the message at `at` and go on. RTM_DELADDR_Check,
  -- RTM_GETADDR_Check, RTM_DELLINK_Check, RTM_GETLINK_Check and RTM_SETLINK_Check print their
  -- names.
  unfoldable pub handle_message : ℕ → ℕ → Prog ℕ
  handle_message at kept =
      let type = b.word at nlmsg_type in
      if type == rtm_newaddr
      then rtm_newaddr_check k ifa_max b at >> pure kept
      else if type == rtm_deladdr
      then note "RTM_DELADDR_Check\n" kept
      else if type == rtm_getaddr
      then note "RTM_GETADDR_Check\n" kept
      else if type == rtm_newlink
      then rtm_newlink_check k families b at kept
      else if type == rtm_dellink
      then note "RTM_DELLINK_Check\n" kept
      else if type == rtm_getlink
      then note "RTM_GETLINK_Check\n" kept
      else if type == rtm_setlink
      then note "RTM_SETLINK_Check\n" kept
      else (print "\n read_event_9 : else  %d,%s"
            (number (pos type) ∷ text (get_rtm_type type) ∷ [])
          >> pure kept)

  -- What is done of a message that is neither of the two that end the loop; `rest` follows.
  abbrev pub message_then : ℕ → ℕ → (ℕ → Prog (Option ℤ × ℕ)) → Prog (Option ℤ × ℕ)
  message_then at kept rest = do
    kept' ← handle_message at kept
    print "read_event_10 : <<<<<<<<<<<<<<<<<<<<<<<\n" []
    rest kept'

  -- The body of the loop over the messages.
  abbrev pub message_round : ℕ → ℕ → (ℕ → Prog (Option ℤ × ℕ)) → Prog (Option ℤ × ℕ)
  message_round at kept rest = do
    print "read_event_7 : >>>>>>>>>>>>>>>>>>>>>>\n" []
    if b.word at nlmsg_type == nlmsg_done
        then pure (some (pos 0), kept)
        else if b.word at nlmsg_type == nlmsg_error
        then (do
          print "read_event_8 : Message is an error - decode TBD\n" []
          pure (some minus_one, kept))
        else message_then at kept rest

  -- The loop over the messages, at offset `at` with `status` bytes left: the value returned from
  -- within it, if any, and vIfi_flags.
  unfoldable pub read_messages : ℕ → ℕ → ℤ → ℕ → Prog (Option ℤ × ℕ)
  read_messages zero at status kept = stuck
  read_messages (suc fuel) at status kept =
      let step = align (b.word at nlmsg_len) in
      let rest = read_messages fuel (at + step) (status -ℤ pos step) in
      if nlmsg_ok b at (pos (to_unsigned status))
      then message_round at kept rest
      else pure (none, kept)

-- What follows the loop.
abbrev pub finish_event : Option ℤ × ℕ → Prog (ℤ × ℕ)
finish_event (some ret, kept) = pure (ret, kept)
finish_event (none, kept) = do print "read_event_12 : <<<<<<<<<<<<<<<<<<<<\n" []; pure (pos 0, kept)

-- read_event, with vIfi_flags before and after.
unfoldable pub read_event : Kernel → ArrayFamily → ℕ → ℕ → ℤ → ℕ → Prog (ℤ × ℕ)
read_event k families ifa_max fuel fd kept = do
  (status, b) ← System.recvmsg k fd
  print "read_event_1 : >>>>>>>>>>>>>>>>>>>>>>\n" []
  print "read_event_2 : recvmsg() == %d\n" (number status ∷ [])
  if ltb_ℤ status (pos 0)
      then (do
        e ← System.errno k
        if e ==ℤ pos 11 then pure (pos 0, kept) else (do
          print "read_event_3 : Error recvmsg: %d\n" (number status ∷ [])
          print_error "read_event_4 : Error: " []
          pure (status, kept)))
      else (do
        if status ==ℤ pos 0 then print "read_event_5 : EOF\n" [] else pure tt
        print
            "read_event_6 : nlmsg_len = %d nlmsg_flags=%#x nlmsg_pid=%d nlmsg_seq=%d nlmsg_type= %d-%s NLMSG_PAYLOAD=%d\n \n"
            (number (to_int (b.word 0 nlmsg_len))
              ∷ number (pos (b.word 0 nlmsg_flags))
              ∷ number (to_int (b.word 0 nlmsg_pid))
              ∷ number (to_int (b.word 0 nlmsg_seq))
              ∷ number (pos (b.word 0 nlmsg_type))
              ∷ text (get_rtm_type (b.word 0 nlmsg_type))
              ∷ number (to_int (b.word 0 nlmsg_len) -ℤ pos (nlmsg_space 0))
              ∷ [])
        left ← read_messages k families ifa_max b fuel 0 status kept
        finish_event left)
