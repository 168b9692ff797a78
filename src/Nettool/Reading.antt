-- ===== src/Nettool/Reading.antt =====
-- When read_event ends, and what it reads.
use Prim.Native.String.{String}
use nettool.Base.{
  ℕ, zero, suc, ℤ, pos, negsuc, pos_part, minus_one, ◌+◌, ◌-◌, ◌-ℤ◌, ◌^◌, ◌<◌, ◌≡◌, refl, ◌==◌, inl,
  inr, Bool-cases, true, if◌then◌else◌, Option, some, none, [], ◌∷◌, arith,
}
use nettool.Netlink.Headers.{
  align, nlmsg_data, nlmsg_space, attributes_after, to_unsigned, sizeof_ifaddrmsg, nlmsg_error,
  nlmsg_done, rtm_newaddr, rtm_deladdr, rtm_getaddr, rtm_newlink, rtm_dellink, rtm_getlink,
  rtm_setlink,
}
use nettool.Netlink.Buffer.{Buf, nlmsg_len, nlmsg_type}
use nettool.Netlink.Messages.{nlmsg_ok}
use nettool.Netlink.Attributes.{for_each_attribute-Within}
use nettool.Netlink.Finishes.{
  Finishes, finished, if-Finishes, if_true-Finishes, bind-Finishes, go_on,
}
use nettool.Netlink.System.{Kernel, Prog, Trace, printed, number, text, print, pure, ◌>>◌}
use nettool.Nettool.Tables.{ArrayFamily}
use nettool.Nettool.Flags.{rtm_newlink_check-Changed}
use nettool.Nettool.Addresses.{
  address_lines, rtm_newaddr_check, new_address_attribute, last_line, AddressLoop,
}
use nettool.Nettool.Links.{rtm_newlink_check}
use nettool.Nettool.Names.{get_rtm_type}
use nettool.Nettool.Events.{note, handle_message, message_then, message_round, read_messages}

last_line-some :
    (b : Buf) (ifa : ℕ) (o : Option AddressLoop) (s : AddressLoop)
    → o ≡ some s
    → (t : Trace) × (last_line b ifa o ≡ some (tt, t))
last_line-some b ifa none s e = absurd (ground arith)
last_line-some b ifa (some s') s e = (_, refl)

-- RTM_NEWADDR_Check ends, whatever the message holds.
pub rtm_newaddr_check-ends :
    (k : Kernel) (ifa_max : ℕ) (b : Buf) (at : ℕ) (t : Trace)
    → (t' : Trace) × (rtm_newaddr_check k ifa_max b at t ≡ some (tt, t'))
unfolding rtm_newaddr_check
rtm_newaddr_check-ends k ifa_max b at t =
    let ifa = nlmsg_data at in
    let len = pos (b.word at nlmsg_len) -ℤ pos (nlmsg_space sizeof_ifaddrmsg) in
    let (ps, run, within) =
      for_each_attribute-Within b AddressLoop (new_address_attribute k b ifa_max ifa)
        (suc (pos_part len)) (attributes_after sizeof_ifaddrmsg ifa) len
        (record { address = text ""; ifname = text ""; trace = address_lines b at t })
        (omega arith) in
    last_line-some b ifa _ _ run

note-ends : (line : String) (kept : ℕ) (t : Trace) → Finishes (note line kept) t
note-ends line kept t = finished kept (printed line [] ∷ t) refl

module _ (k : Kernel) (families : ArrayFamily) (ifa_max : ℕ) (b : Buf) where
  handle_message-ends :
      (at kept : ℕ) (t : Trace) → Finishes (handle_message k families ifa_max b at kept) t
  unfolding handle_message
  handle_message-ends at kept t =
      let type = b.word at nlmsg_type in
      let (added, add) = rtm_newaddr_check-ends k ifa_max b at t in
      let (lines, ps, all, within, link) = rtm_newlink_check-Changed k families b at kept t in
      if-Finishes (type == rtm_newaddr) (rtm_newaddr_check k ifa_max b at >> pure kept) _ t
        (bind-Finishes (rtm_newaddr_check k ifa_max b at) (λ _. pure kept) t tt added add
          (finished kept added refl))
        (if-Finishes (type == rtm_deladdr) (note "RTM_DELADDR_Check\n" kept) _ t
          (note-ends _ kept t)
          (if-Finishes (type == rtm_getaddr) (note "RTM_GETADDR_Check\n" kept) _ t
            (note-ends _ kept t)
            (if-Finishes (type == rtm_newlink) (rtm_newlink_check k families b at kept) _ t
              (finished _ _ link)
              (if-Finishes (type == rtm_dellink) (note "RTM_DELLINK_Check\n" kept) _ t
                (note-ends _ kept t)
                (if-Finishes (type == rtm_getlink) (note "RTM_GETLINK_Check\n" kept) _ t
                  (note-ends _ kept t)
                  (if-Finishes (type == rtm_setlink) (note "RTM_SETLINK_Check\n" kept)
                    (print "\n read_event_9 : else  %d,%s"
                        (number (pos type) ∷ text (get_rtm_type type) ∷ [])
                      >> pure kept)
                    t (note-ends _ kept t)
                    (finished kept
                      (printed "\n read_event_9 : else  %d,%s"
                          (number (pos type) ∷ text (get_rtm_type type) ∷ [])
                        ∷ t)
                      refl)))))))

  message_round-Finishes :
      (at kept : ℕ) (rest : ℕ → Prog (Option ℤ × ℕ)) (t : Trace)
      → ((kept' : ℕ) (t' : Trace) → Finishes (rest kept') t')
      → Finishes (message_round k families ifa_max b at kept rest) t
  message_round-Finishes at kept rest t all =
      let seven = printed "read_event_7 : >>>>>>>>>>>>>>>>>>>>>>\n" [] ∷ t in
      let tell = print "read_event_8 : Message is an error - decode TBD\n" [] in
      let inner : Prog (Option ℤ × ℕ) =
        if b.word at nlmsg_type == nlmsg_error
        then tell >> pure (some minus_one, kept)
        else message_then k families ifa_max b at kept rest in
      bind-Finishes (print "read_event_7 : >>>>>>>>>>>>>>>>>>>>>>\n" [])
        (λ _. if b.word at nlmsg_type == nlmsg_done then pure (some (pos 0), kept) else inner) t tt
        seven refl
        (if-Finishes (b.word at nlmsg_type == nlmsg_done) (pure (some (pos 0), kept)) inner seven
          (finished (some (pos 0), kept) seven refl)
          (if-Finishes (b.word at nlmsg_type == nlmsg_error) (tell >> pure (some minus_one, kept))
            (message_then k families ifa_max b at kept rest) seven
            (finished (some minus_one, kept) _ refl)
            (go_on (handle_message k families ifa_max b at kept)
              (λ kept'. print "read_event_10 : <<<<<<<<<<<<<<<<<<<<<<<\n" [] >> rest kept') seven
              (handle_message-ends at kept seven)
              (λ kept' t'.
                bind-Finishes (print "read_event_10 : <<<<<<<<<<<<<<<<<<<<<<<\n" [])
                  (λ _. rest kept') t' tt _ refl (all kept' _)))))

  aligned_step :
      (at n : ℕ) (status : ℤ)
      → status ≡ pos n
      → align (b.word at nlmsg_len) ≡ b.word at nlmsg_len
      → n < 2 ^ 31
      → nlmsg_ok b at (pos (to_unsigned status)) ≡ true
      → (status -ℤ pos (align (b.word at nlmsg_len)) ≡ pos (n - align (b.word at nlmsg_len)))
        × (n - align (b.word at nlmsg_len) < n)
  unfolding ◌-ℤ◌
  aligned_step at n (pos m) e whole l ok = (ground arith, ground arith)
  aligned_step at n (negsuc m) e whole l ok = absurd (ground arith)

  -- When each message has a length that is a multiple of four, the loop of read_event ends within
  -- one round more than there are bytes.
  pub read_messages-Finishes :
      (fuel at n : ℕ) (status : ℤ) (kept : ℕ) (t : Trace)
      → status ≡ pos n
      → ((p : ℕ) → align (b.word p nlmsg_len) ≡ b.word p nlmsg_len)
      → n < 2 ^ 31
      → n < fuel
      → Finishes (read_messages k families ifa_max b fuel at status kept) t
  unfolding read_messages
  read_messages-Finishes zero at n status kept t e whole l enough = absurd (omega arith)
  read_messages-Finishes (suc fuel) at n status kept t e whole l enough =
      elim (Bool-cases (nlmsg_ok b at (pos (to_unsigned status)))) [
        | inr stop ↦ finished (none, kept) t (rw stop)
        | inl ok ↦
            let (left, less) = aligned_step at n status e (whole at) l ok in
            let step = align (b.word at nlmsg_len) in
            if_true-Finishes (nlmsg_ok b at (pos (to_unsigned status)))
              (message_round k families ifa_max b at kept
                (read_messages k families ifa_max b fuel (at + step) (status -ℤ pos step)))
              (pure (none, kept)) t ok
              (message_round-Finishes at kept _ t (λ kept' t'.
                read_messages-Finishes fuel (at + step) (n - step) (status -ℤ pos step) kept' t'
                  left whole (omega arith) (omega arith)))
      ]
