-- ===== src/Nettool/Overrun.antt =====
-- The loop of read_event behind the bytes received.
use nettool.Base.{
  ℕ, suc, ℤ, pos, minus_one, ◌+◌, ◌-ℤ◌, ◌^◌, ◌<◌, ◌≤◌, ◌≡◌, refl, ◌∙◌, true, some, [], ◌∷◌, arith,
}
use nettool.Netlink.Headers.{align, sizeof_nlmsghdr, to_unsigned, nlmsg_error, rtm_dellink}
use nettool.Netlink.Buffer.{Buf, nlmsg_len, nlmsg_type}
use nettool.Netlink.Messages.{nlmsg_ok}
use nettool.Netlink.System.{Kernel, Trace, printed}
use nettool.Nettool.Tables.{ArrayFamily}
use nettool.Nettool.Events.{handle_message, read_messages}

module _ (k : Kernel) (families : ArrayFamily) (ifa_max : ℕ) (b : Buf) where
  -- A round over a message of RTM_DELLINK, which prints three lines and goes on.
  plain_round :
      (fuel at : ℕ) (status : ℤ) (kept : ℕ) (t : Trace)
      → nlmsg_ok b at (pos (to_unsigned status)) ≡ true
      → b.word at nlmsg_type ≡ rtm_dellink
      → read_messages k families ifa_max b (suc fuel) at status kept t
        ≡ read_messages k families ifa_max b fuel
            (at + align (b.word at nlmsg_len))
            (status -ℤ pos (align (b.word at nlmsg_len)))
            kept
            (printed "read_event_10 : <<<<<<<<<<<<<<<<<<<<<<<\n" []
              ∷ printed "RTM_DELLINK_Check\n" []
              ∷ printed "read_event_7 : >>>>>>>>>>>>>>>>>>>>>>\n" []
              ∷ t)
  unfolding read_messages handle_message
  plain_round fuel at status kept t ok type = rw (ok, type)

  -- A round over an error ends the loop.
  error_round :
      (fuel at : ℕ) (status : ℤ) (kept : ℕ) (t : Trace)
      → nlmsg_ok b at (pos (to_unsigned status)) ≡ true
      → b.word at nlmsg_type ≡ nlmsg_error
      → read_messages k families ifa_max b (suc fuel) at status kept t
        ≡ some (
          (some minus_one, kept),
          printed "read_event_8 : Message is an error - decode TBD\n" []
              ∷ printed "read_event_7 : >>>>>>>>>>>>>>>>>>>>>>\n" []
              ∷ t,
        )
  unfolding read_messages
  error_round fuel at status kept t ok type = rw (ok, type)

-- The first message takes all bytes that are received.
whole_ok :
    (b : Buf) (n : ℕ)
    → sizeof_nlmsghdr ≤ n
    → n < 2 ^ 31
    → b.word 0 nlmsg_len ≡ n
    → nlmsg_ok b 0 (pos (to_unsigned (pos n))) ≡ true
whole_ok b n l h e = ground arith

-- Less than no bytes are left, which as an `unsigned int` is nearly 2 ^ 32.
less_than_none : (n : ℕ) → n < 2 ^ 31 → n < align n → 2 ^ 31 ≤ to_unsigned (pos n -ℤ pos (align n))
unfolding ◌-ℤ◌
less_than_none n h r = ground arith

stale_ok :
    (b : Buf) (at left : ℕ)
    → 2 ^ 31 ≤ left
    → sizeof_nlmsghdr ≤ b.word at nlmsg_len
    → b.word at nlmsg_len < 2 ^ 31
    → nlmsg_ok b at (pos left) ≡ true
stale_ok b at left l h s = ground arith

zero_add : (m : ℕ) → 0 + m ≡ m
zero_add m = omega arith

-- A message of RTM_DELLINK whose length is no multiple of four takes all bytes received, and the
-- bytes behind it, which `recvmsg` did not fill, read as a message of NLMSG_ERROR. Then the loop of
-- read_event, given two rounds, goes on to those bytes and ends with -1.
pub read_messages-overrun :
    (k : Kernel) (families : ArrayFamily) (ifa_max : ℕ) (b : Buf) (fuel kept : ℕ) (t : Trace)
    → let n = b.word 0 nlmsg_len in
      sizeof_nlmsghdr ≤ n
      → n < 2 ^ 31
      → n < align n
      → b.word 0 nlmsg_type ≡ rtm_dellink
      → sizeof_nlmsghdr ≤ b.word (align n) nlmsg_len
      → b.word (align n) nlmsg_len < 2 ^ 31
      → b.word (align n) nlmsg_type ≡ nlmsg_error
      → (t' : Trace) × (read_messages k families ifa_max b (suc (suc fuel)) 0 (pos n) kept t
          ≡ some ((some minus_one, kept), t'))
read_messages-overrun k families ifa_max b fuel kept t l h r ty e' h' ty' =
    let n = b.word 0 nlmsg_len in
    let lines : Trace =
      printed "read_event_10 : <<<<<<<<<<<<<<<<<<<<<<<\n" []
      ∷ printed "RTM_DELLINK_Check\n" []
      ∷ printed "read_event_7 : >>>>>>>>>>>>>>>>>>>>>>\n" []
      ∷ t in
    let same = zero_add (align n) in
    let ok =
      stale_ok b (0 + align n) (to_unsigned (pos n -ℤ pos (align n))) (less_than_none n h r)
        (rw same e') (rw same h') in
    (
      _,
      plain_round k families ifa_max b (suc fuel) 0 (pos n) kept t (whole_ok b n l h refl) ty
          ∙ error_round k families ifa_max b fuel (0 + align n) (pos n -ℤ pos (align n)) kept lines
              ok (rw same ty'),
    )
