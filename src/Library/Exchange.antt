-- ===== src/Library/Exchange.antt =====
-- What the exchanges of libnettool/src with the kernel share: sending a request, the `switch` over
-- the error of an acknowledgement, and the receiving loop of ip_show.c and gateway_show.c.
use nettool.Base.{
  ℕ, zero, suc, ℤ, pos, negsuc, ◌≡◌, refl, minus_one, ◌||◌, ◌==◌, ◌==ℤ◌, ltb_ℤ, if◌then◌else◌, some,
  none, true, false, ◌<◌, arith, Bool, ◌∷◌,
}
use nettool.Netlink.Headers.{nlmsg_error, nlmsg_done}
use nettool.Netlink.Buffer.{Buf, nlmsg_len}
use nettool.Netlink.System
use nettool.Netlink.System.{Kernel, Prog, Trace, received, pure, stuck, ◌>>=◌}
use nettool.Library.Util.{util_get_msg, util_parse_nl_msg_ok}

-- The end of each function that sends a request: the first `nlmsg_len` bytes go out.
abbrev pub send_request : Kernel → ℤ → Buf → Prog ℤ
send_request k fd b = do
  r ← System.sendmsg k fd b (b.word 0 nlmsg_len)
  pure (if ltb_ℤ r (pos 0) then minus_one else pos 0)

-- switch (err->error): 0, -EADDRNOTAVAIL, -EPERM, default
abbrev pub switch_error : {A : Type 0} → ℤ → A → A → A → A → A
switch_error error success failed denied other =
    if error ==ℤ pos 0
    then success
    else if error ==ℤ negsuc 98
    then failed
    else if error ==ℤ negsuc 0
    then denied
    else other

-- The loop stops at this message.
abbrev pub is_last : ℤ × Buf → Bool
is_last (len, buf) =
    (util_parse_nl_msg_ok buf len == nlmsg_done) || (util_parse_nl_msg_ok buf len == nlmsg_error)

-- do { ... } while (nl_msg_type != NLMSG_DONE && nl_msg_type != NLMSG_ERROR)
unfoldable pub receive_all : Kernel → ℤ → ℕ → Prog (Unit {0})
receive_all k fd zero = stuck
receive_all k fd (suc fuel) = do
  reply ← util_get_msg k fd
  let rest = receive_all k fd fuel
  if is_last reply then pure tt else rest

module _ (k : Kernel) (fd : ℤ) where
  -- What has happened after `n` more messages are received.
  unfoldable pub after_receiving : ℕ → Trace → Trace
  after_receiving zero t = t
  after_receiving (suc n) t = after_receiving n (received fd (k.recvmsg t).0 (k.recvmsg t).1 ∷ t)

  -- The loop ends at the first message that reads as NLMSG_DONE or NLMSG_ERROR; it does nothing
  -- but receive.
  pub receive_all-first :
      (n fuel : ℕ) (t : Trace)
      → n < fuel
      → ((i : ℕ) → i < n → is_last (k.recvmsg (after_receiving i t)) ≡ false)
      → is_last (k.recvmsg (after_receiving n t)) ≡ true
      → receive_all k fd fuel t ≡ some (tt, after_receiving (suc n) t)
  unfolding receive_all after_receiving
  receive_all-first n zero t l others last = absurd (omega arith)
  receive_all-first zero (suc fuel) t l others last = rw last
  receive_all-first (suc n) (suc fuel) t l others last = rw (
    others 0 (omega arith),
    receive_all-first n fuel (received fd (k.recvmsg t).0 (k.recvmsg t).1 ∷ t) (omega arith)
        (λ i l. others (suc i) (omega arith)) last,
  )

  -- Without such a message it does not end.
  pub receive_all-endless :
      (fuel : ℕ) (t : Trace)
      → ((i : ℕ) → is_last (k.recvmsg (after_receiving i t)) ≡ false)
      → receive_all k fd fuel t ≡ none
  unfolding receive_all after_receiving
  receive_all-endless zero t others = refl
  receive_all-endless (suc fuel) t others = rw (
    others 0,
    receive_all-endless fuel (received fd (k.recvmsg t).0 (k.recvmsg t).1 ∷ t)
        (λ i. others (suc i)),
  )
