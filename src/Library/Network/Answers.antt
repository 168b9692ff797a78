-- ===== src/Library/Network/Answers.antt =====
-- What the library reads in the answer of an honest kernel.
use nettool.Base.{ℕ, ℤ, pos, ◌≡◌, ◌≢◌, refl, Bool, true, arith, ◌∷◌}
use mathlib.Core.Logic.{◌↔◌}
use nettool.Netlink.Headers.{nlmsg_data, nlmsg_error}
use nettool.Netlink.Buffer.{Buf}
use nettool.Netlink.System.{Kernel, Trace, sent}
use nettool.Library.Util.{util_parse_nl_msg_ok}
use nettool.Library.Verdict.{
  Verdict, no_answer, done, Says, says_nothing, says_done, says_no_address, says_not_permitted,
  says_other, plain_lines, no_address, not_permitted, other_error,
}
use nettool.Library.Network.{Network, network, IsAnswer, AsksAck, IsHonest}

pub answer-type :
    (reply : ℤ × Buf) → IsAnswer reply → util_parse_nl_msg_ok reply.1 reply.0 ≡ nlmsg_error
unfolding util_parse_nl_msg_ok
answer-type (status, b) a = rw a.status (ground arith)

Says-done :
    {type : ℕ} {error : ℤ} (v : Verdict)
    → Says type error v
    → type ≡ nlmsg_error
    → error ≡ pos 0
    → v ≡ done
Says-done v (says_nothing n) t e = absurd (n t)
Says-done v (says_done _ _) t e = refl
Says-done v (says_no_address _ n) t e = cc
Says-done v (says_not_permitted _ n) t e = cc
Says-done v (says_other _ n _ _) t e = absurd (n e)

done-Says : {type : ℕ} {error : ℤ} (v : Verdict) → Says type error v → v ≡ done → error ≡ pos 0
done-Says v (says_nothing n) t = cc
done-Says v (says_done _ e) t = e
done-Says v (says_no_address _ n) t = cc
done-Says v (says_not_permitted _ n) t = cc
done-Says v (says_other _ n _ _) t = cc

Says-answered :
    {type : ℕ} {error : ℤ} (v : Verdict) → Says type error v → type ≡ nlmsg_error → v ≢ no_answer
Says-answered v (says_nothing n) t = λ e. n t
Says-answered v (says_done _ _) t = λ e. cc
Says-answered v (says_no_address _ _) t = λ e. cc
Says-answered v (says_not_permitted _ _) t = λ e. cc
Says-answered v (says_other _ _ _ _) t = λ e. cc

-- A request that asks for an acknowledgement is answered.
pub honest-answered :
    (k : Kernel) (accepts : Trace → Bool)
    → IsHonest k accepts
    → (fd : ℤ) (b : Buf) (n : ℕ) (t : Trace) → AsksAck b
    → (v : Verdict)
    → let reply = k.recvmsg (sent fd b n ∷ t) in
      Says (util_parse_nl_msg_ok reply.1 reply.0) (reply.1.error (nlmsg_data 0)) v → v ≢ no_answer
honest-answered k accepts h fd b n t asks v says =
    Says-answered v says (answer-type (k.recvmsg (sent fd b n ∷ t)) (h.answers fd b n t asks))

-- The library takes an acknowledged request for done exactly when the kernel accepted it.
pub honest-done :
    (k : Kernel) (accepts : Trace → Bool)
    → IsHonest k accepts
    → (fd : ℤ) (b : Buf) (n : ℕ) (t : Trace) → AsksAck b
    → (v : Verdict)
    → let reply = k.recvmsg (sent fd b n ∷ t) in
      Says (util_parse_nl_msg_ok reply.1 reply.0) (reply.1.error (nlmsg_data 0)) v
      → (v ≡ done) ↔ (accepts (sent fd b n ∷ t) ≡ true)
honest-done k accepts h fd b n t asks v says =
    let type = answer-type (k.recvmsg (sent fd b n ∷ t)) (h.answers fd b n t asks) in
    (
      λ is_done. h.turned_down fd b n t asks (done-Says v says is_done),
      λ yes. Says-done v says type (h.accepted fd b n t asks yes),
    )

module _ (k : Kernel) (accepts : Trace → Bool) (start : Network) where
  -- The lines that ip_del, gateway_add and gateway_del print change nothing.
  pub network-plain_lines :
      (v : Verdict) (error : ℤ) (u : Trace)
      → network accepts start (plain_lines k v error u) ≡ network accepts start u
  unfolding network
  network-plain_lines no_answer error u = refl
  network-plain_lines done error u = refl
  network-plain_lines no_address error u = refl
  network-plain_lines not_permitted error u = refl
  network-plain_lines other_error error u = refl
