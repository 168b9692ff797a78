-- ===== src/Trials/NetLib/Session.antt =====
-- Net_2 with the calls it makes. `check` ends the process on a negative value.
use Prim.Native.String.{String}
use nettool.Base.{ℕ, ℤ, pos, minus_one, ltb_ℤ, ◌==◌, if◌then◌else◌, [], ◌∷◌}
use nettool.Netlink.Headers.{nlmsg_data, nlmsg_error, af_inet}
use nettool.Netlink.Buffer.{Buf, zeros, nlmsg_len}
use nettool.Netlink.System
use nettool.Netlink.System.{Kernel, Prog, text, print, pure, ◌>>=◌, ◌>>◌}
use nettool.Library.Exchange.{switch_error}
use nettool.Trials.NetLib.Add.{net_add_ip_request, parse_nl_msg}

-- A function returned, or the process exited.
pub data Outcome (A : Type 0) : Type 0 where
  returned : A → Outcome A
  exited : ℤ → Outcome A

-- check, in front of what follows it.
abbrev pub checked : {A : Type 0} → Kernel → ℤ → Prog (Outcome A) → Prog (Outcome A)
checked k val next =
    if ltb_ℤ val (pos 0)
    then (do
      e ← System.errno k
      print "check error: %s\n" (text (k.strerror e) ∷ [])
      pure (exited (pos 1)))
    else next

-- NEW_IP
abbrev pub new_ip : String
new_ip = "192.168.1.2"

module _ (k : Kernel) where
  -- add_ip
  unfoldable pub net_add_ip : ℤ → ℕ → String → Prog ℤ
  net_add_ip fd domain ip = do
    let request = (net_add_ip_request k domain ip zeros).1
    r ← System.sendmsg k fd request (request.word 0 nlmsg_len)
    pure (if ltb_ℤ r (pos 0) then minus_one else pos 0)

  -- get_msg
  abbrev pub get_msg : ℤ → Prog (ℤ × Buf)
  get_msg fd = System.recvmsg k fd

  -- Net_2
  unfoldable pub net_2 : Prog (Outcome ℤ)
  net_2 = do
    fd ← System.socket k
    checked k fd (do
      _ ← net_add_ip fd af_inet new_ip
      (len, buf) ← get_msg fd
      checked k len (do
        if parse_nl_msg buf len == nlmsg_error
            then (let error = buf.error (nlmsg_data 0) in
                switch_error error (print "Success\n" []) (print "Failed\n" [])
                  (print "Permission denied\n" []) (print "%s\n" (text (k.strerror error) ∷ [])))
            else pure tt
        pure (returned (pos 0))))
