-- ===== src/Library/Route/Sessions.antt =====
-- gateway_add, gateway_del and gateway_show with the calls they make.
use Prim.Native.String.{String}
use nettool.Base.{ℕ, ℤ, pos, [], ◌∷◌, ◌==◌, if◌then◌else◌}
use nettool.Netlink.Headers.{nlmsg_data, nlmsg_error, af_inet}
use nettool.Netlink.Buffer.{zeros}
use nettool.Netlink.System
use nettool.Netlink.System.{Kernel, Prog, number, text, print, pure, ◌>>=◌, ◌>>◌}
use nettool.Library.Util.{util_get_msg, util_parse_nl_msg_ok}
use nettool.Library.Exchange.{send_request, switch_error, receive_all}
use nettool.Library.Route.Requests.{add_gateway_request, del_gateway_request, get_gateway_request}

module _ (k : Kernel) where
  -- add_gateway
  unfoldable pub add_gateway : ℤ → ℕ → String → Prog ℤ
  add_gateway fd domain ip = send_request k fd (add_gateway_request k domain ip zeros).1

  -- del_gateway
  unfoldable pub del_gateway : ℤ → ℕ → String → Prog ℤ
  del_gateway fd domain ip = send_request k fd (del_gateway_request k domain ip zeros).1

  -- get_gateway
  unfoldable pub get_gateway : ℤ → ℕ → Prog ℤ
  get_gateway fd domain = send_request k fd (get_gateway_request domain zeros).1

  -- gateway_add
  unfoldable pub gateway_add : Prog ℤ
  gateway_add = do
    fd ← System.socket k
    _ ← add_gateway fd af_inet "172.16.0.1"
    (len, buf) ← util_get_msg k fd
    if util_parse_nl_msg_ok buf len == nlmsg_error
        then (let error = buf.error (nlmsg_data 0) in
            switch_error error (print "Success\n" []) (print "Failed\n" [])
              (print "Permission denied\n" []) (print "%s\n" (text (k.strerror error) ∷ [])))
        else pure tt
    pure (pos 0)

  -- gateway_del
  unfoldable pub gateway_del : Prog ℤ
  gateway_del = do
    fd ← System.socket k
    _ ← del_gateway fd af_inet "172.16.0.1"
    (len, buf) ← util_get_msg k fd
    if util_parse_nl_msg_ok buf len == nlmsg_error
        then (let error = buf.error (nlmsg_data 0) in
            switch_error error (print "Success\n" []) (print "Failed\n" [])
              (print "Permission denied\n" []) (print "%s\n" (text (k.strerror error) ∷ [])))
        else pure tt
    pure (pos 0)

  -- gateway_show, with fuel for its loop
  unfoldable pub gateway_show : ℕ → Prog ℤ
  gateway_show fuel = do
    fd ← System.socket k
    _ ← get_gateway fd af_inet
    receive_all k fd fuel
    pure (pos 0)
