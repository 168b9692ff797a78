-- ===== src/Library/Address/Sessions.antt =====
-- nettool_ip_add, ip_del and nettool_ip_show with the calls they make.
use Prim.Native.String.{String}
use nettool.Base.{ℕ, ℤ, pos, [], ◌∷◌, ◌==◌, if◌then◌else◌}
use nettool.Netlink.Headers.{nlmsg_data, nlmsg_error, af_inet}
use nettool.Netlink.Buffer.{zeros}
use nettool.Netlink.System
use nettool.Netlink.System.{Kernel, Prog, number, text, print, pure, ◌>>=◌, ◌>>◌}
use nettool.Library.Util.{util_get_msg, util_parse_nl_msg_ok}
use nettool.Library.Exchange.{send_request, switch_error, receive_all}
use nettool.Library.Address.Requests.{add_ip_request, del_ip_request, get_ip_request}

-- NEW_IP
abbrev pub new_ip : String
new_ip = "192.168.1.2"

module _ (k : Kernel) where
  -- add_ip
  unfoldable pub add_ip : ℤ → ℕ → String → Prog ℤ
  add_ip fd domain ip = send_request k fd (add_ip_request k domain ip zeros).1

  -- del_ip
  unfoldable pub del_ip : ℤ → ℕ → String → Prog ℤ
  del_ip fd domain ip = send_request k fd (del_ip_request k domain ip zeros).1

  -- get_ip
  unfoldable pub get_ip : ℤ → ℕ → Prog ℤ
  get_ip fd domain = send_request k fd (get_ip_request domain zeros).1

  -- nettool_ip_add
  unfoldable pub nettool_ip_add : Prog ℤ
  nettool_ip_add = do
    fd ← System.socket k
    _ ← add_ip fd af_inet new_ip
    (len, buf) ← util_get_msg k fd
    if util_parse_nl_msg_ok buf len == nlmsg_error
        then (let error = buf.error (nlmsg_data 0) in
            switch_error error (print "ip_add : Success\n" []) (print "ip_add : Failed\n" [])
              (print "ip_add : Permission denied\n" [])
              (do
                e ← System.errno k
                print "ip_add : errno=%d %s\n" (number e ∷ text (k.strerror error) ∷ [])))
        else pure tt
    pure (pos 0)

  -- ip_del
  unfoldable pub ip_del : Prog ℤ
  ip_del = do
    fd ← System.socket k
    _ ← del_ip fd af_inet "172.16.10.111"
    (len, buf) ← util_get_msg k fd
    if util_parse_nl_msg_ok buf len == nlmsg_error
        then (let error = buf.error (nlmsg_data 0) in
            switch_error error (print "Success\n" []) (print "Failed\n" [])
              (print "Permission denied\n" []) (print "%s\n" (text (k.strerror error) ∷ [])))
        else pure tt
    pure (pos 0)

  -- nettool_ip_show, with fuel for its loop
  unfoldable pub nettool_ip_show : ℕ → Prog ℤ
  nettool_ip_show fuel = do
    fd ← System.socket k
    _ ← get_ip fd af_inet
    receive_all k fd fuel
    pure (pos 0)
