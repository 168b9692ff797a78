-- ===== src/Library/Link/Sessions.antt =====
-- The functions of libnettool/src/ip_link.c that other code calls.
use Prim.Native.String.{String, len}
use nettool.Base.{
  ℕ, ℤ, pos, minus_one, [], ◌∷◌, Bool, true, ◌==◌, ◌==ℤ◌, ◌||◌, ◌&&◌, not, if◌then◌else◌, Option,
  none, some,
}
use nettool.Netlink.Headers.{nlmsg_data, nlmsg_error, af_inet}
use nettool.Netlink.Buffer.{Buf, zeros}
use nettool.Netlink.System
use nettool.Netlink.System.{
  Kernel, Prog, Trace, number, text, print, print_error, started_thread, allocated, record_event,
  close, pure, ◌>>=◌, ◌>>◌,
}
use nettool.Library.Util.{util_get_msg, util_parse_nl_msg_ok}
use nettool.Library.Exchange.{send_request, switch_error}
use nettool.Library.Link.Requests.{link_up_request, link_info_request_buf}
use nettool.Library.Link.Sent.{Ifinfomsg}
use nettool.Library.Link.Receive.{link_info_receive}

module _ (k : Kernel) where
  -- link_up
  unfoldable pub link_up : ℤ → ℕ → ℤ → ℕ → Prog ℤ
  link_up fd domain up index_device =
      send_request k fd (link_up_request domain up index_device zeros).1

  -- link_info_request
  unfoldable pub link_info_request : ℤ → Prog ℤ
  link_info_request fd = send_request k fd (link_info_request_buf k zeros).1

  -- The switch over an acknowledgement, which nettool_link_info repeats word for word.
  abbrev pub print_reply : ℤ → Buf → Prog (Unit {0})
  print_reply len buf =
      if util_parse_nl_msg_ok buf len == nlmsg_error
      then (let error = buf.error (nlmsg_data 0) in
          switch_error error (print "nettool_link_up : Success\n" [])
            (print "nettool_link_up : Failed\n" [])
            (print "nettool_link_up : Permission denied\n" [])
            (do
              e ← System.errno k
              print "nettool_link_up : errno=%d %s\n" (number e ∷ text (k.strerror error) ∷ [])))
      else pure tt

  -- if (vSocketFD) close(vSocketFD)
  abbrev pub close_socket : ℤ → Prog (Unit {0})
  close_socket fd = if fd ==ℤ pos 0 then pure tt else close fd

  -- nettool_link_up
  unfoldable pub nettool_link_up : String → ℤ → Prog ℤ
  nettool_link_up device_name up =
      let index_device = k.if_nametoindex device_name in
      if index_device == 0
      then (do
        print_error "\nError device %s  not exits ! \n\n" (text device_name ∷ [])
        pure (pos 0))
      else (do
        fd ← System.socket k
        _ ← link_up fd af_inet up index_device
        (len, buf) ← util_get_msg k fd
        print_reply len buf
        close_socket fd
        pure (pos 0))

  -- nettool_link_info. Its own buffer, `buf`, is never written, and its `vLen` stays 0; `fuel` is
  -- for the loop over the replies.
  unfoldable pub nettool_link_info : ℕ → Buf → String → Ifinfomsg → Prog (ℤ × Ifinfomsg)
  nettool_link_info fuel buf device_name ifinfomsg =
      let index_device = k.if_nametoindex device_name in
      if index_device == 0
      then (do
        print_error "\nError device %s  not exits ! \n\n" (text device_name ∷ [])
        pure (pos 0, ifinfomsg))
      else (do
        fd ← System.socket k
        _ ← link_info_request fd
        (retcode, ifinfomsg') ← link_info_receive k fuel fd index_device ifinfomsg
        print_reply (pos 0) buf
        close_socket fd
        pure (pos 0, ifinfomsg'))

-- ip_link_add_notification: the structure that it allocates goes nowhere.
abbrev pub ip_link_add_notification : Prog ℤ
ip_link_add_notification = do record_event allocated; pure (pos 0)

-- CreateThread
abbrev pub create_thread : Kernel → Prog ℤ
create_thread k t = some (k.pthread_create t, started_thread (k.pthread_create t) ∷ t)

-- The arguments of a call: a null pointer is `none`, or 0.
pub record Notify : Type 0 where
  pub device_name : Option String
  pub function : ℕ
  pub flag_to_check : ℤ

abbrev pub no_name : Option String → Bool
no_name none = true
no_name (some name) = len name == 0

-- The arguments that are turned down.
abbrev pub is_refused : Notify → Bool
is_refused a = no_name a.device_name || a.function == 0 || a.flag_to_check ==ℤ pos 0

-- nettool_link_notify. The state is g_ModuleInit, which setModuleInit sets.
unfoldable pub nettool_link_notify : Kernel → Notify → ℕ → Prog (ℤ × ℕ)
nettool_link_notify k a module_init = if is_refused a then pure (minus_one, module_init) else (do
  (retcode, module_init) ←
      if module_init == 0 then (do r ← create_thread k; pure (r, 1)) else pure (pos 0, module_init)
  if (retcode ==ℤ pos 0) && not (module_init == 0)
      then (do r ← ip_link_add_notification; pure (r, module_init))
      else pure (retcode, module_init))
