-- ===== src/Nettool/Main.antt =====
-- main of nettool/src/main_nettool.c with ip_link of nettool/src/ip_link.c.
use Prim.Native.String.{String, compare, char_at}
use Prim.Native.Nat.{Ordering}
use Prim.Native.Char.{code}
use nettool.Base.{
  ℕ, zero, suc, ℤ, pos, minus_one, Bool, true, false, ◌==◌, ◌==ℤ◌, ltb_ℤ, if◌then◌else◌, Option,
  some, none, List, [], ◌∷◌,
}
use nettool.Netlink.Buffer.{Buf}
use nettool.Netlink.System
use nettool.Netlink.System.{Kernel, Prog, number, text, print, close, pure, stuck, ◌>>=◌, ◌>>◌}
use nettool.Library.Address.Sessions.{nettool_ip_add, nettool_ip_show}
use nettool.Library.Link.Sessions.{nettool_link_up, nettool_link_info}
use nettool.Nettool.Tables.{ArrayFamily, set_array_address_family}
use nettool.Nettool.Links.{print_message_flag}
use nettool.Nettool.Events.{read_event}

-- strcmp(a, b) == 0
abbrev pub same_text : String → String → Bool
same_text a b = elim (compare a b) [ Ordering.eq ↦ true | _ ↦ false ]

-- PrintUsage
unfoldable pub print_usage : String → Prog (Unit {0})
print_usage program = do
  print "\n" []
  print " Usage %s [ARG]\n" (text program ∷ [])
  print "\t all    : all test\n" []
  print "\t evloop : loop event\n" []
  print "\t lu     : link up\n" []
  print "\t ld     : link down\n" []
  print "\t li     : link info\n" []
  print "\n" []

module _ (k : Kernel) (fuel : ℕ) (program : String) where
  -- util_OpenSocket of the command: `none` is exit(1).
  unfoldable pub open_socket : Prog (Option ℤ)
  open_socket = do
    fd ← System.socket k
    if ltb_ℤ fd (pos 0) then (do print "Socket Open Error!" []; pure none) else (do
      retcode ← System.bind k fd
      if ltb_ℤ retcode (pos 0)
          then (do
            e ← System.errno k
            print "Socket bind failed! %d %s " (number e ∷ text (k.strerror e) ∷ [])
            pure none)
          else pure (some fd))

  -- LoopEvent: a round for each answer of `select`, without an end.
  unfoldable pub loop_event : ArrayFamily → ℕ → ℕ → ℤ → ℕ → Prog ℤ
  loop_event families ifa_max zero fd kept t = stuck t
  loop_event families ifa_max (suc rounds) fd kept t =
      let rest = loop_event families ifa_max rounds fd in
      let retval = k.select t in
      if retval ==ℤ minus_one
      then (print "Error select() \n" [] >> rest kept) t
      else if retval ==ℤ pos 0
      then rest kept t
      else (do (ret, kept') ← read_event k families ifa_max fuel fd kept; rest kept') t

  -- net_event_show
  unfoldable pub net_event_show : Prog (Unit {0})
  net_event_show = do _ ← nettool_ip_add k; _ ← nettool_ip_show k fuel; pure tt

  -- ip_link_UP
  unfoldable pub ip_link_up : String → ℤ → Prog ℤ
  ip_link_up device up = nettool_link_up k device up

  -- ip_link_Info; `buf` is the buffer of nettool_link_info.
  unfoldable pub ip_link_info : Buf → String → Prog ℤ
  ip_link_info buf device = do
    (retcode, info) ←
        nettool_link_info k fuel buf device
          (record { family = 0; type = 0; index = 0; flags = 0; change = 0 })
    if retcode ==ℤ pos 0 then print_message_flag info.flags else pure tt
    pure retcode

  -- ip_link with the arguments behind the program's name.
  unfoldable pub ip_link : Buf → List String → Prog ℤ
  ip_link buf (command ∷ device ∷ []) =
      if same_text "lu" command
      then ip_link_up device (pos 1)
      else if same_text "ld" command
      then ip_link_up device (pos 0)
      else if same_text "li" command
      then ip_link_info buf device
      else print_usage program >> pure (pos 0)
  ip_link buf args = print_usage program >> pure (pos 0)

  -- The chain of tests of main.
  unfoldable pub dispatch : ℕ → ℕ → Buf → ℤ → String → List String → Prog ℤ
  dispatch pf_max ifa_max buf fd arg args =
      if same_text "evloop" arg
      then loop_event (set_array_address_family pf_max) ifa_max fuel fd 0
      else if same_text "all" arg
      then net_event_show >> pure (pos 0)
      else if code (char_at arg 0) == 108
      then ip_link buf (arg ∷ args) >> pure (pos 0)
      else if same_text "show" arg
      then nettool_ip_show k fuel >> pure (pos 0)
      else if same_text "add" arg
      then nettool_ip_add k >> pure (pos 0)
      else if same_text "" arg
      then nettool_ip_add k >> pure (pos 0)
      else print_usage program >> pure (pos 0)

  -- CloseSocket
  abbrev pub close_socket : ℤ → Prog (Unit {0})
  close_socket fd = if fd ==ℤ pos 0 then pure tt else close fd

  -- main: its exit status.
  unfoldable pub main : ℕ → ℕ → Buf → List String → Prog ℤ
  main pf_max ifa_max buf [] = print_usage program >> pure (pos 0)
  main pf_max ifa_max buf (arg ∷ args) = do
    opened_socket ← open_socket
    elim opened_socket [
      | none ↦ pure (pos 1)
      | some fd ↦ (do
        ret_code ← dispatch pf_max ifa_max buf fd arg args
        close_socket fd
        pure ret_code)
    ]
