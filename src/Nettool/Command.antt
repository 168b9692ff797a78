-- ===== src/Nettool/Command.antt =====
-- What the commands `evloop` and `li` of nettool do.
use Prim.Native.String.{String}
use nettool.Base.{
  [], ℕ, zero, suc, ℤ, pos, minus_one, ◌≡◌, ◌≢◌, refl, ◌==ℤ◌, ◌≤ℤ◌, ltb_ℤ, negsuc, Bool, true,
  false, arith, Bool-cases, inl, inr, Option, some, none, List, ◌∷◌,
}
use nettool.Netlink.Buffer.{Buf}
use nettool.Netlink.System.{Kernel, Prog, Trace, closed, opened, bound, follow, ◌>>=◌}
use nettool.Library.Link.Sent.{Ifinfomsg}
use nettool.Library.Link.Receive.{link_info_receive}
use nettool.Library.Util.{util_parse_nl_msg_ok}
use nettool.Library.Verdict.{Verdict, Says}
use nettool.Library.Link.Outcome.{
  info_sent, nettool_link_info-drops, up_sent, up_lines, nettool_link_up-Says,
}
use nettool.Netlink.Headers.{nlmsg_data}
use nettool.Library.Link.Sessions.{nettool_link_up}
use nettool.Nettool.Tables.{ArrayFamily}
use nettool.Nettool.Links.{print_message_flag}
use nettool.Nettool.Events.{read_event}
use nettool.Nettool.Main.{
  loop_event, ip_link_info, ip_link_up, ip_link, open_socket, dispatch, main,
}

follow-none :
    {A B : Type 0}
    → (o : Option (A × Trace)) (f : A → Prog B) → ((a : A) (t : Trace) → f a t ≡ none)
    → follow o f ≡ none
follow-none none f h = refl
follow-none (some (a, t)) f h = h a t

-- LoopEvent never returns, whatever `select` and `recvmsg` answer: no number of rounds is enough.
pub loop_event-endless :
    (k : Kernel) (fuel : ℕ) (program : String) (families : ArrayFamily) (ifa_max rounds : ℕ)
    (fd : ℤ) (kept : ℕ) (t : Trace)
    → loop_event k fuel program families ifa_max rounds fd kept t ≡ none
unfolding loop_event
loop_event-endless k fuel program families ifa_max zero fd kept t = refl
loop_event-endless k fuel program families ifa_max (suc rounds) fd kept t =
    elim (Bool-cases (k.select t ==ℤ minus_one)) [
      | inl fails ↦ rw fails (loop_event-endless k fuel program families ifa_max rounds fd kept _)
      | inr answers ↦ elim (Bool-cases (k.select t ==ℤ pos 0)) [
        | inl timeout ↦
            rw (answers, timeout)
              (loop_event-endless k fuel program families ifa_max rounds fd kept t)
        | inr ready ↦
            rw (answers, ready)
              (follow-none (read_event k families ifa_max fuel fd kept t) _
                (λ a u. loop_event-endless k fuel program families ifa_max rounds fd a.1 u))
      ]
    ]

-- A structure of zeros.
abbrev pub blank : Ifinfomsg
blank = record { family = 0; type = 0; index = 0; flags = 0; change = 0 }

-- When the search for the device answers -1, with the structure of zeros as it was, the command
-- `li` prints the flags of that structure, as for a device that is down, and answers 0.
pub ip_link_info-not_found :
    (k : Kernel) (fuel : ℕ) (program : String) (buf : Buf) (device : String) (t t' : Trace)
    → k.if_nametoindex device ≢ 0
    → k.socket t ≢ pos 0
    → link_info_receive k fuel
        (k.socket t)
        (k.if_nametoindex device)
        blank
        (info_sent k fuel buf device blank t)
      ≡ some ((minus_one, blank), t')
    → ip_link_info k fuel program buf device t
      ≡ (print_message_flag 0 >>= λ _ u. some (pos 0, u)) (closed (k.socket t) ∷ t')
unfolding ip_link_info
ip_link_info-not_found k fuel program buf device t t' known opens found =
    rw (nettool_link_info-drops k fuel buf device blank t minus_one blank t' known opens found)

-- What has happened once main has its socket.
abbrev pub main_ready : Kernel → Trace → Trace
main_ready k t = bound (k.socket t) (k.bind (opened (k.socket t) ∷ t)) ∷ opened (k.socket t) ∷ t

not_negative : (z : ℤ) → pos 0 ≤ℤ z → ltb_ℤ z (pos 0) ≡ false
not_negative z l = ground arith

not_zero : (z : ℤ) → z ≢ pos 0 → z ==ℤ pos 0 ≡ false
not_zero (pos n) h = ground arith
not_zero (negsuc n) h = ground arith

-- The words of the commands, and the argument that they give to nettool_link_up.
abbrev pub word_of : Bool → String
word_of true = "lu"
word_of false = "ld"

abbrev pub up_of : Bool → ℤ
up_of true = pos 1
up_of false = pos 0

module _ (k : Kernel) (fuel : ℕ) (program : String) where
  open_socket-ready :
      (t : Trace)
      → pos 0 ≤ℤ k.socket t
      → pos 0 ≤ℤ k.bind (opened (k.socket t) ∷ t)
      → open_socket k fuel program t ≡ some (some (k.socket t), main_ready k t)
  unfolding open_socket
  open_socket-ready t l l' = rw (not_negative _ l, not_negative _ l')

  -- The commands `lu` and `ld` give nettool_link_up the device and whether it goes up.
  dispatch-link :
      (pf_max ifa_max : ℕ) (buf : Buf) (fd : ℤ) (device : String) (goes_up : Bool) (u v : Trace)
      → nettool_link_up k device (up_of goes_up) u ≡ some (pos 0, v)
      → dispatch k fuel program pf_max ifa_max buf fd (word_of goes_up) (device ∷ []) u
        ≡ some (pos 0, v)
  unfolding dispatch ip_link ip_link_up
  dispatch-link pf_max ifa_max buf fd device true u v run = rw run
  dispatch-link pf_max ifa_max buf fd device false u v run = rw run

  -- main runs a command between the opening and the closing of its socket.
  pub main-dispatch :
      (pf_max ifa_max : ℕ) (buf : Buf) (arg : String) (args : List String) (r : ℤ) (t v : Trace)
      → pos 0 ≤ℤ k.socket t
      → k.socket t ≢ pos 0
      → pos 0 ≤ℤ k.bind (opened (k.socket t) ∷ t)
      → dispatch k fuel program pf_max ifa_max buf (k.socket t) arg args (main_ready k t)
        ≡ some (r, v)
      → main k fuel program pf_max ifa_max buf (arg ∷ args) t ≡ some (r, closed (k.socket t) ∷ v)
  unfolding main
  main-dispatch pf_max ifa_max buf arg args r t v first nonzero binds run =
      rw (open_socket-ready t first binds, run, not_zero _ nonzero)

  pub main-link :
      (pf_max ifa_max : ℕ) (buf : Buf) (device : String) (goes_up : Bool) (t v : Trace)
      → pos 0 ≤ℤ k.socket t
      → k.socket t ≢ pos 0
      → pos 0 ≤ℤ k.bind (opened (k.socket t) ∷ t)
      → nettool_link_up k device (up_of goes_up) (main_ready k t) ≡ some (pos 0, v)
      → main k fuel program pf_max ifa_max buf (word_of goes_up ∷ device ∷ []) t
        ≡ some (pos 0, closed (k.socket t) ∷ v)
  main-link pf_max ifa_max buf device goes_up t v first nonzero binds run =
      main-dispatch pf_max ifa_max buf (word_of goes_up) (device ∷ []) (pos 0) t v first nonzero
        binds (dispatch-link pf_max ifa_max buf (k.socket t) device goes_up (main_ready k t) v run)

-- The command `lu` with a device that is known, when main's socket is positive and bound, and the
-- library's socket is not 0: nettool_link_up runs for the device, both sockets are closed, the
-- library's first, and main returns 0 whatever the kernel's reply says.
pub main-link_up :
    (k : Kernel) (fuel : ℕ) (program : String) (pf_max ifa_max : ℕ) (buf : Buf) (device : String)
    (t : Trace)
    → pos 0 ≤ℤ k.socket t
    → k.socket t ≢ pos 0
    → pos 0 ≤ℤ k.bind (opened (k.socket t) ∷ t)
    → k.if_nametoindex device ≢ 0
    → k.socket (main_ready k t) ≢ pos 0
    → let u = main_ready k t in
      let reply = k.recvmsg (up_sent k device (pos 1) u) in
      let error = reply.1.error (nlmsg_data 0) in
      (v : Verdict) × Says (util_parse_nl_msg_ok reply.1 reply.0) error v
      × (main k fuel program pf_max ifa_max buf ("lu" ∷ device ∷ []) t
          ≡ some (
            pos 0,
            closed (k.socket t) ∷ closed (k.socket u) ∷ up_lines k device (pos 1) u v error,
          ))
main-link_up k fuel program pf_max ifa_max buf device t first nonzero binds known second =
    let u = main_ready k t in
    let (v, says, run) = nettool_link_up-Says k device (pos 1) u known second in
    (v, says, main-link k fuel program pf_max ifa_max buf device true t _ first nonzero binds run)
