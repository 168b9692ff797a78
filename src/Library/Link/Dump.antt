-- ===== src/Library/Link/Dump.antt =====
-- A device that stands in one of the replies to a dump is found by link_info_receive.
use Prim.Native.String.{String}
use nettool.Base.{
  ℕ, zero, suc, ℤ, pos, pos_part, ◌<◌, ◌+◌, ◌-ℤ◌, ◌≡◌, refl, ◌∙◌, Bool-cases, true, false, ◌&&◌,
  ◌==◌, ◌==ℤ◌, inl, inr, if◌then◌else◌, List, [], ◌∷◌, some, Option, arith,
}
use nettool.Netlink.Headers.{align, nlmsg_data, nlmsg_done, rtm_newlink, rtm_getlink}
use nettool.Netlink.Buffer.{Buf, nlmsg_len, nlmsg_type, ifi_index}
use nettool.Netlink.Messages.{nlmsg_ok}
use nettool.Netlink.System.{Kernel, Trace, Arg, received, printed, pure, follow}
use nettool.Library.Link.Sent.{Ifinfomsg}
use nettool.Library.Link.Receive.{Search, info_messages, info_replies, link_info_receive}
use nettool.Library.Link.Search.{nlmsg_ok_step, heard, pick, ok_nonzero}
use nettool.Library.Link.Found.{
  Printed, same, more, Printed-trans, Holds, here, later, rtnl_print_link-Printed,
  info_messages-Finds,
}

-- None of the messages from an offset on is of RTM_NEWLINK for the index, or of NLMSG_DONE.
pub data Passes (b : Buf) (index : ℕ) : ℕ → ℤ → Type 0 where
  stop : (at : ℕ) (len : ℤ) → nlmsg_ok b at len ≡ false → Passes b index at len
  past :
      (at : ℕ) (len : ℤ)
      → nlmsg_ok b at len ≡ true
      → b.word at nlmsg_type == nlmsg_done ≡ false
      → ((b.word at nlmsg_type == rtm_newlink) && (index == b.word (nlmsg_data at) ifi_index))
        ≡ false
      → Passes b index (at + align (b.word at nlmsg_len)) (len -ℤ pos (align (b.word at nlmsg_len)))
      → Passes b index at len

-- The loop has found nothing, not even the end of the dump.
abbrev pub nothing_yet : ℕ → Ifinfomsg → Search
nothing_yet end infomsg = record { find = false; end = end; infomsg = infomsg }

abbrev pub GoesBy : Search → Trace → Option (Search × Trace) → Type 0
GoesBy s t o = (u : Trace) × (o ≡ some (s, u)) × Printed t u

GoesBy-behind :
    (s : Search) (t u : Trace) (o : Option (Search × Trace))
    → Printed t u
    → GoesBy s u o
    → GoesBy s t o
GoesBy-behind s t u o p (v, run, q) = (v, run, Printed-trans p q)

info_messages-GoesBy :
    (b : Buf) (index fuel at : ℕ) (len : ℤ) (end : ℕ) (infomsg : Ifinfomsg) (t : Trace)
    → Passes b index at len
    → pos_part len < fuel
    → GoesBy (nothing_yet end infomsg) t (info_messages b index fuel at len end infomsg t)
unfolding info_messages
info_messages-GoesBy b index zero at len end infomsg t h l = absurd (omega arith)
info_messages-GoesBy b index (suc fuel) at len end infomsg t (stop _ _ ends) l =
    rw ends (t, refl, same)
info_messages-GoesBy b index (suc fuel) at len end infomsg t (past _ _ ok on pass h) l =
    let less = nlmsg_ok_step b at len ok in
    let step = align (b.word at nlmsg_len) in
    let next = λ (u : Trace) (p : Printed t u). GoesBy-behind (nothing_yet end infomsg) t u _ p (
      info_messages-GoesBy b index fuel (at + step) (len -ℤ pos step) end infomsg u h
        (omega arith)) in
    elim (Bool-cases (b.word at nlmsg_type == rtm_newlink)) [
      | inl new ↦
          let told = printed "link_info_receive_2 : RTM_NEWLINK \n" [] ∷ t in
          let (u, shown, p) = rtnl_print_link-Printed b at told in
          let miss : index == b.word (nlmsg_data at) ifi_index ≡ false = rw new at pass in
          rw (ok, on, new, miss, shown) (next u (Printed-trans (more _ _ t same) p))
      | inr old ↦ elim (Bool-cases (b.word at nlmsg_type == rtm_getlink)) [
        | inl get ↦
            let told = printed "link_info_receive_2 : RTM_GETLINK \n" [] ∷ t in
            let (u, shown, p) = rtnl_print_link-Printed b at told in
            rw (ok, on, old, get, shown) (next u (Printed-trans (more _ _ t same) p))
        | inr other ↦ rw (ok, on, old, other) (next _ (more _ _ t same))
      ]
    ]

Holds-nonzero :
    (b : Buf) (index : ℕ) (i : Ifinfomsg) (len : ℤ) → Holds b index i 0 len → len ==ℤ pos 0 ≡ false
Holds-nonzero b index i len (here _ _ ok new hit e) = ok_nonzero b len ok
Holds-nonzero b index i len (later _ _ ok pass h) = ok_nonzero b len ok

-- A trace behind another one, with some lines printed and some messages received.
pub data Listened (t : Trace) : Trace → Type 0 where
  at_once : Listened t t
  prints :
      (format : String) (args : List Arg) (u : Trace)
      → Listened t u
      → Listened t (printed format args ∷ u)
  receives :
      (fd status : ℤ) (b : Buf) (u : Trace) → Listened t u → Listened t (received fd status b ∷ u)

Listened-Printed : {t u v : Trace} → Listened t u → Printed u v → Listened t v
Listened-Printed l same = l
Listened-Printed l (more format args w q) = prints format args w (Listened-Printed l q)

Listened-trans : {t u v : Trace} → Listened t u → Listened u v → Listened t v
Listened-trans l at_once = l
Listened-trans l (prints format args w q) = prints format args w (Listened-trans l q)
Listened-trans l (receives fd status b w q) = receives fd status b w (Listened-trans l q)

heard-Listened : (k : Kernel) (fd : ℤ) (t : Trace) → Listened t (heard k fd t)
heard-Listened k fd t = prints _ _ _ (receives _ _ _ t at_once)

-- The device stands in the reply of this number, counted from 0, of those that follow; the replies
-- in front of it are of other devices. What is printed in between changes no reply.
abbrev pub InDump : Kernel → ℤ → ℕ → Ifinfomsg → ℕ → Trace → Type 0
InDump k fd index i zero t = Holds (k.recvmsg t).1 index i 0 (k.recvmsg t).0
InDump k fd index i (suc n) t =
    Passes (k.recvmsg t).1 index 0 (k.recvmsg t).0
    × ((u : Trace) → Printed (heard k fd t) u → InDump k fd index i n u)

-- One round over a reply that has neither the device nor the end of the dump.
next_reply :
    (k : Kernel) (fuel : ℕ) (fd : ℤ) (index : ℕ) (infomsg : Ifinfomsg) (t : Trace)
    → Passes (k.recvmsg t).1 index 0 (k.recvmsg t).0
    → (u : Trace) × (link_info_receive k (suc fuel) fd index infomsg t
        ≡ link_info_receive k fuel fd index infomsg u)
      × Printed (heard k fd t) u
unfolding info_replies
next_reply k fuel fd index infomsg t h = elim (Bool-cases ((k.recvmsg t).0 ==ℤ pos 0)) [
  | inl nothing ↦ (heard k fd t, rw nothing refl, same)
  | inr nonzero ↦
      let (u, run, p) =
        info_messages-GoesBy (k.recvmsg t).1 index (suc (pos_part (k.recvmsg t).0)) 0
          (k.recvmsg t).0 0 infomsg (heard k fd t) h (omega arith) in
      (u, rw (nonzero, run) refl, p)
]

first_reply :
    (k : Kernel) (fuel : ℕ) (fd : ℤ) (index : ℕ) (infomsg i : Ifinfomsg) (t : Trace)
    → Holds (k.recvmsg t).1 index i 0 (k.recvmsg t).0
    → (u : Trace) × (link_info_receive k (suc fuel) fd index infomsg t ≡ some ((pos 0, i), u))
      × Printed (heard k fd t) u
unfolding info_replies
first_reply k fuel fd index infomsg i t h =
    let (s, u, run, hit, e, p) =
      info_messages-Finds (k.recvmsg t).1 index i (suc (pos_part (k.recvmsg t).0)) 0 (k.recvmsg t).0
        0 infomsg (heard k fd t) h (omega arith) in
    let nonzero = Holds-nonzero (k.recvmsg t).1 index i (k.recvmsg t).0 h in
    let picked : follow (some (s, u)) (λ s.
      let next = info_replies k fd index fuel s.end s.infomsg in
      if s.find then pure (pos 0, s.infomsg) else next)
        ≡ some ((pos 0, i), u) =
      rw (pick k fd index fuel u s s.find refl, hit, e) refl in
    (u, rw (nonzero, run, picked), p)

-- When the device stands in a reply to come, link_info_receive, given a round for each reply up to
-- it, answers 0 with the structure of the device; all else that it does is to receive and print.
pub link_info_receive-found :
    (k : Kernel) (fuel n : ℕ) (fd : ℤ) (index : ℕ) (infomsg i : Ifinfomsg) (t : Trace)
    → InDump k fd index i n t
    → n < fuel
    → (u : Trace) × (link_info_receive k fuel fd index infomsg t ≡ some ((pos 0, i), u))
      × Listened t u
link_info_receive-found k zero n fd index infomsg i t h l = absurd (omega arith)
link_info_receive-found k (suc fuel) zero fd index infomsg i t h l =
    let (u, run, p) = first_reply k fuel fd index infomsg i t h in
    (u, run, Listened-Printed (heard-Listened k fd t) p)
link_info_receive-found k (suc fuel) (suc n) fd index infomsg i t (passes, h) l =
    let (u, go_on, p) = next_reply k fuel fd index infomsg t passes in
    let (v, run, listened) =
      link_info_receive-found k fuel n fd index infomsg i u (h u p) (omega arith) in
    (v, go_on ∙ run, Listened-trans (Listened-Printed (heard-Listened k fd t) p) listened)
