-- ===== src/Library/Link/Search.antt =====
-- What link_info_receive finds, and when it ends.
use nettool.Base.{
  ℕ, zero, suc, ℤ, pos, pos_part, minus_one, ◌<◌, ◌+◌, ◌-ℤ◌, ◌≡◌, refl, ◌⊎◌, inl, inr, Bool,
  Bool-cases, true, false, ◌==◌, ◌==ℤ◌, if◌then◌else◌, Option, none, some, [], ◌∷◌, arith,
}
use nettool.Netlink.Headers.{
  align, nlmsg_data, nlmsg_length, attributes_after, sizeof_ifinfomsg, nlmsg_done, rtm_newlink,
  rtm_getlink,
}
use nettool.Netlink.Buffer.{Buf, nlmsg_len, nlmsg_type, ifi_index}
use nettool.Netlink.Messages.{nlmsg_ok}
use nettool.Netlink.Attributes.{for_each_attribute-Within, run_at}
use nettool.Netlink.System.{Kernel, Trace, received, printed, number, pure, follow}
use nettool.Library.Link.Sent.{Ifinfomsg, read_ifinfomsg}
use nettool.Library.Link.Receive.{
  rtnl_print_link, print_link_attribute, Search, info_messages, info_replies, link_info_receive,
}

-- A run of rtnl_print_link ends, whatever the message holds.
rtnl_print_link-ends :
    (b : Buf) (h : ℕ) (t : Trace) → (t' : Trace) × (rtnl_print_link b h t ≡ some (tt, t'))
unfolding rtnl_print_link
rtnl_print_link-ends b h t =
    let iface = nlmsg_data h in
    let len = pos (b.word h nlmsg_len) -ℤ pos (nlmsg_length sizeof_ifinfomsg) in
    let (ps, run, within) =
      for_each_attribute-Within b Trace (print_link_attribute b iface) (suc (pos_part len))
        (attributes_after sizeof_ifinfomsg iface) len t (omega arith) in
    (run_at (print_link_attribute b iface) ps t, rw run)

-- NLMSG_NEXT leaves less.
pub nlmsg_ok_step :
    (b : Buf) (at : ℕ) (len : ℤ)
    → nlmsg_ok b at len ≡ true
    → pos_part (len -ℤ pos (align (b.word at nlmsg_len))) < pos_part len
unfolding ◌-ℤ◌
nlmsg_ok_step b at len ok = ground arith

-- A device of the index is found, or the caller's structure is left as it was.
abbrev pub Sought : ℕ → Ifinfomsg → Search → Type 0
Sought index infomsg s =
    ((s.find ≡ true) × (s.infomsg.index ≡ index)) ⊎ ((s.find ≡ false) × (s.infomsg ≡ infomsg))

abbrev pub Ends : ℕ → Ifinfomsg → Option (Search × Trace) → Type 0
Ends index infomsg o = (s : Search) × (t : Trace) × (o ≡ some (s, t)) × Sought index infomsg s

-- The loop over the messages of a reply, given one round more than there are bytes, ends whatever
-- they hold: it finds a device of the index that is sought, or finds none and leaves the caller's
-- structure as it was.
pub info_messages-Ends :
    (b : Buf) (index fuel at : ℕ) (len : ℤ) (end : ℕ) (infomsg : Ifinfomsg) (t : Trace)
    → pos_part len < fuel
    → Ends index infomsg (info_messages b index fuel at len end infomsg t)
unfolding info_messages
info_messages-Ends b index zero at len end infomsg t l = absurd (omega arith)
info_messages-Ends b index (suc fuel) at len end infomsg t l =
    let step = align (b.word at nlmsg_len) in
    let iface = nlmsg_data at in
    elim (Bool-cases (nlmsg_ok b at len)) [
      | inr stop ↦
          rw stop (record { find = false; end = end; infomsg = infomsg }, t, refl, inr (refl, refl))
      | inl ok ↦
          let less = nlmsg_ok_step b at len ok in
          let next = λ (e : ℕ) (u : Trace).
            info_messages-Ends b index fuel (at + step) (len -ℤ pos step) e infomsg u
              (omega arith) in
          elim (Bool-cases (b.word at nlmsg_type == nlmsg_done)) [
            | inl over ↦ rw (ok, over) (next (suc end) _)
            | inr more ↦ elim (Bool-cases (b.word at nlmsg_type == rtm_newlink)) [
              | inl new ↦ elim (Bool-cases (index == b.word iface ifi_index)) [
                | inl hit ↦
                    rw (ok, more, new, hit)
                      (
                        record { find = true; end = end; infomsg = read_ifinfomsg b iface },
                        t,
                        refl,
                        inl (refl, ground arith),
                      )
                | inr miss ↦
                    let (u, shown) =
                      rtnl_print_link-ends b at
                        (printed "link_info_receive_2 : RTM_NEWLINK \n" [] ∷ t) in
                    rw (ok, more, new, miss, shown) (next end u)
              ]
              | inr old ↦ elim (Bool-cases (b.word at nlmsg_type == rtm_getlink)) [
                | inl get ↦
                    let (u, shown) =
                      rtnl_print_link-ends b at
                        (printed "link_info_receive_2 : RTM_GETLINK \n" [] ∷ t) in
                    rw (ok, more, old, get, shown) (next end u)
                | inr other ↦ rw (ok, more, old, other) (next end _)
              ]
            ]
          ]
    ]

-- What has happened once a reply is there.
abbrev pub heard : Kernel → ℤ → Trace → Trace
heard k fd t =
    printed "link_info_receive_2 : len = %d \n" (number (k.recvmsg t).0 ∷ [])
    ∷ received fd (k.recvmsg t).0 (k.recvmsg t).1
    ∷ t

-- One round of the outer loop.
abbrev Round : Kernel → ℤ → ℕ → ℕ → Ifinfomsg → Trace → Type 0
Round k fd index fuel infomsg t =
    (s : Search) × (t' : Trace) × Sought index infomsg s
    × (info_replies k fd index (suc fuel) 0 infomsg t ≡ (
        if s.find
        then some ((pos 0, s.infomsg), t')
        else info_replies k fd index fuel s.end s.infomsg t'))

pub pick :
    (k : Kernel) (fd : ℤ) (index fuel : ℕ) (t' : Trace) (s : Search) (found : Bool)
    → s.find ≡ found
    → follow (some (s, t')) (λ s.
      let next = info_replies k fd index fuel s.end s.infomsg in
      if s.find then pure (pos 0, s.infomsg) else next)
      ≡ (if s.find
          then some ((pos 0, s.infomsg), t')
          else info_replies k fd index fuel s.end s.infomsg t')
pick k fd index fuel t' s true e = rw e
pick k fd index fuel t' s false e = rw e

round :
    (k : Kernel) (fd : ℤ) (index fuel : ℕ) (infomsg : Ifinfomsg) (t : Trace)
    → Round k fd index fuel infomsg t
unfolding info_replies
round k fd index fuel infomsg t =
    let (len, b) = k.recvmsg t in
    elim (Bool-cases ((k.recvmsg t).0 ==ℤ pos 0)) [
      | inl nothing ↦
          let s : Search = record { find = false; end = 0; infomsg = infomsg } in
          (s, heard k fd t, inr (refl, refl), rw nothing)
      | inr some_bytes ↦
          let (s, t', run, sought) =
            info_messages-Ends (k.recvmsg t).1 index (suc (pos_part (k.recvmsg t).0)) 0
              (k.recvmsg t).0 0 infomsg (heard k fd t) (omega arith) in
          (s, t', sought, rw (some_bytes, run) (pick k fd index fuel t' s s.find refl))
    ]

-- An answer: 0 with a structure of the index that is sought, -1 with the caller's structure as it
-- was, or none within the fuel.
pub data Answers (index : ℕ) (infomsg : Ifinfomsg) : Option ((ℤ × Ifinfomsg) × Trace) → Type 0 where
  found :
      (i : Ifinfomsg) (t : Trace) → i.index ≡ index → Answers index infomsg (some ((pos 0, i), t))
  not_found : (t : Trace) → Answers index infomsg (some ((minus_one, infomsg), t))
  out_of_fuel : Answers index infomsg none

suc_not_zero : (n : ℕ) → suc n == 0 ≡ false
suc_not_zero n = ground arith

info_replies-Answers :
    (k : Kernel) (fd : ℤ) (index fuel end : ℕ) (infomsg : Ifinfomsg) (t : Trace)
    → Answers index infomsg (info_replies k fd index fuel end infomsg t)
unfolding info_replies
info_replies-Answers k fd index zero end infomsg t = out_of_fuel
info_replies-Answers k fd index (suc fuel) (suc end) infomsg t = rw (suc_not_zero end) (not_found t)
info_replies-Answers k fd index (suc fuel) zero infomsg t =
    let (s, t', sought, run) = round k fd index fuel infomsg t in
    elim sought [
      | inl (hit, same) ↦ rw (run, hit) (found s.infomsg t' same)
      | inr (miss, same) ↦
          rw (run, miss, same) (info_replies-Answers k fd index fuel s.end infomsg t')
    ]

-- link_info_receive answers 0 with a structure whose index is the one that it looks for, or -1
-- with the caller's structure as it was; or it does not answer within the fuel.
pub link_info_receive-Answers :
    (k : Kernel) (fuel : ℕ) (fd : ℤ) (index : ℕ) (infomsg : Ifinfomsg) (t : Trace)
    → Answers index infomsg (link_info_receive k fuel fd index infomsg t)
link_info_receive-Answers k fuel fd index infomsg t =
    info_replies-Answers k fd index fuel 0 infomsg t

short_reply : (b : Buf) (len : ℤ) → pos_part len < 16 → nlmsg_ok b 0 len ≡ false
short_reply b len l = ground arith

-- When every `recvmsg` fails, or answers fewer bytes than a header has, link_info_receive never
-- returns.
pub link_info_receive-endless :
    (k : Kernel) (fuel : ℕ) (fd : ℤ) (index : ℕ) (infomsg : Ifinfomsg) (t : Trace)
    → ((u : Trace) → pos_part (k.recvmsg u).0 < 16)
    → link_info_receive k fuel fd index infomsg t ≡ none
unfolding info_replies info_messages
link_info_receive-endless k zero fd index infomsg t short = refl
link_info_receive-endless k (suc fuel) fd index infomsg t short =
    let rest = link_info_receive-endless k fuel fd index infomsg (heard k fd t) short in
    elim (Bool-cases ((k.recvmsg t).0 ==ℤ pos 0)) [
      | inl nothing ↦ rw (nothing, rest)
      | inr some_bytes ↦
          rw (some_bytes, short_reply (k.recvmsg t).1 (k.recvmsg t).0 (short t), rest)
    ]

pub ok_nonzero : (b : Buf) (len : ℤ) → nlmsg_ok b 0 len ≡ true → len ==ℤ pos 0 ≡ false
ok_nonzero b len ok = ground arith

same_number : (m n : ℕ) → m ≡ n → n == m ≡ true
same_number m n e = ground arith

-- When the first reply starts with a message of RTM_NEWLINK for the index that is sought,
-- link_info_receive answers 0 with its structure, after one call of `recvmsg`.
pub link_info_receive-at_once :
    (k : Kernel) (fuel : ℕ) (fd : ℤ) (index : ℕ) (infomsg : Ifinfomsg) (t : Trace)
    → nlmsg_ok (k.recvmsg t).1 0 (k.recvmsg t).0 ≡ true
    → (k.recvmsg t).1.word 0 nlmsg_type ≡ rtm_newlink
    → (k.recvmsg t).1.word (nlmsg_data 0) ifi_index ≡ index
    → link_info_receive k (suc fuel) fd index infomsg t
      ≡ some ((pos 0, read_ifinfomsg (k.recvmsg t).1 (nlmsg_data 0)), heard k fd t)
unfolding info_replies info_messages
link_info_receive-at_once k fuel fd index infomsg t ok type here =
    let b = (k.recvmsg t).1 in
    rw (
      ok_nonzero b (k.recvmsg t).0 ok,
      ok,
      type,
      same_number (b.word (nlmsg_data 0) ifi_index) index here,
    )
