-- ===== src/Nettool/Flags.antt =====
-- What RTM_NEWLINK_Check prints of the flags of a device, message after message.
use Prim.Native.String.{String}
use Prim.Native.Nat.{bit_and}
use nettool.Base.{
  ℕ, suc, ℤ, pos, pos_part, ◌-ℤ◌, ◌≡◌, ◌≢◌, refl, true, ◌==◌, Bool-cases, inl, inr, List, [], ◌∷◌,
  ◌++◌, some, All, ◌+◌, arith,
}
use nettool.Netlink.Headers.{nlmsg_data, nlmsg_space, attributes_after, sizeof_ifinfomsg, to_int}
use nettool.Netlink.Buffer.{Buf, nlmsg_len, ifi_family, ifi_type, ifi_index, ifi_flags, ifi_change}
use nettool.Netlink.Attributes.{for_each_attribute-Within, run_at, Within}
use nettool.Netlink.System.{Kernel, Trace, Event, printed, number, text}
use nettool.Nettool.Tables.{ArrayFamily, array_find_item}
use nettool.Nettool.Links.{
  check_flags, checked_flags, flag_line, new_link_attribute, rtm_newlink_check,
}

same_number : (n : ℕ) → n == n ≡ true
same_number n = ground arith

-- Some of a list's lines, the last one first: those of the flags that differ.
pub data Changed (flags kept : ℕ) : List (ℕ × String) → List Event → Type 0 where
  no_flags : Changed flags kept [] []
  changed :
      (flag : ℕ) (name : String) (rest : List (ℕ × String)) (lines : List Event)
      → bit_and flags flag ≢ bit_and kept flag
      → Changed flags kept rest lines
      → Changed flags kept ((flag, name) ∷ rest) (lines ++ (flag_line flags flag name ∷ []))
  unchanged :
      (flag : ℕ) (name : String) (rest : List (ℕ × String)) (lines : List Event)
      → bit_and flags flag ≡ bit_and kept flag
      → Changed flags kept rest lines
      → Changed flags kept ((flag, name) ∷ rest) lines

append-last :
    {A : Type 0} → (xs : List A) (y : A) (t : List A) → xs ++ (y ∷ t) ≡ (xs ++ (y ∷ [])) ++ t
append-last [] y t = refl
append-last (x ∷ xs) y t = rw (append-last xs y t)

check_flags-Changed :
    (flags kept : ℕ) (list : List (ℕ × String)) (t : Trace)
    → (lines : List Event) × Changed flags kept list lines
      × (check_flags flags kept list t ≡ lines ++ t)
unfolding check_flags
check_flags-Changed flags kept [] t = ([], no_flags, refl)
check_flags-Changed flags kept ((flag, name) ∷ rest) t =
    elim (Bool-cases (bit_and flags flag == bit_and kept flag)) [
      | inl same ↦
          let (lines, all, run) = check_flags-Changed flags kept rest t in
          (lines, unchanged flag name rest lines (ground arith) all, rw (same, run))
      | inr differs ↦
          let (lines, all, run) =
            check_flags-Changed flags kept rest (flag_line flags flag name ∷ t) in
          (
            lines ++ (flag_line flags flag name ∷ []),
            changed flag name rest lines (λ e. ground (arith, e)) all,
            rw (differs, run) (append-last lines _ t),
          )
    ]

-- When the flags of a message are those kept from the one before, no line of a flag is printed.
pub check_flags-same :
    (flags : ℕ) (list : List (ℕ × String)) (t : Trace) → check_flags flags flags list t ≡ t
unfolding check_flags
check_flags-same flags [] t = refl
check_flags-same flags ((flag, name) ∷ rest) t =
    rw (same_number (bit_and flags flag)) (check_flags-same flags rest t)

module _ (k : Kernel) (families : ArrayFamily) (b : Buf) (at kept : ℕ) (t : Trace) where
  abbrev pub space : ℤ
  space = pos (b.word at nlmsg_len) -ℤ pos (nlmsg_space sizeof_ifinfomsg)

  abbrev pub first_attribute : ℕ
  first_attribute = attributes_after sizeof_ifinfomsg (nlmsg_data at)

  -- The lines in front of those of the flags.
  abbrev pub link_lines : Trace
  link_lines =
      let m = nlmsg_data at in
      printed "\t %-30s : %10d \n" (text "ifi_flags" ∷ number (to_int (b.word m ifi_flags)) ∷ [])
      ∷ printed "\t %-15s : %10d \n"
          (text "ifi_change" ∷ number (to_int (b.word m ifi_change)) ∷ [])
      ∷ printed "\t %-15s : %10d \n" (text "ifi_type" ∷ number (pos (b.word m ifi_type)) ∷ [])
      ∷ printed "\t %-15s : %10d \n" (text "ifi_index" ∷ number (to_int (b.word m ifi_index)) ∷ [])
      ∷ printed "\t %-15s : %10d %s\n" (
          text "ifi_family"
          ∷ number (pos (b.word m ifi_family))
          ∷ text (array_find_item families (b.word m ifi_family))
          ∷ [])
      ∷ printed "\n RTM_NEWLINK_Check \n" []
      ∷ t

  -- RTM_NEWLINK_Check ends, whatever the message holds, and keeps the flags of the message. Of
  -- the flags it prints those that differ from the ones kept before, and no others; then it goes
  -- through attributes that lie in the message. The structure behind the header is read whether or
  -- not the message is long enough to have one.
  pub rtm_newlink_check-Changed :
      let flags = b.word (nlmsg_data at) ifi_flags in
      (lines : List Event) × (ps : List ℕ) × Changed flags kept checked_flags lines
      × All (Within b first_attribute (first_attribute + pos_part space)) ps
      × (rtm_newlink_check k families b at kept t
          ≡ some (
            flags,
            printed "RTM_NEWLINK_Check\n" []
                ∷ run_at
                    (new_link_attribute k b (nlmsg_data at))
                    ps
                    (printed "\n" [] ∷ (lines ++ link_lines)),
          ))
  unfolding rtm_newlink_check
  rtm_newlink_check-Changed =
      let flags = b.word (nlmsg_data at) ifi_flags in
      let (lines, all, shown) = check_flags-Changed flags kept checked_flags link_lines in
      let (ps, run, within) =
        for_each_attribute-Within b Trace (new_link_attribute k b (nlmsg_data at))
          (suc (pos_part space)) first_attribute space (printed "\n" [] ∷ (lines ++ link_lines))
          (omega arith) in
      (lines, ps, all, within, rw (shown, run))
