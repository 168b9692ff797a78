-- ===== src/Nettool/Shown.antt =====
-- The command `li` of nettool behind any number of `lu` and `ld`, against a kernel that keeps a
-- network and shows it.
use Prim.Native.String.{String}
use Prim.Native.Nat.{bit_and}
use nettool.Base.{
  ◌≤◌, ℕ, ℤ, pos, ◌≡◌, ◌≢◌, refl, ◌∙◌, ap, Bool, true, false, not, ◌==◌, ◌%◌, if◌then◌else◌, List,
  [], ◌∷◌, length, All, Option, some, none,
}
use nettool.Bits.{test_bit-digit}
use nettool.Netlink.Buffer.{Buf}
use nettool.Netlink.System.{Kernel, Trace, number, text, printed, closed}
use nettool.Library.Link.Sent.{Ifinfomsg}
use nettool.Library.Link.Sessions.{nettool_link_info}
use nettool.Library.Network.{Network, network, IsHonest}
use nettool.Library.Network.Shown.{IsShowing, nettool_link_info-Shows}
use nettool.Nettool.Links.{message_flags, print_flags, flag_value}
use nettool.Nettool.Main.{main, same_text, dispatch, ip_link, ip_link_info}
use nettool.Nettool.Command.{blank, main_ready, main-dispatch}
use nettool.Nettool.Series.{Change, IsReady, IsKnown, series, outcomes, told, onto, series-Applies}

-- The value in the latest line that was printed for IFF_UP.
abbrev pub shown_up : Trace → Option ℤ
shown_up [] = none
shown_up (printed format (text name ∷ number n ∷ []) ∷ t) =
    if same_text "IFF_UP" name then some n else shown_up t
shown_up (_ ∷ t) = shown_up t

abbrev pub as_number : Bool → ℤ
as_number up = if up then pos 1 else pos 0

chosen : (down : Bool) → pos (if down then 0 else 1) ≡ as_number (not down)
chosen true = refl
chosen false = refl

-- The lines that PrintMessageFlag prints.
abbrev flag_lines : ℕ → List (ℕ × String) → Trace → Trace
flag_lines flags [] t = t
flag_lines flags ((flag, name) ∷ rest) t =
    flag_lines flags rest
      (printed "%-20s -  %d \n" (text name ∷ number (pos (flag_value flags flag)) ∷ []) ∷ t)

print_flags_lines :
    (flags : ℕ) (rows : List (ℕ × String)) (t : Trace)
    → print_flags flags rows t ≡ some (tt, flag_lines flags rows t)
unfolding print_flags
print_flags_lines flags [] t = refl
print_flags_lines flags ((flag, name) ∷ rest) t = print_flags_lines flags rest _

-- IFF_UP is the lowest bit.
flag_value-up : (flags : ℕ) → pos (flag_value flags 1) ≡ as_number (flags % 2 == 1)
flag_value-up flags = chosen (bit_and flags 1 == 0) ∙ ap as_number (test_bit-digit 0 flags)

module _ (k : Kernel) (program : String) (pf_max ifa_max : ℕ) (buf : Buf) where
  -- The command `li` gives nettool_link_info the device, and prints the flags that it answers.
  dispatch-info :
      (fuel : ℕ) (fd : ℤ) (device : String) (i : Ifinfomsg) (u v : Trace)
      → nettool_link_info k fuel buf device blank u ≡ some ((pos 0, i), v)
      → dispatch k fuel program pf_max ifa_max buf fd "li" (device ∷ []) u
        ≡ some (pos 0, flag_lines i.flags message_flags v)
  unfolding dispatch ip_link ip_link_info
  dispatch-info fuel fd device i u v run = rw (run, print_flags_lines i.flags message_flags v)

  shown_up-flag_lines :
      (flags : ℕ) (t : Trace)
      → shown_up (flag_lines flags message_flags t) ≡ some (as_number (flags % 2 == 1))
  shown_up-flag_lines flags t = ap some (flag_value-up flags)

  -- One run of `li`: what it shows.
  main-Shows :
      (fuel parts : ℕ) (accepts : Trace → Bool) (start : Network)
      → IsShowing k accepts start parts
      → parts ≤ fuel
      → IsReady k
      → (device : String) → k.if_nametoindex device ≢ 0
      → (t : Trace)
      → (t' : Trace) × (main k fuel program pf_max ifa_max buf ("li" ∷ device ∷ []) t
          ≡ some (pos 0, t'))
        × (shown_up t'
            ≡ some (as_number ((network accepts start t).is_up (k.if_nametoindex device))))
  unfolding network
  main-Shows fuel parts accepts start showing enough ready device known t =
      let u = main_ready k t in
      let (i, v, run, shown, kept) =
        nettool_link_info-Shows k accepts start fuel buf device blank u parts showing enough known
          (ready.nonzero u) in
      (
        closed (k.socket t) ∷ flag_lines i.flags message_flags (closed (k.socket u) ∷ v),
        main-dispatch k fuel program pf_max ifa_max buf "li" (device ∷ []) (pos 0) t _
            (ready.opens t) (ready.nonzero t) (ready.binds _)
            (dispatch-info fuel (k.socket t) device i u _ run),
        shown_up-flag_lines i.flags (closed (k.socket u) ∷ v) ∙ ap (λ b. some (as_number b)) shown,
      )

  -- Any series of `lu` and `ld` for known devices, and `li` for a known device behind it, against
  -- an honest kernel whose sockets can be opened and bound, and which answers a dump with its devices
  -- in at most `parts` replies, for which there are as many rounds: all run to their end, and `li`
  -- prints 1 for IFF_UP when the device is up in the network of the changes that were told to be
  -- successful, and 0 when it is down.
  pub series-Shows :
      (fuel parts : ℕ) (accepts : Trace → Bool) (start : Network)
      → IsHonest k accepts
      → IsShowing k accepts start parts
      → parts ≤ fuel
      → IsReady k
      → (changes : List Change) → All (IsKnown k) changes
      → (device : String) → k.if_nametoindex device ≢ 0
      → (t : Trace)
      → (tells : List Bool) × (t' : Trace) × (t'' : Trace) × (series k fuel program pf_max ifa_max
            buf changes t
          ≡ some (tt, t'))
        × (length tells ≡ length changes)
        × (told t' ≡ onto tells (told t))
        × (main k fuel program pf_max ifa_max buf ("li" ∷ device ∷ []) t' ≡ some (pos 0, t''))
        × (shown_up t''
            ≡ some (
                as_number (
                  (outcomes k changes tells (network accepts start t)).is_up
                    (k.if_nametoindex device))))
  series-Shows fuel parts accepts start honest showing enough ready changes all_known device known
        t =
      let (tells, t', run, same, lines, becomes) =
        series-Applies k fuel program pf_max ifa_max buf accepts start honest ready changes
          all_known t in
      let (t'', shows, shown) =
        main-Shows fuel parts accepts start showing enough ready device known t' in
      (
        tells,
        t',
        t'',
        run,
        same,
        lines,
        shows,
        shown ∙ ap (λ n. some (as_number (n.is_up (k.if_nametoindex device)))) becomes,
      )
