-- ===== src/Netlink/Attributes.antt =====
-- RTA_OK and RTA_NEXT for a length that is an `int`, and the loop over the attributes of a message
-- that rtnl_print_link of libnettool/src/ip_link.c, RTM_NEWADDR_Check and RTM_NEWLINK_Check of
-- nettool/src/main_nettool.c and test_cpp/src/NetLib.c have in common. The loops by the macro of
-- libnettool/src/util.h have a length without a sign; they are in Library.Listing.
use nettool.Base.{
  ℕ, zero, suc, ℤ, pos, pos_part, ◌+◌, ◌-◌, ◌≤◌, ◌<◌, ◌≡◌, Bool, true, ◌&&◌, ◌⊎◌, Option, none,
  some, List, [], ◌∷◌, All, arith, leb, leb_ℤ, ◌-ℤ◌, if◌then◌else◌, Bool-cases, inl, inr,
}
use nettool.Netlink.Headers.{align, sizeof_rtattr}
use nettool.Netlink.Buffer.{Buf, rta_len}

-- RTA_OK(rta, len), where `len` is an `int`.
abbrev pub rta_ok : Buf → ℕ → ℤ → Bool
rta_ok b at len =
    leb_ℤ (pos sizeof_rtattr) len
    && leb sizeof_rtattr (b.word at rta_len)
    && leb_ℤ (pos (b.word at rta_len)) len

module _ {S : Type 0} (b : Buf) (body : ℕ → S → S) where
  -- The body is run at the offset of each attribute; RTA_NEXT moves on. `none` is no answer
  -- within the fuel.
  unfoldable pub for_each_attribute : ℕ → ℕ → ℤ → S → Option S
  for_each_attribute zero at len s = none
  for_each_attribute (suc fuel) at len s =
      let step = align (b.word at rta_len) in
      let rest = for_each_attribute fuel (at + step) (len -ℤ pos step) (body at s) in
      if rta_ok b at len then rest else some s

-- The attribute at `p` lies between `low` and `high`, header included.
abbrev pub Within : Buf → ℕ → ℕ → ℕ → Type 0
Within b low high p = (low ≤ p) × (sizeof_rtattr ≤ b.word p rta_len) × (p + b.word p rta_len ≤ high)

-- The body run at some offsets in turn.
abbrev pub run_at : {S : Type 0} → (ℕ → S → S) → List ℕ → S → S
run_at body [] s = s
run_at body (p ∷ ps) s = run_at body ps (body p s)

-- Bounds may be widened; where they leave no room there is no attribute.
Within-weaken :
    (b : Buf) (low low' high high' : ℕ) (ps : List ℕ)
    → All (Within b low' high') ps
    → low ≤ low'
    → (high' ≤ low') ⊎ (high' ≤ high)
    → All (Within b low high) ps
Within-weaken b low low' high high' [] all l h = tt
Within-weaken b low low' high high' (p ∷ ps) (w, all) l h =
    (omega arith, Within-weaken b low low' high high' ps all l h)

-- One round: the test holds, the attribute fits, and the rest of the length is smaller.
rta_ok_step :
    (b : Buf) (at : ℕ) (len : ℤ)
    → rta_ok b at len ≡ true
    → Within b at (at + pos_part len) at
      × (align (b.word at rta_len) ≤ pos_part len + 3)
      × (4 ≤ align (b.word at rta_len))
      × (pos_part (len -ℤ pos (align (b.word at rta_len)))
          ≡ pos_part len - align (b.word at rta_len))
unfolding ◌-ℤ◌
rta_ok_step b at len ok = ground arith

-- The loop over the attributes with a length that is an `int`, negative ones included, ends within
-- one round more than the length has bytes, whatever the buffer holds, and has run its body at
-- attributes that lie wholly in the given bytes.
pub for_each_attribute-Within :
    (b : Buf) (S : Type 0) (body : ℕ → S → S) (fuel at : ℕ) (len : ℤ) (s : S)
    → pos_part len < fuel
    → (ps : List ℕ) × (for_each_attribute b body fuel at len s ≡ some (run_at body ps s))
      × All (Within b at (at + pos_part len)) ps
unfolding for_each_attribute
for_each_attribute-Within b S body zero at len s enough = absurd (omega arith)
for_each_attribute-Within b S body (suc fuel) at len s enough =
    elim (Bool-cases (rta_ok b at len)) [
      | inl ok ↦
          let step = align (b.word at rta_len) in
          let (w, small, large, less) = rta_ok_step b at len ok in
          let (ps, run, all) =
            for_each_attribute-Within b S body fuel (at + step) (len -ℤ pos step) (body at s)
              (omega arith) in
          (
            at ∷ ps,
            rw ok run,
            (w, Within-weaken b at (at + step) _ _ ps all (omega arith) (omega arith)),
          )
      | inr stop ↦ ([], rw stop, tt)
    ]
