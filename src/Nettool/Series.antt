-- ===== src/Nettool/Series.antt =====
-- Any number of runs of nettool with the commands `lu` and `ld`, one behind the other, against a
-- kernel that keeps a network: what they print, and what becomes of the network.
use Prim.Native.String.{String}
use mathlib.Core.Logic.{◌↔◌}
use nettool.Base.{
  ℕ, suc, ℤ, pos, ◌≡◌, ◌≢◌, refl, ◌∙◌, ap, Bool, true, false, ◌==ℤ◌, ◌≤ℤ◌, not, if◌then◌else◌, List,
  [], ◌∷◌, length, All, some,
}
use nettool.Netlink.Buffer.{Buf}
use nettool.Netlink.System.{Kernel, Prog, Trace, printed, closed, pure, ◌>>=◌}
use nettool.Library.Verdict.{Verdict, no_answer, done, no_address, not_permitted, other_error}
use nettool.Library.Link.Outcome.{up_sent, up_lines}
use nettool.Library.Network.{Network, set_up, network, IsHonest}
use nettool.Library.Network.Links.{nettool_link_up-Applies}
use nettool.Nettool.Main.{main, same_text}
use nettool.Nettool.Command.{main_ready, word_of, up_of, main-link}

-- A device, and whether it is to go up.
abbrev pub Change : Type 0
Change = String × Bool

-- The network behind the changes that were told to be done.
abbrev pub outcome : Kernel → Change → Bool → Network → Network
outcome k (device, goes_up) told n = if told then set_up (k.if_nametoindex device) goes_up n else n

abbrev pub outcomes : Kernel → List Change → List Bool → Network → Network
outcomes k [] tells n = n
outcomes k (c ∷ changes) [] n = n
outcomes k (c ∷ changes) (b ∷ tells) n = outcomes k changes tells (outcome k c b n)

-- For each line that was printed, whether it tells of success, the latest first.
abbrev pub told : Trace → List Bool
told [] = []
told (printed format args ∷ t) = same_text "nettool_link_up : Success\n" format ∷ told t
told (_ ∷ t) = told t

-- A list put in front, turned round.
abbrev pub onto : List Bool → List Bool → List Bool
onto [] bs = bs
onto (a ∷ as') bs = onto as' (a ∷ bs)

-- Sockets are always opened and bound.
pub record IsReady (k : Kernel) : Type 0 where
  pub opens : (t : Trace) → pos 0 ≤ℤ k.socket t
  pub nonzero : (t : Trace) → k.socket t ≢ pos 0
  pub binds : (t : Trace) → pos 0 ≤ℤ k.bind t

abbrev pub IsKnown : Kernel → Change → Type 0
IsKnown k c = k.if_nametoindex c.0 ≢ 0

abbrev is_done : Verdict → Bool
is_done no_answer = false
is_done done = true
is_done no_address = false
is_done not_permitted = false
is_done other_error = false

is_done_iff : (v : Verdict) (b : Bool) → (v ≡ done) ↔ (b ≡ true) → b ≡ is_done v
is_done_iff no_answer false h = refl
is_done_iff done false h = h.0 refl
is_done_iff no_address false h = refl
is_done_iff not_permitted false h = refl
is_done_iff other_error false h = refl
is_done_iff v true h = rw (h.1 refl)

not-up_of : (goes_up : Bool) → not (up_of goes_up ==ℤ pos 0) ≡ goes_up
not-up_of true = refl
not-up_of false = refl

module _ (k : Kernel) (fuel : ℕ) (program : String) (pf_max ifa_max : ℕ) (buf : Buf) where
  -- One process after the other, whatever they return.
  unfoldable pub series : List Change → Prog (Unit {0})
  series [] = pure tt
  series ((device, goes_up) ∷ changes) =
      main k fuel program pf_max ifa_max buf (word_of goes_up ∷ device ∷ []) >>= λ _. series changes

  told-up_lines :
      (device : String) (up : ℤ) (t : Trace) (v : Verdict) (error : ℤ)
      → v ≢ no_answer
      → told (up_lines k device up t v error) ≡ is_done v ∷ told t
  told-up_lines device up t no_answer error h = absurd (h refl)
  told-up_lines device up t done error h = refl
  told-up_lines device up t no_address error h = refl
  told-up_lines device up t not_permitted error h = refl
  told-up_lines device up t other_error error h = refl

  -- One run: the verdict that it prints, and its effect.
  run_main-Applies :
      (accepts : Trace → Bool) (start : Network)
      → IsHonest k accepts
      → IsReady k
      → (device : String) (goes_up : Bool) → IsKnown k (device, goes_up)
      → (t : Trace)
      → (b : Bool) × (t' : Trace) × (main k fuel program pf_max ifa_max buf
            (word_of goes_up ∷ device ∷ [])
            t
          ≡ some (pos 0, t'))
        × (told t' ≡ b ∷ told t)
        × (network accepts start t' ≡ outcome k (device, goes_up) b (network accepts start t))
  unfolding network
  run_main-Applies accepts start honest ready device goes_up known t =
      let u = main_ready k t in
      let (v, error, run, answered, iff, becomes, asked) =
        nettool_link_up-Applies k accepts start device (up_of goes_up) u honest known
          (ready.nonzero u) in
      let taken = accepts (up_sent k device (up_of goes_up) u) in
      (
        is_done v,
        closed (k.socket t) ∷ closed (k.socket u) ∷ up_lines k device (up_of goes_up) u v error,
        main-link k fuel program pf_max ifa_max buf device goes_up t _ (ready.opens t)
            (ready.nonzero t) (ready.binds _) run,
        told-up_lines device (up_of goes_up) u v error answered,
        becomes
            ∙ ap (λ x. outcome k (device, x) taken (network accepts start t)) (not-up_of goes_up)
            ∙ ap (λ x. outcome k (device, goes_up) x (network accepts start t))
                (is_done_iff v taken iff),
      )

  -- Any series of `lu` and `ld` for known devices, against an honest kernel whose sockets can be
  -- opened and bound, runs to its end and prints one line for each of them. The network is then
  -- that of the changes told to be successful, in order, and of no others.
  pub series-Applies :
      (accepts : Trace → Bool) (start : Network)
      → IsHonest k accepts
      → IsReady k
      → (changes : List Change) → All (IsKnown k) changes
      → (t : Trace)
      → (tells : List Bool) × (t' : Trace) × (series changes t ≡ some (tt, t'))
        × (length tells ≡ length changes)
        × (told t' ≡ onto tells (told t))
        × (network accepts start t' ≡ outcomes k changes tells (network accepts start t))
  unfolding series
  series-Applies accepts start honest ready [] known t = ([], t, refl, refl, refl, refl)
  series-Applies accepts start honest ready ((device, goes_up) ∷ changes) (known, rest) t =
      let (b, u, run, tell, becomes) =
        run_main-Applies accepts start honest ready device goes_up known t in
      let (tells, t', runs, same, all_told, all_becomes) =
        series-Applies accepts start honest ready changes rest u in
      (
        b ∷ tells,
        t',
        rw (run, runs),
        ap suc same,
        all_told ∙ ap (onto tells) tell,
        all_becomes ∙ ap (outcomes k changes tells) becomes,
      )
