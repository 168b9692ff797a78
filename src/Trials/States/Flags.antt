-- ===== src/Trials/States/Flags.antt =====
-- The flags of CUtilNet_StateMachine stand for themselves: an abstract set of flags.
use Prim.Native.Nat.{min, max}
use mathlib.Core.Path.{fun_ext}
use nettool.Base.{
  ℕ, ◌-◌, ◌^◌, ◌≤◌, ◌<◌, ◌≡◌, refl, sym, ◌∙◌, ap, Bool, true, false, ◌==◌, if◌then◌else◌, List, [],
  ◌∷◌, arith,
}
use nettool.Trials.States.{
  Flag, init, start, ip, ip_err, gateway, gateway_err, dns_1, dns_1_err, dns_2, dns_2_err,
  daemon_client, daemon_client_err, daemon_server, daemon_server_err, if_up, if_up_err, link,
  link_err, position, reset_state, set_state, is_set,
}
use nettool.Bits.{
  digit, digit-zero, digit-le_one, digit-bit_or, digit-bit_and, digit-mask, digit-complement,
  test_bit-digit,
}

position-lt : (flag : Flag) → position flag < 19
position-lt flag = ground arith

mask-lt : (flag : Flag) → 2 ^ position flag < 2 ^ 32
mask-lt flag = ground arith

raised :
    (here : Bool) (d : ℕ)
    → d ≤ 1
    → max d (if here then 1 else 0) ≡ (if here then (if true then 1 else 0) else d)
raised true d h = omega arith
raised false d h = omega arith

lowered :
    (here : Bool) (d : ℕ)
    → d ≤ 1
    → min d (1 - (if here then 1 else 0)) ≡ (if here then (if false then 1 else 0) else d)
lowered true d h = omega arith
lowered false d h = omega arith

digit-set_state :
    (flag : Flag) (up : Bool) (q state : ℕ)
    → q < 32
    → digit q (set_state (position flag) up state)
      ≡ (if q == position flag then (if up then 1 else 0) else digit q state)
unfolding set_state
digit-set_state flag true q state h =
    let p = position flag in
    digit-bit_or q state (2 ^ p)
    ∙ ap (max (digit q state)) (digit-mask q p)
    ∙ raised (q == p) (digit q state) (digit-le_one q state)
digit-set_state flag false q state h =
    let p = position flag in
    digit-bit_and q state (2 ^ 32 - 1 - 2 ^ p)
    ∙ ap (min (digit q state)) (digit-complement q 32 (2 ^ p) h (mask-lt flag))
    ∙ ap (λ d. min (digit q state) (1 - d)) (digit-mask q p)
    ∙ lowered (q == p) (digit q state) (digit-le_one q state)

-- A flag is set exactly when its digit is 1.
is_set-digit : (flag : Flag) (state : ℕ) → is_set flag state ≡ digit (position flag) state == 1
unfolding is_set
is_set-digit flag state = test_bit-digit (position flag) state

chosen :
    (here up : Bool) (d : ℕ)
    → (if here then (if up then 1 else 0) else d) == 1 ≡ (if here then up else d == 1)
chosen true true d = refl
chosen true false d = refl
chosen false up d = refl

-- The two are one flag, by their names.
abbrev pub same_flag : Flag → Flag → Bool
same_flag init init = true
same_flag start start = true
same_flag ip ip = true
same_flag ip_err ip_err = true
same_flag gateway gateway = true
same_flag gateway_err gateway_err = true
same_flag dns_1 dns_1 = true
same_flag dns_1_err dns_1_err = true
same_flag dns_2 dns_2 = true
same_flag dns_2_err dns_2_err = true
same_flag daemon_client daemon_client = true
same_flag daemon_client_err daemon_client_err = true
same_flag daemon_server daemon_server = true
same_flag daemon_server_err daemon_server_err = true
same_flag if_up if_up = true
same_flag if_up_err if_up_err = true
same_flag link link = true
same_flag link_err link_err = true
same_flag _ _ = false

-- No two flags share a bit.
same_position : (a b : Flag) → position a == position b ≡ same_flag a b
same_position a b = ground arith

-- A flag behind setState of another or the same.
is_set-set_state :
    (a flag : Flag) (up : Bool) (state : ℕ)
    → is_set a (set_state (position flag) up state)
      ≡ (if same_flag a flag then up else is_set a state)
is_set-set_state a flag up state =
    let below : position a < 32 = omega (arith, position-lt a) in
    is_set-digit a (set_state (position flag) up state)
    ∙ ap (λ d. d == 1) (digit-set_state flag up (position a) state below)
    ∙ chosen (position a == position flag) up (digit (position a) state)
    ∙ ap (λ b. if b then up else digit (position a) state == 1) (same_position a flag)
    ∙ ap (λ b. if same_flag a flag then up else b) (sym (is_set-digit a state))

nothing_set : (a : Flag) → is_set a reset_state ≡ false
unfolding reset_state
nothing_set a = is_set-digit a 0 ∙ rw (digit-zero (position a)) refl

-- Calls of setState in turn, and the flags that they stand for.
abbrev pub set_states : List (Flag × Bool) → ℕ → ℕ
set_states [] state = state
set_states ((flag, up) ∷ calls) state = set_states calls (set_state (position flag) up state)

abbrev pub replay : List (Flag × Bool) → (Flag → Bool) → Flag → Bool
replay [] flags = flags
replay ((flag, up) ∷ calls) flags = replay calls (λ a. if same_flag a flag then up else flags a)

set_states_refines :
    (calls : List (Flag × Bool)) (state : ℕ)
    → (λ a. is_set a (set_states calls state)) ≡ replay calls (λ a. is_set a state)
set_states_refines [] state = refl
set_states_refines ((flag, up) ∷ calls) state =
    set_states_refines calls (set_state (position flag) up state)
    ∙ ap (replay calls) (fun_ext λ a. is_set-set_state a flag up state)

-- Behind ResetState and any calls of setState for flags of the header, every test isInit, isStart
-- and so on answers what the last call for its flag said, or false when there was none: the bits
-- are a set of flags, and no flag disturbs another, flags being told apart by their names.
pub reset_state_refines :
    (calls : List (Flag × Bool))
    → (λ a. is_set a (set_states calls reset_state)) ≡ replay calls (λ a. false)
unfolding reset_state
reset_state_refines calls =
    set_states_refines calls reset_state ∙ ap (replay calls) (fun_ext λ a. nothing_set a)
