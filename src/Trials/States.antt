-- ===== src/Trials/States.antt =====
-- test_cpp/src/test.h: CUtilNet_StateMachine, a set of flags in the bits of an int. The int is given
-- by its bit pattern, a number below 2 ^ 32.
pub mod Flags
use Prim.Native.Nat.{bit_and, bit_or}
use nettool.Base.{ℕ, ◌-◌, ◌^◌, ◌==◌, Bool, not, if◌then◌else◌}

-- The flags, for which the header has the constants WAN2_STATE_INIT and so on.
pub data Flag : Type 0 where
  init start : Flag
  ip ip_err gateway gateway_err dns_1 dns_1_err dns_2 dns_2_err : Flag
  daemon_client daemon_client_err daemon_server daemon_server_err : Flag
  if_up if_up_err link link_err : Flag

abbrev pub position : Flag → ℕ
position init = 0
position start = 1
position ip = 3
position ip_err = 4
position gateway = 5
position gateway_err = 6
position dns_1 = 7
position dns_1_err = 8
position dns_2 = 9
position dns_2_err = 10
position daemon_client = 11
position daemon_client_err = 12
position daemon_server = 13
position daemon_server_err = 14
position if_up = 15
position if_up_err = 16
position link = 17
position link_err = 18

-- ResetState, which the constructor calls.
unfoldable pub reset_state : ℕ
reset_state = 0

-- setState: 1 << a_Position, which is defined for positions below 31.
unfoldable pub set_state : ℕ → Bool → ℕ → ℕ
set_state a_position a_state state =
    let mask = 2 ^ a_position in
    if a_state then bit_or state mask else bit_and state (2 ^ 32 - 1 - mask)

-- isInit, isStart and the others: getState() & (1 << WAN2_STATE_...), as a bool.
unfoldable pub is_set : Flag → ℕ → Bool
is_set flag state = not (bit_and state (2 ^ position flag) == 0)
