-- ===== src/Trials/Gpio.antt =====
-- test_cpp/src/WaitGpio.c: ReadGpio, which reads the byte of a file and resets it, and WaitGpio,
-- which is to wait for a value; and test_cpp/src/GpioSelect.c, which watches a file for ever.
pub mod Reads
use Prim.Native.String.{String}
use nettool.Base.{
  ℕ, zero, suc, ◌-◌, Bool, ltb, if◌then◌else◌, List, [], ◌∷◌, Option, none, some, ℤ, pos, negsuc,
  minus_one, ◌==ℤ◌, ltb_ℤ,
}

-- What the system lets the program do with the file: open it with "r+", where it exists, and open
-- it with "w".
pub record Rights : Type 0 where
  pub can_update : Bool
  pub can_create : Bool

-- The bytes of the file, where it exists.
abbrev pub File : Type 0
File = Option (List ℕ)

-- The value of a byte as a char, which is signed.
abbrev pub signed_char : ℕ → ℤ
signed_char b = if ltb b 128 then pos b else negsuc (255 - b)

-- `StrRead[0]` behind fread, which leaves the digit 0 of the start at the end of the file.
abbrev pub first_byte : List ℕ → ℕ
first_byte [] = 48
first_byte (b ∷ bytes) = b

-- The file behind fwrite of a byte at its start.
abbrev pub with_first : ℕ → List ℕ → List ℕ
with_first v [] = v ∷ []
with_first v (b ∷ bytes) = v ∷ bytes

-- `none`: fwrite and fclose get no file, which is undefined behaviour.
unfoldable pub create_file : Bool → ℕ → Option (ℤ × File)
create_file can_create reset = if can_create then some (signed_char 48, some (reset ∷ [])) else none

-- ReadGpio, with the file behind it.
unfoldable pub read_gpio : Rights → ℕ → File → Option (ℤ × File)
read_gpio rights reset none = create_file rights.can_create reset
read_gpio rights reset (some bytes) =
    if rights.can_update
    then some (signed_char (first_byte bytes), some (with_first reset bytes))
    else create_file rights.can_create reset

-- WaitGpio: its loop reads nothing, and vValue stays 0. `none`: out of fuel.
unfoldable pub wait_gpio : ℕ → ℤ → ℤ → Option ℤ
wait_gpio zero value condition = none
wait_gpio (suc fuel) value condition =
    let rest = wait_gpio fuel value condition in
    if value ==ℤ minus_one then some (pos 0) else if value ==ℤ condition then some (pos 0) else rest

-- WaitGpio starts with the value 0.
unfoldable pub wait_gpio_start : ℕ → ℤ → Option ℤ
wait_gpio_start fuel condition = wait_gpio fuel (pos 0) condition

-- Check_sscanf, whose body is commented out.
unfoldable pub check_sscanf : ℤ
check_sscanf = pos 0

-- What GpioSelect.c does with the file of the carrier: its calls, in order.
pub data FileCall : Type 0 where
  open_carrier read_byte seek_start : FileCall
  -- select with its first argument and the one file of its set.
  select : ℕ → ℤ → FileCall
  -- poll for POLLIN and POLLPRI without a timeout.
  poll : ℤ → FileCall
  print : String → ℤ → FileCall

-- What the calls of a round answer: select or poll, and the byte read, which is 0 when read fails.
pub record Answers : Type 0 where
  pub found : ℤ
  pub byte : ℕ

unfoldable pub select_rounds : ℤ → List Answers → List FileCall
select_rounds fd [] = []
select_rounds fd (a ∷ answers) =
    seek_start
    ∷ select 2 fd
    ∷ print " select : vRetval = %d \n" a.found
    ∷ read_byte
    ∷ print "gpio : %s change %c \n" (signed_char a.byte)
    ∷ select_rounds fd answers

-- GpioSelect_Select, with the answer of open, the first byte read and the rounds of its endless
-- loop. `none`: FD_SET of a file that was not opened.
unfoldable pub gpio_select_select : ℤ → ℕ → List Answers → Option (List FileCall)
gpio_select_select fd byte answers =
    if ltb_ℤ fd (pos 0)
    then none
    else some (
        open_carrier
        ∷ read_byte
        ∷ print "gpio : %s value %c \n" (signed_char byte)
        ∷ select_rounds fd answers)

unfoldable pub poll_rounds : ℤ → List Answers → List FileCall
poll_rounds fd [] = []
poll_rounds fd (a ∷ answers) =
    seek_start
    ∷ poll fd
    ∷ print " poll : vRetval = %d \n" a.found
    ∷ read_byte
    ∷ print "gpio : %s change %c \n" (signed_char a.byte)
    ∷ poll_rounds fd answers

-- GpioSelect_Poll
unfoldable pub gpio_select_poll : ℤ → ℕ → List Answers → List FileCall
gpio_select_poll fd byte answers =
    open_carrier
    ∷ read_byte
    ∷ print "gpio : %s value  %c \n" (signed_char byte)
    ∷ poll_rounds fd answers

-- Test_Gpio_Select
unfoldable pub test_gpio_select : ℤ → ℕ → List Answers → List FileCall
test_gpio_select fd byte answers = gpio_select_poll fd byte answers
