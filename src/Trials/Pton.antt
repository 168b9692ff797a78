-- ===== src/Trials/Pton.antt =====
-- test_cpp/src/Network.c, Net_inet_pton: prints an address with all its digits, and the number of
-- its last bit that is set. The C library is a parameter, and so is what the arrays Str and
-- StrOutput hold when the function starts, since it does not initialise them.
pub mod Bits
pub mod Prints
pub mod Overflow
use Prim.Native.String.{String}
use nettool.Base.{
  ℕ, zero, suc, ◌+◌, ◌-◌, ◌*◌, ◌/◌, ◌%◌, ◌^◌, Bool, false, ltb, leb, ◌==◌, if◌then◌else◌, List, [],
  ◌∷◌, ◌++◌, length, get_elem?, Option, none, some, ℤ, pos, negsuc, ◌==ℤ◌,
}
use nettool.Trials.Fields.{colon, ◌>>=◌, getcolon}

-- What stands for a conversion: a number, or the bytes of a text.
pub data Value : Type 0 where
  number : ℤ → Value
  bytes : List ℕ → Value
  message : String → Value

-- A call of printf.
pub data Output : Type 0 where
  printf : String → List Value → Output

-- `inet_pton` answers its status and the 16 bytes behind it. `sscanf` reads a digit of "0x%c" with
-- "%hhx", and keeps the value before when it can not.
pub record Libc : Type 0 where
  pub strtol : List ℕ → ℤ
  pub inet_pton : ℕ → List ℕ → ℤ × List ℕ
  pub sscanf : ℕ → ℕ → ℕ
  pub errno : ℤ
  pub strerror : ℤ → String

-- What the arrays StrOutput and Str hold.
pub record Texts : Type 0 where
  pub str_output : List ℕ
  pub str : List ℕ

-- A digit of %X.
abbrev pub digit : ℕ → ℕ
digit d = if ltb d 10 then 48 + d else 55 + d

-- The lower 16 bits of an int.
abbrev pub low_bits : ℤ → ℕ
low_bits (pos n) = n % 65536
low_bits (negsuc n) = 65535 - n % 65536

-- "%02X%02X" with the two lower bytes.
unfoldable pub four_digits : ℕ → List ℕ
four_digits v = digit (v / 4096) ∷ digit (v / 256 % 16) ∷ digit (v / 16 % 16) ∷ digit (v % 16) ∷ []

-- The byte behind a field of StrOutput, where the 0 of the last one adds nothing.
unfoldable pub separator : ℕ → List ℕ
separator ii = if ltb ii 7 then colon ∷ [] else []

-- The rest of the loop over the 8 fields, from field ii on.
unfoldable pub append_fields : (List ℕ → ℤ) → List ℕ → ℕ → ℕ → Texts → Option Texts
append_fields strtol addr ii zero texts = some texts
append_fields strtol addr ii (suc left) texts = do
  value ← getcolon strtol addr (pos ii)
  append_fields strtol addr (ii + 1) left (record {
    str_output = texts.str_output ++ (four_digits (low_bits value) ++ separator ii);
    str = texts.str ++ four_digits (low_bits value);
  })

-- The loop over the bits of a digit, with `left` of them to come.
unfoldable pub mark_bits : ℕ → ℕ → ℕ → ℕ → ℕ
mark_bits ii zero char nb = nb
mark_bits ii (suc left) char nb =
    mark_bits ii left char (if char / 2 ^ left % 2 == 1 then ii * 4 + (3 - left) + 1 else nb)

-- The rest of the loop over the digits in Str, from digit ii on: vNbBit at its end.
unfoldable pub last_bit : (ℕ → ℕ → ℕ) → ℕ → List ℕ → ℕ → ℕ → ℕ
last_bit sscanf ii [] char nb = nb
last_bit sscanf ii (c ∷ str) char nb =
    let read = sscanf c char in last_bit sscanf (ii + 1) str read (mark_bits ii 4 read nb)

abbrev pub take : ℕ → List ℕ → List ℕ
take zero text = []
take (suc n) [] = []
take (suc n) (c ∷ text) = c ∷ take n text

-- A char is signed.
abbrev pub signed_char : ℕ → ℤ
signed_char b = if ltb b 128 then pos b else negsuc (255 - b)

-- The bytes of the address, each with "%X".
unfoldable pub print_bytes : List ℕ → List Output
print_bytes [] = []
print_bytes (b ∷ buffer) = printf "%X" (number (signed_char b) ∷ []) ∷ print_bytes buffer

-- The part under the second `if( vRetcode == 1 )`. strcat must stay within the 1024 bytes.
unfoldable pub print_fields : Libc → List ℕ → Texts → Option (List Output)
print_fields libc addr texts = do
  filled ← append_fields libc.strtol addr 0 8 texts
  if leb 1024 (length filled.str_output)
      then none
      else if leb 1024 (length filled.str)
      then none
      else some (
          printf "\n\n %s\n\n" (bytes filled.str_output ∷ [])
          ∷ printf "\n bit = %d \n"
              (number (pos (last_bit libc.sscanf 0 (take 32 filled.str) 0 0)) ∷ [])
          ∷ [])

-- An argument, or the empty text.
abbrev pub argument : List (List ℕ) → ℕ → List ℕ
argument argv i = elim (get_elem? argv i) [ none ↦ [] | some a ↦ a ]

abbrev starts_0 : List ℕ → Bool
starts_0 [] = false
starts_0 (c ∷ text) = c == 48

-- AF_INET or AF_INET6
unfoldable pub address_family : List (List ℕ) → ℕ
address_family argv = if starts_0 (argument argv 2) then 2 else 10

-- The two tests of the answer of inet_pton.
unfoldable pub convert : Libc → List (List ℕ) → Texts → Option (List Output)
convert libc argv texts =
    let (answer, buffer) = libc.inet_pton (address_family argv) (argument argv 3) in
    if answer ==ℤ pos 1
    then (do
      fields ← print_fields libc (argument argv 3) texts
      some (
          printf "vRetcode=%d  OK \n\n" (number answer ∷ [])
          ∷ printf "sizeof(struct in6_addr) = %d \n" (number (pos 16) ∷ [])
          ∷ (print_bytes buffer ++ (printf "\n\n" [] ∷ fields))))
    else some (
        printf " Error bad address :  vRetcode=%d errno=%d %s\n\n"
          (number answer ∷ number libc.errno ∷ message (libc.strerror libc.errno) ∷ [])
        ∷ [])

unfoldable pub net_inet_pton : Libc → List (List ℕ) → Texts → Option (List Output)
net_inet_pton libc argv texts =
    let greeting = printf "\n Net_inet_pton( argc=%d argv[1]=%s argv[2]=%s argv[3]=%s \n\n" (
      number (pos (length argv))
      ∷ bytes (argument argv 1)
      ∷ bytes (argument argv 2)
      ∷ bytes (argument argv 3)
      ∷ []) in
    if ltb 3 (length argv)
    then (convert libc argv texts >>= λ out. some (greeting ∷ out))
    else some (greeting ∷ printf "\n Error : no input address ! \n\n" [] ∷ [])
