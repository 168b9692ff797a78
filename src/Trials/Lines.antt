-- ===== src/Trials/Lines.antt =====
-- test_cpp/src/Common.c: Printf and PrintfLn, which put the clock and the number of the thread in
-- front of a line, in a buffer of a fixed size. A text is a list of bytes; what vsnprintf makes of
-- the arguments of Printf is a parameter.
pub mod Bounds
use nettool.Base.{
  ℕ, zero, suc, ◌+◌, ◌-◌, ◌/◌, ◌%◌, ltb, ◌==◌, if◌then◌else◌, List, [], ◌∷◌, ◌++◌, length, Option,
  none, some, ℤ, pos, negsuc,
}

-- The decimal digits of a number, with fuel for as many: a number of 64 bits has 20 at most.
unfoldable pub digits : ℕ → ℕ → List ℕ
digits zero n = []
digits (suc fuel) n =
    let front = digits fuel (n / 10) in
    if ltb n 10 then (48 + n) ∷ [] else front ++ (48 + n % 10) ∷ []

abbrev pub decimal : ℕ → List ℕ
decimal n = digits 20 n

-- Some bytes alike.
abbrev pub repeat : ℕ → ℕ → List ℕ
repeat zero b = []
repeat (suc n) b = b ∷ repeat n b

-- A number with zeros in front up to a count of digits, as a precision asks for.
abbrev pub padded : ℕ → ℕ → List ℕ
padded count n = let ds = decimal n in repeat (count - length ds) 48 ++ ds

-- A `long`: the sign is no digit.
abbrev pub signed : ℕ → ℤ → List ℕ
signed count (pos n) = padded count n
signed count (negsuc n) = 45 ∷ padded count (suc n)

abbrev pub take : ℕ → List ℕ → List ℕ
take zero bytes = []
take (suc n) [] = []
take (suc n) (b ∷ bytes) = b ∷ take n bytes

-- What "%s" reads of the bytes: those in front of the first 0.
abbrev pub before_zero : List ℕ → List ℕ
before_zero [] = []
before_zero (b ∷ bytes) = if b == 0 then [] else b ∷ before_zero bytes

-- A line behind the clock and the thread.
abbrev pub stamped : ℕ → ℕ → ℤ → ℤ → ℕ → List ℕ → List ℕ
stamped count_sec count_nsec sec nsec self message =
    signed count_sec sec
    ++ 46 ∷ (signed count_nsec nsec ++ 32 ∷ (decimal self ++ 32 ∷ (message ++ 10 ∷ [])))

-- sprintf to a buffer: it must hold the bytes and a 0 behind them. `none`: it does not, which is
-- undefined behaviour. Otherwise write puts the bytes out.
abbrev pub sprintf_write : ℕ → List ℕ → Option (List ℕ)
sprintf_write size bytes = if ltb (length bytes) size then some bytes else none

-- Printf
unfoldable pub printf : ℤ → ℤ → ℕ → List ℕ → Option (List ℕ)
printf sec nsec self formatted =
    sprintf_write 1024 (stamped 1 1 sec nsec self (before_zero (take 511 formatted)))

-- PrintfLn
unfoldable pub printf_ln : ℤ → ℤ → ℕ → List ℕ → Option (List ℕ)
printf_ln sec nsec self message = sprintf_write 100 (stamped 10 9 sec nsec self message)
