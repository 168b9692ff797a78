-- ===== src/Trials/Lines/Bounds.antt =====
-- When the buffers of Printf and PrintfLn hold their lines.
use native.Mathlib.Nat.{pow-succ'}
use nettool.Base.{
  ℕ, zero, suc, ◌+◌, ◌-◌, ◌*◌, ◌/◌, ◌%◌, ◌^◌, ◌≤◌, ◌<◌, ◌≡◌, refl, ltb, true, if◌then◌else◌,
  Bool-cases, inl, inr, List, [], ◌∷◌, ◌++◌, length, length-append, none, some, ℤ, pos, negsuc,
  arith,
}
use nettool.Trials.Lines.{
  digits, decimal, repeat, padded, signed, take, before_zero, stamped, sprintf_write, printf,
  printf_ln,
}

length-digits-le : (fuel n : ℕ) → length (digits fuel n) ≤ fuel
unfolding digits
length-digits-le zero n = omega arith
length-digits-le (suc fuel) n = ground (
  arith,
  length-digits-le fuel (n / 10),
  length-append {0} (digits fuel (n / 10)) ((48 + n % 10) ∷ []),
)

length-repeat : (n b : ℕ) → length (repeat n b) ≡ n
length-repeat zero b = refl
length-repeat (suc n) b = omega (arith, length-repeat n b)

length-take-le : (n : ℕ) (bytes : List ℕ) → length (take n bytes) ≤ n
length-take-le zero bytes = omega arith
length-take-le (suc n) [] = omega arith
length-take-le (suc n) (b ∷ bytes) = omega (arith, length-take-le n bytes)

length-before_zero-le : (bytes : List ℕ) → length (before_zero bytes) ≤ length bytes
length-before_zero-le [] = omega arith
length-before_zero-le (b ∷ bytes) = ground (arith, length-before_zero-le bytes)

length-padded :
    (count n : ℕ) → length (padded count n) ≡ (count - length (decimal n)) + length (decimal n)
length-padded count n = omega (
  arith,
  length-append {0} (repeat (count - length (decimal n)) 48) (decimal n),
  length-repeat (count - length (decimal n)) 48,
)

less_tenth : (n m : ℕ) → n < 10 ^ suc m → n / 10 < 10 ^ m
less_tenth n m h = omega (arith, pow-succ' 10 m)

-- A number below a power of ten has no more digits than its exponent.
length-digits-power : (fuel count n : ℕ) → n < 10 ^ suc count → length (digits fuel n) ≤ suc count
unfolding digits
length-digits-power zero count n small = omega arith
length-digits-power (suc fuel) zero n small = ground arith
length-digits-power (suc fuel) (suc count) n small =
    let fewer = length-digits-power fuel count (n / 10) (less_tenth n (suc count) small) in
    ground (arith, length-append {0} (digits fuel (n / 10)) ((48 + n % 10) ∷ []))

-- The number that digits stand for.
abbrev pub value : ℕ → List ℕ → ℕ
value so_far [] = so_far
value so_far (d ∷ ds) = value (10 * so_far + (d - 48)) ds

value-append : (so_far : ℕ) (xs ys : List ℕ) → value so_far (xs ++ ys) ≡ value (value so_far xs) ys
value-append so_far [] ys = refl
value-append so_far (x ∷ xs) ys = value-append (10 * so_far + (x - 48)) xs ys

-- The digits of a number stand for it.
pub value-digits : (fuel n : ℕ) → n < 10 ^ fuel → value 0 (digits fuel n) ≡ n
unfolding digits
value-digits zero n small = omega arith
value-digits (suc fuel) n small = elim (Bool-cases (ltb n 10)) [
  | inl one ↦ rw one (omega arith)
  | inr more ↦ rw more (
      rw (value-append 0 (digits fuel (n / 10)) ((48 + n % 10) ∷ []))
        (rw (value-digits fuel (n / 10) (less_tenth n fuel small)) (omega arith)))
]

test_lt : (m n : ℕ) → m < n → ltb m n ≡ true
test_lt m n h = ground arith

length-signed-le : (count : ℕ) (z : ℤ) → length (signed count z) ≤ count + 21
length-signed-le count (pos n) = omega (arith, length-padded count n, length-digits-le 20 n)
length-signed-le count (negsuc n) =
    omega (arith, length-padded count (suc n), length-digits-le 20 (suc n))

length-stamped :
    (c d : ℕ) (sec nsec : ℤ) (self : ℕ) (message : List ℕ)
    → length (stamped c d sec nsec self message)
      ≡ length (signed c sec) + length (signed d nsec) + length (decimal self) + length message + 4
length-stamped c d sec nsec self message =
    let rest = message ++ 10 ∷ [] in
    let thread = decimal self ++ 32 ∷ rest in
    let fraction = signed d nsec ++ 32 ∷ thread in
    omega (
      arith,
      length-append {0} (signed c sec) (46 ∷ fraction),
      length-append {0} (signed d nsec) (32 ∷ thread),
      length-append {0} (decimal self) (32 ∷ rest),
      length-append {0} message (10 ∷ []),
    )

-- Printf never writes behind its buffer: with the clock and the thread in front, a line of at most
-- 511 bytes is less than 1024 bytes long.
pub printf-fits :
    (sec nsec : ℤ) (self : ℕ) (formatted : List ℕ)
    → printf sec nsec self formatted
      ≡ some (stamped 1 1 sec nsec self (before_zero (take 511 formatted)))
unfolding printf
printf-fits sec nsec self formatted =
    let message = before_zero (take 511 formatted) in
    let long = length-stamped 1 1 sec nsec self message in
    let short : length (stamped 1 1 sec nsec self message) < 1024 = omega (
      arith,
      length-signed-le 1 sec,
      length-signed-le 1 nsec,
      length-digits-le 20 self,
      length-before_zero-le (take 511 formatted),
      length-take-le 511 formatted,
    ) in
    rw (test_lt (length (stamped 1 1 sec nsec self message)) 1024 short)

sprintf_write_hundred :
    (line : List ℕ) (x : ℕ)
    → length line ≡ 23 + x
    → sprintf_write 100 line ≡ (if ltb 76 x then none else some line)
sprintf_write_hundred line x size = rw size (ground arith)

-- PrintfLn holds the clock in 20 bytes, since the seconds have ten digits and the nanoseconds nine.
-- So it writes behind its buffer of 100 bytes exactly when the number of the thread and the message
-- have more than 76 bytes together; otherwise it writes the line.
pub printf_ln-fits :
    (sec nsec self : ℕ) (message : List ℕ)
    → sec < 10 ^ 10
    → nsec < 10 ^ 9
    → printf_ln (pos sec) (pos nsec) self message ≡ (
        if ltb 76 (length (decimal self) + length message)
        then none
        else some (stamped 10 9 (pos sec) (pos nsec) self message))
unfolding printf_ln
printf_ln-fits sec nsec self message normal below =
    let long = length-stamped 10 9 (pos sec) (pos nsec) self message in
    let ten = length-digits-power 20 9 sec normal in
    let nine = length-digits-power 20 8 nsec below in
    let a = length-padded 10 sec in
    let b = length-padded 9 nsec in
    let size : length (stamped 10 9 (pos sec) (pos nsec) self message)
        ≡ 23 + length (decimal self) + length message =
      omega arith in
    sprintf_write_hundred (stamped 10 9 (pos sec) (pos nsec) self message)
      (length (decimal self) + length message) (omega arith)
