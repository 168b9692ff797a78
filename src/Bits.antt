-- ===== src/Bits.antt =====
-- The binary digits of `bit_and` and `bit_or`, of masks and of their complements, and tests with a
-- mask of one bit.
use Prim.Native.Nat.{min, max, bit_and, bit_or, digits, bit_and-bitwise, bit_or-bitwise}
use native.Mathlib.Nat.{pow-succ'}
use nettool.Base.{
  ℕ, zero, suc, ◌+◌, ◌-◌, ◌*◌, ◌/◌, ◌%◌, ◌^◌, ◌≤◌, ◌<◌, ◌≡◌, refl, sym, ap, ◌∙◌, ◌==◌,
  if◌then◌else◌, arith, Bool, Bool-cases, true, false, not, inl, inr,
}

-- The digit of a place, the lowest being that of 0.
abbrev pub digit : ℕ → ℕ → ℕ
digit zero n = n % 2
digit (suc i) n = digit i (n / 2)

pub digit-zero : (i : ℕ) → digit i 0 ≡ 0
digit-zero zero = refl
digit-zero (suc i) = digit-zero i

pub digit-le_one : (i n : ℕ) → digit i n ≤ 1
digit-le_one zero n = omega arith
digit-le_one (suc i) n = digit-le_one i (n / 2)

-- The operation on numbers works digit by digit.
module _ (z : ℕ → ℕ) (f : ℕ → ℕ → ℕ) (z_digit : (i b : ℕ) → digit i (z b) ≡ f 0 (digit i b))
    (f_le : (x y : ℕ) → x ≤ 1 → y ≤ 1 → f x y ≤ 1) where
  digit-z : (i b : ℕ) → digit i (z b) ≡ f (digit i 0) (digit i b)
  digit-z i b = z_digit i b ∙ ap (λ d. f d (digit i b)) (sym (digit-zero i))

  digit-digits :
      (i fuel a b : ℕ) → a ≤ fuel → digit i (digits z f fuel a b) ≡ f (digit i a) (digit i b)
  digit-digits i zero zero b h = digit-z i b
  digit-digits i zero (suc a) b h = absurd (omega arith)
  digit-digits i (suc fuel) zero b h = digit-z i b
  digit-digits zero (suc fuel) (suc a) b h =
      omega (arith, f_le (suc a % 2) (b % 2) (omega arith) (omega arith))
  digit-digits (suc i) (suc fuel) (suc a) b h =
      let low = f_le (suc a % 2) (b % 2) (omega arith) (omega arith) in
      let high : (digits z f fuel (suc a / 2) (b / 2) * 2 + f (suc a % 2) (b % 2)) / 2
          ≡ digits z f fuel (suc a / 2) (b / 2) =
        omega arith in
      ap (digit i) high ∙ digit-digits i fuel (suc a / 2) (b / 2) (omega arith)

pub digit-bit_or : (i a b : ℕ) → digit i (bit_or a b) ≡ max (digit i a) (digit i b)
digit-bit_or i a b =
    ap (digit i) (bit_or-bitwise a b)
    ∙ digit-digits (λ c. c) max (λ j c. omega arith) (λ x y p q. omega arith) i a a b (omega arith)

pub digit-bit_and : (i a b : ℕ) → digit i (bit_and a b) ≡ min (digit i a) (digit i b)
digit-bit_and i a b =
    ap (digit i) (bit_and-bitwise a b)
    ∙ digit-digits (λ c. 0) min (λ j c. omega (arith, digit-zero j)) (λ x y p q. omega arith) i a a
        b (omega arith)

-- 1 << p
pub digit-mask : (i p : ℕ) → digit i (2 ^ p) ≡ (if i == p then 1 else 0)
digit-mask zero zero = refl
digit-mask (suc i) zero = digit-zero i ∙ ground arith
digit-mask zero (suc p) =
    let even : 2 ^ suc p % 2 ≡ 0 = omega (arith, pow-succ' 2 p) in even ∙ ground arith
digit-mask (suc i) (suc p) =
    let half : 2 ^ suc p / 2 ≡ 2 ^ p = omega (arith, pow-succ' 2 p) in
    ap (digit i) half ∙ digit-mask i p ∙ ground arith

-- ~n in so many bits.
pub digit-complement : (i w n : ℕ) → i < w → n < 2 ^ w → digit i (2 ^ w - 1 - n) ≡ 1 - digit i n
digit-complement i zero n l h = absurd (omega arith)
digit-complement zero (suc w) n l h = omega (arith, pow-succ' 2 w)
digit-complement (suc i) (suc w) n l h =
    let half : (2 ^ suc w - 1 - n) / 2 ≡ 2 ^ w - 1 - n / 2 = omega (arith, pow-succ' 2 w) in
    ap (digit i) half ∙ digit-complement i w (n / 2) (omega arith) (omega (arith, pow-succ' 2 w))

-- A number of which all digits are 0.
pub zero_of_digits : (fuel n : ℕ) → n ≤ fuel → ((i : ℕ) → digit i n ≡ 0) → n ≡ 0
zero_of_digits zero n h all = omega arith
zero_of_digits (suc fuel) zero h all = refl
zero_of_digits (suc fuel) (suc n) h all =
    omega (arith, all 0, zero_of_digits fuel (suc n / 2) (omega arith) (λ i. all (suc i)))

masked : (here : Bool) (d : ℕ) → min d (if here then 1 else 0) ≡ (if here then min d 1 else 0)
masked true d = refl
masked false d = omega arith

digit-masked :
    (i p state : ℕ)
    → digit i (bit_and state (2 ^ p)) ≡ (if i == p then min (digit i state) 1 else 0)
digit-masked i p state =
    digit-bit_and i state (2 ^ p)
    ∙ ap (min (digit i state)) (digit-mask i p)
    ∙ masked (i == p) (digit i state)

same_place : (p : ℕ) → p == p ≡ true
same_place p = ground arith

-- When the digit of the place is 0, all digits are.
masked_zero : (p state i : ℕ) → digit p state ≡ 0 → digit i (bit_and state (2 ^ p)) ≡ 0
masked_zero p state i e = elim (Bool-cases (i == p)) [
  | inl here ↦
      let same : i ≡ p = ground arith in digit-masked i p state ∙ rw here (rw same (rw e refl))
  | inr away ↦ digit-masked i p state ∙ rw away
]

nonzero_of_digit : (p n : ℕ) → digit p n ≡ 1 → n == 0 ≡ false
nonzero_of_digit p n one = elim (Bool-cases (n == 0)) [
  | inl is_zero ↦
      let same : n ≡ 0 = ground arith in absurd (omega (arith, digit-zero p, ap (digit p) same))
  | inr other ↦ other
]

-- A mask of one bit tests its digit.
pub test_bit-digit : (p n : ℕ) → not (bit_and n (2 ^ p) == 0) ≡ digit p n == 1
test_bit-digit p n =
    let m = bit_and n (2 ^ p) in
    let small = digit-le_one p n in
    elim (Bool-cases (digit p n == 1)) [
      | inl one ↦
          let digit_one : digit p n ≡ 1 = ground arith in
          let other =
            nonzero_of_digit p m (digit-masked p p n ∙ rw (same_place p) (rw digit_one refl)) in
          rw (other, one)
      | inr none ↦
          let digit_zero : digit p n ≡ 0 = ground arith in
          let is_zero = zero_of_digits m m (omega arith) (λ i. masked_zero p n i digit_zero) in
          rw (is_zero, none)
    ]
