-- ===== src/Trials/Pton/Bits.antt =====
-- The loops of Net_inet_pton over the digits of an address and over their bits.
use mathlib.Core.List.{append-nil, append_assoc}
use mathlib.Core.Path.{subst}
use nettool.Base.{
  ℕ, zero, suc, ◌+◌, ◌-◌, ◌*◌, ◌/◌, ◌%◌, ◌^◌, ◌≤◌, ◌<◌, ◌≡◌, refl, sym, ap, arith, ◌==◌,
  if◌then◌else◌, List, [], ◌∷◌, ◌++◌, map, length, All, length-append,
}
use nettool.Trials.Pton.{digit, mark_bits, last_bit}

-- The lowest n bits of a number, the highest of them first.
abbrev pub bits_of : ℕ → ℕ → List ℕ
bits_of zero v = []
bits_of (suc n) v = v / 2 ^ n % 2 ∷ bits_of n v

-- The number of the last bit that is 1, counted from 1, or 0 when there is none.
pub data LastSet : List ℕ → ℕ → Type 0 where
  unset : {bits : List ℕ} → All (λ b. b ≡ 0) bits → LastSet bits 0
  set :
      (before after : List ℕ)
      → All (λ b. b ≡ 0) after
      → LastSet (before ++ (1 ∷ after)) (length before + 1)

All-snoc : (bits : List ℕ) → All (λ b. b ≡ 0) bits → All (λ b. b ≡ 0) (bits ++ 0 ∷ [])
All-snoc [] h = (refl, tt)
All-snoc (b ∷ bits) (e, h) = (e, All-snoc bits h)

LastSet-zero : (bits : List ℕ) (nb : ℕ) → LastSet bits nb → LastSet (bits ++ 0 ∷ []) nb
LastSet-zero _ _ (LastSet.unset {bits} h) = LastSet.unset (All-snoc bits h)
LastSet-zero _ _ (LastSet.set before after h) =
    rw (append_assoc before (1 ∷ after) (0 ∷ []))
      (LastSet.set before (after ++ 0 ∷ []) (All-snoc after h))

LastSet-bit :
    (bits : List ℕ) (nb b : ℕ)
    → b < 2
    → LastSet bits nb
    → LastSet (bits ++ b ∷ []) (if b == 1 then length bits + 1 else nb)
LastSet-bit bits nb zero lt h = LastSet-zero bits nb h
LastSet-bit bits nb (suc zero) lt h = LastSet.set bits [] tt
LastSet-bit bits nb (suc (suc b)) lt h = absurd (omega arith)

marked_same :
    (bit nb m n : ℕ) → n ≡ m → (if bit == 1 then n + 1 else nb) ≡ (if bit == 1 then m + 1 else nb)
marked_same bit nb m n e = rw e refl

mark_bits-LastSet :
    (ii left char nb : ℕ) (bits : List ℕ)
    → length bits + left ≡ ii * 4 + 4
    → left ≤ 4
    → LastSet bits nb
    → LastSet (bits ++ bits_of left char) (mark_bits ii left char nb)
unfolding mark_bits
mark_bits-LastSet ii zero char nb bits e b h = rw append-nil h
mark_bits-LastSet ii (suc left) char nb bits e b h =
    let bit = char / 2 ^ left % 2 in
    let next = if bit == 1 then ii * 4 + (3 - left) + 1 else nb in
    let marked = LastSet-bit bits nb bit (omega arith) h in
    let same = marked_same bit nb (length bits) (ii * 4 + (3 - left)) (omega arith) in
    let rest =
      mark_bits-LastSet ii left char next (bits ++ bit ∷ [])
        (omega (arith, length-append bits (bit ∷ []))) (omega arith) (rw same marked) in
    rw (← append_assoc bits (bit ∷ []) (bits_of left char)) rest

-- Digits, their bits, and the digits of the fields.
abbrev pub bits_of_digits : List ℕ → List ℕ
bits_of_digits [] = []
bits_of_digits (d ∷ ds) = bits_of 4 d ++ bits_of_digits ds

abbrev pub digits_of : List ℕ → List ℕ
digits_of [] = []
digits_of (v ∷ vs) = v / 4096 ∷ v / 256 % 16 ∷ v / 16 % 16 ∷ v % 16 ∷ digits_of vs

-- The bits of the fields of an address, 16 each.
abbrev pub address_bits : List ℕ → List ℕ
address_bits [] = []
address_bits (v ∷ vs) = bits_of 16 v ++ address_bits vs

-- sscanf reads the digits that printf writes.
abbrev pub ReadsDigits : (ℕ → ℕ → ℕ) → Type 0
ReadsDigits sscanf = (d before : ℕ) → d < 16 → sscanf (digit d) before ≡ d

pub last_bit-LastSet :
    (sscanf : ℕ → ℕ → ℕ)
    → ReadsDigits sscanf
    → (ii : ℕ) (ds : List ℕ) (char nb : ℕ) (bits : List ℕ) → All (λ d. d < 16) ds
    → length bits ≡ ii * 4
    → LastSet bits nb
    → LastSet (bits ++ bits_of_digits ds) (last_bit sscanf ii (map digit ds) char nb)
unfolding last_bit
last_bit-LastSet sscanf reads ii [] char nb bits h e l = rw append-nil l
last_bit-LastSet sscanf reads ii (d ∷ ds) char nb bits (h, hs) e l =
    let marked = mark_bits-LastSet ii 4 d nb bits (omega arith) (omega arith) l in
    let rest =
      last_bit-LastSet sscanf reads (ii + 1) ds d (mark_bits ii 4 d nb) (bits ++ bits_of 4 d) hs
        (omega (arith, length-append bits (bits_of 4 d))) marked in
    subst
      (λ r.
        LastSet (bits ++ (bits_of 4 d ++ bits_of_digits ds))
          (last_bit sscanf (ii + 1) (map digit ds) r (mark_bits ii 4 r nb)))
      (sym (reads d char h)) (rw (← append_assoc bits (bits_of 4 d) (bits_of_digits ds)) rest)

field_bits :
    (v : ℕ)
    → bits_of 16 v
      ≡ bits_of 4 (v / 4096)
        ++ (bits_of 4 (v / 256 % 16) ++ (bits_of 4 (v / 16 % 16) ++ bits_of 4 (v % 16)))
field_bits v = ground arith

bits_of_digits_of : (vs : List ℕ) → bits_of_digits (digits_of vs) ≡ address_bits vs
bits_of_digits_of [] = refl
bits_of_digits_of (v ∷ vs) =
    rw (bits_of_digits_of vs) (sym (ap (λ t. t ++ address_bits vs) (field_bits v)))

pub digits_below : (vs : List ℕ) → All (λ v. v < 65536) vs → All (λ d. d < 16) (digits_of vs)
digits_below [] h = tt
digits_below (v ∷ vs) (h, hs) =
    (omega arith, (omega arith, (omega arith, (omega arith, digits_below vs hs))))

-- The number of the last bit set, as the loop over the digits of an address finds it.
last_bit-address :
    (sscanf : ℕ → ℕ → ℕ) (vs : List ℕ)
    → ReadsDigits sscanf
    → All (λ v. v < 65536) vs
    → LastSet (address_bits vs) (last_bit sscanf 0 (map digit (digits_of vs)) 0 0)
last_bit-address sscanf vs reads h =
    let found =
      last_bit-LastSet sscanf reads 0 (digits_of vs) 0 0 [] (digits_below vs h) refl
        (LastSet.unset tt) in
    rw (← bits_of_digits_of vs) found
