-- ===== src/Trials/Pton/Overflow.antt =====
-- Addresses without a colon, as those of IPv4 are: getcolon copies all of them to str[5].
use nettool.Base.{
  ℕ, ◌+◌, ◌≤◌, ◌<◌, ◌≡◌, ◌≢◌, inl, inr, refl, Bool-cases, arith, leb, List, [], ◌∷◌, length, All,
  none, some, ℤ, pos,
}
use nettool.Trials.Fields.{
  colon, count_pairs, skip_fields, copy_field, plain_field, read_field, getcolon,
}
use nettool.Trials.Pton.{
  Libc, Texts, argument, address_family, append_fields, print_fields, convert, net_inet_pton,
}

abbrev pub NoColon : List ℕ → Type 0
NoColon = All (λ c. c ≢ colon)

count_pairs-NoColon : (text : List ℕ) → NoColon text → count_pairs text ≡ 0
unfolding count_pairs
count_pairs-NoColon [] h = refl
count_pairs-NoColon (c ∷ text) (p, h) = ground (arith, count_pairs-NoColon text h)

copy_field-short :
    (x : ℕ) (text : List ℕ) → NoColon text → x + length text ≤ 5 → copy_field x text ≡ some text
unfolding copy_field
copy_field-short x [] h b = refl
copy_field-short x (c ∷ text) (p, h) b =
    ground (arith, copy_field-short (x + 1) text h (omega arith))

copy_field-long :
    (x : ℕ) (text : List ℕ) → NoColon text → x ≤ 5 → 5 < x + length text → copy_field x text ≡ none
unfolding copy_field
copy_field-long x [] h b q = absurd (omega arith)
copy_field-long x (c ∷ text) (p, h) b q = elim (Bool-cases (leb 5 x)) [
  | inl e ↦ ground arith
  | inr e ↦
      let rest = copy_field-long (x + 1) text h (ground arith) (omega arith) in
      rw rest (ground arith)
]

read_field-long :
    (strtol : List ℕ → ℤ) (str : List ℕ) → 4 < length str → read_field strtol str ≡ none
unfolding read_field
read_field-long strtol [] q = absurd (omega arith)
read_field-long strtol (d ∷ str) q = ground arith

-- getcolon is undefined at index 0 of a text without a colon that has more than four
-- bytes.
getcolon-NoColon :
    (strtol : List ℕ → ℤ) (text : List ℕ)
    → NoColon text
    → 4 < length text
    → getcolon strtol text (pos 0) ≡ none
unfolding getcolon plain_field skip_fields
getcolon-NoColon strtol [] h b = refl
getcolon-NoColon strtol (c ∷ text) h b =
    rw (count_pairs-NoColon (c ∷ text) h) (elim (Bool-cases (leb (length (c ∷ text)) 5)) [
      | inl e ↦
          rw (copy_field-short 0 (c ∷ text) h (ground arith)) (read_field-long strtol (c ∷ text) b)
      | inr e ↦ rw (copy_field-long 0 (c ∷ text) h (omega arith) (ground arith)) refl
    ])

print_fields-NoColon :
    (libc : Libc) (addr : List ℕ) (texts : Texts)
    → NoColon addr
    → 4 < length addr
    → print_fields libc addr texts ≡ none
unfolding print_fields append_fields
print_fields-NoColon libc addr texts h b = rw (getcolon-NoColon libc.strtol addr h b) refl

convert-NoColon :
    (libc : Libc) (argv : List (List ℕ)) (texts : Texts)
    → (libc.inet_pton (address_family argv) (argument argv 3)).0 ≡ pos 1
    → NoColon (argument argv 3)
    → 4 < length (argument argv 3)
    → convert libc argv texts ≡ none
unfolding convert
convert-NoColon libc argv texts e h b =
    rw (e, print_fields-NoColon libc (argument argv 3) texts h b) refl

-- When inet_pton accepts an address without a colon of more than four bytes, as every address of
-- IPv4 is, Net_inet_pton writes or reads behind str[5], whatever its arrays hold.
pub net_inet_pton-undefined :
    (libc : Libc) (argv : List (List ℕ)) (texts : Texts)
    → 3 < length argv
    → (libc.inet_pton (address_family argv) (argument argv 3)).0 ≡ pos 1
    → NoColon (argument argv 3)
    → 4 < length (argument argv 3)
    → net_inet_pton libc argv texts ≡ none
unfolding net_inet_pton
net_inet_pton-undefined libc argv texts many e h b =
    rw (convert-NoColon libc argv texts e h b) (ground arith)
