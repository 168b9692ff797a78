-- ===== src/Trials/Pton/Prints.antt =====
-- What Net_inet_pton prints of an IPv6 address, in full or with a run of zeros left out.
use mathlib.Core.List.{append-nil, append_assoc}
use nettool.Base.{
  sym, length-append, ℕ, zero, suc, ◌+◌, ◌*◌, ◌%◌, ◌≤◌, ◌<◌, ◌≡◌, refl, ap, ◌∙◌, false, arith, leb,
  List, [], ◌∷◌, ◌++◌, map, length, get_elem?, All, some, ℤ, pos,
}
use nettool.Trials.Fields.{colon, getcolon}
use nettool.Trials.Fields.Texts.{IsField, joined}
use nettool.Trials.Fields.Reads.{getcolon-joined}
use nettool.Trials.Fields.Compressed.{get_elem-lt, compressed, expanded}
use nettool.Trials.Fields.Expansion.{getcolon-compressed}
use nettool.Trials.Pton.{
  number, bytes, printf, Libc, Texts, digit, four_digits, separator, append_fields, last_bit, take,
  print_fields,
}
use nettool.Trials.Pton.Bits.{
  digits_of, ReadsDigits, LastSet, last_bit-LastSet, bits_of_digits, digits_below,
}

-- A text and the eight fields that it stands for.
pub data IsAddress : List ℕ → List (List ℕ) → Type 0 where
  full : (fs : List (List ℕ)) → All IsField fs → length fs ≡ 8 → IsAddress (joined fs) fs
  short :
      (hs ts : List (List ℕ))
      → All IsField hs
      → All IsField ts
      → length hs + length ts ≤ 7
      → length (expanded hs ts) ≡ 8
      → IsAddress (compressed hs ts) (expanded hs ts)

-- strtol reads the fields as numbers of 16 bits.
abbrev pub ReadsFields : (List ℕ → ℤ) → List (List ℕ) → List ℕ → Type 0
ReadsFields strtol [] [] = Unit
ReadsFields strtol (f ∷ fs) (v ∷ vs) = (strtol f ≡ pos v) × (v < 65536) × ReadsFields strtol fs vs
ReadsFields strtol _ _ = ⊥

-- The digits of the fields with a colon between each two.
abbrev pub spelled : List ℕ → List ℕ
spelled vs = joined (map four_digits vs)

getcolon-address :
    (strtol : List ℕ → ℤ) (addr : List ℕ) (fs : List (List ℕ)) (i : ℕ) (f : List ℕ)
    → IsAddress addr fs
    → i < 8
    → get_elem? fs i ≡ some f
    → getcolon strtol addr (pos i) ≡ some (strtol f)
getcolon-address strtol _ _ i f (IsAddress.full fs h e) lt q = getcolon-joined strtol fs i f h q
getcolon-address strtol _ _ i f (IsAddress.short hs ts h k b e) lt q =
    getcolon-compressed strtol hs ts i f h k b lt q

-- What the loop appends for the fields from field ii on.
abbrev tail_text : ℕ → List ℕ → List ℕ
tail_text ii [] = []
tail_text ii (v ∷ vs) = (four_digits v ++ separator ii) ++ tail_text (ii + 1) vs

abbrev digit_text : List ℕ → List ℕ
digit_text [] = []
digit_text (v ∷ vs) = four_digits v ++ digit_text vs

low_word : (v : ℕ) → v < 65536 → v % 65536 ≡ v
low_word v h = omega arith

append_fields_lem :
    (strtol : List ℕ → ℤ) (addr : List ℕ) (ii : ℕ) (fs : List (List ℕ)) (vs : List ℕ)
    (texts : Texts)
    → ((i : ℕ) (f : List ℕ)
        → get_elem? fs i ≡ some f
        → getcolon strtol addr (pos (ii + i)) ≡ some (strtol f))
    → ReadsFields strtol fs vs
    → append_fields strtol addr ii (length vs) texts
      ≡ some (record {
        str_output = texts.str_output ++ tail_text ii vs;
        str = texts.str ++ digit_text vs;
      })
unfolding append_fields
append_fields_lem strtol addr ii [] [] texts g r =
    rw (append-nil texts.str_output, append-nil texts.str) refl
append_fields_lem strtol addr ii (f ∷ fs) [] texts g r = absurd r
append_fields_lem strtol addr ii [] (v ∷ vs) texts g r = absurd r
append_fields_lem strtol addr ii (f ∷ fs) (v ∷ vs) texts g (e, b, r) =
    let here : getcolon strtol addr (pos ii) ≡ some (pos v) =
      ap (λ n. getcolon strtol addr (pos n)) (omega arith) ∙ g 0 f refl ∙ ap some e in
    let low = low_word v b in
    let next : Texts = record {
      str_output = texts.str_output ++ (four_digits v ++ separator ii);
      str = texts.str ++ four_digits v;
    } in
    let rest =
      append_fields_lem strtol addr (ii + 1) fs vs next
        (λ i h q. ap (λ n. getcolon strtol addr (pos n)) (omega arith) ∙ g (suc i) h q) r in
    rw (here, low)
      (rest
        ∙ rw
            (
              append_assoc texts.str_output (four_digits v ++ separator ii) (tail_text (ii + 1) vs),
              append_assoc texts.str (four_digits v) (digit_text vs),
            )
            refl)

no_separator : (ii : ℕ) → ii ≡ 7 → separator ii ≡ []
unfolding separator
no_separator ii e = ground arith

one_separator : (ii : ℕ) → ii < 7 → separator ii ≡ colon ∷ []
unfolding separator
one_separator ii e = ground arith

spelled_tail : (ii : ℕ) (vs : List ℕ) → ii + length vs ≡ 8 → tail_text ii vs ≡ spelled vs
spelled_tail ii [] e = refl
spelled_tail ii (v ∷ []) e =
    rw (no_separator ii (omega arith), append-nil (four_digits v), append-nil (four_digits v)) refl
spelled_tail ii (v ∷ w ∷ vs) e =
    rw (one_separator ii (omega arith), spelled_tail (ii + 1) (w ∷ vs) (omega arith))
      (append_assoc (four_digits v) (colon ∷ []) (spelled (w ∷ vs)))

digits_text : (vs : List ℕ) → digit_text vs ≡ map digit (digits_of vs)
unfolding four_digits
digits_text [] = refl
digits_text (v ∷ vs) = rw (digits_text vs) refl

eight :
    (strtol : List ℕ → ℤ) (fs : List (List ℕ)) (vs : List ℕ)
    → ReadsFields strtol fs vs
    → length fs ≡ length vs
eight strtol [] [] r = refl
eight strtol (f ∷ fs) [] r = absurd r
eight strtol [] (v ∷ vs) r = absurd r
eight strtol (f ∷ fs) (v ∷ vs) (e, b, r) = omega (arith, eight strtol fs vs r)

words :
    (strtol : List ℕ → ℤ) (fs : List (List ℕ)) (vs : List ℕ)
    → ReadsFields strtol fs vs
    → All (λ v. v < 65536) vs
words strtol [] [] r = tt
words strtol (f ∷ fs) [] r = absurd r
words strtol [] (v ∷ vs) r = absurd r
words strtol (f ∷ fs) (v ∷ vs) (e, b, r) = (b, words strtol fs vs r)

length-tail_text : (ii : ℕ) (vs : List ℕ) → length (tail_text ii vs) ≤ 5 * length vs
unfolding four_digits separator
length-tail_text ii [] = omega arith
length-tail_text ii (v ∷ vs) = ground (arith, length-tail_text (ii + 1) vs)

length-digit_text : (vs : List ℕ) → length (digit_text vs) ≡ 4 * length vs
unfolding four_digits
length-digit_text [] = omega arith
length-digit_text (v ∷ vs) = omega (arith, length-digit_text vs)

length-address : (addr : List ℕ) (fs : List (List ℕ)) → IsAddress addr fs → length fs ≡ 8
length-address _ _ (IsAddress.full fs h e) = e
length-address _ _ (IsAddress.short hs ts h k b e) = e

plus_zero : (i : ℕ) → 0 + i ≡ i
plus_zero i = omega arith

filled :
    (libc : Libc) (addr : List ℕ) (fs : List (List ℕ)) (vs : List ℕ) (texts : Texts)
    → IsAddress addr fs
    → ReadsFields libc.strtol fs vs
    → append_fields libc.strtol addr 0 8 texts
      ≡ some (record {
        str_output = texts.str_output ++ tail_text 0 vs;
        str = texts.str ++ digit_text vs;
      })
filled libc addr fs vs texts a r =
    let many : 8 ≡ length vs = omega (arith, length-address addr fs a, eight libc.strtol fs vs r) in
    ap (λ n. append_fields libc.strtol addr 0 n texts) many
    ∙ append_fields_lem libc.strtol addr 0 fs vs texts reads r
  where
    reads :
        (i : ℕ) (f : List ℕ)
        → get_elem? fs i ≡ some f
        → getcolon libc.strtol addr (pos (0 + i)) ≡ some (libc.strtol f)
    reads i f q =
        getcolon-address libc.strtol addr fs (0 + i) f a
          (omega (arith, length-address addr fs a, get_elem-lt fs i f q))
          (ap (get_elem? fs) (plus_zero i) ∙ q)

take-map : (n : ℕ) (ds : List ℕ) → take n (map digit ds) ≡ map digit (take n ds)
take-map zero ds = refl
take-map (suc n) [] = refl
take-map (suc n) (d ∷ ds) = ap (λ t. digit d ∷ t) (take-map n ds)

map-append : (ds es : List ℕ) → map digit (ds ++ es) ≡ map digit ds ++ map digit es
map-append [] es = refl
map-append (d ∷ ds) es = ap (λ t. digit d ∷ t) (map-append ds es)

length-digits : (ds : List ℕ) → length (map digit ds) ≡ length ds
length-digits [] = refl
length-digits (d ∷ ds) = ap suc (length-digits ds)

All-take : (n : ℕ) (ds : List ℕ) → All (λ d. d < 16) ds → All (λ d. d < 16) (take n ds)
All-take zero ds h = tt
All-take (suc n) [] h = tt
All-take (suc n) (d ∷ ds) (l, h) = (l, All-take n ds h)

All-both :
    (ds es : List ℕ) → All (λ d. d < 16) ds → All (λ d. d < 16) es → All (λ d. d < 16) (ds ++ es)
All-both [] es h k = k
All-both (d ∷ ds) es (l, h) k = (l, All-both ds es h k)

-- Whatever text StrOutput and whatever digits Str hold at the start, which Net_inet_pton never
-- sets, as long as there is room behind them: strtol reads each of the eight fields of an address
-- as a number of 16 bits, and sscanf reads the digits that printf writes. Then Net_inet_pton prints
-- that text and behind it the eight numbers with four digits each and a colon between them; and
-- the number of the last bit that is 1, or 0 without one, of the first 32 of the digits that Str
-- held followed by those of the address.
pub print_fields-LastSet :
    (libc : Libc) (addr : List ℕ) (fs : List (List ℕ)) (vs held_output held : List ℕ)
    → IsAddress addr fs
    → ReadsFields libc.strtol fs vs
    → ReadsDigits libc.sscanf
    → length held_output < 984
    → length held < 984
    → All (λ d. d < 16) held
    → (nb : ℕ) × (print_fields libc addr (record { str_output = held_output; str = map digit held })
        ≡ some (
            printf "\n\n %s\n\n" (bytes (held_output ++ spelled vs) ∷ [])
            ∷ printf "\n bit = %d \n" (number (pos nb) ∷ [])
            ∷ []))
      × LastSet (bits_of_digits (take 32 (held ++ digits_of vs))) nb
unfolding print_fields
print_fields-LastSet libc addr fs vs held_output held a r reads room room' small =
    let many = length-address addr fs a in
    let same = eight libc.strtol fs vs r in
    let text_fits : leb 1024 (length (held_output ++ tail_text 0 vs)) ≡ false =
      ground (arith, length-append held_output (tail_text 0 vs), length-tail_text 0 vs) in
    let digits_fit : leb 1024 (length (map digit held ++ digit_text vs)) ≡ false = ground (
      arith,
      length-append (map digit held) (digit_text vs),
      length-digits held,
      length-digit_text vs,
    ) in
    let ds = take 32 (held ++ digits_of vs) in
    let kept : take 32 (map digit held ++ digit_text vs) ≡ map digit ds =
      ap (λ t. take 32 (map digit held ++ t)) (digits_text vs)
      ∙ ap (take 32) (sym (map-append held (digits_of vs)))
      ∙ take-map 32 (held ++ digits_of vs) in
    let below = digits_below vs (words libc.strtol fs vs r) in
    (
      last_bit libc.sscanf 0 (map digit ds) 0 0,
      rw
          (
            filled libc addr fs vs _ a r,
            text_fits,
            digits_fit,
            kept,
            spelled_tail 0 vs (omega arith),
          )
          refl,
      last_bit-LastSet libc.sscanf reads 0 ds 0 0 []
          (All-take 32 (held ++ digits_of vs) (All-both held (digits_of vs) small below)) refl
          (LastSet.unset tt),
    )
