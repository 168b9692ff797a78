-- ===== src/Trials/Fields.antt =====
-- test_cpp/src/Network.c, getcolon: a field of a printed IPv6 address. A text is the list of its
-- bytes without the final 0; where the loops hold an index, the model holds what is left of the
-- text. `none` is undefined behaviour: an access outside the text or outside str[5].
pub mod Texts
pub mod Counts
pub mod Ends
pub mod Reads
pub mod Compressed
pub mod Expansion
use nettool.Base.{
  ℕ, zero, suc, ◌+◌, Bool, true, false, ◌&&◌, not, leb, ◌==◌, if◌then◌else◌, List, [], ◌∷◌, length,
  Option, none, some, ℤ, pos, pos_part, ◌-ℤ◌, ltb_ℤ, leb_ℤ,
}

abbrev pub colon : ℕ
colon = 58

abbrev pub dot : ℕ
dot = 46

abbrev pub digit_0 : ℕ
digit_0 = 48

infixl 5 ◌>>=◌
abbrev pub ◌>>=◌ : {A B : Type 0} → Option A → (A → Option B) → Option B
none >>= f = none
some a >>= f = f a

-- isV6TypeStandard: strchr finds no dot.
unfoldable pub is_v6_type_standard : List ℕ → Bool
is_v6_type_standard [] = true
is_v6_type_standard (c ∷ text) = if c == dot then false else is_v6_type_standard text

-- addr[0] == ':', where the text may be at its end.
abbrev pub starts_colon : List ℕ → Bool
starts_colon [] = false
starts_colon (c ∷ text) = c == colon

-- The count `compressed` of pairs of colons.
unfoldable pub count_pairs : List ℕ → ℕ
count_pairs [] = 0
count_pairs (c ∷ text) =
    let rest = count_pairs text in if c == colon && starts_colon text then suc rest else rest

unfoldable pub count_colons : List ℕ → ℕ
count_colons [] = 0
count_colons (c ∷ text) = let rest = count_colons text in if c == colon then suc rest else rest

-- cstart: the colons in front of the first pair.
unfoldable pub colons_before : List ℕ → ℕ
colons_before [] = 0
colons_before (c ∷ text) =
    let rest = colons_before text in
    if c == colon && starts_colon text then 0 else if c == colon then suc rest else rest

-- The text without its first byte.
abbrev pub behind_byte : List ℕ → List ℕ
behind_byte [] = []
behind_byte (c ∷ text) = text

-- The text behind the first pair.
unfoldable pub behind_pair : List ℕ → List ℕ
behind_pair [] = []
behind_pair (c ∷ text) =
    let rest = behind_pair text in
    if c == colon && starts_colon text then behind_byte text else rest

-- The last byte is a colon and the one in front of it is none.
unfoldable pub ends_alone : List ℕ → Bool
ends_alone [] = false
ends_alone (b ∷ []) = false
ends_alone (b ∷ c ∷ []) = c == colon && not (b == colon)
ends_alone (b ∷ c ∷ d ∷ text) = ends_alone (c ∷ d ∷ text)

-- `while (x < pos)`: behind as many colons. Past the end of the text the loop reads on.
unfoldable pub skip_fields : ℕ → List ℕ → Option (List ℕ)
skip_fields zero text = some text
skip_fields (suc n) [] = none
skip_fields (suc n) (c ∷ text) =
    let found = skip_fields n text in
    let rest = skip_fields (suc n) text in if c == colon then found else rest

-- The bytes up to a colon or the end, which are copied to str from index x on.
unfoldable pub copy_field : ℕ → List ℕ → Option (List ℕ)
copy_field x [] = some []
copy_field x (c ∷ text) =
    let rest = copy_field (x + 1) text in
    if c == colon then some [] else if leb 5 x then none else rest >>= λ str. some (c ∷ str)

-- The part under `if (!compressed)`.
unfoldable pub plain_field : List ℕ → ℤ → Option (List ℕ)
plain_field addr position = do text ← skip_fields (pos_part position) addr; copy_field 0 text

-- str behind the first two tests of the part under `if (compressed)`.
unfoldable pub head_field : List ℕ → ℤ → ℤ → Option (List ℕ)
head_field addr behind position =
    let cstart = pos (colons_before addr) in
    if leb_ℤ position cstart
    then plain_field addr position
    else if ltb_ℤ position behind
    then some (digit_0 ∷ [])
    else some []

-- The part under `if (compressed)`, with `max - cend`.
unfoldable pub compressed_field : List ℕ → ℤ → ℤ → Option (List ℕ)
compressed_field addr behind position = do
  str ← head_field addr behind position
  if leb_ℤ behind position
      then (skip_fields (pos_part (position -ℤ behind)) (behind_pair addr) >>= copy_field 0)
      else some str

-- `max - cend`
unfoldable pub behind_zeros : List ℕ → ℤ
behind_zeros addr =
    let max = if is_v6_type_standard addr then 7 else 5 in
    let colons = pos (count_colons (behind_pair addr)) in
    let cend = if ends_alone addr then colons -ℤ pos 1 else colons in pos max -ℤ cend

module _ (strtol : List ℕ → ℤ) where
  -- The number in str[5], which must hold its final 0; an empty text stands for "0".
  unfoldable pub read_field : List ℕ → Option ℤ
  read_field [] = some (strtol (digit_0 ∷ []))
  read_field (c ∷ str) = if leb 5 (length (c ∷ str)) then none else some (strtol (c ∷ str))

  -- An empty text makes strlen (addr) - 1 wrap, and the loop runs behind the text.
  unfoldable pub getcolon : List ℕ → ℤ → Option ℤ
  getcolon [] position = none
  getcolon (c ∷ text) position =
      let addr = c ∷ text in
      (if count_pairs addr == 0
        then plain_field addr position
        else compressed_field addr (behind_zeros addr) position)
      >>= read_field
