-- ===== src/Trials/Scan.antt =====
-- test_cpp/src/test.cpp: StringSubstr and Sscanf, on texts of the command line. A text is the list
-- of its bytes, without the 0 behind it.
pub mod Items
use nettool.Base.{
  ℕ, zero, suc, ◌+◌, Bool, true, false, ◌&&◌, ◌||◌, ltb, ◌==◌, if◌then◌else◌, List, [], ◌∷◌, length,
  Option, none, some, ℤ, pos, minus_one,
}

-- How a trial ends: with what it prints, by an exception of std::string, or in undefined behaviour.
pub data Outcome {ℓ} (A : Type ℓ) : Type ℓ where
  prints : A → Outcome A
  throws undefined syntax_error : Outcome A

-- The bytes begin with those of a motif.
abbrev pub starts_with : List ℕ → List ℕ → Bool
starts_with bytes [] = true
starts_with [] (m ∷ motif) = false
starts_with (b ∷ bytes) (m ∷ motif) = b == m && starts_with bytes motif

abbrev pub one_later : Option ℕ → Option ℕ
one_later none = none
one_later (some i) = some (i + 1)

-- std::string::find: the first place of a motif.
unfoldable pub find : List ℕ → List ℕ → Option ℕ
find [] motif = if starts_with [] motif then some 0 else none
find (b ∷ bytes) motif =
    let later = find bytes motif in
    if starts_with (b ∷ bytes) motif then some 0 else one_later later

abbrev pub take : ℕ → List ℕ → List ℕ
take zero bytes = []
take (suc n) [] = []
take (suc n) (b ∷ bytes) = b ∷ take n bytes

abbrev pub drop : ℕ → List ℕ → List ℕ
drop zero bytes = bytes
drop (suc n) [] = []
drop (suc n) (b ∷ bytes) = drop n bytes

-- std::string::substr, which throws std::out_of_range behind the end.
abbrev pub substr : List ℕ → ℕ → ℕ → Outcome (List ℕ)
substr bytes at count =
    if ltb (length bytes) at then Outcome.throws else Outcome.prints (take count (drop at bytes))

-- The line of StringSubstr: the place, -1 for npos, and the text found there.
abbrev pub Substr : Type 0
Substr = ℤ × List ℕ

abbrev pub with_place : ℤ → Outcome (List ℕ) → Outcome Substr
with_place place (prints found) = Outcome.prints (place, found)
with_place place Outcome.throws = Outcome.throws
with_place place Outcome.undefined = Outcome.undefined
with_place place Outcome.syntax_error = Outcome.syntax_error

abbrev pub substr_at : List ℕ → Option ℕ → Outcome Substr
substr_at str none = with_place minus_one (substr str 0 3)
substr_at str (some i) = with_place (pos i) (substr str (i + 1) 3)

-- StringSubstr, with the arguments behind the program's name. A text and no motif pass the test of
-- the count, and find is given a null pointer.
unfoldable pub string_substr : List (List ℕ) → Outcome Substr
string_substr [] = Outcome.syntax_error
string_substr (number ∷ []) = Outcome.syntax_error
string_substr (number ∷ str ∷ []) = Outcome.undefined
string_substr (number ∷ str ∷ motif ∷ rest) = substr_at str (find str motif)

-- A colon or a quote, which "%[^':']" does not take.
abbrev pub ends_item : ℕ → Bool
ends_item b = b == 58 || b == 39

-- The bytes that a conversion takes, and those behind them.
unfoldable pub split : List ℕ → List ℕ × List ℕ
split [] = ([], [])
split (b ∷ bytes) =
    let (item, rest) = split bytes in if ends_item b then ([], b ∷ bytes) else (b ∷ item, rest)

-- A text is put in front of those that later conversions store.
abbrev pub store : List ℕ → Outcome (ℤ × List (List ℕ)) → Outcome (ℤ × List (List ℕ))
store item (prints (count, items)) = Outcome.prints (count, item ∷ items)
store item Outcome.throws = Outcome.throws
store item Outcome.undefined = Outcome.undefined
store item Outcome.syntax_error = Outcome.syntax_error

-- sscanf with so many conversions left, of which some are done. A conversion fails on no byte; the
-- result is then EOF, -1, if none is done and the text is at its end. An item of five bytes and
-- more does not fit its row of vArray with the 0 behind it.
unfoldable pub sscanf : ℕ → ℕ → List ℕ → Outcome (ℤ × List (List ℕ))
sscanf zero done bytes = Outcome.prints (pos done, [])
sscanf (suc left) done bytes =
    let (item, rest) = split bytes in
    let others = sscanf left (done + 1) rest in
    if length item == 0
    then (if length bytes == 0 && done == 0
        then Outcome.prints (minus_one, [])
        else Outcome.prints (pos done, []))
    else if ltb 4 (length item)
    then Outcome.undefined
    else store item others

-- Sscanf, with the arguments behind the program's name: the count and the items that it prints; the
-- other rows of vArray are empty. Without a text sscanf is given a null pointer.
unfoldable pub sscanf_trial : List (List ℕ) → Outcome (ℤ × List (List ℕ))
sscanf_trial [] = Outcome.syntax_error
sscanf_trial (number ∷ []) = Outcome.undefined
sscanf_trial (number ∷ str ∷ rest) = sscanf 3 0 str
