-- ===== src/Trials/Scan/Items.antt =====
-- What Sscanf reads of a text, and when StringSubstr ends by an exception.
use mathlib.Core.Logic.{◌↔◌}
use nettool.Base.{
  ℕ, ◌+◌, ◌≤◌, ◌≡◌, ◌≢◌, refl, true, Bool-cases, inl, inr, ltb, ◌==◌, if◌then◌else◌, List, [], ◌∷◌,
  length, Option, none, some, pos, minus_one, arith,
}
use nettool.Trials.Scan.{
  Outcome, starts_with, find, take, drop, substr, one_later, substr_at, string_substr, ends_item,
  split, sscanf, sscanf_trial,
}

-- Behind an item there is nothing left for a conversion.
split-split : (bytes : List ℕ) → (split (split bytes).1).0 ≡ []
unfolding split
split-split [] = refl
split-split (b ∷ bytes) = elim (Bool-cases (ends_item b)) [
  | inl ends ↦ rw (ends, ends)
  | inr goes_on ↦ rw goes_on (split-split bytes)
]

-- Whatever the text, Sscanf converts one item at most: the bytes in front of the first colon or
-- quote. It prints -1 for a text without a byte, 0 when there is no such byte in front; an item of
-- more than four bytes is written behind its row. The other conversions get nothing.
pub sscanf_trial-one :
    (number str : List ℕ) (rest : List (List ℕ))
    → let item = (split str).0 in
      sscanf_trial (number ∷ str ∷ rest) ≡ (
        if length item == 0
        then (if length str == 0
            then Outcome.prints (minus_one, [])
            else Outcome.prints (pos 0, []))
        else if ltb 4 (length item)
        then Outcome.undefined
        else Outcome.prints (pos 1, item ∷ []))
unfolding sscanf_trial sscanf
sscanf_trial-one number str rest = rw (split-split str) (ground arith)

-- A text that starts with a motif is at least as long.
starts_with-length :
    (bytes motif : List ℕ) → starts_with bytes motif ≡ true → length motif ≤ length bytes
starts_with-length bytes [] h = omega arith
starts_with-length [] (m ∷ motif) h = cc
starts_with-length (b ∷ bytes) (m ∷ motif) h = ground (arith, starts_with-length bytes motif)

one_later_place :
    (o : Option ℕ) (i : ℕ) → one_later o ≡ some i → (j : ℕ) × (o ≡ some j) × (i ≡ j + 1)
one_later_place none i e = cc
one_later_place (some j) i e = (j, refl, ground arith)

find-length :
    (bytes motif : List ℕ) (i : ℕ) → find bytes motif ≡ some i → i + length motif ≤ length bytes
unfolding find
find-length [] motif i e = ground (arith, starts_with-length [] motif)
find-length (b ∷ bytes) motif i e = elim (Bool-cases (starts_with (b ∷ bytes) motif)) [
  | inl here ↦
      let within = starts_with-length (b ∷ bytes) motif here in
      let found : ◌≡◌ {A = Option ℕ} (some 0) (some i) = rw here at e in
      let first : i ≡ 0 = cc in omega arith
  | inr away ↦
      let found : one_later (find bytes motif) ≡ some i = rw away at e in
      let (j, place, next) = one_later_place (find bytes motif) i found in
      omega (arith, find-length bytes motif j place)
]

find-nil : (str : List ℕ) → find str [] ≡ some 0
unfolding find
find-nil [] = refl
find-nil (b ∷ bytes) = refl

substr_room :
    (str : List ℕ) (at count : ℕ)
    → at ≤ length str
    → substr str at count ≡ Outcome.prints (take count (drop at str))
substr_room str at count h = ground arith

-- A place in the text leaves room for a substring behind it.
substr_at-ne-throws :
    (str : List ℕ) (o : Option ℕ)
    → ((i : ℕ) → o ≡ some i → i + 1 ≤ length str)
    → substr_at str o ≢ Outcome.throws
substr_at-ne-throws str none within e =
    let found = rw (substr_room str 0 3 (omega arith)) at e in cc
substr_at-ne-throws str (some i) within e =
    let inside = within i refl in let found = rw (substr_room str (i + 1) 3 inside) at e in cc

first_place : (b : ℕ) (str : List ℕ) (i : ℕ) → find (b ∷ str) [] ≡ some i → i + 1 ≤ length (b ∷ str)
first_place b str i place =
    let found : ◌≡◌ {A = Option ℕ} (some 0) (some i) = rw (find-nil (b ∷ str)) at place in
    let first : i ≡ 0 = cc in omega arith

-- StringSubstr with a text and a motif ends by std::out_of_range exactly when both are empty.
pub string_substr-throws :
    (number str motif : List ℕ) (rest : List (List ℕ))
    → (string_substr (number ∷ str ∷ motif ∷ rest) ≡ Outcome.throws)
      ↔ (length str + length motif ≡ 0)
unfolding string_substr
string_substr-throws number [] [] rest = (λ e. refl, λ e. rw (find-nil []) refl)
string_substr-throws number (b ∷ str) [] rest = (
  λ e. absurd (substr_at-ne-throws (b ∷ str) (find (b ∷ str) []) (first_place b str) e),
  λ e. absurd (omega arith),
)
string_substr-throws number str (m ∷ motif) rest = (
  λ e. absurd (
      substr_at-ne-throws str (find str (m ∷ motif))
        (λ i place. omega (arith, find-length str (m ∷ motif) i place)) e),
  λ e. absurd (omega arith),
)
