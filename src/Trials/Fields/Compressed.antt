-- ===== src/Trials/Fields/Compressed.antt =====
-- What getcolon reads from an address that leaves a run of zeros out.
use mathlib.Core.List.{append-nil, append_assoc}
use nettool.Base.{
  ℕ, zero, suc, ◌+◌, ◌-◌, ◌≤◌, ◌<◌, ◌≡◌, ◌⊎◌, inl, inr, refl, sym, ap, ◌∙◌, true, false, arith,
  List, [], ◌∷◌, ◌++◌, length, get_elem?, All, some, pos, ◌-ℤ◌,
}
use nettool.Trials.Fields.{
  colon, digit_0, is_v6_type_standard, count_pairs, count_colons, colons_before, behind_pair,
  ends_alone, behind_zeros,
}
use nettool.Trials.Fields.Texts.{IsField, joined}
use nettool.Trials.Fields.Counts.{
  count_pairs-joined, standard-joined, count_colons-joined, colons_before-joined,
  behind_pair-joined,
}
use nettool.Trials.Fields.Ends.{ends_alone-joined, ends_alone-pair}

-- The fields of an address in front of the zeros and behind them, with "::" between.
abbrev pub compressed : List (List ℕ) → List (List ℕ) → List ℕ
compressed hs ts = joined hs ++ colon ∷ colon ∷ joined ts

abbrev pub zeros : ℕ → List (List ℕ)
zeros zero = []
zeros (suc n) = (digit_0 ∷ []) ∷ zeros n

-- The eight fields that it stands for.
abbrev pub expanded : List (List ℕ) → List (List ℕ) → List (List ℕ)
expanded hs ts = hs ++ (zeros (8 - length hs - length ts) ++ ts)

-- Where a field stands.
pub data Place (hs ts : List (List ℕ)) (i : ℕ) (f : List ℕ) : Type 0 where
  head : i < length hs → get_elem? hs i ≡ some f → Place hs ts i f
  middle : length hs ≤ i → i + length ts < 8 → f ≡ digit_0 ∷ [] → Place hs ts i f
  tail : (j : ℕ) → i + length ts ≡ j + 8 → get_elem? ts j ≡ some f → Place hs ts i f

pub get_elem-lt :
    (fs : List (List ℕ)) (i : ℕ) (f : List ℕ) → get_elem? fs i ≡ some f → i < length fs
get_elem-lt [] i f e = ground arith
get_elem-lt (g ∷ fs) zero f e = omega arith
get_elem-lt (g ∷ fs) (suc i) f e = omega (arith, get_elem-lt fs i f e)

-- The facts that the loops gather from a compressed address.
pub record Facts (addr : List ℕ) (hs ts : List (List ℕ)) : Type 0 where
  pub pairs : 1 ≤ count_pairs addr
  pub before : colons_before addr ≡ length hs - 1
  pub behind : behind_pair addr ≡ joined ts
  pub zeros_end : behind_zeros addr ≡ pos (7 - (length ts - 1))

count_pairs-pair : (text : List ℕ) → 1 ≤ count_pairs (colon ∷ colon ∷ text)
unfolding count_pairs
count_pairs-pair text = ground arith

compressed-pairs : (hs ts : List (List ℕ)) → All IsField hs → 1 ≤ count_pairs (compressed hs ts)
compressed-pairs [] ts h = count_pairs-pair (joined ts)
compressed-pairs (f ∷ fs) ts h =
    rw (count_pairs-joined f fs (colon ∷ colon ∷ joined ts) h) (count_pairs-pair (joined ts))

compressed-before :
    (hs ts : List (List ℕ)) → All IsField hs → colons_before (compressed hs ts) ≡ length hs - 1
unfolding colons_before
compressed-before [] ts h = ground arith
compressed-before (f ∷ fs) ts h = colons_before-joined f fs (joined ts) h ∙ omega arith

compressed-behind :
    (hs ts : List (List ℕ)) → All IsField hs → behind_pair (compressed hs ts) ≡ joined ts
unfolding behind_pair
compressed-behind [] ts h = refl
compressed-behind (f ∷ fs) ts h = behind_pair-joined f fs (joined ts) h

compressed-standard :
    (hs ts : List (List ℕ))
    → All IsField hs
    → All IsField ts
    → is_v6_type_standard (compressed hs ts) ≡ true
unfolding is_v6_type_standard
compressed-standard hs ts h k =
    standard-joined hs (colon ∷ colon ∷ joined ts) h
    ∙ ap is_v6_type_standard (sym (append-nil (joined ts)))
    ∙ standard-joined ts [] k

joined-colons : (ts : List (List ℕ)) → All IsField ts → count_colons (joined ts) ≡ length ts - 1
unfolding count_colons
joined-colons [] h = refl
joined-colons (f ∷ fs) h = count_colons-joined f fs h ∙ omega arith

compressed-ends : (hs ts : List (List ℕ)) → All IsField ts → ends_alone (compressed hs ts) ≡ false
compressed-ends hs [] h = ends_alone-pair (joined hs)
compressed-ends hs (f ∷ fs) h =
    ap ends_alone (sym (append_assoc (joined hs) (colon ∷ colon ∷ []) (joined (f ∷ fs))))
    ∙ ends_alone-joined (joined hs ++ colon ∷ colon ∷ []) f fs h

pub compressed-Facts :
    (hs ts : List (List ℕ))
    → All IsField hs
    → All IsField ts
    → length hs + length ts ≤ 7
    → Facts (compressed hs ts) hs ts
unfolding behind_zeros ◌-ℤ◌
compressed-Facts hs ts h k b = record {
  pairs = compressed-pairs hs ts h;
  before = compressed-before hs ts h;
  behind = compressed-behind hs ts h;
  zeros_end =
      rw
        (
          compressed-standard hs ts h k,
          compressed-behind hs ts h,
          joined-colons ts k,
          compressed-ends hs ts k,
        )
        (ground arith);
}

get_elem-append :
    (xs ys : List (List ℕ)) (i : ℕ) (f : List ℕ)
    → get_elem? (xs ++ ys) i ≡ some f
    → (get_elem? xs i ≡ some f) ⊎ ((j : ℕ) × (i ≡ length xs + j) × (get_elem? ys j ≡ some f))
get_elem-append [] ys i f e = inr (i, omega arith, e)
get_elem-append (x ∷ xs) ys zero f e = inl e
get_elem-append (x ∷ xs) ys (suc i) f e = elim (get_elem-append xs ys i f e) [
  | inl q ↦ inl q
  | inr (j, b, q) ↦ inr (j, omega arith, q)
]

get_elem-zeros : (n i : ℕ) (f : List ℕ) → get_elem? (zeros n) i ≡ some f → f ≡ digit_0 ∷ []
get_elem-zeros zero i f e = ground arith
get_elem-zeros (suc n) zero f e = ground arith
get_elem-zeros (suc n) (suc i) f e = get_elem-zeros n i f e

length-zeros : (n : ℕ) → length (zeros n) ≡ n
length-zeros zero = refl
length-zeros (suc n) = omega (arith, length-zeros n)

pub place :
    (hs ts : List (List ℕ)) (i : ℕ) (f : List ℕ)
    → length hs + length ts ≤ 7
    → get_elem? (expanded hs ts) i ≡ some f
    → Place hs ts i f
place hs ts i f b e =
    let gap = 8 - length hs - length ts in
    elim (get_elem-append hs (zeros gap ++ ts) i f e) [
      | inl q ↦ Place.head (get_elem-lt hs i f q) q
      | inr (j, c, q) ↦ elim (get_elem-append (zeros gap) ts j f q) [
        | inl r ↦
            Place.middle (omega arith)
              (omega (arith, get_elem-lt (zeros gap) j f r, length-zeros gap))
              (get_elem-zeros gap j f r)
        | inr (l, d, r) ↦ Place.tail l (omega (arith, length-zeros gap)) r
      ]
    ]
