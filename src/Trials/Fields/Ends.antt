-- ===== src/Trials/Fields/Ends.antt =====
-- The last byte of a text, and the test of getcolon for a single colon at the end.
use mathlib.Core.List.{append_assoc}
use nettool.Base.{ℕ, ◌≡◌, ◌≢◌, refl, ap, ◌∙◌, false, arith, List, [], ◌∷◌, ◌++◌, All}
use nettool.Trials.Fields.{colon, ends_alone}
use nettool.Trials.Fields.Texts.{IsPlain, IsField, joined}

abbrev last_byte : List ℕ → ℕ
last_byte [] = 0
last_byte (c ∷ []) = c
last_byte (c ∷ d ∷ text) = last_byte (d ∷ text)

ends_alone-last_byte : (text : List ℕ) → last_byte text ≢ colon → ends_alone text ≡ false
unfolding ends_alone
ends_alone-last_byte [] h = refl
ends_alone-last_byte (b ∷ []) h = refl
ends_alone-last_byte (b ∷ c ∷ []) h = ground arith
ends_alone-last_byte (b ∷ c ∷ d ∷ text) h = ends_alone-last_byte (c ∷ d ∷ text) h

last_byte-append :
    (xs : List ℕ) (y : ℕ) (ys : List ℕ) → last_byte (xs ++ y ∷ ys) ≡ last_byte (y ∷ ys)
last_byte-append [] y ys = refl
last_byte-append (x ∷ []) y ys = refl
last_byte-append (x ∷ z ∷ xs) y ys = last_byte-append (z ∷ xs) y ys

last_byte-field : (c : ℕ) (f : List ℕ) → All IsPlain (c ∷ f) → last_byte (c ∷ f) ≢ colon
last_byte-field c [] h = h.0.0
last_byte-field c (d ∷ f) h = last_byte-field d f h.1

-- Some text in front of joined fields.
last_byte-joined :
    (xs f : List ℕ) (fs : List (List ℕ))
    → All IsField (f ∷ fs)
    → last_byte (xs ++ joined (f ∷ fs)) ≢ colon
last_byte-joined xs [] [] h = λ _. ground (arith, h.0.some_byte)
last_byte-joined xs (c ∷ f) [] h = rw (last_byte-append xs c f) (last_byte-field c f h.0.plain)
last_byte-joined xs f (g ∷ fs) h =
    let rest = joined (g ∷ fs) in
    let e =
      append_assoc xs (f ++ colon ∷ []) rest
      ∙ ap (λ t. xs ++ t) (append_assoc f (colon ∷ []) rest) in
    λ q. last_byte-joined (xs ++ (f ++ colon ∷ [])) g fs h.1 (ap last_byte e ∙ q)

pub ends_alone-joined :
    (xs f : List ℕ) (fs : List (List ℕ))
    → All IsField (f ∷ fs)
    → ends_alone (xs ++ joined (f ∷ fs)) ≡ false
ends_alone-joined xs f fs h =
    ends_alone-last_byte (xs ++ joined (f ∷ fs)) (last_byte-joined xs f fs h)

pub ends_alone-pair : (xs : List ℕ) → ends_alone (xs ++ colon ∷ colon ∷ []) ≡ false
unfolding ends_alone
ends_alone-pair [] = refl
ends_alone-pair (x ∷ []) = refl
ends_alone-pair (x ∷ y ∷ []) = refl
ends_alone-pair (x ∷ y ∷ z ∷ xs) = ends_alone-pair (y ∷ z ∷ xs)
