-- ===== src/Trials/Fields/Texts.antt =====
-- Printed fields, and how the loops of getcolon go over one of them.
use mathlib.Core.List.{append_assoc}
use nettool.Base.{
  ℕ, zero, suc, ◌+◌, ◌≤◌, ◌≡◌, ◌≢◌, refl, arith, List, [], ◌∷◌, ◌++◌, length, get_elem?, All, some,
}
use nettool.Trials.Fields.{colon, dot, ◌>>=◌, skip_fields, copy_field}

-- Neither a colon nor a dot.
abbrev pub IsPlain : ℕ → Type 0
IsPlain c = (c ≢ colon) × (c ≢ dot)

-- One to four bytes, none of them a colon or a dot.
pub record IsField (f : List ℕ) : Type 0 where
  pub some_byte : 1 ≤ length f
  pub four_bytes : length f ≤ 4
  pub plain : All IsPlain f

-- Fields with a colon between each two of them.
abbrev pub joined : List (List ℕ) → List ℕ
joined [] = []
joined (f ∷ []) = f
joined (f ∷ g ∷ fs) = f ++ colon ∷ joined (g ∷ fs)

-- The end of a text, or a colon.
abbrev pub IsEnding : List ℕ → Type 0
IsEnding [] = Unit
IsEnding (c ∷ text) = c ≡ colon

skip_fields-field :
    (n : ℕ) (f text : List ℕ)
    → All IsPlain f
    → skip_fields (suc n) (f ++ colon ∷ text) ≡ skip_fields n text
unfolding skip_fields
skip_fields-field n [] text h = ground arith
skip_fields-field n (c ∷ f) text (p, h) = ground (arith, skip_fields-field n f text h)

copy_field-field :
    (x : ℕ) (f text : List ℕ)
    → All IsPlain f
    → x + length f ≤ 5
    → IsEnding text
    → copy_field x (f ++ text) ≡ some f
unfolding copy_field
copy_field-field x [] [] h b e = refl
copy_field-field x [] (c ∷ text) h b e = ground arith
copy_field-field x (c ∷ f) text (p, h) b e =
    ground (arith, copy_field-field (x + 1) f text h (omega arith) e)

-- The field of an index of joined fields, which may have an ending.
pub field_at :
    (i : ℕ) (fs : List (List ℕ)) (f text : List ℕ)
    → All IsField fs
    → get_elem? fs i ≡ some f
    → IsEnding text
    → (skip_fields i (joined fs ++ text) >>= copy_field 0) ≡ some f
unfolding skip_fields
field_at i [] f text h e q = ground arith
field_at zero (g ∷ []) f text (h, hs) e q =
    ground (arith, copy_field-field 0 g text h.plain (omega (arith, h.four_bytes)) q)
field_at zero (g ∷ k ∷ fs) f text (h, hs) e q = rw (append_assoc g (colon ∷ joined (k ∷ fs)) text) (
    ground (
      arith,
      copy_field-field 0 g (colon ∷ joined (k ∷ fs) ++ text) h.plain (omega (arith, h.four_bytes))
          refl,
    ))
field_at (suc i) (g ∷ []) f text (h, hs) e q = ground arith
field_at (suc i) (g ∷ k ∷ fs) f text (h, hs) e q =
    rw
      (
        append_assoc g (colon ∷ joined (k ∷ fs)) text,
        skip_fields-field i g (joined (k ∷ fs) ++ text) h.plain,
      )
      (field_at i (k ∷ fs) f text hs e q)
