-- ===== src/Trials/Fields/Counts.antt =====
-- What the counting loops of getcolon find in joined fields.
use mathlib.Core.List.{append-nil, append_assoc}
use nettool.Base.{ℕ, suc, ◌≡◌, refl, sym, ap, ◌∙◌, false, arith, List, [], ◌∷◌, ◌++◌, length, All}
use nettool.Trials.Fields.{
  colon, starts_colon, is_v6_type_standard, count_pairs, count_colons, colons_before, behind_pair,
}
use nettool.Trials.Fields.Texts.{IsPlain, IsField, joined}

-- One field in front of a text.
count_pairs-field : (f text : List ℕ) → All IsPlain f → count_pairs (f ++ text) ≡ count_pairs text
unfolding count_pairs
count_pairs-field [] text h = refl
count_pairs-field (c ∷ f) text (p, h) = ground (arith, count_pairs-field f text h)

count_colons-field :
    (f text : List ℕ) → All IsPlain f → count_colons (f ++ text) ≡ count_colons text
unfolding count_colons
count_colons-field [] text h = refl
count_colons-field (c ∷ f) text (p, h) = ground (arith, count_colons-field f text h)

colons_before-field :
    (f text : List ℕ) → All IsPlain f → colons_before (f ++ text) ≡ colons_before text
unfolding colons_before
colons_before-field [] text h = refl
colons_before-field (c ∷ f) text (p, h) = ground (arith, colons_before-field f text h)

behind_pair-field : (f text : List ℕ) → All IsPlain f → behind_pair (f ++ text) ≡ behind_pair text
unfolding behind_pair
behind_pair-field [] text h = refl
behind_pair-field (c ∷ f) text (p, h) = ground (arith, behind_pair-field f text h)

standard-field :
    (f text : List ℕ) → All IsPlain f → is_v6_type_standard (f ++ text) ≡ is_v6_type_standard text
unfolding is_v6_type_standard
standard-field [] text h = refl
standard-field (c ∷ f) text (p, h) = ground (arith, standard-field f text h)

starts_colon-field : (f text : List ℕ) → IsField f → starts_colon (f ++ text) ≡ false
starts_colon-field [] text h = ground (arith, h.some_byte)
starts_colon-field (c ∷ f) text h = ground (arith, h.plain)

starts_colon-joined :
    (f : List ℕ) (fs : List (List ℕ)) (text : List ℕ)
    → IsField f
    → starts_colon (joined (f ∷ fs) ++ text) ≡ false
starts_colon-joined f [] text h = starts_colon-field f text h
starts_colon-joined f (g ∷ fs) text h =
    rw (append_assoc f (colon ∷ joined (g ∷ fs)) text)
      (starts_colon-field f (colon ∷ joined (g ∷ fs) ++ text) h)

-- Joined fields in front of a text.
pub count_pairs-joined :
    (f : List ℕ) (fs : List (List ℕ)) (text : List ℕ)
    → All IsField (f ∷ fs)
    → count_pairs (joined (f ∷ fs) ++ text) ≡ count_pairs text
unfolding count_pairs
count_pairs-joined f [] text (h, hs) = count_pairs-field f text h.plain
count_pairs-joined f (g ∷ fs) text (h, (k, ks)) =
    rw
      (
        append_assoc f (colon ∷ joined (g ∷ fs)) text,
        count_pairs-field f (colon ∷ joined (g ∷ fs) ++ text) h.plain,
      )
      (ground (arith, starts_colon-joined g fs text k, count_pairs-joined g fs text (k, ks)))

pub standard-joined :
    (fs : List (List ℕ)) (text : List ℕ)
    → All IsField fs
    → is_v6_type_standard (joined fs ++ text) ≡ is_v6_type_standard text
unfolding is_v6_type_standard
standard-joined [] text h = refl
standard-joined (f ∷ []) text (h, hs) = standard-field f text h.plain
standard-joined (f ∷ g ∷ fs) text (h, hs) =
    rw
      (
        append_assoc f (colon ∷ joined (g ∷ fs)) text,
        standard-field f (colon ∷ joined (g ∷ fs) ++ text) h.plain,
      )
      (standard-joined (g ∷ fs) text hs)

pub count_colons-joined :
    (f : List ℕ) (fs : List (List ℕ))
    → All IsField (f ∷ fs)
    → count_colons (joined (f ∷ fs)) ≡ length fs
unfolding count_colons
count_colons-joined f [] (h, hs) =
    ap count_colons (sym (append-nil f)) ∙ count_colons-field f [] h.plain
count_colons-joined f (g ∷ fs) (h, hs) =
    rw (count_colons-field f (colon ∷ joined (g ∷ fs)) h.plain)
      (ap suc (count_colons-joined g fs hs))

pub colons_before-joined :
    (f : List ℕ) (fs : List (List ℕ)) (text : List ℕ)
    → All IsField (f ∷ fs)
    → colons_before (joined (f ∷ fs) ++ colon ∷ colon ∷ text) ≡ length fs
unfolding colons_before
colons_before-joined f [] text (h, hs) = colons_before-field f (colon ∷ colon ∷ text) h.plain
colons_before-joined f (g ∷ fs) text (h, (k, ks)) =
    rw
      (
        append_assoc f (colon ∷ joined (g ∷ fs)) (colon ∷ colon ∷ text),
        colons_before-field f (colon ∷ joined (g ∷ fs) ++ colon ∷ colon ∷ text) h.plain,
      )
      (ground (
        arith,
        starts_colon-joined g fs (colon ∷ colon ∷ text) k,
        colons_before-joined g fs text (k, ks),
      ))

pub behind_pair-joined :
    (f : List ℕ) (fs : List (List ℕ)) (text : List ℕ)
    → All IsField (f ∷ fs)
    → behind_pair (joined (f ∷ fs) ++ colon ∷ colon ∷ text) ≡ text
unfolding behind_pair
behind_pair-joined f [] text (h, hs) = behind_pair-field f (colon ∷ colon ∷ text) h.plain
behind_pair-joined f (g ∷ fs) text (h, (k, ks)) =
    rw
      (
        append_assoc f (colon ∷ joined (g ∷ fs)) (colon ∷ colon ∷ text),
        behind_pair-field f (colon ∷ joined (g ∷ fs) ++ colon ∷ colon ∷ text) h.plain,
      )
      (ground (
        arith,
        starts_colon-joined g fs (colon ∷ colon ∷ text) k,
        behind_pair-joined g fs text (k, ks),
      ))
