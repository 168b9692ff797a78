-- ===== src/Trials/Fields/Expansion.antt =====
-- getcolon on addresses that leave a run of zeros out: the branches by where the field stands.
use nettool.Base.{
  ℕ, ◌+◌, ◌-◌, ◌≤◌, ◌<◌, ◌≡◌, inl, inr, refl, sym, ap, ◌∙◌, Bool-cases, true, arith, ltb, leb,
  if◌then◌else◌, List, [], ◌∷◌, length, get_elem?, All, Option, some, ℤ, pos, pos_part, ◌-ℤ◌, leb_ℤ,
}
use nettool.Trials.Fields.{
  colon, digit_0, ◌>>=◌, colons_before, behind_pair, skip_fields, copy_field, plain_field,
  head_field, compressed_field, read_field, getcolon,
}
use nettool.Trials.Fields.Texts.{IsField, joined, field_at}
use nettool.Trials.Fields.Reads.{full_field, All-get_elem, read_field-field, getcolon_compressed}
use nettool.Trials.Fields.Compressed.{
  compressed, expanded, Place, Facts, get_elem-lt, compressed-Facts, place,
}

-- The branches of the part for addresses with zeros left out.
module _ (addr : List ℕ) (b i : ℕ) where
  head_field_early :
      i ≤ colons_before addr → head_field addr (pos b) (pos i) ≡ plain_field addr (pos i)
  unfolding head_field
  head_field_early h = ground arith

  head_field_late :
      colons_before addr < i
      → head_field addr (pos b) (pos i) ≡ some (if ltb i b then digit_0 ∷ [] else [])
  unfolding head_field
  head_field_late h = ground arith

  compressed_field_early :
      (str : List ℕ)
      → head_field addr (pos b) (pos i) ≡ some str
      → i < b
      → compressed_field addr (pos b) (pos i) ≡ some str
  unfolding compressed_field
  compressed_field_early str e h = rw e (ground arith)

  late_test : (j : ℕ) → i ≡ b + j → leb_ℤ (pos b) (pos i) ≡ true
  late_test j h = ground arith

  late_count : (j : ℕ) → i ≡ b + j → pos_part (pos i -ℤ pos b) ≡ j
  unfolding ◌-ℤ◌
  late_count j h = ground arith

  compressed_field_late :
      (str : List ℕ) (j : ℕ)
      → head_field addr (pos b) (pos i) ≡ some str
      → i ≡ b + j
      → compressed_field addr (pos b) (pos i) ≡ (skip_fields j (behind_pair addr) >>= copy_field 0)
  unfolding compressed_field
  compressed_field_late str j e h =
      let later = late_test j h in let count = late_count j h in rw (e, later, count) refl

-- The first field of a text that starts with "::".
empty_head :
    (hs ts : List (List ℕ)) → length hs ≡ 0 → plain_field (compressed hs ts) (pos 0) ≡ some []
unfolding plain_field skip_fields copy_field
empty_head [] ts e = ground arith
empty_head (f ∷ fs) ts e = ground arith

-- Behind an address without fields behind its zeros.
empty_tail :
    (ts : List (List ℕ)) → length ts ≡ 0 → (skip_fields 0 (joined ts) >>= copy_field 0) ≡ some []
unfolding skip_fields copy_field
empty_tail [] e = refl
empty_tail (f ∷ fs) e = ground arith

module _ (strtol : List ℕ → ℤ) (hs ts : List (List ℕ)) (i : ℕ) where
  abbrev behind_hs : ℕ
  behind_hs = 7 - (length ts - 1)

  abbrev field : Option ℤ
  field = compressed_field (compressed hs ts) (pos behind_hs) (pos i) >>= read_field strtol

  read_zero :
      (read_field strtol [] ≡ some (strtol (digit_0 ∷ [])))
      × (read_field strtol (digit_0 ∷ []) ≡ some (strtol (digit_0 ∷ [])))
  unfolding read_field
  read_zero = (refl, refl)

  head_of :
      (f : List ℕ)
      → All IsField hs
      → length hs + length ts ≤ 7
      → Facts (compressed hs ts) hs ts
      → i < length hs
      → get_elem? hs i ≡ some f
      → field ≡ some (strtol f)
  unfolding plain_field
  head_of f h b facts q e =
      let found =
        compressed_field_early (compressed hs ts) behind_hs i f
          (head_field_early (compressed hs ts) behind_hs i (omega (arith, facts.before))
            ∙ field_at i hs f (colon ∷ colon ∷ joined ts) h e refl)
          (omega arith) in
      rw found (read_field-field strtol f (All-get_elem hs i f h e))

  -- An index in the zeros: at the very start, before the fields behind, or at the very end.
  middle_of :
      length hs + length ts ≤ 7
      → i < 8
      → Facts (compressed hs ts) hs ts
      → length hs ≤ i
      → i + length ts < 8
      → field ≡ some (strtol (digit_0 ∷ []))
  middle_of b lt facts q r = elim (Bool-cases (leb i (length hs - 1))) [
    | inl e ↦
        let found =
          compressed_field_early (compressed hs ts) behind_hs i []
            (head_field_early (compressed hs ts) behind_hs i (ground (arith, facts.before))
              ∙ (ap (λ n. plain_field (compressed hs ts) (pos n)) (ground arith)
                  ∙ empty_head hs ts (ground arith)))
            (ground arith) in
        rw found read_zero.0
    | inr e ↦
        let late = head_field_late (compressed hs ts) behind_hs i (ground (arith, facts.before)) in
        elim (Bool-cases (ltb i behind_hs)) [
          | inl d ↦
              let found =
                compressed_field_early (compressed hs ts) behind_hs i (digit_0 ∷ [])
                  (late ∙ ground arith) (ground arith) in
              rw found read_zero.1
          | inr d ↦
              let found =
                compressed_field_late (compressed hs ts) behind_hs i [] 0 (late ∙ ground arith)
                  (ground arith) in
              rw (found, facts.behind, empty_tail ts (ground arith)) read_zero.0
        ]
  ]

  tail_of :
      (f : List ℕ)
      → All IsField ts
      → length hs + length ts ≤ 7
      → Facts (compressed hs ts) hs ts
      → (j : ℕ) → i + length ts ≡ j + 8
      → get_elem? ts j ≡ some f
      → field ≡ some (strtol f)
  tail_of f k b facts j q e =
      let found =
        compressed_field_late (compressed hs ts) behind_hs i [] j
          (head_field_late (compressed hs ts) behind_hs i (omega (arith, facts.before))
            ∙ ground arith)
          (omega (arith, get_elem-lt ts j f e)) in
      rw (found, facts.behind, full_field ts j f k e)
        (read_field-field strtol f (All-get_elem ts j f k e))

  field_of :
      (f : List ℕ)
      → All IsField hs
      → All IsField ts
      → length hs + length ts ≤ 7
      → i < 8
      → Facts (compressed hs ts) hs ts
      → Place hs ts i f
      → field ≡ some (strtol f)
  field_of f h k b lt facts (Place.head q e) = head_of f h b facts q e
  field_of f h k b lt facts (Place.middle q r e) =
      middle_of b lt facts q r ∙ ap (λ t. some (strtol t)) (sym e)
  field_of f h k b lt facts (Place.tail j q e) = tail_of f k b facts j q e

-- getcolon reads field i of an address that leaves a run of zeros out: up to seven fields stand in
-- front of "::" and behind it, and those between them are read as "0". No field has a colon or a
-- dot.
pub getcolon-compressed :
    (strtol : List ℕ → ℤ) (hs ts : List (List ℕ)) (i : ℕ) (f : List ℕ)
    → All IsField hs
    → All IsField ts
    → length hs + length ts ≤ 7
    → i < 8
    → get_elem? (expanded hs ts) i ≡ some f
    → getcolon strtol (compressed hs ts) (pos i) ≡ some (strtol f)
getcolon-compressed strtol hs ts i f h k b lt e =
    let facts = compressed-Facts hs ts h k b in
    getcolon_compressed strtol (compressed hs ts) (pos i) facts.pairs
    ∙ rw facts.zeros_end (field_of strtol hs ts i f h k b lt facts (place hs ts i f b e))
