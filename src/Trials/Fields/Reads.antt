-- ===== src/Trials/Fields/Reads.antt =====
-- What getcolon reads from printed addresses, in full and with zeros left out.
use mathlib.Core.List.{append-nil}
use nettool.Base.{
  ℕ, zero, suc, ◌≤◌, ◌≡◌, refl, sym, ap, ◌∙◌, arith, List, [], ◌∷◌, length, get_elem?, All, some, ℤ,
  pos,
}
use nettool.Trials.Fields.{
  ◌>>=◌, count_pairs, skip_fields, copy_field, plain_field, compressed_field, behind_zeros,
  read_field, getcolon,
}
use nettool.Trials.Fields.Texts.{IsField, joined, field_at}
use nettool.Trials.Fields.Counts.{count_pairs-joined}

some_inj : {x y : List ℕ} → some x ≡ some y → x ≡ y
some_inj e = ground (arith, e)

no_pairs : count_pairs [] ≡ 0
unfolding count_pairs
no_pairs = refl

pub All-get_elem :
    (fs : List (List ℕ)) (i : ℕ) (f : List ℕ) → All IsField fs → get_elem? fs i ≡ some f → IsField f
All-get_elem [] i f h e = ground arith
All-get_elem (g ∷ fs) zero f (h, hs) e = let same = some_inj e in rw (← same) h
All-get_elem (g ∷ fs) (suc i) f (h, hs) e = All-get_elem fs i f hs e

joined_some : (f : List ℕ) (fs : List (List ℕ)) → IsField f → 1 ≤ length (joined (f ∷ fs))
joined_some f [] h = h.some_byte
joined_some [] (g ∷ fs) h = ground (arith, h.some_byte)
joined_some (c ∷ f) (g ∷ fs) h = omega arith

-- The count of pairs and the field at an index of an address in full.
full_count :
    (f : List ℕ) (fs : List (List ℕ)) → All IsField (f ∷ fs) → count_pairs (joined (f ∷ fs)) ≡ 0
unfolding count_pairs
full_count f fs h =
    ap count_pairs (sym (append-nil (joined (f ∷ fs)))) ∙ count_pairs-joined f fs [] h

pub full_field :
    (fs : List (List ℕ)) (i : ℕ) (f : List ℕ)
    → All IsField fs
    → get_elem? fs i ≡ some f
    → (skip_fields i (joined fs) >>= copy_field 0) ≡ some f
full_field fs i f h e =
    ap (λ t. skip_fields i t >>= copy_field 0) (sym (append-nil (joined fs)))
    ∙ field_at i fs f [] h e tt

module _ (strtol : List ℕ → ℤ) where
  pub read_field-field : (f : List ℕ) → IsField f → read_field strtol f ≡ some (strtol f)
  unfolding read_field
  read_field-field [] h = ground (arith, h.some_byte)
  read_field-field (c ∷ f) h = ground (arith, h.four_bytes)

  -- getcolon on a text that is not empty.
  getcolon_plain :
      (addr : List ℕ) (position : ℤ)
      → 1 ≤ length addr
      → count_pairs addr ≡ 0
      → getcolon strtol addr position ≡ (plain_field addr position >>= read_field strtol)
  unfolding getcolon
  getcolon_plain [] position h e = ground arith
  getcolon_plain (c ∷ text) position h e = rw e refl

  pub getcolon_compressed :
      (addr : List ℕ) (position : ℤ)
      → 1 ≤ count_pairs addr
      → getcolon strtol addr position
        ≡ (compressed_field addr (behind_zeros addr) position >>= read_field strtol)
  unfolding getcolon
  getcolon_compressed [] position h = ground (arith, no_pairs)
  getcolon_compressed (c ∷ text) position h = ground arith

-- getcolon reads field i of an address in full: fields of one to four bytes, without colons and
-- dots, with a colon between each two.
pub getcolon-joined :
    (strtol : List ℕ → ℤ) (fs : List (List ℕ)) (i : ℕ) (f : List ℕ)
    → All IsField fs
    → get_elem? fs i ≡ some f
    → getcolon strtol (joined fs) (pos i) ≡ some (strtol f)
unfolding plain_field
getcolon-joined strtol [] i f h e = ground arith
getcolon-joined strtol (g ∷ fs) i f h e =
    getcolon_plain strtol (joined (g ∷ fs)) (pos i) (joined_some g fs h.0) (full_count g fs h)
    ∙ rw (full_field (g ∷ fs) i f h e) (read_field-field strtol f (All-get_elem (g ∷ fs) i f h e))
