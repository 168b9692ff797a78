-- ===== src/Trials/ReadFile/Ends.antt =====
-- When the walk of CheckReadFile over its events ends, and what an empty file makes of it.
use nettool.Base.{
  ℕ, zero, suc, ◌+◌, ◌-◌, ◌≤◌, ◌<◌, ◌≡◌, refl, Bool, Bool-cases, inl, inr, true, false, ltb,
  if◌then◌else◌, List, [], ◌∷◌, length, Option, none, some, ℤ, pos, negsuc, minus_one, ltb_ℤ, arith,
}
use nettool.Trials.ReadFile.{
  Bytes, is_modified, name_length, store, Answer, Note, truncated, Walk, walked, end_text,
  read_file, modification, and_then, walk_events, read_rounds, check_read_file,
}

-- Out of fuel or not.
abbrev pub has_ended : Walk → Bool
has_ended (walked b k notes) = true
has_ended Walk.undefined = true
has_ended Walk.unfinished = false

has_ended-and_then :
    (w : Walk) (rest : Bytes → ℕ → List Note → Walk)
    → has_ended w ≡ true
    → ((b : Bytes) (k : ℕ) (notes : List Note) → has_ended (rest b k notes) ≡ true)
    → has_ended (and_then w rest) ≡ true
has_ended-and_then (walked b k notes) rest h r = r b k notes
has_ended-and_then Walk.undefined rest h r = refl
has_ended-and_then Walk.unfinished rest h r = h

has_ended-if :
    (c : Bool) (w v : Walk)
    → has_ended w ≡ true
    → has_ended v ≡ true
    → has_ended (if c then w else v) ≡ true
has_ended-if true w v h k = h
has_ended-if false w v h k = k

end_text-ended :
    (res : ℤ) (b : Bytes) (k : ℕ) (notes : List Note) → has_ended (end_text res b k notes) ≡ true
unfolding end_text
end_text-ended (pos zero) b k notes = refl
end_text-ended (negsuc n) b k notes = refl
end_text-ended (pos (suc n)) b k notes = has_ended-if (ltb n 2720) _ _ refl refl

read_file-ended :
    (content : Option (List ℕ)) (b : Bytes) (k : ℕ) (notes : List Note)
    → has_ended (read_file content b k notes) ≡ true
read_file-ended none b k notes = end_text-ended minus_one b k (truncated ∷ notes)
read_file-ended (some bytes) b k notes =
    has_ended-if (ltb 2720 (length bytes)) _ _ refl
      (end_text-ended (pos (length bytes)) (store bytes b) k (truncated ∷ notes))

modification-ended :
    (a : Answer) (b : Bytes) (k : ℕ) (notes : List Note)
    → has_ended (modification a b k notes) ≡ true
unfolding modification
modification-ended a b k notes =
    has_ended-if (ltb_ℤ (pos 0) a.available) _ _ (read_file-ended a.content b k notes)
      (end_text-ended a.code b k notes)

-- Each event moves on by 16 bytes or more, whatever its name's length has become.
pub walk_events-ended :
    (answers : ℕ → Answer) (fuel read p : ℕ) (b : Bytes) (k : ℕ) (notes : List Note)
    → read - p < fuel
    → has_ended (walk_events answers fuel read p b k notes) ≡ true
unfolding walk_events
walk_events-ended answers zero read p b k notes enough = absurd (omega arith)
walk_events-ended answers (suc fuel) read p b k notes enough = elim (Bool-cases (ltb p read)) [
  | inr stop ↦ rw stop refl
  | inl on ↦
      let inside : p < read = ground arith in
      rw on (
        has_ended-if (ltb 2720 (p + 16)) _ _ refl (
          has_ended-and_then _ _
            (has_ended-if (is_modified b p) _ _ (modification-ended (answers k) b k notes) refl)
            λ b' k' notes'.
              walk_events-ended answers fuel read (p + 16 + name_length b' p) b' k' notes'
                (omega arith)))
]

read_rounds-ended :
    (answers : ℕ → Answer) (reads : List (Option (List ℕ))) (b : Bytes) (k : ℕ) (notes : List Note)
    → has_ended (read_rounds answers reads b k notes) ≡ true
unfolding read_rounds
read_rounds-ended answers [] b k notes = refl
read_rounds-ended answers (none ∷ reads) b k notes = read_rounds-ended answers reads b k _
read_rounds-ended answers (some bytes ∷ reads) b k notes =
    has_ended-and_then _ (read_rounds answers reads)
      (walk_events-ended answers (suc (length bytes)) (length bytes) 0 (store bytes b) k _
        (omega arith))
      (read_rounds-ended answers reads)

-- CheckReadFile comes back to its read of events after every one of them, or its behaviour is
-- undefined: the fuel of a walk over events is enough.
pub check_read_file-ended :
    (answers : ℕ → Answer) (reads : List (Option (List ℕ)))
    → has_ended (check_read_file answers reads) ≡ true
unfolding check_read_file
check_read_file-ended answers reads = read_rounds-ended answers reads _ 0 _

first_modification :
    (a : Answer) (b : Bytes) (k : ℕ) (notes : List Note)
    → a.code ≡ pos 0
    → a.available ≡ pos 0
    → modification a b k notes ≡ Walk.undefined
unfolding modification end_text
first_modification a b k notes c e = rw e (rw c refl)

walk_empty :
    (answers : ℕ → Answer) (fuel read : ℕ) (b : Bytes) (notes : List Note)
    → 16 ≤ read
    → is_modified b 0 ≡ true
    → (answers 0).code ≡ pos 0
    → (answers 0).available ≡ pos 0
    → walk_events answers (suc fuel) read 0 b 0 notes ≡ Walk.undefined
unfolding walk_events
walk_empty answers fuel read b notes l m c e =
    let inside : ltb 0 read ≡ true = ground arith in
    rw inside (rw m (rw (first_modification (answers 0) b 0 notes c e) refl))

-- A first event of a modification, when the file is empty, has undefined behaviour: the byte in
-- front of the buffer is written.
pub check_read_file-empty :
    (answers : ℕ → Answer) (bytes : List ℕ) (reads : List (Option (List ℕ)))
    → 16 ≤ length bytes
    → is_modified (store bytes (λ _. 0)) 0 ≡ true
    → (answers 0).code ≡ pos 0
    → (answers 0).available ≡ pos 0
    → check_read_file answers (some bytes ∷ reads) ≡ Walk.undefined
unfolding check_read_file read_rounds
check_read_file-empty answers bytes reads l m c e =
    rw (walk_empty answers (length bytes) (length bytes) (store bytes (λ _. 0)) _ l m c e) refl
