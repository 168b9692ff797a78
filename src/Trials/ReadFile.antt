-- ===== src/Trials/ReadFile.antt =====
-- test_cpp/src/WaitGpio.c: CheckReadFile, which reads the events of a file for ever, and on each
-- modification what is in the file, into the buffer of the events.
pub mod Ends
use nettool.Base.{
  ℕ, zero, suc, ◌+◌, ◌*◌, ◌/◌, ◌%◌, ◌^◌, Bool, not, ltb, ◌==◌, if◌then◌else◌, List, [], ◌∷◌, length,
  Option, none, some, ℤ, pos, negsuc, minus_one, ltb_ℤ,
}

-- The bytes of ReadBuffer, of which there are BUF_LEN, 2720.
abbrev pub Bytes : Type 0
Bytes = ℕ → ℕ

-- A member of 32 bits, the lowest byte first.
abbrev pub word : Bytes → ℕ → ℕ
word b p = b p + 2 ^ 8 * b (p + 1) + 2 ^ 16 * b (p + 2) + 2 ^ 24 * b (p + 3)

-- The members mask and len of the inotify_event at an offset; its size is 16.
abbrev pub is_modified : Bytes → ℕ → Bool
is_modified b p = (word b (p + 4) / 2) % 2 == 1

abbrev pub name_length : Bytes → ℕ → ℕ
name_length b p = word b (p + 12)

-- Bytes stored at the start.
unfoldable pub store : List ℕ → Bytes → Bytes
store [] b i = b i
store (x ∷ bytes) b zero = x
store (x ∷ bytes) b (suc i) = store bytes (λ j. b (suc j)) i

-- The text at the start, of which at most some bytes are not 0.
unfoldable pub text_of : Bytes → ℕ → List ℕ
text_of b zero = []
text_of b (suc left) =
    let rest = text_of (λ i. b (suc i)) left in if b 0 == 0 then [] else b 0 ∷ rest

-- What the system answers on a modification: the result of ioctl and the bytes it counts, and the
-- bytes that read stores, or nothing where it fails.
pub record Answer : Type 0 where
  pub code : ℤ
  pub available : ℤ
  pub content : Option (List ℕ)

-- What is printed, and the file cut off.
pub data Note : Type 0 where
  passage read_zero read_failed truncated : Note
  modified : ℤ → List ℕ → Note

-- The buffer after some modifications, with the notes, the latest first; undefined behaviour; or
-- out of fuel.
pub data Walk : Type 0 where
  walked : Bytes → ℕ → List Note → Walk
  undefined unfinished : Walk

-- A byte 0 at the index `res - 1`, and the line.
unfoldable pub end_text : ℤ → Bytes → ℕ → List Note → Walk
end_text (pos zero) b k notes = Walk.undefined
end_text (negsuc n) b k notes = Walk.undefined
end_text (pos (suc n)) b k notes =
    let ended : Bytes = λ i. if i == n then 0 else b i in
    if ltb n 2720
    then walked ended (k + 1) (modified (pos (suc n)) (text_of ended n) ∷ notes)
    else Walk.undefined

-- The read of the file, and what follows it.
abbrev pub read_file : Option (List ℕ) → Bytes → ℕ → List Note → Walk
read_file none b k notes = end_text minus_one b k (truncated ∷ notes)
read_file (some bytes) b k notes =
    if ltb 2720 (length bytes)
    then Walk.undefined
    else end_text (pos (length bytes)) (store bytes b) k (truncated ∷ notes)

-- The body of `if ( pInotifyEvent->mask & IN_MODIFY )`.
unfoldable pub modification : Answer → Bytes → ℕ → List Note → Walk
modification a b k notes =
    if ltb_ℤ (pos 0) a.available then read_file a.content b k notes else end_text a.code b k notes

-- What follows, where the code before it returns.
abbrev pub and_then : Walk → (Bytes → ℕ → List Note → Walk) → Walk
and_then (walked b k notes) rest = rest b k notes
and_then Walk.undefined rest = Walk.undefined
and_then Walk.unfinished rest = Walk.unfinished

-- The walk over the events of one read, from an offset on. The length of the name is read from
-- the buffer again after a modification.
unfoldable pub walk_events : (ℕ → Answer) → ℕ → ℕ → ℕ → Bytes → ℕ → List Note → Walk
walk_events answers zero read p b k notes = Walk.unfinished
walk_events answers (suc fuel) read p b k notes =
    if not (ltb p read)
    then walked b k notes
    else if ltb 2720 (p + 16)
    then Walk.undefined
    else and_then (if is_modified b p then modification (answers k) b k notes else walked b k notes)
        (λ b' k' notes'. walk_events answers fuel read (p + 16 + name_length b' p) b' k' notes')

-- The endless loop, from what each read of events answers: bytes, or nothing where it fails.
unfoldable pub read_rounds : (ℕ → Answer) → List (Option (List ℕ)) → Bytes → ℕ → List Note → Walk
read_rounds answers [] b k notes = walked b k notes
read_rounds answers (none ∷ reads) b k notes = read_rounds answers reads b k (read_failed ∷ notes)
read_rounds answers (some bytes ∷ reads) b k notes =
    let seen = if length bytes == 0 then read_zero ∷ notes else notes in
    and_then (walk_events answers (suc (length bytes)) (length bytes) 0 (store bytes b) k seen)
      (read_rounds answers reads)

-- CheckReadFile
unfoldable pub check_read_file : (ℕ → Answer) → List (Option (List ℕ)) → Walk
check_read_file answers reads = read_rounds answers reads (λ _. 0) 0 (passage ∷ [])
