-- ===== src/Listq/Session.antt =====
-- A list from listq_create to listq_destroy, with calls in between that add to its end, take from
-- its front and ask for its size.
pub mod Steps
pub mod Answers
use nettool.Base.{
  ℕ, suc, ℤ, pos, ◌<◌, ◌≡◌, ◌≢◌, refl, ap, false, none, ◌==◌, if◌then◌else◌, List, [], ◌∷◌, ◌++◌,
  length,
}
use nettool.Listq.Heap.{Ptr, null, Heap, Cmd, pure, ◌>>=◌}
use nettool.Listq.Ops.{create, add_tail, head, get_data, size, remove_item, destroy}
use nettool.Listq.Queue.{Cells}

-- listq_add_tail of some data; listq_head, listq_getData and listq_removeItem of the first item;
-- listq_size.
pub data Op : Type 0 where
  push : Ptr → Op
  pop count : Op

-- One of them, with the numbers that a client learns from it.
unfoldable pub step : ℕ → Ptr → Ptr → Op → Cmd (List ℤ)
step fuel fresh c (push d) = do a ← add_tail fresh c d; pure []
step fuel fresh c pop = do a ← head c; d ← get_data a; r ← remove_item fuel c a; pure (pos d ∷ [])
step fuel fresh c count = do n ← size c; pure (n ∷ [])

unfoldable pub steps : ℕ → (ℕ → Ptr) → ℕ → Ptr → List Op → Cmd (List ℤ)
steps fuel fresh k c [] = pure []
steps fuel fresh k c (op ∷ ops) = do
  answers ← step fuel (fresh k) c op
  rest ← steps fuel fresh (suc k) c ops
  pure (answers ++ rest)

-- The whole life of a list.
unfoldable pub session : ℕ → Ptr → (ℕ → Ptr) → List Op → Cmd (List ℤ)
session fuel fresh_list fresh ops = do
  c ← create fresh_list
  answers ← steps fuel fresh 0 c ops
  code ← destroy fuel c
  pure answers

-- The same on a list of data: null is not added, and the front of nothing is null.
abbrev pub behind : Op → List Ptr → List Ptr
behind (push d) q = if d == null then q else q ++ (d ∷ [])
behind pop [] = []
behind pop (d ∷ q) = q
behind count q = q

abbrev pub learns : Op → List Ptr → List ℤ
learns (push d) q = []
learns pop [] = pos null ∷ []
learns pop (d ∷ q) = pos d ∷ []
learns count q = pos (length q) ∷ []

abbrev pub answers : List Op → List Ptr → List ℤ
answers [] q = []
answers (op ∷ ops) q = learns op q ++ answers ops (behind op q)

-- The data of the cells.
abbrev pub data_of : Cells → List Ptr
data_of [] = []
data_of ((p, d) ∷ xs) = d ∷ data_of xs

pub data_of-append : (xs ys : Cells) → data_of (xs ++ ys) ≡ data_of xs ++ data_of ys
data_of-append [] ys = refl
data_of-append ((p, d) ∷ xs) ys = ap (λ r. d ∷ r) (data_of-append xs ys)

pub length-data_of : (xs : Cells) → length (data_of xs) ≡ length xs
length-data_of [] = refl
length-data_of (x ∷ xs) = ap suc (length-data_of xs)

-- calloc answers addresses of items that are not in use, another one each time.
pub record IsFresh (h : Heap) (fresh : ℕ → Ptr) : Type 0 where
  pub nonzero : (k : ℕ) → fresh k ≢ null
  pub unused : (k : ℕ) → h.items (fresh k) ≡ none
  pub distinct : (i j : ℕ) → i < j → (fresh j == fresh i) ≡ false
