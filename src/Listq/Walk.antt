-- ===== src/Listq/Walk.antt =====
-- listq_size, listq_head, listq_next and listq_getData: reading a list. The walk is the loop by
-- which test_cpp/src/queue.c prints one.
use nettool.Base.{
  ℕ, zero, suc, pos, ◌<◌, ◌≡◌, ◌≢◌, refl, false, some, List, [], ◌∷◌, arith, ◌==◌, length,
  if◌then◌else◌,
}
use nettool.Listq.Heap.{
  Ptr, null, Slot, next_of, Item, Heap, done, load_container-done, load_item-done, ◌>>=◌,
}
use nettool.Listq.Ops.{size, head, next, get_data, walk}
use nettool.Listq.Queue.{Cells, first, Linked, IsQueue}

-- The data of a queue, in order, less the null pointers.
abbrev pub contents : Cells → List Ptr
contents [] = []
contents ((p, d) ∷ xs) = if d == null then contents xs else d ∷ contents xs

-- listq_size answers the number of items, and changes nothing.
pub size-length :
    (h : Heap) (c : Ptr) (xs : Cells) → IsQueue h c xs → size c h ≡ done (pos (length xs)) h
unfolding size
size-length h c xs q =
    let nc : (c == null) ≡ false = ground (arith, q.ne_null) in
    rw (nc, load_container-done h c q.held)

module _ (h : Heap) (p : Ptr) {i : Item} (ne : p ≢ null) (at : h.items p ≡ some i) where
  next-done : next p h ≡ done i.tqe_next h
  unfolding next
  next-done = let np : (p == null) ≡ false = ground arith in rw (np, load_item-done h p at)

  pub get_data-done : get_data p h ≡ done i.p_data h
  unfolding get_data
  get_data-done = let np : (p == null) ≡ false = ground arith in rw (np, load_item-done h p at)

walk-contents :
    (fuel : ℕ) (h : Heap) (c : Ptr) (s : Slot) (xs : Cells)
    → Linked h.items c s xs
    → length xs < fuel
    → walk fuel (first xs) h ≡ done (contents xs) h
unfolding walk
walk-contents zero h c s xs l enough = absurd (omega arith)
walk-contents (suc fuel) h c s [] l enough = refl
walk-contents (suc fuel) h c s ((p, d) ∷ xs) (at, ne, out, l) enough =
    let np : (p == null) ≡ false = ground arith in
    rw (
      np,
      get_data-done h p ne at,
      next-done h p ne at,
      walk-contents fuel h c (next_of p) xs l (omega arith),
    )

-- Reading a list: listq_size answers the number of its items, and the walk from listq_head on by
-- listq_next, given more rounds than there are items, collects what listq_getData answers for
-- each item in order, null data left out. Neither changes the memory.
pub read_queue :
    (fuel : ℕ) (h : Heap) (c : Ptr) (xs : Cells)
    → IsQueue h c xs
    → length xs < fuel
    → (size c h ≡ done (pos (length xs)) h) × ((head c >>= walk fuel) h ≡ done (contents xs) h)
unfolding head
read_queue fuel h c xs q enough = (
  size-length h c xs q,
  rw (load_container-done h c q.held) (walk-contents fuel h c _ xs q.linked enough),
)
