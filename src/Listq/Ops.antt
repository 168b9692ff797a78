-- ===== src/Listq/Ops.antt =====
-- The functions of listq.c. `fresh` is the address that `calloc` returns, 0 when memory is short.
-- `fuel` bounds the rounds of the loops of `listq_FindItem` and `listq_clean`.
use nettool.Base.{
  ℕ, zero, suc, ℤ, pos, negsuc, minus_one, ◌||◌, not, none, some, ◌==◌, ◌==ℤ◌, if◌then◌else◌, List,
  [], ◌∷◌,
}
use nettool.Listq.Heap.{
  Ptr, null, first_of, container, item, Cmd, out_of_fuel, crash, pure, ◌>>=◌, ◌>>◌, put_container,
  put_item, load_container, load_item, increment, decrement,
}
use nettool.Listq.Tailq.{tailq_init, tailq_insert_tail, tailq_remove}

-- listq_create: the result of `calloc` is not tested before TAILQ_INIT uses it.
unfoldable pub create : Ptr → Cmd Ptr
create fresh = if fresh == null then crash else do
  put_container fresh (some (container null (first_of null) (pos 0)))
  tailq_init fresh
  pure fresh

-- listq_size
unfoldable pub size : Ptr → Cmd ℤ
size l = if l == null then pure minus_one else do c ← load_container l; pure c.m_size

-- listq_head: the list is not tested for NULL.
unfoldable pub head : Ptr → Cmd Ptr
head l = do c ← load_container l; pure c.tqh_first

-- listq_next
unfoldable pub next : Ptr → Cmd Ptr
next a = if a == null then pure null else do i ← load_item a; pure i.tqe_next

-- listq_getData
unfoldable pub get_data : Ptr → Cmd Ptr
get_data a = if a == null then pure null else do i ← load_item a; pure i.p_data

-- listq_add_tail: neither here is the result of `calloc` tested.
unfoldable pub add_tail : Ptr → Ptr → Ptr → Cmd Ptr
add_tail fresh l content =
    if (l == null) || (content == null) then pure null else if fresh == null then crash else do
      put_item fresh (some (item null (first_of null) content l))
      tailq_insert_tail l fresh
      c ← load_container l
      n ← increment c.m_size
      put_container l (some (record c { m_size = n }))
      pure fresh

-- The loop of listq_FindItem: the step is `pItem = pList->m_Listq.tqh_first->m_Entries.tqe_next`.
unfoldable pub find_loop : ℕ → Ptr → Ptr → Ptr → Cmd ℤ
find_loop zero l a cur = λ _. out_of_fuel
find_loop (suc fuel) l a cur =
    if cur == null
    then pure (pos 0)
    else if cur == a
    then pure (pos 1)
    else do c ← load_container l; i ← load_item c.tqh_first; find_loop fuel l a i.tqe_next

-- listq_FindItem
unfoldable pub find_item : ℕ → Ptr → Ptr → Cmd ℤ
find_item fuel l a = if (l == null) || (a == null) then pure minus_one else do
  i ← load_item a
  if not (i.p_container == l)
      then pure minus_one
      else do c ← load_container l; find_loop fuel l a c.tqh_first

-- The end of listq_removeItem: `memset`, `free` and `m_Size--`.
unfoldable pub release : Ptr → Ptr → Cmd (Unit {0})
release l a = do
  put_item a (some (item null (first_of null) null null))
  put_item a none
  c ← load_container l
  n ← decrement c.m_size
  put_container l (some (record c { m_size = n }))

-- listq_removeItem
unfoldable pub remove_item : ℕ → Ptr → Ptr → Cmd ℤ
remove_item fuel l a = if (l == null) || (a == null) then pure minus_one else do
  i ← load_item a
  if not (i.p_container == l) then pure minus_one else do
    found ← find_item fuel l a
    if found ==ℤ pos 0 then pure (negsuc 1) else do tailq_remove l a; release l a; pure found

-- The loop of listq_clean: what listq_removeItem returns is dropped.
unfoldable pub clean_loop : ℕ → Ptr → Ptr → Cmd (Unit {0})
clean_loop zero l cur = λ _. out_of_fuel
clean_loop (suc fuel) l cur =
    if cur == null
    then pure tt
    else do remove_item (suc fuel) l cur; c ← load_container l; clean_loop fuel l c.tqh_first

-- listq_clean
unfoldable pub clean : ℕ → Ptr → Cmd ℤ
clean fuel l = if l == null then pure minus_one else do
  c ← load_container l
  clean_loop fuel l c.tqh_first
  emptied ← load_container l
  put_container l (some (record emptied { m_size = pos 0 }))
  pure (pos 0)

-- listq_destroy
unfoldable pub destroy : ℕ → Ptr → Cmd ℤ
destroy fuel l =
    if l == null then pure minus_one else do code ← clean fuel l; put_container l none; pure code

-- listq_concat: not written yet in the source.
unfoldable pub concat : Ptr → Ptr → Cmd ℤ
concat l content = pure (pos 0)

-- listq_insert_after: not written yet in the source.
unfoldable pub insert_after : Ptr → Ptr → Cmd ℤ
insert_after l content = pure (pos 0)

-- The walk of test_cpp/src/queue.c: every item from `listq_head` on by `listq_next`, its data
-- taken by `listq_getData` and kept if it is not NULL.
unfoldable pub walk : ℕ → Ptr → Cmd (List Ptr)
walk zero cur = λ _. out_of_fuel
walk (suc fuel) cur = if cur == null then pure [] else do
  content ← get_data cur
  after ← next cur
  rest ← walk fuel after
  pure (if content == null then rest else content ∷ rest)
