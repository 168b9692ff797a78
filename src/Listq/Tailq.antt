-- ===== src/Listq/Tailq.antt =====
-- The macros of <sys/queue.h> that listq.c uses. A store through a `Slot` is `*slot = p`.
use nettool.Base.{◌==◌, if◌then◌else◌, some}
use nettool.Listq.Heap.{
  Ptr, null, Slot, first_of, next_of, Cmd, ◌>>=◌, ◌>>◌, put_container, put_item, load_container,
  load_item,
}

unfoldable pub store_slot : Slot → Ptr → Cmd (Unit {0})
store_slot (first_of c) p = do
  head ← load_container c
  put_container c (some (record head { tqh_first = p }))
store_slot (next_of a) p = do elm ← load_item a; put_item a (some (record elm { tqe_next = p }))

-- head->tqh_first = NULL; head->tqh_last = &head->tqh_first
unfoldable pub tailq_init : Ptr → Cmd (Unit {0})
tailq_init c = do
  head ← load_container c
  put_container c (some (record head { tqh_first = null; tqh_last = first_of c }))

-- elm->next = NULL; elm->prev = head->tqh_last; *head->tqh_last = elm;
-- head->tqh_last = &elm->next
unfoldable pub tailq_insert_tail : Ptr → Ptr → Cmd (Unit {0})
unfolding store_slot
tailq_insert_tail c a = do
  head ← load_container c
  elm ← load_item a
  put_item a (some (record elm { tqe_next = null; tqe_prev = head.tqh_last }))
  store_slot head.tqh_last a
  linked ← load_container c
  put_container c (some (record linked { tqh_last = next_of a }))

-- if (elm->next != NULL) elm->next->prev = elm->prev; else head->tqh_last = elm->prev;
-- *elm->prev = elm->next
unfoldable pub tailq_remove : Ptr → Ptr → Cmd (Unit {0})
unfolding store_slot
tailq_remove c a = do
  elm ← load_item a
  (if elm.tqe_next == null
      then (do
        head ← load_container c
        put_container c (some (record head { tqh_last = elm.tqe_prev })))
      else (do
        after ← load_item elm.tqe_next
        put_item elm.tqe_next (some (record after { tqe_prev = elm.tqe_prev }))))
  store_slot elm.tqe_prev elm.tqe_next
