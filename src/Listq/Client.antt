-- ===== src/Listq/Client.antt =====
-- test_cpp/src/queue.c: two items are added to a list, printed and removed, each more than once.
use nettool.Base.{ℕ, ◌≤◌, ◌≡◌, ◌≢◌, refl, ◌∙◌, none, List, [], ◌∷◌, arith}
use nettool.Listq.Heap.{Ptr, null, Heap, Cmd, undefined, pure, ◌>>=◌, ◌>>◌}
use nettool.Listq.Ops.{create, add_tail, remove_item, head, walk}
use nettool.Listq.Queue.{undefined_after}
use nettool.Listq.Add.{add_tail-append}
use nettool.Listq.Remove.{remove_item-early, remove_item_freed}
use nettool.Listq.Clean.{create-IsQueue}
use nettool.Listq.Walk.{read_queue}

-- Prints left out, the data of each walk are the result. `l`, `a` and `b` are what `calloc`
-- answers, `first_data` and `second_data` the addresses of the two local variables.
pub main_queue : ℕ → (l a b first_data second_data : Ptr) → Cmd (List Ptr × List Ptr × List Ptr)
main_queue fuel l a b first_data second_data = do
  list ← create l
  item1 ← add_tail a list first_data
  item2 ← add_tail b list second_data
  walk1 ← head list >>= walk fuel
  remove_item fuel list item2
  remove_item fuel list item2
  walk2 ← head list >>= walk fuel
  remove_item fuel list item1
  remove_item fuel list item1
  walk3 ← head list >>= walk fuel
  remove_item fuel list item1
  remove_item fuel list item1
  pure (walk1, walk2, walk3)

-- The second removal of an item reads freed memory: main_queue has undefined behaviour whatever
-- unused addresses `calloc` answers.
pub main_queue_undefined :
    (fuel : ℕ) (h : Heap) (l a b first_data second_data : Ptr)
    → 3 ≤ fuel
    → l ≢ null
    → a ≢ null
    → b ≢ null
    → b ≢ a
    → first_data ≢ null
    → second_data ≢ null
    → h.items a ≡ none
    → h.items b ≡ none
    → main_queue fuel l a b first_data second_data h ≡ undefined
unfolding main_queue
main_queue_undefined fuel h l a b d1 d2 enough nl na nb nab n1 n2 ua ub =
    undefined_after (create-IsQueue h l nl) λ c g1 (ec, q1, f1). rw ec (
      undefined_after
        (add_tail-append g1 l [] a d1 q1 na n1 (f1.same_items a refl ∙ ua) (omega arith))
        λ x g2 (ex, q2, f2).
          undefined_after
            (add_tail-append g2 l ((a, d1) ∷ []) b d2 q2 nb n2
              (f2.same_items b (ground arith) ∙ (f1.same_items b refl ∙ ub)) (omega arith))
            λ y g3 (ey, q3, f3).
              rw (ex, ey, (read_queue fuel g3 l ((a, d1) ∷ (b, d2) ∷ []) q3 enough).1)
                (undefined_after
                  (remove_item-early g3 l b fuel d2 ((a, d1) ∷ []) [] q3 (omega arith)
                    (omega arith))
                  λ r g4 (er, gone). rw (remove_item_freed g4 l b fuel nl nb gone.freed)))
