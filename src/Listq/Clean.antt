-- ===== src/Listq/Clean.antt =====
-- listq_create, listq_clean and listq_destroy: the life of a list.
use nettool.Base.{
  ℕ, zero, suc, pos, ◌<◌, ◌≡◌, ◌≢◌, refl, ◌∙◌, true, false, some, none, [], ◌∷◌, arith, ◌==◌,
  length, inl, inr, Bool-cases,
}
use nettool.Listq.Heap.{
  Ptr, null, first_of, container, Heap, write, write-same, write-ne, put_container,
  load_container-done,
}
use nettool.Listq.Tailq.{tailq_init}
use nettool.Listq.Ops.{create, clean_loop, clean, destroy}
use nettool.Listq.Queue.{
  Cells, has, first, IsQueue, Frame, Ensures, ensures, Ensures-bind, Ensures-mono,
}
use nettool.Listq.Remove.{Gone, remove_item-first}

-- Every item of `xs` was freed, and the list at `c` is empty.
pub record Emptied (c : Ptr) (xs : Cells) (h g : Heap) : Type 0 where
  pub queue : IsQueue g c []
  pub freed : (p : Ptr) → has p xs ≡ true → g.items p ≡ none
  pub frame : Frame c xs h g

-- One item freed, then the rest.
Emptied-cons :
    (c a d : Ptr) (ys : Cells) (h g k : Heap)
    → has a ys ≡ false
    → Gone c a ys ((a, d) ∷ ys) h g
    → Emptied c ys g k
    → Emptied c ((a, d) ∷ ys) h k
Emptied-cons c a d ys h g k out gone rest = record {
  queue = rest.queue;
  freed = λ p i. elim (Bool-cases (has p ys)) [
    | inl later ↦ rest.freed p later
    | inr not_later ↦
        let e : p ≡ a = ground arith in rw e (rest.frame.same_items a out ∙ gone.freed)
  ];
  frame = record {
    same_containers = λ p o. rest.frame.same_containers p o ∙ gone.frame.same_containers p o;
    same_items = λ p o. rest.frame.same_items p (ground arith) ∙ gone.frame.same_items p o;
  };
}

clean_loop_lem :
    (fuel : ℕ) (h : Heap) (c : Ptr) (xs : Cells)
    → IsQueue h c xs
    → length xs < fuel
    → Ensures (λ _ g. Emptied c xs h g) (clean_loop fuel c (first xs) h)
unfolding clean_loop
clean_loop_lem zero h c xs q enough = absurd (omega arith)
clean_loop_lem (suc fuel) h c [] q enough = ensures (record {
  queue = q;
  freed = λ p i. cc;
  frame = record { same_containers = λ p o. refl; same_items = λ p o. refl };
})
clean_loop_lem (suc fuel) h c ((a, d) ∷ ys) q enough =
    let (at, ne, out, l) = q.linked in
    let na : (a == null) ≡ false = ground arith in
    rw na (
      Ensures-bind (remove_item-first h c a fuel d ys q) λ _ g (_, gone).
        rw (load_container-done g c gone.queue.held) (
          Ensures-mono (clean_loop_lem fuel g c ys gone.queue (omega arith))
            λ _ k rest. Emptied-cons c a d ys h g k out gone rest))

-- listq_clean, given more rounds than there are items, answers 0, frees every item of the list
-- and leaves it empty; it changes nothing else.
pub clean-Emptied :
    (fuel : ℕ) (h : Heap) (c : Ptr) (xs : Cells)
    → IsQueue h c xs
    → length xs < fuel
    → Ensures (λ r g. (r ≡ pos 0) × Emptied c xs h g) (clean fuel c h)
unfolding clean put_container
clean-Emptied fuel h c xs q enough =
    let nc : (c == null) ≡ false = ground (arith, q.ne_null) in
    rw (nc, load_container-done h c q.held)
      (Ensures-bind (clean_loop_lem fuel h c xs q enough) λ _ g e.
        rw (load_container-done g c e.queue.held) (
          ensures (
            refl,
            record {
              queue = record {
                ne_null = q.ne_null;
                held = write-same g.containers c _;
                linked = tt;
              };
              freed = e.freed;
              frame = record {
                same_containers =
                    λ p o. write-ne g.containers c _ p o ∙ e.frame.same_containers p o;
                same_items = e.frame.same_items;
              };
            },
          )))

-- What listq_destroy leaves: neither the list nor any of its items.
pub record Destroyed (c : Ptr) (xs : Cells) (h g : Heap) : Type 0 where
  pub list_freed : g.containers c ≡ none
  pub items_freed : (p : Ptr) → has p xs ≡ true → g.items p ≡ none
  pub frame : Frame c xs h g

-- listq_destroy, given more rounds than there are items, answers 0 and frees the list and all
-- its items, and nothing else.
pub destroy-Destroyed :
    (fuel : ℕ) (h : Heap) (c : Ptr) (xs : Cells)
    → IsQueue h c xs
    → length xs < fuel
    → Ensures (λ r g. (r ≡ pos 0) × Destroyed c xs h g) (destroy fuel c h)
unfolding destroy put_container
destroy-Destroyed fuel h c xs q enough =
    let nc : (c == null) ≡ false = ground (arith, q.ne_null) in
    rw nc (
      Ensures-bind (clean-Emptied fuel h c xs q enough) λ r g (e, left). ensures (
        e,
        record {
          list_freed = write-same g.containers c none;
          items_freed = left.freed;
          frame = record {
            same_containers =
                λ p o. write-ne g.containers c none p o ∙ left.frame.same_containers p o;
            same_items = left.frame.same_items;
          };
        },
      ))

-- listq_create, given unused memory, answers it as an empty list, and changes no other list and
-- no item.
pub create-IsQueue :
    (h : Heap) (fresh : Ptr)
    → fresh ≢ null
    → Ensures (λ c g. (c ≡ fresh) × IsQueue g fresh [] × Frame fresh [] h g) (create fresh h)
unfolding create tailq_init put_container
create-IsQueue h fresh ne =
    let nf : (fresh == null) ≡ false = ground arith in
    let blank = container null (first_of null) (pos 0) in
    let k : Heap = record h { containers = write h.containers fresh (some blank) } in
    rw (nf, load_container-done k fresh (write-same h.containers fresh (some blank)))
      (ensures (
        refl,
        record { ne_null = ne; held = write-same _ fresh _; linked = tt },
        record {
          same_containers = λ p o. write-ne _ fresh _ p o ∙ write-ne h.containers fresh _ p o;
          same_items = λ p o. refl;
        },
      ))
