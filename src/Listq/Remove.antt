-- ===== src/Listq/Remove.antt =====
-- listq_removeItem: the first two items of a list are removed; the search for a later one never
-- ends.
use nettool.Base.{
  ℕ, zero, suc, pos, negsuc, minus_one, ◌<◌, ◌≤◌, ◌++◌, ◌⊎◌, ◌==ℤ◌, ◌≡◌, ◌≢◌, refl, ◌∙◌, true,
  false, ◌||◌, some, none, [], ◌∷◌, arith, ◌==◌, length, ◌-ℤ◌, if◌then◌else◌, inl, inr, Bool-cases,
}
use nettool.Listq.Heap.{
  Ptr, null, Slot, first_of, next_of, Item, item, Heap, done, out_of_fuel, undefined, continue_with,
  pure, ◌>>◌, write, write-same, write-ne, put_container, put_item, load_container-done,
  load_item-done, load_item-none, decrement,
}
use nettool.Listq.Tailq.{tailq_remove}
use nettool.Listq.Ops.{find_item, release, remove_item}
use nettool.Listq.Queue.{
  Cells, has, IsQueue, Frame, Ensures, ensures, Ensures-bind, Linked-write, ne_symm, ne_of_has,
}
use nettool.Listq.Find.{item_of_has, find_item-first, find_item-second, find_item-later}
use nettool.Listq.Unlink.{Removed, tailq_remove-first, tailq_remove-second}

decrement_size : (n : ℕ) (h : Heap) → decrement (pos (suc n)) h ≡ done (pos n) h
unfolding decrement ◌-ℤ◌
decrement_size n h = ground arith

-- After the unlinking, the item is freed and the size is that of the list.
pub record Gone (c a : Ptr) (xs whole : Cells) (h g : Heap) : Type 0 where
  pub queue : IsQueue g c xs
  pub freed : g.items a ≡ none
  pub frame : Frame c whole h g

release_lem :
    (c a : Ptr) (xs whole : Cells) (h g : Heap)
    → Removed c xs whole (pos (suc (length xs))) h g
    → c ≢ null
    → has a xs ≡ false
    → has a whole ≡ true
    → Ensures (λ _ k. Gone c a xs whole h k) (release c a g)
unfolding release put_item put_container
release_lem c a xs whole h g rm ne out ins =
    let blank = item null (first_of null) null null in
    let k : Heap = record g { items = write (write g.items a (some blank)) a none } in
    rw (load_container-done k c rm.held, decrement_size (length xs))
      (ensures (record {
        queue = record {
          ne_null = ne;
          held = write-same _ c _;
          linked =
              Linked-write _ c (first_of c) xs a none
                (Linked-write g.items c (first_of c) xs a _ rm.linked out) out;
        };
        freed = write-same _ a none;
        frame = record {
          same_containers = λ p o. write-ne g.containers c _ p o ∙ rm.same_containers p o;
          same_items = λ p o.
              let na = ne_symm a p (ne_of_has p a whole ins o) in
              write-ne _ a none p na ∙ write-ne g.items a _ p na ∙ rm.same_items p o;
        };
      }))

module _ (h : Heap) (c a : Ptr) where
  -- The tests of listq_removeItem pass for an item of the list; the answer of the search decides.
  remove_item_pass :
      (fuel : ℕ) (q : Ptr) (s : Slot) (d : Ptr)
      → c ≢ null
      → a ≢ null
      → h.items a ≡ some (item q s d c)
      → remove_item fuel c a h
        ≡ continue_with (find_item fuel c a h) (λ found.
          if found ==ℤ pos 0
          then pure (negsuc 1)
          else (do tailq_remove c a; release c a; pure found))
  unfolding remove_item
  remove_item_pass fuel q s d nc na at =
      let ec : (c == null) ≡ false = ground arith in
      let ea : (a == null) ≡ false = ground arith in
      let own : (c == c) ≡ true = ground arith in rw (ec, ea, load_item-done h a at, own)

  -- listq_removeItem of an item that the search finds, and that TAILQ_REMOVE unlinks.
  remove_item_found :
      (fuel : ℕ) (q : Ptr) (s : Slot) (d : Ptr) (xs whole : Cells)
      → c ≢ null
      → a ≢ null
      → h.items a ≡ some (item q s d c)
      → find_item fuel c a h ≡ done (pos 1) h
      → Ensures (λ _ g. Removed c xs whole (pos (suc (length xs))) h g) (tailq_remove c a h)
      → has a xs ≡ false
      → has a whole ≡ true
      → Ensures (λ r g. (r ≡ pos 1) × Gone c a xs whole h g) (remove_item fuel c a h)
  remove_item_found fuel q s d xs whole nc na at found unlinked out ins =
      rw (remove_item_pass fuel q s d nc na at, found)
        (Ensures-bind unlinked λ _ g rm.
          Ensures-bind (release_lem c a xs whole h g rm nc out ins)
            λ _ k gone. ensures (refl, gone))

  -- listq_removeItem of the first item.
  pub remove_item-first :
      (fuel : ℕ) (d : Ptr) (ys : Cells)
      → IsQueue h c ((a, d) ∷ ys)
      → Ensures (λ r g. (r ≡ pos 1) × Gone c a ys ((a, d) ∷ ys) h g) (remove_item (suc fuel) c a h)
  remove_item-first fuel d ys q =
      let (at, ne, out, l) = q.linked in
      remove_item_found (suc fuel) _ _ d ys ((a, d) ∷ ys) q.ne_null ne at
        (find_item-first h c a fuel d ys q) (tailq_remove-first h c a d _ ys q.held q.linked) out
        (ground arith)

  remove_item-second :
      (fuel : ℕ) (p e d : Ptr) (ys : Cells)
      → IsQueue h c ((p, e) ∷ (a, d) ∷ ys)
      → Ensures
          (λ r g. (r ≡ pos 1) × Gone c a ((p, e) ∷ ys) ((p, e) ∷ (a, d) ∷ ys) h g)
          (remove_item (suc (suc fuel)) c a h)
  remove_item-second fuel p e d ys q =
      let (at, ne, out, (ata, nea, outa, l)) = q.linked in
      remove_item_found (suc (suc fuel)) _ _ d ((p, e) ∷ ys) _ q.ne_null nea ata
        (find_item-second h c a fuel p e d ys q)
        (tailq_remove-second h c a d _ p e ys q.held q.linked) (ground arith) (ground arith)

  -- listq_removeItem of the first or the second item of a list, given two rounds for its search,
  -- answers 1, leaves the other items in order and frees the item; it changes nothing outside the
  -- list.
  pub remove_item-early :
      (fuel : ℕ) (d : Ptr) (xs ys : Cells)
      → IsQueue h c (xs ++ ((a, d) ∷ ys))
      → length xs < 2
      → 2 ≤ fuel
      → Ensures
          (λ r g. (r ≡ pos 1) × Gone c a (xs ++ ys) (xs ++ ((a, d) ∷ ys)) h g)
          (remove_item fuel c a h)
  remove_item-early (suc (suc fuel)) d [] ys q short enough = remove_item-first (suc fuel) d ys q
  remove_item-early (suc (suc fuel)) d ((p, e) ∷ []) ys q short enough =
      remove_item-second fuel p e d ys q
  remove_item-early fuel d ((p, e) ∷ x ∷ xs) ys q short enough = absurd (omega arith)
  remove_item-early (suc zero) d xs ys q short enough = absurd (omega arith)
  remove_item-early zero d xs ys q short enough = absurd (omega arith)

  -- listq_removeItem of an item from the third on never ends, whatever the fuel.
  pub remove_item-later :
      (fuel : ℕ) (x y : Ptr × Ptr) (ys : Cells)
      → IsQueue h c (x ∷ y ∷ ys)
      → has a ys ≡ true
      → remove_item fuel c a h ≡ out_of_fuel
  remove_item-later fuel (p, e) (q, f) ys w i =
      let (nea, _, _, _, ata) = item_of_has h.items c (next_of q) ys a w.linked.3.3 i in
      rw (remove_item_pass fuel _ _ _ w.ne_null nea ata, find_item-later h c a fuel p e q f ys w i)

  -- listq_removeItem answers -1 and changes nothing where the list or the item is NULL, or the
  -- item belongs to another list.
  pub remove_item_refused :
      (fuel : ℕ)
      → (c ≡ null) ⊎ (a ≡ null) ⊎ ((i : Item) × (h.items a ≡ some i) × (i.p_container ≢ c))
      → remove_item fuel c a h ≡ done minus_one h
  unfolding remove_item
  remove_item_refused fuel (inl e) = rw e
  remove_item_refused fuel (inr (inl e)) = ground arith
  remove_item_refused fuel (inr (inr (i, at, ne))) =
      let foreign : (i.p_container == c) ≡ false = ground arith in
      elim (Bool-cases ((c == null) || (a == null))) [
        | inl e ↦ rw e
        | inr e ↦ rw (e, load_item-done h a at, foreign)
      ]

  -- An item that was freed is read all the same.
  pub remove_item_freed :
      (fuel : ℕ) → c ≢ null → a ≢ null → h.items a ≡ none → remove_item fuel c a h ≡ undefined
  unfolding remove_item
  remove_item_freed fuel nc na gone =
      let ec : (c == null) ≡ false = ground arith in
      let ea : (a == null) ≡ false = ground arith in rw (ec, ea, load_item-none h a gone)
