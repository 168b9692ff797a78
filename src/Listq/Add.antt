-- ===== src/Listq/Add.antt =====
-- TAILQ_INSERT_TAIL and listq_add_tail put a new cell behind the queue.
use mathlib.Core.Option
use nettool.Base.{
  pos, ◌≡◌, ◌≢◌, refl, Bool, true, false, some, none, Option, [], ◌∷◌, ◌++◌, arith, ◌==◌, length,
  length-append, ◌∙◌, suc, ℕ, ℤ, ◌<◌, ◌+ℤ◌, if◌then◌else◌,
}
use nettool.Listq.Heap.{
  Ptr, null, Slot, first_of, next_of, Item, container, item, Heap, done, write, put_container,
  put_item, load_container, load_item, load_container-done, write-same, write-ne, increment,
}
use nettool.Listq.Tailq.{tailq_insert_tail}
use nettool.Listq.Ops.{add_tail}
use nettool.Listq.Queue.{
  Cells, has, first, last, Linked, IsQueue, Frame, Ensures, ensures, has-append, ne_of_has, ne_symm,
  not-has-append, Ensures-bind, Linked-write, last-append,
}

-- Is the slot the `tqe_next` of the item at `p`?
abbrev slot_is : Ptr → Slot → Bool
slot_is p (first_of c) = false
slot_is p (next_of b) = p == b

slot_is-last :
    (p : Ptr) (s : Slot) (xs : Cells)
    → slot_is p s ≡ false
    → has p xs ≡ false
    → slot_is p (last s xs) ≡ false
slot_is-last p s [] h out = h
slot_is-last p s ((q, d) ∷ xs) h out = slot_is-last p (next_of q) xs (ground arith) (ground arith)

abbrev point_to : Ptr → Item → Item
point_to a i = record i { tqe_next = a }

-- An item after the slot `s` was made to point to `a`.
abbrev relink : Ptr → Slot → Ptr → Option Item → Option Item
relink a s p o = if slot_is p s then Option.map (point_to a) o else o

-- A memory that holds a new last item `a`, and has the slot of the last one lead to it, holds
-- the longer list.
Linked-insert :
    (m g : Ptr → Option Item) (c a d : Ptr) (s : Slot) (xs : Cells)
    → Linked m c s xs
    → a ≢ null
    → has a xs ≡ false
    → g a ≡ some (item null (last s xs) d c)
    → ((p : Ptr) → has p xs ≡ true → g p ≡ relink a (last s xs) p (m p))
    → Linked g c s (xs ++ ((a, d) ∷ []))
Linked-insert m g c a d s [] l ne out new old = (new, ne, refl, tt)
Linked-insert m g c a d s ((p, e) ∷ []) (at, pne, pout, l) ne out new old =
    (ground (arith, old p), pne, ground arith, (new, ne, refl, tt))
Linked-insert m g c a d s ((p, e) ∷ (q, f) ∷ xs) (at, pne, pout, l) ne out new old = (
  ground (arith, old p, slot_is-last p (next_of q) xs),
  pne,
  ground (arith, has-append p ((q, f) ∷ xs) ((a, d) ∷ [])),
  Linked-insert m g c a d (next_of p) ((q, f) ∷ xs) l ne (ground arith) new
      (λ r i. old r (ground arith)),
)

-- The last item of a queue that is not empty, and the slot that it ends with.
Linked-last :
    (m : Ptr → Option Item) (c : Ptr) (s : Slot) (p e : Ptr) (xs : Cells)
    → Linked m c s ((p, e) ∷ xs)
    → (b : Ptr) × (sl : Slot) × (f : Ptr) × (last s ((p, e) ∷ xs) ≡ next_of b)
      × (m b ≡ some (item null sl f c))
      × (has b ((p, e) ∷ xs) ≡ true)
Linked-last m c s p e [] (at, _, _, _) = (p, s, e, refl, at, ground arith)
Linked-last m c s p e ((q, f) ∷ xs) (_, _, _, l) =
    let (b, sl, f', le, mb, hb) = Linked-last m c (next_of p) q f xs l in
    (b, sl, f', le, mb, ground arith)

pub not-has_of_none :
    (m : Ptr → Option Item) (c : Ptr) (s : Slot) (xs : Cells) (a : Ptr)
    → Linked m c s xs
    → m a ≡ none
    → has a xs ≡ false
not-has_of_none m c s [] a l h = refl
not-has_of_none m c s ((p, d) ∷ xs) a (at, _, _, l) h =
    ground (arith, not-has_of_none m c (next_of p) xs a l h)

-- After TAILQ_INSERT_TAIL: the container leads to the first item of the longer list and knows
-- the slot of the new one, and nothing outside the list has changed.
pub record Inserted (c a d : Ptr) (xs : Cells) (n : ℤ) (h g : Heap) : Type 0 where
  pub held : g.containers c ≡ some (container (first (xs ++ ((a, d) ∷ []))) (next_of a) n)
  pub linked : Linked g.items c (first_of c) (xs ++ ((a, d) ∷ []))
  pub same_containers : (p : Ptr) → (p == c) ≡ false → g.containers p ≡ h.containers p
  pub same_items : (p : Ptr) → has p (xs ++ ((a, d) ∷ [])) ≡ false → g.items p ≡ h.items p

write-relink :
    (m : Ptr → Option Item) (a b q : Ptr) (sl : Slot) (f c : Ptr) (x : Option Item)
    → m b ≡ some (item null sl f c)
    → (q == a) ≡ false
    → write (write m a x) b (some (item a sl f c)) q ≡ relink a (next_of b) q (m q)
unfolding write
write-relink m a b q sl f c x mb ne = ground arith

write-other :
    (m : Ptr → Option Item) (a b q : Ptr) (x y : Option Item)
    → (q == a) ≡ false
    → (q == b) ≡ false
    → write (write m a x) b y q ≡ m q
unfolding write
write-other m a b q x y na nb = rw (nb, na)

write-inner :
    (m : Ptr → Option Item) (a b : Ptr) (x y : Option Item)
    → (a == b) ≡ false
    → write (write m a x) b y a ≡ x
unfolding write
write-inner m a b x y ne = ground arith

module _ (h : Heap) (c a d : Ptr) (s : Slot) (nx : Ptr) (n : ℤ) where
  insert_empty :
      h.containers c ≡ some (container null (first_of c) n)
      → h.items a ≡ some (item nx s d c)
      → tailq_insert_tail c a h
        ≡ done tt (record {
          containers =
              write
                (write h.containers c (some (container a (first_of c) n)))
                c
                (some (container a (next_of a) n));
          items = write h.items a (some (item null (first_of c) d c));
        })
  unfolding tailq_insert_tail write put_container put_item load_container load_item
  insert_empty held at = ground arith

  insert_more :
      (p b : Ptr) (sl : Slot) (f : Ptr)
      → h.containers c ≡ some (container p (next_of b) n)
      → h.items a ≡ some (item nx s d c)
      → h.items b ≡ some (item null sl f c)
      → (b == a) ≡ false
      → tailq_insert_tail c a h
        ≡ done tt (record {
          containers = write h.containers c (some (container p (next_of a) n));
          items =
              write (write h.items a (some (item null (next_of b) d c))) b (some (item a sl f c));
        })
  unfolding tailq_insert_tail write put_container put_item load_container load_item
  insert_more p b sl f held at mb ne = ground arith

  Inserted-more :
      (p e b : Ptr) (sl : Slot) (f : Ptr) (xs : Cells)
      → Linked h.items c (first_of c) ((p, e) ∷ xs)
      → a ≢ null
      → has a ((p, e) ∷ xs) ≡ false
      → last (next_of p) xs ≡ next_of b
      → h.items b ≡ some (item null sl f c)
      → has b ((p, e) ∷ xs) ≡ true
      → Inserted c a d ((p, e) ∷ xs) n h (record {
        containers = write h.containers c (some (container p (next_of a) n));
        items = write (write h.items a (some (item null (next_of b) d c))) b (some (item a sl f c));
      })
  unfolding write
  Inserted-more p e b sl f xs l ne out le mb hb =
      let apart : (b == a) ≡ false = ne_of_has a b ((p, e) ∷ xs) hb out in
      record {
        held = ground arith;
        linked =
            Linked-insert h.items _ c a d (first_of c) ((p, e) ∷ xs) l ne out
              (rw le (write-inner h.items a b _ _ (ne_symm b a apart)))
              (λ q i.
                rw le (write-relink h.items a b q sl f c _ mb (ne_of_has a q ((p, e) ∷ xs) i out)));
        same_containers = λ q o. ground arith;
        same_items = λ q o.
            let (o', na) = not-has-append q a d ((p, e) ∷ xs) o in
            write-other h.items a b q _ _ na (ne_symm b q (ne_of_has q b ((p, e) ∷ xs) hb o'));
      }

  tailq_insert_tail-append :
      (xs : Cells)
      → h.containers c ≡ some (container (first xs) (last (first_of c) xs) n)
      → Linked h.items c (first_of c) xs
      → h.items a ≡ some (item nx s d c)
      → a ≢ null
      → has a xs ≡ false
      → Ensures (λ _ g. Inserted c a d xs n h g) (tailq_insert_tail c a h)
  unfolding write
  tailq_insert_tail-append [] held l at ne out = rw (insert_empty held at) (
      ensures (record {
        held = ground arith;
        linked = (ground arith, ne, refl, tt);
        same_containers = λ q o. ground arith;
        same_items = λ q o. ground arith;
      }))
  tailq_insert_tail-append ((p, e) ∷ xs) held l at ne out =
      let (b, sl, f, le, mb, hb) = Linked-last h.items c (first_of c) p e xs l in
      rw (insert_more p b sl f (rw le at held) at mb (ne_of_has a b ((p, e) ∷ xs) hb out))
        (ensures (Inserted-more p e b sl f xs l ne out le mb hb))

increment_size : (n : ℕ) (h : Heap) → n < 2147483647 → increment (pos n) h ≡ done (pos (suc n)) h
unfolding increment ◌+ℤ◌
increment_size n h lt = ground arith

-- listq_add_tail, given unused memory, puts the data behind the queue; it changes the list's
-- container and items only.
pub add_tail-append :
    (h : Heap) (c : Ptr) (xs : Cells) (fresh d : Ptr)
    → IsQueue h c xs
    → fresh ≢ null
    → d ≢ null
    → h.items fresh ≡ none
    → length xs < 2147483647
    → Ensures
        (λ a g.
          (a ≡ fresh)
          × IsQueue g c (xs ++ ((fresh, d) ∷ []))
          × Frame c (xs ++ ((fresh, d) ∷ [])) h g)
        (add_tail fresh c d h)
unfolding add_tail put_item put_container
add_tail-append h c xs fresh d q ne dne unused small =
    let nc : (c == null) ≡ false = ground (arith, q.ne_null) in
    let nd : (d == null) ≡ false = ground arith in
    let nf : (fresh == null) ≡ false = ground arith in
    let out = not-has_of_none h.items c (first_of c) xs fresh q.linked unused in
    rw (nc, nd, nf)
      (Ensures-bind
        (tailq_insert_tail-append _ c fresh d (first_of null) null _ xs q.held
          (Linked-write h.items c (first_of c) xs fresh _ q.linked out) (write-same h.items fresh _)
          ne out)
        λ a g ins.
          rw (load_container-done g c ins.held, increment_size (length xs) g small)
            (ensures (
              refl,
              record {
                ne_null = q.ne_null;
                held =
                    write-same g.containers c _
                    ∙ rw (last-append, length-append xs ((fresh, d) ∷ [])) (ground arith);
                linked = ins.linked;
              },
              record {
                same_containers = λ p o. write-ne g.containers c _ p o ∙ ins.same_containers p o;
                same_items = λ p o.
                    ins.same_items p o
                    ∙ write-ne h.items fresh _ p (not-has-append p fresh d xs o).1;
              },
            )))
