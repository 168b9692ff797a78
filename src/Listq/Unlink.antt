-- ===== src/Listq/Unlink.antt =====
-- TAILQ_REMOVE of the first and of the second item of a queue.
use nettool.Base.{ℤ, ◌≡◌, refl, ◌∙◌, false, some, Option, [], ◌∷◌, arith, ◌==◌}
use nettool.Listq.Heap.{
  Ptr, null, Slot, first_of, next_of, Item, container, item, Heap, done, write, write-same,
  write-ne, put_container, put_item, load_container, load_item,
}
use nettool.Listq.Tailq.{tailq_remove}
use nettool.Listq.Queue.{Cells, has, first, last, Linked, Ensures, ensures, Linked-write}

-- The container at `c` has come to hold `xs`, and nothing outside `whole` has changed.
pub record Removed (c : Ptr) (xs whole : Cells) (n : ℤ) (h g : Heap) : Type 0 where
  pub held : g.containers c ≡ some (container (first xs) (last (first_of c) xs) n)
  pub linked : Linked g.items c (first_of c) xs
  pub same_containers : (p : Ptr) → (p == c) ≡ false → g.containers p ≡ h.containers p
  pub same_items : (p : Ptr) → has p whole ≡ false → g.items p ≡ h.items p

-- A list whose first item is made to point back to another slot.
Linked-reprev :
    (m : Ptr → Option Item) (c : Ptr) (s t : Slot) (q f : Ptr) (zs : Cells)
    → Linked m c s ((q, f) ∷ zs)
    → Linked (write m q (some (item (first zs) t f c))) c t ((q, f) ∷ zs)
Linked-reprev m c s t q f zs (at, ne, out, l) =
    (write-same m q _, ne, out, Linked-write m c (next_of q) zs q _ l out)

module _ (h : Heap) (c a d : Ptr) (n : ℤ) (t : Slot) where
  remove_only :
      h.containers c ≡ some (container a t n)
      → h.items a ≡ some (item null (first_of c) d c)
      → tailq_remove c a h
        ≡ done tt (record h {
          containers =
              write
                (write h.containers c (some (container a (first_of c) n)))
                c
                (some (container null (first_of c) n));
        })
  unfolding tailq_remove write put_container put_item load_container load_item
  remove_only held at = ground arith

  remove_head :
      (q f : Ptr) (s : Slot) (r : Ptr)
      → (q == null) ≡ false
      → h.containers c ≡ some (container a t n)
      → h.items a ≡ some (item q (first_of c) d c)
      → h.items q ≡ some (item r s f c)
      → tailq_remove c a h
        ≡ done tt (record {
          containers = write h.containers c (some (container q t n));
          items = write h.items q (some (item r (first_of c) f c));
        })
  unfolding tailq_remove write put_container put_item load_container load_item
  remove_head q f s r ne held at atq = ground arith

  remove_end :
      (p e : Ptr) (s : Slot)
      → h.containers c ≡ some (container p t n)
      → h.items p ≡ some (item a s e c)
      → h.items a ≡ some (item null (next_of p) d c)
      → tailq_remove c a h
        ≡ done tt (record {
          containers = write h.containers c (some (container p (next_of p) n));
          items = write h.items p (some (item null s e c));
        })
  unfolding tailq_remove write put_container put_item load_container load_item
  remove_end p e s held atp at = ground arith

  remove_middle :
      (p e : Ptr) (s : Slot) (q f : Ptr) (u : Slot) (r : Ptr)
      → (q == null) ≡ false
      → (p == q) ≡ false
      → h.items p ≡ some (item a s e c)
      → h.items a ≡ some (item q (next_of p) d c)
      → h.items q ≡ some (item r u f c)
      → tailq_remove c a h
        ≡ done tt (record h {
          items = write (write h.items q (some (item r (next_of p) f c))) p (some (item q s e c));
        })
  unfolding tailq_remove write put_container put_item load_container load_item
  remove_middle p e s q f u r ne apart atp at atq = ground arith

module _ (h : Heap) (c a d : Ptr) (n : ℤ) where
  -- TAILQ_REMOVE of the first item leaves the rest.
  pub tailq_remove-first :
      (ys : Cells)
      → h.containers c ≡ some (container a (last (next_of a) ys) n)
      → Linked h.items c (first_of c) ((a, d) ∷ ys)
      → Ensures (λ _ g. Removed c ys ((a, d) ∷ ys) n h g) (tailq_remove c a h)
  tailq_remove-first [] held (at, ne, out, l) = rw (remove_only h c a d n _ held at) (
      ensures (record {
        held = write-same _ c _;
        linked = tt;
        same_containers = λ p o. write-ne _ c _ p o ∙ write-ne h.containers c _ p o;
        same_items = λ p o. refl;
      }))
  tailq_remove-first ((q, f) ∷ ys) held (at, ne, out, l) =
      let nq : (q == null) ≡ false = ground (arith, l.1) in
      rw (remove_head h c a d n _ q f (next_of a) (first ys) nq held at l.0) (
        ensures (record {
          held = write-same h.containers c _;
          linked = Linked-reprev h.items c (next_of a) (first_of c) q f ys l;
          same_containers = λ p o. write-ne h.containers c _ p o;
          same_items = λ p o. write-ne h.items q _ p (ground arith);
        }))

  -- TAILQ_REMOVE of the second item leaves the first and the rest.
  pub tailq_remove-second :
      (p e : Ptr) (ys : Cells)
      → h.containers c ≡ some (container p (last (next_of a) ys) n)
      → Linked h.items c (first_of c) ((p, e) ∷ (a, d) ∷ ys)
      → Ensures (λ _ g. Removed c ((p, e) ∷ ys) ((p, e) ∷ (a, d) ∷ ys) n h g) (tailq_remove c a h)
  tailq_remove-second p e [] held (at, ne, out, l) =
      rw (remove_end h c a d n _ p e (first_of c) held at l.0) (
        ensures (record {
          held = write-same h.containers c _;
          linked = (write-same h.items p _, ne, refl, tt);
          same_containers = λ r o. write-ne h.containers c _ r o;
          same_items = λ r o. write-ne h.items p _ r (ground arith);
        }))
  tailq_remove-second p e ((q, f) ∷ ys) held (at, ne, out, (ata, nea, outa, l)) =
      let nq : (q == null) ≡ false = ground (arith, l.1) in
      let apart : (p == q) ≡ false = ground arith in
      rw
        (remove_middle h c a d n (first_of c) p e (first_of c) q f (next_of a) (first ys) nq apart
          at ata l.0)
        (ensures (record {
          held = held;
          linked = (
            write-same _ p _,
            ne,
            ground arith,
            Linked-write _ c (next_of p) ((q, f) ∷ ys) p _
                (Linked-reprev h.items c (next_of a) (next_of p) q f ys l) (ground arith),
          );
          same_containers = λ r o. refl;
          same_items =
              λ r o. write-ne _ p _ r (ground arith) ∙ write-ne h.items q _ r (ground arith);
        }))
