-- ===== src/Listq/Find.antt =====
-- listq_FindItem: the first two items of a list are found, the search for a later one never ends.
use nettool.Base.{
  ℕ, zero, suc, ℤ, pos, ◌≡◌, ◌≢◌, refl, ◌∙◌, true, false, some, Option, [], ◌∷◌, arith, ◌==◌, inl,
  inr, Bool-cases,
}
use nettool.Listq.Heap.{
  Ptr, null, Slot, next_of, Item, container, item, Heap, done, out_of_fuel, load_container-done,
  load_item-done,
}
use nettool.Listq.Ops.{find_loop, find_item}
use nettool.Listq.Queue.{Cells, has, first, Linked, IsQueue, ne_symm, ne_of_has}

module _ (h : Heap) (l a : Ptr) where
  find_loop_stop : (fuel : ℕ) → a ≢ null → find_loop (suc fuel) l a a h ≡ done (pos 1) h
  unfolding find_loop
  find_loop_stop fuel ne =
      let na : (a == null) ≡ false = ground arith in
      let hit : (a == a) ≡ true = ground arith in rw (na, hit)

  -- Past an item that is not looked for, the search goes to the second item of the list.
  find_loop_step :
      (fuel : ℕ) (cur p q : Ptr) (t s : Slot) (n : ℤ) (e : Ptr)
      → cur ≢ null
      → (cur == a) ≡ false
      → h.containers l ≡ some (container p t n)
      → h.items p ≡ some (item q s e l)
      → find_loop (suc fuel) l a cur h ≡ find_loop fuel l a q h
  unfolding find_loop
  find_loop_step fuel cur p q t s n e ne miss held at =
      let nc : (cur == null) ≡ false = ground arith in
      rw (nc, miss, load_container-done h l held, load_item-done h p at)

  find_loop_stuck :
      (p q : Ptr) (t s : Slot) (n : ℤ) (e : Ptr)
      → q ≢ null
      → (q == a) ≡ false
      → h.containers l ≡ some (container p t n)
      → h.items p ≡ some (item q s e l)
      → (fuel : ℕ) → find_loop fuel l a q h ≡ out_of_fuel
  find_loop_stuck p q t s n e ne miss held at zero = unfold find_loop in refl
  find_loop_stuck p q t s n e ne miss held at (suc fuel) =
      find_loop_step fuel q p q t s n e ne miss held at
      ∙ find_loop_stuck p q t s n e ne miss held at fuel

  -- listq_FindItem enters its loop for an item that names the list as its container.
  find_item_loop :
      (fuel : ℕ) (q : Ptr) (s : Slot) (d : Ptr) (p : Ptr) (t : Slot) (n : ℤ)
      → l ≢ null
      → a ≢ null
      → h.items a ≡ some (item q s d l)
      → h.containers l ≡ some (container p t n)
      → find_item fuel l a h ≡ find_loop fuel l a p h
  unfolding find_item
  find_item_loop fuel q s d p t n nl na at held =
      let el : (l == null) ≡ false = ground arith in
      let ea : (a == null) ≡ false = ground arith in
      let own : (l == l) ≡ true = ground arith in
      rw (el, ea, load_item-done h a at, own, load_container-done h l held)

-- A member of a linked list is an item of its container.
pub item_of_has :
    (m : Ptr → Option Item) (c : Ptr) (s : Slot) (xs : Cells) (a : Ptr)
    → Linked m c s xs
    → has a xs ≡ true
    → (a ≢ null) × (q : Ptr) × (t : Slot) × (d : Ptr) × (m a ≡ some (item q t d c))
item_of_has m c s [] a l i = cc
item_of_has m c s ((p, d) ∷ xs) a (at, ne, out, l) i = elim (Bool-cases (a == p)) [
  | inl e ↦ (ground arith, first xs, s, d, ground arith)
  | inr e ↦ item_of_has m c (next_of p) xs a l (ground arith)
]

module _ (h : Heap) (c a : Ptr) where
  -- listq_FindItem finds the first item of a list in one round.
  pub find_item-first :
      (fuel : ℕ) (d : Ptr) (ys : Cells)
      → IsQueue h c ((a, d) ∷ ys)
      → find_item (suc fuel) c a h ≡ done (pos 1) h
  find_item-first fuel d ys q =
      let (at, ne, out, l) = q.linked in
      find_item_loop h c a (suc fuel) _ _ d _ _ _ q.ne_null ne at q.held
      ∙ find_loop_stop h c a fuel ne

  -- listq_FindItem finds the second item in two rounds.
  pub find_item-second :
      (fuel : ℕ) (p e d : Ptr) (ys : Cells)
      → IsQueue h c ((p, e) ∷ (a, d) ∷ ys)
      → find_item (suc (suc fuel)) c a h ≡ done (pos 1) h
  find_item-second fuel p e d ys q =
      let (at, ne, out, (ata, nea, outa, l)) = q.linked in
      let miss : (p == a) ≡ false = ground arith in
      find_item_loop h c a (suc (suc fuel)) _ _ d _ _ _ q.ne_null nea ata q.held
      ∙ find_loop_step h c a (suc fuel) p p a _ _ _ e ne miss q.held at
      ∙ find_loop_stop h c a fuel nea

  -- listq_FindItem never ends for an item from the third on.
  pub find_item-later :
      (fuel : ℕ) (p e q f : Ptr) (ys : Cells)
      → IsQueue h c ((p, e) ∷ (q, f) ∷ ys)
      → has a ys ≡ true
      → find_item fuel c a h ≡ out_of_fuel
  find_item-later fuel p e q f ys w i =
      let (at, ne, out, (atq, neq, outq, l)) = w.linked in
      let (nea, _, _, _, ata) = item_of_has h.items c (next_of q) ys a l i in
      let outp : has p ys ≡ false = ground arith in
      let miss_p : (p == a) ≡ false = ne_symm a p (ne_of_has p a ys i outp) in
      let miss_q : (q == a) ≡ false = ne_symm a q (ne_of_has q a ys i outq) in
      find_item_loop h c a fuel _ _ _ p _ _ w.ne_null nea ata w.held
      ∙ walk fuel (λ k.
        find_loop_step h c a k p p q _ _ _ e ne miss_p w.held at
        ∙ find_loop_stuck h c a p q _ _ _ e neq miss_q w.held at k)
    where
      walk :
          (n : ℕ)
          → ((k : ℕ) → find_loop (suc k) c a p h ≡ out_of_fuel)
          → find_loop n c a p h ≡ out_of_fuel
      walk zero s = unfold find_loop in refl
      walk (suc k) s = s k
