-- ===== src/Listq/Session/Steps.antt =====
-- What the calls between listq_create and listq_destroy leave behind and answer.
use nettool.Base.{
  ℕ, suc, ℤ, pos, ◌+◌, ◌<◌, ◌≤◌, ◌≡◌, ◌≢◌, refl, sym, ap, ◌∙◌, Bool-cases, true, false, none, ◌||◌,
  ◌==◌, List, [], ◌∷◌, ◌++◌, length, length-append, arith, inl, inr,
}
use nettool.Listq.Heap.{Ptr, null, Heap, load_container-done}
use nettool.Listq.Ops.{add_tail, head, get_data, size, remove_item}
use nettool.Listq.Queue.{
  Cells, has, has-append, not-has-append, IsQueue, Frame, Ensures, ensures, Ensures-bind,
}
use nettool.Listq.Add.{add_tail-append}
use nettool.Listq.Remove.{Gone, remove_item-first}
use nettool.Listq.Walk.{size-length, get_data-done}
use nettool.Listq.Session.{
  Op, push, pop, count, step, steps, behind, learns, answers, data_of, data_of-append,
  length-data_of, IsFresh,
}

nonnull : (p : Ptr) → p ≢ null → (p == null) ≡ false
nonnull p ne = ground arith

-- Between two calls: the list stands in memory, its items where nothing was in the memory `h` from
-- before, which is otherwise as it was; the next addresses are not in the list.
pub record Holding (h : Heap) (fresh : ℕ → Ptr) (k : ℕ) (c : Ptr) (xs : Cells) (g : Heap)
    : Type 0 where
  pub queue : IsQueue g c xs
  pub others : (p : Ptr) → has p xs ≡ false → g.items p ≡ h.items p
  pub mine : (p : Ptr) → has p xs ≡ true → h.items p ≡ none
  pub lists : (p : Ptr) → (p == c) ≡ false → g.containers p ≡ h.containers p
  pub next_free : (j : ℕ) → k ≤ j → has (fresh j) xs ≡ false

module _ (h : Heap) (fresh : ℕ → Ptr) (ok : IsFresh h fresh) (c : Ptr) where
  -- What a call leaves behind and answers.
  abbrev Stepped : ℕ → Cells → Op → List ℤ → Heap → Type 0
  Stepped k xs op r g =
      (ys : Cells) × (r ≡ learns op (data_of xs))
      × (data_of ys ≡ behind op (data_of xs))
      × (length ys ≤ suc (length xs))
      × Holding h fresh (suc k) c ys g

  later :
      {k : ℕ} {xs : Cells} {g : Heap} → Holding h fresh k c xs g → Holding h fresh (suc k) c xs g
  later i = record {
    queue = i.queue;
    others = i.others;
    mine = i.mine;
    lists = i.lists;
    next_free = λ j l. i.next_free j (omega arith);
  }

  only_new :
      (p f d : Ptr) (xs : Cells) → has p xs ≡ false → has p (xs ++ ((f, d) ∷ [])) ≡ true → p ≡ f
  only_new p f d xs out i =
      let e : (has p xs || ((p == f) || false)) ≡ true = sym (has-append p xs ((f, d) ∷ [])) ∙ i in
      ground (arith, out, e)

  pushed :
      (k : ℕ) (d : Ptr) (xs : Cells) (g g' : Heap)
      → Holding h fresh k c xs g
      → IsQueue g' c (xs ++ ((fresh k, d) ∷ []))
      → Frame c (xs ++ ((fresh k, d) ∷ [])) g g'
      → Holding h fresh (suc k) c (xs ++ ((fresh k, d) ∷ [])) g'
  pushed k d xs g g' i q frame = record {
    queue = q;
    others = λ p o. frame.same_items p o ∙ i.others p (not-has-append p (fresh k) d xs o).0;
    mine = λ p there. elim (Bool-cases (has p xs)) [
      | inl old ↦ i.mine p old
      | inr new ↦ rw (only_new p (fresh k) d xs new there) (ok.unused k)
    ];
    lists = λ p o. frame.same_containers p o ∙ i.lists p o;
    next_free = λ j l.
        has-append (fresh j) xs ((fresh k, d) ∷ [])
        ∙ rw (i.next_free j (omega arith), ok.distinct k j l) refl;
  }

  push-Stepped :
      (fuel k : ℕ) (d : Ptr) (xs : Cells) (g : Heap)
      → Holding h fresh k c xs g
      → length xs < 2147483647
      → Ensures (Stepped k xs (push d)) (step fuel (fresh k) c (push d) g)
  unfolding step add_tail
  push-Stepped fuel k d xs g i small = elim (Bool-cases (d == null)) [
    | inl nothing ↦
        rw (nothing, nonnull c i.queue.ne_null)
          (ensures (xs, refl, rw nothing refl, omega arith, later i))
    | inr content ↦
        let there = i.others (fresh k) (i.next_free k (omega arith)) ∙ ok.unused k in
        Ensures-bind
          (add_tail-append g c xs (fresh k) d i.queue (ok.nonzero k) (ground arith) there small)
          λ a g' (e, q, frame). ensures (
            xs ++ ((fresh k, d) ∷ []),
            refl,
            rw content (data_of-append xs ((fresh k, d) ∷ [])),
            omega (arith, length-append xs ((fresh k, d) ∷ [])),
            pushed k d xs g g' i q frame,
          )
  ]

  popped :
      (k : ℕ) (a d : Ptr) (ys : Cells) (g g' : Heap)
      → Holding h fresh k c ((a, d) ∷ ys) g
      → Gone c a ys ((a, d) ∷ ys) g g'
      → Holding h fresh (suc k) c ys g'
  popped k a d ys g g' i gone = record {
    queue = gone.queue;
    others = λ p o. elim (Bool-cases (p == a)) [
      | inl here ↦
          let same : p ≡ a = ground arith in rw same (gone.freed ∙ sym (i.mine a (ground arith)))
      | inr away ↦
          let out : has p ((a, d) ∷ ys) ≡ false = ground arith in
          gone.frame.same_items p out ∙ i.others p out
    ];
    mine = λ p there. i.mine p (ground arith);
    lists = λ p o. gone.frame.same_containers p o ∙ i.lists p o;
    next_free = λ j l. ground (arith, i.next_free j (omega arith));
  }

  pop-Stepped :
      (fuel k : ℕ) (xs : Cells) (g : Heap)
      → Holding h fresh k c xs g
      → Ensures (Stepped k xs pop) (step (suc fuel) (fresh k) c pop g)
  unfolding step head remove_item get_data
  pop-Stepped fuel k [] g i =
      rw (load_container-done g c i.queue.held, nonnull c i.queue.ne_null)
        (ensures ([], refl, refl, omega arith, later i))
  pop-Stepped fuel k ((a, d) ∷ ys) g i =
      let (at, ne, out, l) = i.queue.linked in
      rw (load_container-done g c i.queue.held, get_data-done g a ne at)
        (Ensures-bind (remove_item-first g c a fuel d ys i.queue)
          λ r g' (e, gone). ensures (ys, refl, refl, omega arith, popped k a d ys g g' i gone))

  count-Stepped :
      (fuel k : ℕ) (xs : Cells) (g : Heap)
      → Holding h fresh k c xs g
      → Ensures (Stepped k xs count) (step fuel (fresh k) c count g)
  unfolding step
  count-Stepped fuel k xs g i =
      rw (size-length g c xs i.queue)
        (ensures (xs, ap (λ n. pos n ∷ []) (sym (length-data_of xs)), refl, omega arith, later i))

  step-Stepped :
      (fuel k : ℕ) (op : Op) (xs : Cells) (g : Heap)
      → Holding h fresh k c xs g
      → length xs < 2147483647
      → Ensures (Stepped k xs op) (step (suc fuel) (fresh k) c op g)
  step-Stepped fuel k (push d) xs g i small = push-Stepped (suc fuel) k d xs g i small
  step-Stepped fuel k pop xs g i small = pop-Stepped fuel k xs g i
  step-Stepped fuel k count xs g i small = count-Stepped (suc fuel) k xs g i

  -- What any number of calls leave behind and answer.
  abbrev pub Ran : ℕ → List Op → Cells → List ℤ → Heap → Type 0
  Ran size ops xs r g =
      (k : ℕ) × (ys : Cells) × (r ≡ answers ops (data_of xs))
      × (length ys ≤ size)
      × Holding h fresh k c ys g

  pub steps-Ran :
      (fuel k : ℕ) (ops : List Op) (xs : Cells) (g : Heap)
      → Holding h fresh k c xs g
      → length xs + length ops < 2147483647
      → Ensures (Ran (length xs + length ops) ops xs) (steps (suc fuel) fresh k c ops g)
  unfolding steps
  steps-Ran fuel k [] xs g i small = ensures (k, xs, refl, omega arith, i)
  steps-Ran fuel k (op ∷ ops) xs g i small =
      Ensures-bind (step-Stepped fuel k op xs g i (omega arith))
        λ r g' (ys, learned, left, short, i').
          Ensures-bind (steps-Ran fuel (suc k) ops ys g' i' (omega arith))
            λ r' g'' (k', zs, told, few, i'').
              ensures (k', zs, rw (learned, told, left) refl, omega arith, i'')
