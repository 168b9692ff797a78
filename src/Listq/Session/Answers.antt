-- ===== src/Listq/Session/Answers.antt =====
-- The whole life of a list of listq.c against a list of its data.
use nettool.Base.{
  ℕ, suc, ◌<◌, ◌≤◌, ◌≡◌, ◌≢◌, refl, sym, ◌∙◌, Bool-cases, none, ◌==◌, List, [], length, arith, inl,
  inr,
}
use mathlib.Core.Path.{ap₂, fun_ext}
use nettool.Listq.Heap.{Ptr, null, Heap, Outcome, done}
use nettool.Listq.Queue.{Cells, has, Ensures, ensures, Ensures-bind}
use nettool.Listq.Clean.{Destroyed, destroy-Destroyed, create-IsQueue}
use nettool.Listq.Session.{Op, session, answers, IsFresh}
use nettool.Listq.Session.Steps.{Holding, steps-Ran}

same_heap :
    (g h : Heap)
    → ((p : Ptr) → g.containers p ≡ h.containers p)
    → ((p : Ptr) → g.items p ≡ h.items p)
    → g ≡ h
same_heap g h same_lists same =
    ap₂ (λ c i. record { containers = c; items = i }) (fun_ext same_lists) (fun_ext same)

exactly :
    {A : Type 0} {r : Outcome A} (x : A) (h : Heap)
    → Ensures (λ a g. (a ≡ x) × (g ≡ h)) r
    → r ≡ done x h
exactly x h (ensures (e, e')) = ap₂ done e e'

-- Nothing is left of a list that is destroyed.
swept :
    (h : Heap) (fresh : ℕ → Ptr) (c : Ptr) (k : ℕ) (xs : Cells) (g g' : Heap)
    → h.containers c ≡ none
    → Holding h fresh k c xs g
    → Destroyed c xs g g'
    → g' ≡ h
swept h fresh c k xs g g' free i gone =
    same_heap g' h
      (λ p. elim (Bool-cases (p == c)) [
        | inl here ↦ let same : p ≡ c = ground arith in rw same (gone.list_freed ∙ sym free)
        | inr away ↦ gone.frame.same_containers p away ∙ i.lists p away
      ])
      (λ p. elim (Bool-cases (has p xs)) [
        | inl mine ↦ gone.items_freed p mine ∙ sym (i.mine p mine)
        | inr other ↦ gone.frame.same_items p other ∙ i.others p other
      ])

-- A list is created, used by fewer than 2 ^ 31 - 1 calls that add to its end, take the item at its
-- front or ask for its size, in any order, and destroyed; no item behind the first is removed but by
-- listq_destroy. Where calloc answers memory that is not in use, another address each time, and the
-- loops have more rounds than there are calls: the client learns what it would from a list of its
-- data, without any undefined behaviour, and the memory is exactly what it was before.
pub session-answers :
    (h : Heap) (l : Ptr) (fresh : ℕ → Ptr) (fuel : ℕ) (ops : List Op)
    → l ≢ null
    → h.containers l ≡ none
    → IsFresh h fresh
    → length ops < 2147483647
    → length ops ≤ fuel
    → session (suc fuel) l fresh ops h ≡ done (answers ops []) h
unfolding session
session-answers h l fresh fuel ops ne free ok small enough = exactly (answers ops []) h (
    Ensures-bind (create-IsQueue h l ne) λ c g (e, q, frame).
      let start : Holding h fresh 0 l [] g = record {
        queue = q;
        others = λ p o. frame.same_items p o;
        mine = λ p there. cc;
        lists = frame.same_containers;
        next_free = λ j b. refl;
      } in
      rw e (
        Ensures-bind (steps-Ran h fresh ok l fuel 0 ops [] g start (omega arith))
          λ r g' (k, xs, told, few, i).
            Ensures-bind (destroy-Destroyed (suc fuel) g' l xs i.queue (omega arith))
              λ code g'' (e', gone). ensures (told, swept h fresh l k xs g' g'' free i gone)))
