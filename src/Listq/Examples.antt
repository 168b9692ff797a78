-- ===== src/Listq/Examples.antt =====
-- The theorems on lists at the three items of one list, and runs of the functions.
use nettool.Base.{
  List, ◌+◌, ℤ, Option, ◌+ℤ◌, ◌-ℤ◌, pos, ◌≡◌, refl, none, some, [], ◌∷◌, arith, ◌==◌, if◌then◌else◌,
  ◌++◌,
}
use nettool.Listq.Heap.{
  first_of, next_of, container, item, Heap, done, undefined, out_of_fuel, Cmd, Outcome, pure, ◌>>=◌,
  write, put_container, put_item, load_container, load_item, increment, decrement,
}
use nettool.Listq.Tailq.{tailq_init, tailq_insert_tail, tailq_remove}
use nettool.Listq.Ops.{
  create, add_tail, size, head, walk, remove_item, find_item, find_loop, release, clean, clean_loop,
}
use nettool.Listq.Queue.{Cells, IsQueue, Frame, Ensures}
use nettool.Listq.Add.{add_tail-append}
use nettool.Listq.Remove.{Gone, remove_item-early, remove_item-later}
use nettool.Listq.Session.{Op, session}
use nettool.Listq.Session.Answers.{session-answers}
use nettool.Listq.Walk.{read_queue}
use nettool.Listq.Client.{main_queue, main_queue_undefined}

-- The list at 1 holds the items at 2, 3 and 4, with data at 20, 30 and 40.
abbrev three : Heap
three = record {
  containers = λ p. if p == 1 then some (container 2 (next_of 4) (pos 3)) else none;
  items = λ p.
      if p == 2
      then some (item 3 (first_of 1) 20 1)
      else if p == 3
      then some (item 4 (next_of 2) 30 1)
      else if p == 4
      then some (item 0 (next_of 3) 40 1)
      else none;
}

abbrev cells : Cells
cells = (2, 20) ∷ (3, 30) ∷ (4, 40) ∷ []

three-IsQueue : IsQueue three 1 cells
three-IsQueue = record {
  ne_null = omega arith;
  held = refl;
  linked = (refl, omega arith, refl, (refl, omega arith, refl, (refl, omega arith, refl, tt)));
}

abbrev no_memory : Heap
no_memory = record { containers = λ p. none; items = λ p. none }

add_tail-append_example :
    Ensures
      (λ a g.
        (a ≡ 5) × IsQueue g 1 (cells ++ ((5, 50) ∷ [])) × Frame 1 (cells ++ ((5, 50) ∷ [])) three g)
      (add_tail 5 1 50 three)
add_tail-append_example =
    add_tail-append three 1 cells 5 50 three-IsQueue (omega arith) (omega arith) refl (omega arith)

remove_item-early_example :
    Ensures
      (λ r g. (r ≡ pos 1) × Gone 1 3 ((2, 20) ∷ (4, 40) ∷ []) cells three g)
      (remove_item 2 1 3 three)
remove_item-early_example =
    remove_item-early three 1 3 2 30 ((2, 20) ∷ []) ((4, 40) ∷ []) three-IsQueue (omega arith)
      (omega arith)

remove_item-later_example : remove_item 1000 1 4 three ≡ out_of_fuel
remove_item-later_example =
    remove_item-later three 1 4 1000 (2, 20) (3, 30) ((4, 40) ∷ []) three-IsQueue refl

abbrev two_pushes : List Op
two_pushes =
    Op.push 20 ∷ Op.push 30 ∷ Op.push 0 ∷ Op.count ∷ Op.pop ∷ Op.push 40 ∷ Op.pop ∷ Op.count ∷ []

session-answers_example :
    session 9 1 (λ k. 2 + k) two_pushes no_memory
    ≡ done (pos 2 ∷ pos 20 ∷ pos 30 ∷ pos 1 ∷ []) no_memory
session-answers_example =
    session-answers no_memory 1 (λ k. 2 + k) 8 two_pushes (omega arith) refl
      (record {
        nonzero = λ k e. omega arith;
        unused = λ k. refl;
        distinct = λ i j l. ground arith;
      })
      (omega arith) (omega arith)

read_queue_example :
    (size 1 three ≡ done (pos 3) three)
    × ((head 1 >>= walk 4) three ≡ done (20 ∷ 30 ∷ 40 ∷ []) three)
read_queue_example = read_queue 4 three 1 cells three-IsQueue (omega arith)

main_queue_undefined_example : main_queue 3 1 2 3 20 30 no_memory ≡ undefined
main_queue_undefined_example =
    main_queue_undefined 3 no_memory 1 2 3 20 30 (omega arith) (omega arith) (omega arith)
      (omega arith) (omega arith) (omega arith) (omega arith) refl refl

-- A list that is built, cleaned and read again, as the C code would run it.
abbrev build_and_clean : Cmd (ℤ × ℤ × ℤ)
build_and_clean = do
  l ← create 1
  a ← add_tail 2 l 20
  b ← add_tail 3 l 30
  built ← size l
  code ← clean 9 l
  left ← size l
  pure (built, code, left)

abbrev answer : {A : Type 0} → Outcome A → Option A
answer (done a h) = some a
answer undefined = none
answer out_of_fuel = none

build_and_clean_runs : answer (build_and_clean no_memory) ≡ some (pos 2, pos 0, pos 0)
unfolding create add_tail size clean clean_loop remove_item find_item find_loop release tailq_init
    tailq_insert_tail tailq_remove write put_container put_item load_container load_item increment
    decrement ◌+ℤ◌ ◌-ℤ◌
build_and_clean_runs = refl
