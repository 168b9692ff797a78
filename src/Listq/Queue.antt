-- ===== src/Listq/Queue.antt =====
-- What a container and its items stand for: the cells of a queue, in order; and what a run that
-- ends leaves behind.
use nettool.Base.{
  pos, ◌≡◌, ◌≢◌, refl, sym, ◌∙◌, Bool, true, false, ◌||◌, some, Option, List, [], ◌∷◌, ◌++◌, arith,
  ◌==◌, length,
}
use nettool.Listq.Heap.{
  Ptr, null, Slot, first_of, next_of, Item, container, item, Heap, Outcome, Cmd, done, undefined,
  continue_with, write, write-ne,
}

-- Address and data of each item, in order.
abbrev pub Cells : Type 0
Cells = List (Ptr × Ptr)

abbrev pub has : Ptr → Cells → Bool
has a [] = false
has a ((p, _) ∷ xs) = (a == p) || has a xs

-- The address of the first item, or null.
abbrev pub first : Cells → Ptr
first [] = null
first ((p, _) ∷ xs) = p

-- The slot that holds the null at the end, where the list starts behind the slot `s`.
abbrev pub last : Slot → Cells → Slot
last s [] = s
last s ((p, _) ∷ xs) = last (next_of p) xs

-- The items `xs` of the container `c` lie in memory, linked both ways, the first behind `s`.
abbrev pub Linked : (Ptr → Option Item) → Ptr → Slot → Cells → Type 0
Linked m c s [] = Unit {0}
Linked m c s ((p, d) ∷ xs) =
    (m p ≡ some (item (first xs) s d c))
    × (p ≢ null)
    × (has p xs ≡ false)
    × Linked m c (next_of p) xs

-- The container at `c` holds the queue `xs`, and knows its length.
pub record IsQueue (h : Heap) (c : Ptr) (xs : Cells) : Type 0 where
  pub ne_null : c ≢ null
  pub held : h.containers c ≡ some (container (first xs) (last (first_of c) xs) (pos (length xs)))
  pub linked : Linked h.items c (first_of c) xs

-- Memory `g` has the containers of `h` but for `c`, and the items of `h` but for those of `xs`.
pub record Frame (c : Ptr) (xs : Cells) (h g : Heap) : Type 0 where
  pub same_containers : (p : Ptr) → (p == c) ≡ false → g.containers p ≡ h.containers p
  pub same_items : (p : Ptr) → has p xs ≡ false → g.items p ≡ h.items p

pub has-append : (a : Ptr) (xs ys : Cells) → has a (xs ++ ys) ≡ (has a xs || has a ys)
has-append a [] ys = refl
has-append a ((p, d) ∷ xs) ys = ground (arith, has-append a xs ys)

pub Linked-frame :
    (m g : Ptr → Option Item) (c : Ptr) (s : Slot) (xs : Cells)
    → Linked m c s xs
    → ((p : Ptr) → has p xs ≡ true → g p ≡ m p)
    → Linked g c s xs
Linked-frame m g c s [] l same = tt
Linked-frame m g c s ((p, d) ∷ xs) (at, ne, out, l) same = (
  ground (arith, same p),
  ne,
  out,
  Linked-frame m g c (next_of p) xs l (λ a i. same a (ground arith)),
)

-- The run ends, without undefined behaviour and within its fuel, with a result as `P` says.
pub data Ensures {A : Type 0} (P : A → Heap → Type 0) : Outcome A → Type 0 where
  ensures : {a : A} {g : Heap} → P a g → Ensures P (done a g)

module _ {A : Type 0} {P : A → Heap → Type 0} where
  -- A bind: the second command starts where the first has ended.
  pub Ensures-bind :
      {B : Type 0} {Q : B → Heap → Type 0} {r : Outcome A} {k : A → Cmd B}
      → Ensures P r
      → ((a : A) (g : Heap) → P a g → Ensures Q (k a g))
      → Ensures Q (continue_with r k)
  Ensures-bind (ensures p) f = f _ _ p

  pub Ensures-mono :
      {Q : A → Heap → Type 0} {r : Outcome A}
      → Ensures P r
      → ((a : A) (g : Heap) → P a g → Q a g)
      → Ensures Q r
  Ensures-mono (ensures p) f = ensures (f _ _ p)

-- A bind whose second command is undefined wherever the first may end.
pub undefined_after :
    {A B : Type 0} {P : A → Heap → Type 0} {r : Outcome A} {k : A → Cmd B}
    → Ensures P r
    → ((a : A) (g : Heap) → P a g → k a g ≡ undefined)
    → continue_with r k ≡ undefined
undefined_after (ensures p) f = f _ _ p

pub ne_of_has : (a b : Ptr) (xs : Cells) → has b xs ≡ true → has a xs ≡ false → (b == a) ≡ false
ne_of_has a b xs i o = ground arith

pub ne_symm : (a b : Ptr) → (a == b) ≡ false → (b == a) ≡ false
ne_symm a b h = ground arith

or_false : (x y : Bool) → (x || y) ≡ false → (x ≡ false) × (y ≡ false)
or_false x y h = ground arith

-- What lies outside a longer list lies outside the list and is not the new item.
pub not-has-append :
    (a p d : Ptr) (xs : Cells)
    → has a (xs ++ ((p, d) ∷ [])) ≡ false
    → (has a xs ≡ false) × ((a == p) ≡ false)
not-has-append a p d xs h =
    let (l, r) =
      or_false (has a xs) (has a ((p, d) ∷ [])) (sym (has-append a xs ((p, d) ∷ [])) ∙ h) in
    (l, (or_false (a == p) false r).0)

pub Linked-write :
    (m : Ptr → Option Item) (c : Ptr) (s : Slot) (xs : Cells) (p : Ptr) (v : Option Item)
    → Linked m c s xs
    → has p xs ≡ false
    → Linked (write m p v) c s xs
Linked-write m c s xs p v l out =
    Linked-frame m _ c s xs l (λ q i. write-ne m p v q (ne_of_has p q xs i out))

pub last-append : (s : Slot) (xs : Cells) (a d : Ptr) → last s (xs ++ ((a, d) ∷ [])) ≡ next_of a
last-append s [] a d = refl
last-append s ((p, e) ∷ xs) a d = last-append (next_of p) xs a d
