-- ===== src/Nettool/Lookup.antt =====
-- ArrayFindItem finds the first item of a number.
use nettool.Base.{
  ℕ, zero, suc, ◌+◌, ◌<◌, ◌≤◌, ◌≡◌, ◌≢◌, refl, ◌==◌, inl, inr, Bool-cases, true, false, arith,
}
use nettool.Nettool.Tables.{ArrayFamily, array_find_item, find_item_loop, string_error}

is_other : (m n : ℕ) → m ≢ n → m == n ≡ false
is_other m n h = ground arith

is_same : (m n : ℕ) → m ≡ n → m == n ≡ true
is_same m n h = ground arith

find_item_loop-first :
    (a : ArrayFamily) (id left ii n : ℕ)
    → ii ≤ n
    → n < ii + left
    → ((i : ℕ) → i < n → (a.array i).id ≢ id)
    → (a.array n).id ≡ id
    → find_item_loop a id left ii ≡ (a.array n).name
unfolding find_item_loop
find_item_loop-first a id zero ii n low high others hit = absurd (omega arith)
find_item_loop-first a id (suc left) ii n low high others hit = elim (Bool-cases (n == ii)) [
  | inl here ↦ let at : ii ≡ n = ground arith in rw (at, is_same _ _ hit)
  | inr later ↦
      let past : ii < n = ground arith in
      rw (is_other _ _ (others ii past))
        (find_item_loop-first a id left (suc ii) n past (omega arith) others hit)
]

find_item_loop-missing :
    (a : ArrayFamily) (id left ii : ℕ)
    → ((i : ℕ) → i < ii + left → (a.array i).id ≢ id)
    → find_item_loop a id left ii ≡ string_error
unfolding find_item_loop
find_item_loop-missing a id zero ii others = refl
find_item_loop-missing a id (suc left) ii others =
    rw (is_other _ _ (others ii (omega arith)))
      (find_item_loop-missing a id left (suc ii) (λ i l. others i (omega arith)))

-- ArrayFindItem answers the name of the first item of the number that is sought, among the first
-- `max` items.
pub array_find_item-first :
    (a : ArrayFamily) (id n : ℕ)
    → n < a.max
    → ((i : ℕ) → i < n → (a.array i).id ≢ id)
    → (a.array n).id ≡ id
    → array_find_item a id ≡ (a.array n).name
array_find_item-first a id n l others hit =
    find_item_loop-first a id a.max 0 n (omega arith) (omega arith) others hit

-- Without such an item it answers "ERROR".
pub array_find_item-missing :
    (a : ArrayFamily) (id : ℕ)
    → ((i : ℕ) → i < a.max → (a.array i).id ≢ id)
    → array_find_item a id ≡ string_error
array_find_item-missing a id others =
    find_item_loop-missing a id a.max 0 (λ i l. others i (omega arith))
