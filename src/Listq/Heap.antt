-- ===== src/Listq/Heap.antt =====
-- The memory of listq.c: containers and items (listq_local.h) at addresses. A `void*` of either
-- type is an address; using an address as what it is not, or after `free`, is undefined behaviour.
use nettool.Base.{
  ℕ, ℤ, pos, ◌≡◌, Option, none, some, false, arith, ◌==◌, ◌==ℤ◌, ◌+ℤ◌, ◌-ℤ◌, if◌then◌else◌,
}

abbrev pub Ptr : Type 0
Ptr = ℕ

abbrev pub null : Ptr
null = 0

-- The address of a pointer that the queue updates: `&head->tqh_first` or `&item->tqe_next`.
pub data Slot : Type 0 where
  first_of : Ptr → Slot
  next_of : Ptr → Slot

-- struct sListqContainer
pub record Container : Type 0 where
  pub tqh_first : Ptr
  pub tqh_last : Slot
  pub m_size : ℤ

-- struct sListqContainerItem
pub record Item : Type 0 where
  pub tqe_next : Ptr
  pub tqe_prev : Slot
  pub p_data : Ptr
  pub p_container : Ptr

abbrev pub container : Ptr → Slot → ℤ → Container
container first last size = record { tqh_first = first; tqh_last = last; m_size = size }

abbrev pub item : Ptr → Slot → Ptr → Ptr → Item
item next prev content owner = record {
  tqe_next = next;
  tqe_prev = prev;
  p_data = content;
  p_container = owner;
}

pub record Heap : Type 0 where
  pub containers : Ptr → Option Container
  pub items : Ptr → Option Item

-- A run returns a value and the memory, meets undefined behaviour, or uses up its fuel.
pub data Outcome (A : Type 0) : Type 0 where
  done : A → Heap → Outcome A
  undefined : Outcome A
  out_of_fuel : Outcome A

abbrev pub Cmd : Type 0 → Type 0
Cmd A = Heap → Outcome A

abbrev pub pure : {A : Type 0} → A → Cmd A
pure = done

abbrev pub crash : {A : Type 0} → Cmd A
crash h = undefined

module _ {A B : Type 0} where
  abbrev pub continue_with : Outcome A → (A → Cmd B) → Outcome B
  continue_with (done a h) k = k a h
  continue_with undefined k = undefined
  continue_with out_of_fuel k = out_of_fuel

  infixl 5 ◌>>=◌ ◌>>◌
  abbrev pub ◌>>=◌ : Cmd A → (A → Cmd B) → Cmd B
  m >>= k = λ h. continue_with (m h) k

  abbrev pub ◌>>◌ : Cmd A → Cmd B → Cmd B
  m >> n = m >>= λ _. n

module _ {A : Type 0} where
  unfoldable pub write : (Ptr → Option A) → Ptr → Option A → Ptr → Option A
  write f p c a = if a == p then c else f a

unfoldable pub put_container : Ptr → Option Container → Cmd (Unit {0})
put_container p c h = done tt (record h { containers = write h.containers p c })

unfoldable pub put_item : Ptr → Option Item → Cmd (Unit {0})
put_item p i h = done tt (record h { items = write h.items p i })

unfoldable pub load_container : Ptr → Cmd Container
load_container p h = elim (h.containers p) [ none ↦ undefined | some c ↦ done c h ]

unfoldable pub load_item : Ptr → Cmd Item
load_item p h = elim (h.items p) [ none ↦ undefined | some i ↦ done i h ]

-- The largest `int`.
abbrev pub int_max : ℤ
int_max = pos 2147483647

-- `size++` and `size--` on an `int`: overflow is undefined.
unfoldable pub increment : ℤ → Cmd ℤ
increment n = if n ==ℤ int_max then crash else pure (n +ℤ pos 1)

unfoldable pub decrement : ℤ → Cmd ℤ
decrement n = if n ==ℤ (pos 0 -ℤ int_max -ℤ pos 1) then crash else pure (n -ℤ pos 1)

pub load_container-done :
    (h : Heap) (p : Ptr) {c : Container} → h.containers p ≡ some c → load_container p h ≡ done c h
unfolding load_container
load_container-done h p e = ground arith

pub load_item-done : (h : Heap) (p : Ptr) {i : Item} → h.items p ≡ some i → load_item p h ≡ done i h
unfolding load_item
load_item-done h p e = ground arith

pub load_item-none : (h : Heap) (p : Ptr) → h.items p ≡ none → load_item p h ≡ undefined
unfolding load_item
load_item-none h p e = ground arith

module _ {A : Type 0} (f : Ptr → Option A) (p : Ptr) (c : Option A) where
  pub write-same : write f p c p ≡ c
  unfolding write
  write-same = ground arith

  pub write-ne : (q : Ptr) → (q == p) ≡ false → write f p c q ≡ f q
  unfolding write
  write-ne q ne = rw ne
