-- ===== src/Vector/Changes.antt =====
-- The public operations of `xtl::vector`. An iterator is its distance from `begin()`.
use nuords_proxy.Prelude.{
  ℕ, zero, suc, ◌-◌, ltb, leb, ◌==◌, ◌||◌, if◌then◌else◌, Option, none, some, [],
}
use nuords_proxy.Vector.{Vector, Outcome, ok, throws, fault, and_then}
use nuords_proxy.Vector.Memory.{
  max_size, calc_capacity, get_cell, set_item, destroy_item, destroy_items, set_items, move_items,
  set_capacity, before_increase, after_decrease,
}

-- An item that is passed by reference: of its own, or the one at an index of the vector itself.
pub data Ref {ℓ} (A : Type ℓ) : Type ℓ where
  outside : A → Ref A
  inside : ℕ → Ref A

module _ {ℓ} {A : Type ℓ} where
  -- The default constructor: NULL, and then memory for no item.
  abbrev pub new_vector : Vector A
  new_vector = record { data_cells = []; capacity = 0; size = 0 }

  abbrev pub resized : ℕ → Vector A → Outcome (Vector A)
  resized n v = ok (record v { size = n })

  abbrev pub read : Option (Option A) → Outcome A
  read (some (some a)) = ok a
  read (some none) = fault
  read none = fault

  -- `operator[]`, without a test.
  unfoldable pub get_item : ℕ → Vector A → Outcome A
  get_item i v = read (get_cell i v.data_cells)

  -- What a reference gives when it is read, in the vector `now`, if it was made in the vector `made`:
  -- memory of another capacity is other memory, since `realloc` need not keep its place, and a
  -- reference to the old one is left behind.
  abbrev pub fetch : Ref A → Vector A → Vector A → Outcome A
  fetch (outside a) made now = ok a
  fetch (inside i) made now = if made.capacity == now.capacity then get_item i now else fault

  unfoldable pub push_back : ℕ → Ref A → Vector A → Outcome (Vector A)
  push_back item_size r v =
      and_then (before_increase item_size 1 v)
        λ w. and_then (fetch r v w) λ a. and_then (set_item w.size a w) (resized (suc w.size))

  unfoldable pub pop_back : Vector A → Outcome (Vector A)
  pop_back v =
      if v.size == 0
      then ok v
      else and_then (destroy_item (v.size - 1) (record v { size = v.size - 1 })) after_decrease

  unfoldable pub clear : Vector A → Outcome (Vector A)
  clear v =
      if v.size == 0
      then ok v
      else and_then (destroy_items v.size 0 (record v { size = 0 })) after_decrease

  unfoldable pub reserve : ℕ → Vector A → Outcome (Vector A)
  reserve sz v =
      if ltb v.capacity (calc_capacity sz) then set_capacity (calc_capacity sz) v else ok v

  -- The branch of `resize` that adds items.
  unfoldable pub extend : ℕ → Ref A → Vector A → Outcome (Vector A)
  extend sz r v =
      and_then
        (if ltb v.capacity (calc_capacity sz) then set_capacity (calc_capacity sz) v else ok v)
        λ w. and_then (fetch r v w) λ a. and_then (set_items (sz - w.size) w.size a w) (resized sz)

  unfoldable pub resize : ℕ → ℕ → Ref A → Vector A → Outcome (Vector A)
  resize item_size sz r v =
      if sz == v.size
      then ok v
      else if ltb (max_size item_size) sz
      then throws
      else if ltb v.size sz
      then extend sz r v
      else and_then (destroy_items (v.size - sz) sz v) (resized sz)

  unfoldable pub pack : Vector A → Outcome (Vector A)
  pack v = if ltb v.size v.capacity then set_capacity v.size v else ok v

  unfoldable pub insert : ℕ → ℕ → Ref A → Vector A → Outcome (Vector A)
  insert item_size i r v =
      if ltb v.size i
      then throws
      else and_then (before_increase item_size 1 v) λ w.
        and_then (if ltb i w.size then move_items (suc i) i (w.size - i) w else ok w)
          λ u. and_then (fetch r v u) λ a. and_then (set_item i a u) (resized (suc u.size))

  -- The items behind a gap are moved to its front.
  abbrev pub close_gap : ℕ → ℕ → Vector A → Outcome (Vector A)
  close_gap i j v = if ltb i v.size then move_items i j (v.size - i) v else ok v

  unfoldable pub erase : ℕ → Vector A → Outcome (Vector A)
  erase i v =
      if ltb v.size i
      then throws
      else if i == v.size
      then ok v
      else and_then (destroy_item i (record v { size = v.size - 1 }))
          λ w. and_then (close_gap i (suc i) w) after_decrease

  unfoldable pub erase_range : ℕ → ℕ → Vector A → Outcome (Vector A)
  erase_range i j v =
      if ltb v.size i || ltb v.size j || ltb j i
      then throws
      else if j == i
      then ok v
      else and_then (destroy_items (j - i) i (record v { size = v.size - (j - i) }))
          λ w. and_then (close_gap i j w) after_decrease

  -- With a test.
  unfoldable pub at : ℕ → Vector A → Outcome A
  at i v = if leb v.size i then throws else get_item i v

  unfoldable pub back : Vector A → Outcome A
  back v = if v.size == 0 then at 0 v else at (v.size - 1) v

  -- The loop of `assign`: `n` items of the source from a place on.
  unfoldable pub push_items : ℕ → ℕ → ℕ → Vector A → Vector A → Outcome (Vector A)
  push_items item_size zero i src v = ok v
  push_items item_size (suc n) i src v =
      and_then (get_item i src)
        λ a. and_then (push_back item_size (outside a) v) (push_items item_size n (suc i) src)

  -- From another vector. The items that were held go with the vector that is swapped for.
  unfoldable pub assign : ℕ → Vector A → Vector A → Outcome (Vector A)
  assign item_size src v = and_then (set_capacity src.capacity new_vector) λ made.
      and_then (push_items item_size src.size 0 src made)
        λ filled. and_then (clear v) λ _. ok filled

  unfoldable pub front : Vector A → Outcome A
  front v = at 0 v

  -- Of the iterator `begin() + i`.
  unfoldable pub remove : ℕ → Vector A → Outcome (Vector A)
  remove i v = erase i v

  abbrev pub swap : Vector A × Vector A → Vector A × Vector A
  swap (v, w) = (w, v)

  -- The other constructors, and the destructor up to the release of the memory.
  unfoldable pub new_filled : ℕ → ℕ → A → Outcome (Vector A)
  new_filled item_size n a =
      if n == 0 then set_capacity 0 new_vector else resize item_size n (outside a) new_vector

  unfoldable pub copy_vector : ℕ → Vector A → Outcome (Vector A)
  copy_vector item_size src = assign item_size src new_vector

  unfoldable pub delete_vector : Vector A → Outcome (Vector A)
  delete_vector v = clear v
