-- ===== src/Vector/Memory.antt =====
-- The private part of `xtl::vector`: its memory, one cell at a time and as a whole.
use nuords_proxy.Prelude.{
  ℕ, zero, suc, ◌+◌, ◌-◌, ◌*◌, ◌/◌, ◌%◌, ◌^◌, ltb, leb, ◌==◌, ◌&&◌, if◌then◌else◌, Option, none,
  some, List, [], ◌∷◌, ◌++◌, length, take, drop, replicate,
}
use nuords_proxy.Vector.{Vector, Outcome, ok, throws, fault, and_then}

-- `XTL_VECTOR_PAGE_SZ`.
abbrev pub page_size : ℕ
page_size = 16

-- For items of a number of bytes.
abbrev pub max_size : ℕ → ℕ
max_size item_size = (2 ^ 64 - 1) / item_size

-- In `size_t`, so that it wraps round for the last page.
unfoldable pub calc_capacity : ℕ → ℕ
calc_capacity sz = (sz / page_size + 1) * page_size % 2 ^ 64

module _ {ℓ} {C : Type ℓ} where
  -- A write to a place, or `none` out of range.
  unfoldable pub set_cell : ℕ → C → List C → Option (List C)
  set_cell i c [] = none
  set_cell zero c (d ∷ cells) = some (c ∷ cells)
  set_cell (suc i) c (d ∷ cells) = elim (set_cell i c cells) [
    | none ↦ none
    | some changed ↦ some (d ∷ changed)
  ]

  unfoldable pub get_cell : ℕ → List C → Option C
  get_cell i [] = none
  get_cell zero (d ∷ cells) = some d
  get_cell (suc i) (d ∷ cells) = get_cell i cells

  -- `memmove` of `n` cells from the place `src` to the place `dst`.
  unfoldable pub memmove : ℕ → ℕ → ℕ → List C → Option (List C)
  memmove dst src n cells =
      if leb (dst + n) (length cells) && leb (src + n) (length cells)
      then some (take dst cells ++ (take n (drop src cells) ++ drop (dst + n) cells))
      else none

module _ {ℓ} {A : Type ℓ} where
  abbrev pub with_cells : Vector A → Option (List (Option A)) → Outcome (Vector A)
  with_cells v none = fault
  with_cells v (some cells) = ok (record v { data_cells = cells })

  unfoldable pub set_item : ℕ → A → Vector A → Outcome (Vector A)
  set_item i a v = with_cells v (set_cell i (some a) v.data_cells)

  -- The destructor of the item at a place.
  abbrev pub destroy_found : ℕ → Vector A → Option (Option A) → Outcome (Vector A)
  destroy_found i v (some (some a)) = with_cells v (set_cell i none v.data_cells)
  destroy_found i v (some none) = fault
  destroy_found i v none = fault

  unfoldable pub destroy_item : ℕ → Vector A → Outcome (Vector A)
  destroy_item i v = destroy_found i v (get_cell i v.data_cells)

  -- The loops over items: `n` of them from a place on.
  unfoldable pub destroy_items : ℕ → ℕ → Vector A → Outcome (Vector A)
  destroy_items zero i v = ok v
  destroy_items (suc n) i v = and_then (destroy_item i v) (destroy_items n (suc i))

  unfoldable pub set_items : ℕ → ℕ → A → Vector A → Outcome (Vector A)
  set_items zero i a v = ok v
  set_items (suc n) i a v = and_then (set_item i a v) (set_items n (suc i) a)

  unfoldable pub move_items : ℕ → ℕ → ℕ → Vector A → Outcome (Vector A)
  move_items dst src n v = with_cells v (memmove dst src n v.data_cells)

  -- `malloc`, `memcpy` of the items, and `free`.
  unfoldable pub copy_down : ℕ → Vector A → Outcome (Vector A)
  copy_down cp v =
      if leb v.size (length v.data_cells)
      then ok (record v {
        data_cells = take v.size v.data_cells ++ replicate (cp - v.size) none;
        capacity = cp;
      })
      else fault

  -- `realloc` to more cells.
  unfoldable pub grow_up : ℕ → Vector A → Outcome (Vector A)
  grow_up cp v = ok (record v {
    data_cells = v.data_cells ++ replicate (cp - length v.data_cells) none;
    capacity = cp;
  })

  unfoldable pub reallocate : ℕ → Vector A → Outcome (Vector A)
  reallocate cp v =
      if v.capacity == cp
      then ok v
      else if cp == 0
      then ok (record v { data_cells = []; capacity = 0 })
      else if ltb cp v.capacity
      then copy_down cp v
      else grow_up cp v

  unfoldable pub set_capacity : ℕ → Vector A → Outcome (Vector A)
  set_capacity cp v = reallocate (if ltb cp v.size then v.size else cp) v

  -- The size is never above the capacity, so that the difference is that of the source, nor above
  -- `max_size`, so that the sum is that of the source too, for items of two bytes or more.
  unfoldable pub before_increase : ℕ → ℕ → Vector A → Outcome (Vector A)
  before_increase item_size count v =
      if ltb (max_size item_size) (v.size + count)
      then throws
      else if ltb (v.capacity - v.size) count
      then set_capacity (calc_capacity (v.size + count)) v
      else ok v

  unfoldable pub after_decrease : Vector A → Outcome (Vector A)
  after_decrease v =
      if ltb (page_size * 4) (v.capacity - v.size)
      then set_capacity (v.size + page_size) v
      else ok v
