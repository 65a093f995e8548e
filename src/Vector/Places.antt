-- ===== src/Vector/Places.antt =====
-- The writes, the destructors and the moves of items, on memory that is written as its parts.
use nuords_proxy.Prelude.{
  ℕ, zero, suc, ◌+◌, ◌≡◌, ap, sym, ◌∙◌, arith, Option, none, some, List, [], ◌∷◌, ◌++◌,
  append_assoc, length, replicate, length-append,
}
use nuords_proxy.Vector.{Vector, ok}
use nuords_proxy.Vector.Memory.{
  set_item, destroy_item, destroy_items, set_items, move_items, with_cells,
}
use nuords_proxy.Vector.Cells.{set_cell-append, get_cell-append, memmove-up, memmove-down}
use nuords_proxy.Vector.Holds.{live}

module _ {A : Type 0} where
  pub set_item-at :
      (v : Vector A) (front back : List (Option A)) (d : Option A) (a : A) (i : ℕ)
      → v.data_cells ≡ front ++ d ∷ back
      → i ≡ length front
      → set_item i a v ≡ ok (record v { data_cells = front ++ some a ∷ back })
  unfolding set_item
  set_item-at v front back d a i e at =
      rw e (ap (with_cells v) (set_cell-append front back (some a) d i at))

  pub destroy_item-at :
      (v : Vector A) (front back : List (Option A)) (a : A) (i : ℕ)
      → v.data_cells ≡ front ++ some a ∷ back
      → i ≡ length front
      → destroy_item i v ≡ ok (record v { data_cells = front ++ none ∷ back })
  unfolding destroy_item
  destroy_item-at v front back a i e at =
      rw (e, get_cell-append front back (some a) i at)
        (ap (with_cells (record v { data_cells = front ++ some a ∷ back }))
          (set_cell-append front back none (some a) i at))

  snoc_assoc :
      (front back : List (Option A)) (c : Option A) → front ++ c ∷ [] ++ back ≡ front ++ c ∷ back
  snoc_assoc front back c = append_assoc front (c ∷ []) back

  length-snoc :
      (front : List (Option A)) (c : Option A) → length (front ++ c ∷ []) ≡ suc (length front)
  length-snoc front c = omega (arith, length-append front (c ∷ []))

  pub destroy_items-at :
      (v : Vector A) (front back : List (Option A)) (xs : List A) (n i : ℕ)
      → v.data_cells ≡ front ++ (live xs ++ back)
      → n ≡ length xs
      → i ≡ length front
      → destroy_items n i v ≡ ok (record v { data_cells = front ++ (replicate n none ++ back) })
  unfolding destroy_items
  destroy_items-at v front back [] zero i e h at = ap (λ cs. ok (record v { data_cells = cs })) e
  destroy_items-at v front back [] (suc n) i e h at = absurd (omega arith)
  destroy_items-at v front back (x ∷ xs) zero i e h at = absurd (omega arith)
  destroy_items-at v front back (x ∷ xs) (suc n) i e h at =
      let front' = front ++ none ∷ [] in
      let w = record v { data_cells = front ++ none ∷ (live xs ++ back) } in
      rw (destroy_item-at v front (live xs ++ back) x i e at) (
        destroy_items-at w front' back xs n (suc i) (sym (snoc_assoc front (live xs ++ back) none))
          (omega arith) (omega (arith, length-snoc front none))
        ∙ ap (λ cs. ok (record v { data_cells = cs }))
            (snoc_assoc front (replicate n none ++ back) none))

  pub set_items-at :
      (v : Vector A) (front gap back : List (Option A)) (a : A) (n i : ℕ)
      → v.data_cells ≡ front ++ (gap ++ back)
      → n ≡ length gap
      → i ≡ length front
      → set_items n i a v ≡ ok (record v { data_cells = front ++ (live (replicate n a) ++ back) })
  unfolding set_items
  set_items-at v front [] back a zero i e h at = ap (λ cs. ok (record v { data_cells = cs })) e
  set_items-at v front [] back a (suc n) i e h at = absurd (omega arith)
  set_items-at v front (x ∷ gap) back a zero i e h at = absurd (omega arith)
  set_items-at v front (x ∷ gap) back a (suc n) i e h at =
      let front' = front ++ some a ∷ [] in
      let w = record v { data_cells = front ++ some a ∷ (gap ++ back) } in
      rw (set_item-at v front (gap ++ back) x a i e at) (
        set_items-at w front' gap back a n (suc i) (sym (snoc_assoc front (gap ++ back) (some a)))
          (omega arith) (omega (arith, length-snoc front (some a)))
        ∙ ap (λ cs. ok (record v { data_cells = cs }))
            (snoc_assoc front (live (replicate n a) ++ back) (some a)))

  pub move_items-up :
      (v : Vector A) (front back rest : List (Option A)) (c d : Option A) (i n : ℕ)
      → v.data_cells ≡ front ++ c ∷ (back ++ d ∷ rest)
      → i ≡ length front
      → n ≡ suc (length back)
      → move_items (suc i) i n v ≡ ok (record v { data_cells = front ++ c ∷ c ∷ (back ++ rest) })
  unfolding move_items
  move_items-up v front back rest c d i n e at h =
      rw e (ap (with_cells v) (memmove-up front back rest c d i n at h))

  pub move_items-down :
      (v : Vector A) (front gap back rest : List (Option A)) (i j n : ℕ)
      → v.data_cells ≡ front ++ (gap ++ (back ++ rest))
      → i ≡ length front
      → j ≡ length front + length gap
      → n ≡ length back
      → (stale : List (Option A)) × (move_items i j n v
          ≡ ok (record v { data_cells = front ++ (back ++ stale) }))
        × (length stale ≡ length gap + length rest)
  unfolding move_items
  move_items-down v front gap back rest i j n e at at_gap h =
      let (stale, made, long) = memmove-down front gap back rest i j n at at_gap h in
      (stale, rw e (ap (with_cells v) made), long)
