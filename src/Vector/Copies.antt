-- ===== src/Vector/Copies.antt =====
-- The copy of a vector, and its end.
use nuords_proxy.Prelude.{
  ℕ, zero, suc, ◌≤◌, ◌≡◌, refl, sym, subst, arith, List, [], ◌∷◌, ◌++◌, append-nil, append_assoc,
  length, length-append,
}
use nuords_proxy.Vector.{Vector}
use nuords_proxy.Vector.Memory.{max_size, set_capacity}
use nuords_proxy.Vector.Changes.{push_items, clear, assign, new_vector}
use nuords_proxy.Vector.Holds.{
  Holds, Gives, then-Gives, mono-Gives, Fits, set_capacity-Fits, IsWide,
}
use nuords_proxy.Vector.Kept.{Next, push_back-Next}
use nuords_proxy.Vector.Sizes.{clear-Next}
use nuords_proxy.Vector.Changes.{copy_vector, delete_vector}
use nuords_proxy.Vector.Compare.{get_item-at}

module _ {A : Type 0} where
  push_items-Holds :
      (item_size : ℕ) (src v : Vector A) (front xs : List A) (n i : ℕ)
      → Holds src (front ++ xs)
      → Holds v front
      → length (front ++ xs) ≤ max_size item_size
      → IsWide item_size
      → n ≡ length xs
      → i ≡ length front
      → Gives (λ u. Holds u (front ++ xs)) (push_items item_size n i src v)
  unfolding push_items
  push_items-Holds item_size src v front [] zero i h k few wide e at =
      subst (Holds v) (sym (append-nil front)) k
  push_items-Holds item_size src v front [] (suc n) i h k few wide e at = absurd (omega arith)
  push_items-Holds item_size src v front (x ∷ xs) zero i h k few wide e at = absurd (omega arith)
  push_items-Holds item_size src v front (x ∷ xs) (suc n) i h k few wide e at =
      let longer = length-append front (x ∷ []) in
      let whole = append_assoc front (x ∷ []) xs in
      rw (get_item-at src front xs x i h at) (
        then-Gives (Next v front (front ++ x ∷ [])) (λ u. Holds u (front ++ x ∷ xs)) _ _
          (push_back-Next item_size v front x k (omega (arith, few, length-append front (x ∷ xs)))
            wide)
          (λ u (g, _).
            subst (λ ys. Gives (λ t. Holds t ys) (push_items item_size n (suc i) src u)) whole
              (push_items-Holds item_size src u (front ++ x ∷ []) xs n (suc i)
                (subst (Holds src) (sym whole) h) g (rw whole few) wide (omega arith)
                (omega (arith, longer)))))

  -- A vector that another is assigned to holds the same items as that.
  pub assign-Holds :
      (item_size : ℕ) (src v : Vector A) (xs ys : List A)
      → Holds src xs
      → Holds v ys
      → length xs ≤ max_size item_size
      → IsWide item_size
      → Gives (λ u. Holds u xs) (assign item_size src v)
  unfolding assign
  assign-Holds item_size src v xs ys h k few wide =
      then-Gives (Fits [] src.capacity) (λ u. Holds u xs) (set_capacity src.capacity new_vector) _
        (set_capacity-Fits src.capacity new_vector []
          (record { spare = []; cells = refl; sized = refl; allocated = refl }) (omega arith))
        (λ made (m, _).
          then-Gives (λ u. Holds u xs) (λ u. Holds u xs) (push_items item_size src.size 0 src made)
            _ (push_items-Holds item_size src made [] xs src.size 0 h m few wide h.sized refl)
            (λ filled g.
              then-Gives (Next v ys []) (λ u. Holds u xs) (clear v) _ (clear-Next v ys k)
                (λ _ _. g)))

  -- A copy holds the same items.
  pub copy_vector-Holds :
      (item_size : ℕ) (src : Vector A) (xs : List A)
      → Holds src xs
      → length xs ≤ max_size item_size
      → IsWide item_size
      → Gives (λ u. Holds u xs) (copy_vector item_size src)
  unfolding copy_vector
  copy_vector-Holds item_size src xs h few wide =
      assign-Holds item_size src new_vector xs [] h
        (record { spare = []; cells = refl; sized = refl; allocated = refl }) few wide

  -- A vector that is deleted has no item left.
  pub delete_vector-Holds :
      (v : Vector A) (xs : List A) → Holds v xs → Gives (λ u. Holds u []) (delete_vector v)
  unfolding delete_vector
  delete_vector-Holds v xs h =
      mono-Gives (Next v xs []) (λ u. Holds u []) (clear v) (λ u (g, _). g) (clear-Next v xs h)
