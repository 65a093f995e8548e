-- ===== src/Vector/Compare.antt =====
-- The comparison of vectors.
use nuords_proxy.Prelude.{
  ℕ, zero, suc, not, min, ◌==◌, ◌≡◌, ◌↔◌, ap, sym, ◌∙◌, Bool, true, false, some, List, ◌∷◌, ◌++◌,
  length, if◌then◌else◌, ℤ, pos, negsuc,
}
use nuords_proxy.Vector.{Vector, Outcome, ok, and_then}
use nuords_proxy.Vector.Changes.{get_item, read}
use nuords_proxy.Vector.Cells.{get_cell-append}
use nuords_proxy.Vector.Holds.{live, length-live, Holds}
use nuords_proxy.Vector.Kept.{parts}

abbrev increase : ℤ → ℤ
increase (pos n) = pos (suc n)
increase (negsuc zero) = pos 0
increase (negsuc (suc n)) = negsuc n

abbrev decrease : ℤ → ℤ
decrease (pos (suc n)) = pos n
decrease (pos zero) = negsuc 0
decrease (negsuc n) = negsuc (suc n)

abbrev pub is_negative : ℤ → Bool
is_negative (pos n) = false
is_negative (negsuc n) = true

abbrev pub is_positive : ℤ → Bool
is_positive (pos zero) = false
is_positive (pos (suc n)) = true
is_positive (negsuc n) = false

module _ {A : Type 0} where
  -- `operator==` of the items at each place, for `n` places from one on.
  unfoldable pub equal_items : (A → A → Bool) → ℕ → ℕ → Vector A → Vector A → Outcome Bool
  equal_items same zero i v w = ok true
  equal_items same (suc n) i v w = and_then (get_item i v) λ a.
      and_then (get_item i w) λ b. if same a b then equal_items same n (suc i) v w else ok false

  unfoldable pub vectors_equal : (A → A → Bool) → Vector A → Vector A → Outcome Bool
  vectors_equal same v w =
      if v.size == w.size then equal_items same (min v.size w.size) 0 v w else ok false

  -- The places where the first vector has the greater item, less those where it has the lesser.
  unfoldable pub compare_items : (A → A → Bool) → ℕ → ℕ → ℤ → Vector A → Vector A → Outcome ℤ
  compare_items less zero i ret v w = ok ret
  compare_items less (suc n) i ret v w = and_then (get_item i v) λ a. and_then (get_item i w) λ b.
      compare_items less n (suc i)
        (if less b a then increase ret else if less a b then decrease ret else ret) v w

  unfoldable pub compare_vectors : (A → A → Bool) → Vector A → Vector A → Outcome ℤ
  compare_vectors less v w =
      if v.size == 0
      then (if w.size == 0 then ok (pos 0) else ok (negsuc 0))
      else if w.size == 0
      then ok (pos 1)
      else compare_items less (min v.size w.size) 0 (pos 0) v w

  -- The operators.
  unfoldable pub differ : (A → A → Bool) → Vector A → Vector A → Outcome Bool
  differ same v w = and_then (vectors_equal same v w) λ b. ok (not b)

  unfoldable pub is_less : (A → A → Bool) → Vector A → Vector A → Outcome Bool
  is_less less v w = and_then (compare_vectors less v w) λ c. ok (is_negative c)

  unfoldable pub is_greater : (A → A → Bool) → Vector A → Vector A → Outcome Bool
  is_greater less v w = and_then (compare_vectors less v w) λ c. ok (is_positive c)

  unfoldable pub is_at_most : (A → A → Bool) → Vector A → Vector A → Outcome Bool
  is_at_most less v w = and_then (compare_vectors less v w) λ c. ok (not (is_positive c))

  unfoldable pub is_at_least : (A → A → Bool) → Vector A → Vector A → Outcome Bool
  is_at_least less v w = and_then (compare_vectors less v w) λ c. ok (not (is_negative c))

  pub get_item-at :
      (v : Vector A) (front back : List A) (a : A) (i : ℕ)
      → Holds v (front ++ a ∷ back)
      → i ≡ length front
      → get_item i v ≡ ok a
  unfolding get_item
  get_item-at v front back a i h at = rw (parts v front (a ∷ back) h) (
      ap read (
        get_cell-append (live front) (live back ++ h.spare) (some a) i
          (at ∙ sym (length-live front))))

  -- The answer of a test on two lists.
  abbrev pub Tells : List A → List A → Outcome Bool → Type 0
  Tells xs ys m = (b : Bool) × (m ≡ ok b) × ((b ≡ true) ↔ (xs ≡ ys))

  abbrev pub Decides : (A → A → Bool) → Type 0
  Decides same = (a b : A) → (same a b ≡ true) ↔ (a ≡ b)
