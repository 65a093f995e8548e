-- ===== src/Vector/Listed.antt =====
-- The operations of a vector on the list of its items, and when the two agree.
use nuords_proxy.Prelude.{
  ℕ, zero, suc, ◌+◌, ◌-◌, ◌≤◌, ◌<◌, ltb, ◌==◌, ◌≡◌, refl, ap, sym, ◌∙◌, arith, Bool, true, false,
  ◌&&◌, ◌||◌, Option, none, some, List, [], ◌∷◌, ◌++◌, append-nil, length, take, drop, replicate,
  length-drop, take-append-drop, if◌then◌else◌,
}
use nuords_proxy.Vector.{Vector, Outcome, ok, throws, fault, and_then}
use nuords_proxy.Vector.Memory.{max_size}
use nuords_proxy.Vector.Changes.{
  outside, push_back, pop_back, clear, insert, erase, erase_range, resize, reserve, pack,
}
use nuords_proxy.Vector.Holds.{Holds}

-- The operations, with items that are not of the vector itself, and what each does to a list; `none`
-- is an exception.
pub data Op (A : Type 0) : Type 0 where
  push_back_op : A → Op A
  pop_back_op : Op A
  insert_op : ℕ → A → Op A
  erase_op : ℕ → Op A
  erase_range_op : ℕ → ℕ → Op A
  resize_op : ℕ → A → Op A
  reserve_op : ℕ → Op A
  pack_op : Op A
  clear_op : Op A

module _ {A : Type 0} where
  -- The operations that release memory, or take only what they need.
  abbrev pub is_frugal : Op A → Bool
  is_frugal (resize_op n a) = false
  is_frugal (reserve_op n) = false
  is_frugal _ = true

  -- From a vector that holds a list: an outcome with the list that is expected, or an exception
  -- where one is expected.
  abbrev pub Agrees : Bool → Vector A → List A → Outcome (Vector A) → Option (List A) → Type 0
  Agrees frugal v xs (ok u) (some ys) =
      Holds u ys × (frugal ≡ true → v.capacity ≤ length xs + 64 → u.capacity ≤ length ys + 64)
  Agrees frugal v xs (ok u) none = ⊥
  Agrees frugal v xs throws (some ys) = ⊥
  Agrees frugal v xs throws none = Unit
  Agrees frugal v xs fault ys = ⊥

  abbrev pub then_list : Option (List A) → (List A → Option (List A)) → Option (List A)
  then_list none next = none
  then_list (some xs) next = next xs

  abbrev pub are_frugal : List (Op A) → Bool
  are_frugal [] = true
  are_frugal (op ∷ ops) = is_frugal op && are_frugal ops

module _ {A : Type 0} (item_size : ℕ) where
  abbrev pub apply : Op A → Vector A → Outcome (Vector A)
  apply (push_back_op a) v = push_back item_size (outside a) v
  apply pop_back_op v = pop_back v
  apply (insert_op i a) v = insert item_size i (outside a) v
  apply (erase_op i) v = erase i v
  apply (erase_range_op i j) v = erase_range i j v
  apply (resize_op n a) v = resize item_size n (outside a) v
  apply (reserve_op n) v = reserve n v
  apply pack_op v = pack v
  apply clear_op v = clear v

  abbrev pub apply_list : Op A → List A → Option (List A)
  apply_list (push_back_op a) xs =
      if ltb (length xs) (max_size item_size) then some (xs ++ a ∷ []) else none
  apply_list pop_back_op xs = some (take (length xs - 1) xs)
  apply_list (insert_op i a) xs =
      if ltb (length xs) i
      then none
      else if ltb (length xs) (max_size item_size)
      then some (take i xs ++ a ∷ drop i xs)
      else none
  apply_list (erase_op i) xs =
      if ltb (length xs) i then none else some (take i xs ++ drop (suc i) xs)
  apply_list (erase_range_op i j) xs =
      if ltb (length xs) i || ltb (length xs) j || ltb j i
      then none
      else some (take i xs ++ drop j xs)
  apply_list (resize_op n a) xs =
      if n == length xs
      then some xs
      else if ltb (max_size item_size) n
      then none
      else some (take n xs ++ replicate (n - length xs) a)
  apply_list (reserve_op n) xs = some xs
  apply_list pack_op xs = some xs
  apply_list clear_op xs = some []

  unfoldable pub run : List (Op A) → Vector A → Outcome (Vector A)
  run [] v = ok v
  run (op ∷ ops) v = and_then (apply op v) (run ops)

  abbrev pub run_list : List (Op A) → List A → Option (List A)
  run_list [] xs = some xs
  run_list (op ∷ ops) xs = then_list (apply_list op xs) (run_list ops)

module _ {A : Type 0} where
  pub drop-cons :
      (xs : List A) (i : ℕ) → i < length xs → (x : A) × (drop i xs ≡ x ∷ drop (suc i) xs)
  drop-cons [] i h = absurd (omega arith)
  drop-cons (x ∷ xs) zero h = (x, refl)
  drop-cons (x ∷ xs) (suc i) h = drop-cons xs i (omega arith)

  pub no_more : (xs : List A) → length xs ≤ 0 → xs ≡ []
  no_more [] h = refl
  no_more (x ∷ xs) h = absurd (omega arith)

  pub drop-end : (xs : List A) (n : ℕ) → length xs ≤ n → drop n xs ≡ []
  drop-end xs n h = no_more (drop n xs) (omega (arith, length-drop n xs))

  pub take-end : (xs : List A) (n : ℕ) → length xs ≤ n → take n xs ≡ xs
  take-end xs n h =
      sym (append-nil (take n xs))
      ∙ ap (λ ys. take n xs ++ ys) (sym (drop-end xs n h))
      ∙ take-append-drop n xs

  pub drop-drop : (xs : List A) (i k n : ℕ) → n ≡ i + k → drop k (drop i xs) ≡ drop n xs
  drop-drop xs zero k n e = let same : k ≡ n = omega arith in ap (λ m. drop m xs) same
  drop-drop [] (suc i) zero zero e = refl
  drop-drop [] (suc i) zero (suc n) e = refl
  drop-drop [] (suc i) (suc k) zero e = refl
  drop-drop [] (suc i) (suc k) (suc n) e = refl
  drop-drop (x ∷ xs) (suc i) k zero e = absurd (omega arith)
  drop-drop (x ∷ xs) (suc i) k (suc n) e = drop-drop xs i k n (omega arith)
