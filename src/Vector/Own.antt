-- ===== src/Vector/Own.antt =====
-- `push_back` of an item of the vector itself, which the source takes by reference.
use nuords_proxy.Prelude.{
  ℕ, ◌-◌, ◌<◌, ltb, ◌==◌, ◌≡◌, refl, ◌∙◌, subst, arith, true, false, List, ◌∷◌, [], ◌++◌, length,
  if_false,
}
use nuords_proxy.Vector.{Vector, Outcome, ok, throws, fault, and_then}
use nuords_proxy.Vector.Memory.{max_size, before_increase}
use nuords_proxy.Vector.Changes.{inside, push_back}
use nuords_proxy.Vector.Holds.{Holds, Gives, mono-Gives, Roomy, IsWide, before_increase-Roomy}
use nuords_proxy.Vector.Kept.{Next, push_back-Next}
use nuords_proxy.Vector.Compare.{get_item-at}

module _ {A : Type 0} where
  -- What follows on any vector that a call may give is what follows on its outcome.
  fault-after :
      (P : Vector A → Type 0) (m : Outcome (Vector A)) (next : Vector A → Outcome (Vector A))
      → Gives P m
      → ((w : Vector A) → P w → next w ≡ fault)
      → and_then m next ≡ fault
  fault-after P (ok w) next h k = k w h
  fault-after P throws next h k = absurd h
  fault-after P fault next h k = refl

  -- Memory with room is not moved.
  before_increase-room :
      (item_size : ℕ) (v : Vector A) (xs : List A)
      → Holds v xs
      → length xs < max_size item_size
      → v.size < v.capacity
      → before_increase item_size 1 v ≡ ok v
  unfolding before_increase
  before_increase-room item_size v xs h few room =
      if_false (ltb (max_size item_size) _) _ _ (ground (arith, h.sized))
      ∙ if_false (ltb (v.capacity - v.size) 1) _ _ (ground arith)

  -- An item `x` of the vector itself is appended by `push_back`: where the memory has room, the vector
  -- holds it once more at its end; where the memory is full, it is reallocated first, and the reference
  -- is read in the memory that was given back.
  pub push_back-own :
      (item_size : ℕ) (v : Vector A) (front rest : List A) (x : A) (i : ℕ)
      → Holds v (front ++ x ∷ rest)
      → i ≡ length front
      → length (front ++ x ∷ rest) < max_size item_size
      → IsWide item_size
      → (v.size ≡ v.capacity → push_back item_size (inside i) v ≡ fault)
        × (v.size < v.capacity
            → Gives
                (λ u. Holds u ((front ++ x ∷ rest) ++ x ∷ []))
                (push_back item_size (inside i) v))
  unfolding push_back
  push_back-own item_size v front rest x i h at few wide =
      let xs = front ++ x ∷ rest in
      (
        λ full.
            fault-after (Roomy v xs) (before_increase item_size 1 v) _
              (before_increase-Roomy item_size v xs h few wide)
              (λ w (k, room, _).
                let moved : (v.capacity == w.capacity) ≡ false = ground (arith, h.sized) in
                rw moved refl),
        λ room.
            let stays = before_increase-room item_size v xs h few room in
            let same : (v.capacity == v.capacity) ≡ true = ground arith in
            let plain =
              mono-Gives (Next v xs (xs ++ x ∷ [])) (λ u. Holds u (xs ++ x ∷ [])) _ (λ u (g, _). g)
                (push_back-Next item_size v xs x h few wide) in
            subst (Gives (λ u. Holds u (xs ++ x ∷ [])))
              (rw (stays, same, get_item-at v front rest x i h at) refl) plain,
      )
