-- ===== src/Vector/Bounds.antt =====
-- The memory of a vector that is built by operations that take only what they need.
use nuords_proxy.Prelude.{
  ℕ, ◌+◌, ◌≤◌, ◌≡◌, refl, subst, arith, true, Option, none, some, List, [], length, length-append,
}
use nuords_proxy.Vector.{Vector, ok}
use nuords_proxy.Vector.Changes.{new_vector}
use nuords_proxy.Vector.Holds.{live, length-live, Holds, IsWide}
use nuords_proxy.Vector.Listed.{Op, are_frugal, Agrees, run, run_list}
use nuords_proxy.Vector.Refined.{run-Agrees}

module _ {A : Type 0} where
  pub new_vector-Holds : Holds {A = A} new_vector []
  new_vector-Holds = record { spare = []; cells = refl; sized = refl; allocated = refl }

  -- The items fit the memory, which is as large as recorded and no more than four pages larger.
  abbrev pub IsLean : Vector A → Type 0
  IsLean u = (u.size ≤ u.capacity) × (u.capacity ≤ u.size + 64) × (length u.data_cells ≡ u.capacity)

  Agrees-IsLean :
      (u : Vector A) (found : Option (List A)) → Agrees true new_vector [] (ok u) found → IsLean u
  Agrees-IsLean u none h = absurd h
  Agrees-IsLean u (some ys) (h, t) =
      let narrow = t refl (omega arith) in
      let long : length u.data_cells ≡ length ys + length h.spare =
        rw h.cells (omega (arith, length-append (live ys) h.spare, length-live ys)) in
      (
        omega (arith, h.sized, h.allocated),
        omega (arith, h.sized, narrow),
        omega (arith, long, h.allocated),
      )

  -- After any sequence of operations on a new vector, without `resize` and `reserve`, the items fit
  -- the memory that is allocated, which is never more than 64 items larger.
  pub run-IsLean :
      (item_size : ℕ) (ops : List (Op A)) (u : Vector A)
      → IsWide item_size
      → are_frugal ops ≡ true
      → run item_size ops new_vector ≡ ok u
      → IsLean u
  run-IsLean item_size ops u wide frugal e =
      let agrees = run-Agrees item_size ops new_vector [] wide new_vector-Holds in
      Agrees-IsLean u (run_list item_size ops []) (
        subst (λ m. Agrees true new_vector [] m (run_list item_size ops [])) e
          (subst
            (λ b. Agrees b new_vector [] (run item_size ops new_vector) (run_list item_size ops []))
            frugal agrees))
