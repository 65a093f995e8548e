-- ===== src/Vector/Cells.antt =====
-- The reads, writes and moves of cells, on memory that is written as its parts.
use nuords_proxy.Prelude.{
  ℕ, zero, suc, ◌+◌, ◌≤◌, leb, ◌≡◌, refl, ap, ◌∙◌, arith, true, some, List, [], ◌∷◌, ◌++◌,
  append_assoc, if_true, length, take, drop, length-append, length-drop, take-append, ◌&&◌,
}
use nuords_proxy.Vector.Memory.{set_cell, get_cell, memmove}

module _ {ℓ} {C : Type ℓ} where
  pub drop-append : (xs ys : List C) (n k : ℕ) → n ≡ length xs + k → drop n (xs ++ ys) ≡ drop k ys
  drop-append [] ys n k e = let same : n ≡ k = omega arith in ap (λ m. drop m ys) same
  drop-append (x ∷ xs) ys zero k e = absurd (omega arith)
  drop-append (x ∷ xs) ys (suc n) k e = drop-append xs ys n k (omega arith)

  pub set_cell-append :
      (front back : List C) (c d : C) (i : ℕ)
      → i ≡ length front
      → set_cell i c (front ++ d ∷ back) ≡ some (front ++ c ∷ back)
  unfolding set_cell
  set_cell-append [] back c d zero e = refl
  set_cell-append [] back c d (suc i) e = absurd (omega arith)
  set_cell-append (x ∷ front) back c d zero e = absurd (omega arith)
  set_cell-append (x ∷ front) back c d (suc i) e =
      rw (set_cell-append front back c d i (omega arith)) refl

  pub get_cell-append :
      (front back : List C) (d : C) (i : ℕ)
      → i ≡ length front
      → get_cell i (front ++ d ∷ back) ≡ some d
  unfolding get_cell
  get_cell-append [] back d zero e = refl
  get_cell-append [] back d (suc i) e = absurd (omega arith)
  get_cell-append (x ∷ front) back d zero e = absurd (omega arith)
  get_cell-append (x ∷ front) back d (suc i) e = get_cell-append front back d i (omega arith)

  pub take-snoc :
      (front back : List C) (d : C)
      → take (suc (length front)) (front ++ d ∷ back) ≡ front ++ d ∷ []
  take-snoc [] back d = refl
  take-snoc (x ∷ front) back d = ap (◌∷◌ x) (take-snoc front back d)

  moved :
      (dst src n : ℕ) (cells : List C)
      → dst + n ≤ length cells
      → src + n ≤ length cells
      → memmove dst src n cells
        ≡ some (take dst cells ++ (take n (drop src cells) ++ drop (dst + n) cells))
  unfolding memmove
  moved dst src n cells h k = if_true _ _ _ both
    where
      both : (leb (dst + n) (length cells) && leb (src + n) (length cells)) ≡ true
      both = ground arith

  -- Up by one place, into the cell behind the items.
  pub memmove-up :
      (front back rest : List C) (c d : C) (i n : ℕ)
      → i ≡ length front
      → n ≡ suc (length back)
      → memmove (suc i) i n (front ++ c ∷ (back ++ d ∷ rest))
        ≡ some (front ++ c ∷ c ∷ (back ++ rest))
  memmove-up front back rest c d i n e h =
      let cells = front ++ c ∷ (back ++ d ∷ rest) in
      let long = length-append front (c ∷ (back ++ d ∷ rest)) in
      let long_back = length-append back (d ∷ rest) in
      moved (suc i) i n cells (omega (arith, long, long_back)) (omega (arith, long, long_back))
      ∙ ap some (
          rw
            (
              e,
              take-snoc front (back ++ d ∷ rest) c,
              drop-append front (c ∷ (back ++ d ∷ rest)) (length front) 0 (omega arith),
              h,
              take-append back (d ∷ rest) (length back) refl,
              drop-append front (c ∷ (back ++ d ∷ rest)) (suc (length front) + suc (length back))
                  (suc (suc (length back))) (omega arith),
              drop-append back (d ∷ rest) (suc (length back)) 1 (omega arith),
            )
            (append_assoc front (c ∷ []) (c ∷ (back ++ rest))))

  -- Down into a gap.
  pub memmove-down :
      (front gap back rest : List C) (i j n : ℕ)
      → i ≡ length front
      → j ≡ length front + length gap
      → n ≡ length back
      → (stale : List C) × (memmove i j n (front ++ (gap ++ (back ++ rest)))
          ≡ some (front ++ (back ++ stale)))
        × (length stale ≡ length gap + length rest)
  memmove-down front gap back rest i j n e g h =
      let cells = front ++ (gap ++ (back ++ rest)) in
      let long = length-append front (gap ++ (back ++ rest)) in
      let long_gap = length-append gap (back ++ rest) in
      let long_back = length-append back rest in
      (
        drop (i + n) cells,
        moved i j n cells (omega (arith, long, long_gap, long_back))
              (omega (arith, long, long_gap, long_back))
            ∙ ap some (
                rw
                  (
                    take-append front (gap ++ (back ++ rest)) i e,
                    drop-append front (gap ++ (back ++ rest)) j (length gap) g,
                    drop-append gap (back ++ rest) (length gap) 0 (omega arith),
                    take-append back rest n h,
                  )
                  refl),
        omega (arith, length-drop (i + n) cells, long, long_gap, long_back),
      )
