-- ===== src/Vector/Holds.antt =====
-- A vector that holds a list of items, and what its private operations keep of it.
use nuords_proxy.Prelude.{
  ℕ, ◌^◌, suc, ◌+◌, ◌-◌, ◌*◌, ◌≤◌, ◌<◌, ltb, leb, ◌==◌, ◌≡◌, refl, ap, sym, ◌∙◌, arith, true, false,
  Bool-cases, if_true, inl, inr, Option, none, some, List, [], ◌∷◌, ◌++◌, append_assoc, length,
  take, replicate, length-append, length-replicate, take-append,
}
use nuords_proxy.Vector.{Vector, Outcome, ok, throws, fault, and_then}
use nuords_proxy.Vector.Memory.{
  page_size, max_size, calc_capacity, copy_down, grow_up, reallocate, set_capacity, before_increase,
  after_decrease,
}

-- Items so large that no capacity wraps round, which is so from two bytes on.
abbrev pub IsWide : ℕ → Type 0
IsWide item_size = max_size item_size + 16 < 2 ^ 64

pub calc_capacity_lem :
    (n : ℕ) → n + 16 < 2 ^ 64 → (n < calc_capacity n) × (calc_capacity n ≤ n + 16)
unfolding calc_capacity
calc_capacity_lem n small = (omega arith, omega arith)

module _ {A : Type 0} where
  abbrev pub live : List A → List (Option A)
  live [] = []
  live (x ∷ xs) = some x ∷ live xs

  pub live-append : (xs ys : List A) → live (xs ++ ys) ≡ live xs ++ live ys
  live-append [] ys = refl
  live-append (x ∷ xs) ys = ap (◌∷◌ (some x)) (live-append xs ys)

  pub length-live : (xs : List A) → length (live xs) ≡ length xs
  length-live [] = refl
  length-live (x ∷ xs) = ap suc (length-live xs)

  -- The items stand at the front of the memory, which is as large as recorded.
  pub record Holds (v : Vector A) (xs : List A) : Type 0 where
    pub spare : List (Option A)
    pub cells : v.data_cells ≡ live xs ++ spare
    pub sized : v.size ≡ length xs
    pub allocated : v.capacity ≡ length xs + length spare

  -- A call that returns, with a property of what it returns.
  abbrev pub Gives : (Vector A → Type 0) → Outcome (Vector A) → Type 0
  Gives P (ok v) = P v
  Gives P throws = ⊥
  Gives P fault = ⊥

  pub then-Gives :
      (P : Vector A → Type 0) (Q : Vector A → Type 0) (m : Outcome (Vector A))
      (next : Vector A → Outcome (Vector A))
      → Gives P m
      → ((v : Vector A) → P v → Gives Q (next v))
      → Gives Q (and_then m next)
  then-Gives P Q (ok v) next h k = k v h
  then-Gives P Q throws next h k = h
  then-Gives P Q fault next h k = h

  -- The items of a list, in memory of a size.
  abbrev pub Fits : List A → ℕ → Vector A → Type 0
  Fits xs cp v = Holds v xs × (v.capacity ≡ cp)

  emptied :
      (v : Vector A) (xs : List A)
      → Holds v xs
      → length xs ≤ 0
      → Holds (record v { data_cells = []; capacity = 0 }) xs
  emptied v [] h few = record { spare = []; cells = refl; sized = h.sized; allocated = refl }
  emptied v (x ∷ xs) h few = absurd (omega arith)

  length-cells :
      (xs : List A) (spare : List (Option A)) → length (live xs ++ spare) ≡ length xs + length spare
  length-cells xs spare = omega (arith, length-append (live xs) spare, length-live xs)

  copy_down-Fits :
      (cp : ℕ) (v : Vector A) (xs : List A)
      → Holds v xs
      → length xs ≤ cp
      → Gives (Fits xs cp) (copy_down cp v)
  unfolding copy_down
  copy_down-Fits cp v xs h enough =
      let long : v.size ≤ length v.data_cells =
        rw (h.cells, h.sized) (omega (arith, length-cells xs h.spare)) in
      let room : leb v.size (length v.data_cells) ≡ true = ground arith in
      let kept : take v.size v.data_cells ≡ live xs =
        rw (h.cells, h.sized) (take-append (live xs) h.spare (length xs) (sym (length-live xs))) in
      rw room (
        record {
          spare = replicate (cp - v.size) none;
          cells = rw kept refl;
          sized = h.sized;
          allocated = omega (arith, h.sized, length-replicate {A = Option A} (cp - v.size) none);
        },
        refl,
      )

  grow_up-Fits :
      (cp : ℕ) (v : Vector A) (xs : List A)
      → Holds v xs
      → v.capacity ≤ cp
      → Gives (Fits xs cp) (grow_up cp v)
  unfolding grow_up
  grow_up-Fits cp v xs h more =
      let fresh = replicate {A = Option A} (cp - length v.data_cells) none in
      let long : length v.data_cells ≡ length xs + length h.spare =
        rw h.cells (length-cells xs h.spare) in
      (
        record {
          spare = h.spare ++ fresh;
          cells = ap (λ cs. cs ++ fresh) h.cells ∙ append_assoc (live xs) h.spare fresh;
          sized = h.sized;
          allocated = omega (
            arith,
            h.allocated,
            long,
            length-append h.spare fresh,
            length-replicate {A = Option A} (cp - length v.data_cells) none,
          );
        },
        refl,
      )

  pub reallocate-Fits :
      (cp : ℕ) (v : Vector A) (xs : List A)
      → Holds v xs
      → length xs ≤ cp
      → Gives (Fits xs cp) (reallocate cp v)
  unfolding reallocate
  reallocate-Fits cp v xs h enough = elim (Bool-cases (v.capacity == cp)) [
    | inl same ↦ rw same (h, ground arith)
    | inr other ↦ rw other (elim (Bool-cases (cp == 0)) [
      | inl none_left ↦ rw none_left (emptied v xs h (ground arith), ground arith)
      | inr some_left ↦ rw some_left (elim (Bool-cases (ltb cp v.capacity)) [
        | inl less ↦ rw less (copy_down-Fits cp v xs h enough)
        | inr more ↦ rw more (grow_up-Fits cp v xs h (ground arith))
      ])
    ])
  ]

  pub mono-Gives :
      (P Q : Vector A → Type 0) (m : Outcome (Vector A))
      → ((v : Vector A) → P v → Q v)
      → Gives P m
      → Gives Q m
  mono-Gives P Q (ok v) f h = f v h
  mono-Gives P Q throws f h = h
  mono-Gives P Q fault f h = h

  pub set_capacity-Fits :
      (cp : ℕ) (v : Vector A) (xs : List A)
      → Holds v xs
      → length xs ≤ cp
      → Gives (Fits xs cp) (set_capacity cp v)
  unfolding set_capacity
  set_capacity-Fits cp v xs h enough =
      let fine : ltb cp v.size ≡ false = ground (arith, h.sized) in
      rw fine (reallocate-Fits cp v xs h enough)

  -- To no less than a number of items, and to no more than the items and four pages.
  abbrev pub Tight : List A → Vector A → Type 0
  Tight xs v = Holds v xs × (v.capacity ≤ length xs + 64)

  abbrev pub Roomy : Vector A → List A → Vector A → Type 0
  Roomy v xs w =
      Holds w xs
      × (length xs < w.capacity)
      × (v.capacity ≤ length xs + 64 → w.capacity ≤ length xs + 64)

  pub before_increase-Roomy :
      (item_size : ℕ) (v : Vector A) (xs : List A)
      → Holds v xs
      → length xs < max_size item_size
      → IsWide item_size
      → Gives (Roomy v xs) (before_increase item_size 1 v)
  unfolding before_increase
  before_increase-Roomy item_size v xs h few wide =
      let allowed : ltb (max_size item_size) (v.size + 1) ≡ false = ground (arith, h.sized) in
      rw allowed (elim (Bool-cases (ltb (v.capacity - v.size) 1)) [
        | inl full ↦ rw full (
            let (above, near) = calc_capacity_lem (v.size + 1) (omega (arith, h.sized)) in
            mono-Gives (Fits xs (calc_capacity (v.size + 1))) (Roomy v xs) _
              (λ w (k, e). (k, omega (arith, h.sized), λ _. omega (arith, h.sized)))
              (set_capacity-Fits (calc_capacity (v.size + 1)) v xs h (omega (arith, h.sized))))
        | inr room ↦ rw room (h, ground (arith, h.sized), λ tight. tight)
      ])

  pub before_increase-throws :
      (item_size : ℕ) (v : Vector A) (xs : List A)
      → Holds v xs
      → max_size item_size ≤ length xs
      → before_increase item_size 1 v ≡ throws
  unfolding before_increase
  before_increase-throws item_size v xs h many =
      if_true (ltb (max_size item_size) (v.size + 1)) _ _ (ground (arith, h.sized))

  pub after_decrease-Tight :
      (v : Vector A) (xs : List A) → Holds v xs → Gives (Tight xs) (after_decrease v)
  unfolding after_decrease
  after_decrease-Tight v xs h = elim (Bool-cases (ltb (page_size * 4) (v.capacity - v.size))) [
    | inl wide ↦ rw wide (
        mono-Gives (Fits xs (v.size + page_size)) (Tight xs) _
          (λ w (k, e). (k, omega (arith, h.sized)))
          (set_capacity-Fits (v.size + page_size) v xs h (omega (arith, h.sized))))
    | inr narrow ↦ rw narrow (h, ground (arith, h.sized))
  ]
