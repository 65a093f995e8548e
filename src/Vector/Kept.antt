-- ===== src/Vector/Kept.antt =====
-- What the operations that add items or remove them leave in a vector.
use nuords_proxy.Prelude.{
  ℕ, suc, ◌+◌, ◌-◌, ◌≤◌, ◌<◌, ltb, ◌==◌, ◌≡◌, refl, ap, sym, ◌∙◌, arith, true, ◌||◌, false, Option,
  none, some, List, [], ◌∷◌, ◌++◌, append_assoc, length, replicate, length-append, length-replicate,
}
use nuords_proxy.Vector.{Vector, and_then}
use nuords_proxy.Vector.Memory.{max_size, set_item, before_increase, after_decrease}
use nuords_proxy.Vector.Changes.{
  outside, push_back, pop_back, erase, erase_range, close_gap, resized,
}
use nuords_proxy.Vector.Holds.{
  live, live-append, length-live, Holds, Gives, then-Gives, mono-Gives, Tight, Roomy, IsWide,
  before_increase-Roomy, after_decrease-Tight,
}
use nuords_proxy.Vector.Places.{set_item-at, destroy_item-at, destroy_items-at, move_items-down}

module _ {A : Type 0} where
  -- From a vector that holds some items to one that holds others: it is left with no more than four
  -- pages to spare, if it had no more.
  abbrev pub Next : Vector A → List A → List A → Vector A → Type 0
  Next v xs ys u = Holds u ys × (v.capacity ≤ length xs + 64 → u.capacity ≤ length ys + 64)

  abbrev pub Split : List (Option A) → Type 0
  Split cells = (d : Option A) × (rest : List (Option A)) × (cells ≡ d ∷ rest)

  pub split : (cells : List (Option A)) → 0 < length cells → Split cells
  split [] h = absurd (omega arith)
  split (d ∷ rest) h = (d, rest, refl)

  live-snoc :
      (xs : List A) (a : A) (rest : List (Option A))
      → live xs ++ some a ∷ rest ≡ live (xs ++ a ∷ []) ++ rest
  live-snoc xs a rest =
      rw (live-append xs (a ∷ [])) (sym (append_assoc (live xs) (some a ∷ []) rest))

  -- An item behind those that are held.
  pub set_item-end :
      (w : Vector A) (xs : List A) (a : A) (i : ℕ)
      → Holds w xs
      → length xs < w.capacity
      → i ≡ length xs
      → Gives
          (λ u. Holds u (xs ++ a ∷ []) × (u.capacity ≡ w.capacity))
          (and_then (set_item i a w) (resized (suc w.size)))
  set_item-end w xs a i h room at =
      let (d, rest, e) = split h.spare (omega (arith, h.allocated)) in
      let long : length h.spare ≡ suc (length rest) = ap length e in
      rw
        (set_item-at w (live xs) rest d a i (h.cells ∙ ap (λ cs. live xs ++ cs) e)
          (at ∙ sym (length-live xs)))
        (
          record {
            spare = rest;
            cells = live-snoc xs a rest;
            sized = omega (arith, h.sized, length-append xs (a ∷ []));
            allocated = omega (arith, h.allocated, long, length-append xs (a ∷ []));
          },
          refl,
        )

  pub push_back-Next :
      (item_size : ℕ) (v : Vector A) (xs : List A) (a : A)
      → Holds v xs
      → length xs < max_size item_size
      → IsWide item_size
      → Gives (Next v xs (xs ++ a ∷ [])) (push_back item_size (outside a) v)
  unfolding push_back
  push_back-Next item_size v xs a h few wide =
      then-Gives (Roomy v xs) (Next v xs (xs ++ a ∷ [])) (before_increase item_size 1 v) _
        (before_increase-Roomy item_size v xs h few wide)
        (λ w (k, room, tight).
          mono-Gives _ (Next v xs (xs ++ a ∷ [])) _
            (λ u (g, e). (g, λ narrow. omega (arith, tight narrow, length-append xs (a ∷ []))))
            (set_item-end w xs a w.size k room k.sized))

  pub Holds-parts :
      (w : Vector A) (front rest : List A) (spare : List (Option A))
      → w.data_cells ≡ live front ++ (live rest ++ spare)
      → w.size ≡ length front + length rest
      → w.capacity ≡ length front + length rest + length spare
      → Holds w (front ++ rest)
  Holds-parts w front rest spare e sized allocated = record {
    spare = spare;
    cells = rw (live-append front rest) (e ∙ sym (append_assoc (live front) (live rest) spare));
    sized = omega (arith, sized, length-append front rest);
    allocated = omega (arith, allocated, length-append front rest);
  }

  pub parts :
      (v : Vector A) (front rest : List A)
      → (h : Holds v (front ++ rest)) → v.data_cells ≡ live front ++ (live rest ++ h.spare)
  parts v front rest h =
      h.cells
      ∙ ap (λ cs. cs ++ h.spare) (live-append front rest)
      ∙ append_assoc (live front) (live rest) h.spare

  pub after_decrease-Next :
      (v w : Vector A) (xs ys : List A) → Holds w ys → Gives (Next v xs ys) (after_decrease w)
  after_decrease-Next v w xs ys h =
      mono-Gives (Tight ys) (Next v xs ys) (after_decrease w) (λ u (k, narrow). (k, λ _. narrow))
        (after_decrease-Tight w ys h)

  -- After the destructors in the middle: the items behind move down.
  removed :
      (v w : Vector A) (xs front gone rest : List A) (spare : List (Option A)) (i j : ℕ)
      → w.data_cells ≡ live front ++ (replicate (length gone) none ++ (live rest ++ spare))
      → w.size ≡ length front + length rest
      → w.capacity ≡ length front + length gone + length rest + length spare
      → i ≡ length front
      → j ≡ length front + length gone
      → Gives (Next v xs (front ++ rest)) (and_then (close_gap i j w) after_decrease)
  removed v w xs front gone [] spare i j e sized allocated at at_gap =
      let holes = replicate {A = Option A} (length gone) none in
      let last : ltb i w.size ≡ false = ground arith in
      rw last (
        after_decrease-Next v w xs (front ++ []) (
          Holds-parts w front [] (holes ++ spare) e sized (
            omega (
              arith,
              allocated,
              length-append holes spare,
              length-replicate {A = Option A} (length gone) none,
            ))))
  removed v w xs front gone (c ∷ rest) spare i j e sized allocated at at_gap =
      let holes = replicate {A = Option A} (length gone) none in
      let wide = length-replicate {A = Option A} (length gone) none in
      let inside : ltb i w.size ≡ true = ground arith in
      let (stale, made, long) =
        move_items-down w (live front) holes (live (c ∷ rest)) spare i j (w.size - i) e
          (at ∙ sym (length-live front)) (omega (arith, at_gap, wide, length-live front))
          (omega (arith, sized, at, length-live rest)) in
      rw (inside, made)
        (after_decrease-Next v (record w { data_cells = live front ++ (live (c ∷ rest) ++ stale) })
          xs (front ++ c ∷ rest)
          (Holds-parts _ front (c ∷ rest) stale refl sized (omega (arith, allocated, long, wide))))

  pub erase-Next :
      (v : Vector A) (front rest : List A) (a : A) (i : ℕ)
      → Holds v (front ++ a ∷ rest)
      → i ≡ length front
      → Gives (Next v (front ++ a ∷ rest) (front ++ rest)) (erase i v)
  unfolding erase
  erase-Next v front rest a i h at =
      let long = length-append front (a ∷ rest) in
      let inside : ltb v.size i ≡ false = ground (arith, h.sized, long) in
      let before : (i == v.size) ≡ false = ground (arith, h.sized, long) in
      let w : Vector A = record (v) { size = v.size - 1 } in
      rw
        (
          inside,
          before,
          destroy_item-at w (live front) (live rest ++ h.spare) a i (parts v front (a ∷ rest) h)
              (at ∙ sym (length-live front)),
        )
        (removed v _ (front ++ a ∷ rest) front (a ∷ []) rest h.spare i (suc i) refl
          (omega (arith, h.sized, long)) (omega (arith, h.allocated, long)) at (omega arith))

  pub erase_range-Next :
      (v : Vector A) (front gone rest : List A) (i j : ℕ)
      → Holds v (front ++ (gone ++ rest))
      → i ≡ length front
      → j ≡ length front + length gone
      → Gives (Next v (front ++ (gone ++ rest)) (front ++ rest)) (erase_range i j v)
  unfolding erase_range
  erase_range-Next v front [] rest i j h at at_gap =
      let long = length-append front rest in
      let inside : (ltb v.size i || ltb v.size j || ltb j i) ≡ false =
        ground (arith, h.sized, long) in
      let same : (j == i) ≡ true = ground arith in rw (inside, same) (h, λ narrow. narrow)
  erase_range-Next v front (c ∷ gone) rest i j h at at_gap =
      let long = length-append front (c ∷ gone ++ rest) in
      let long_gone = length-append gone rest in
      let inside : (ltb v.size i || ltb v.size j || ltb j i) ≡ false =
        ground (arith, h.sized, long, long_gone) in
      let apart : (j == i) ≡ false = ground arith in
      let width : j - i ≡ suc (length gone) = omega (arith, at, at_gap) in
      let w : Vector A = record (v) { size = v.size - (j - i) } in
      rw
        (
          inside,
          apart,
          destroy_items-at w (live front) (live rest ++ h.spare) (c ∷ gone) (j - i) i
              (parts v front (c ∷ gone ++ rest) h
                ∙ ap (λ cs. live front ++ (some c ∷ cs))
                    (ap (λ cs. cs ++ h.spare) (live-append gone rest)
                      ∙ append_assoc (live gone) (live rest) h.spare))
              (omega (arith, at, at_gap)) (at ∙ sym (length-live front)),
        )
        (removed v _ (front ++ (c ∷ gone ++ rest)) front (c ∷ gone) rest h.spare i j
          (ap (λ n. live front ++ (replicate n none ++ (live rest ++ h.spare))) width)
          (omega (arith, h.sized, long, long_gone, at, at_gap))
          (omega (arith, h.allocated, long, long_gone)) at at_gap)

  pub pop_back-Next :
      (v : Vector A) (xs : List A) (a : A)
      → Holds v (xs ++ a ∷ [])
      → Gives (Next v (xs ++ a ∷ []) xs) (pop_back v)
  unfolding pop_back
  pop_back-Next v xs a h =
      let long = length-append xs (a ∷ []) in
      let filled : (v.size == 0) ≡ false = ground (arith, h.sized, long) in
      let w : Vector A = record (v) { size = v.size - 1 } in
      rw
        (
          filled,
          destroy_item-at w (live xs) h.spare a (v.size - 1) (parts v xs (a ∷ []) h)
              (omega (arith, h.sized, long, length-live xs)),
        )
        (after_decrease-Next v _ (xs ++ a ∷ []) xs (record {
          spare = none ∷ h.spare;
          cells = refl;
          sized = omega (arith, h.sized, long);
          allocated = omega (arith, h.allocated, long);
        }))
