-- ===== src/Vector/Sizes.antt =====
-- What insertions and the changes of the size or the capacity leave in a vector.
use nuords_proxy.Prelude.{
  ℕ, suc, ◌+◌, ◌-◌, ◌^◌, ◌≤◌, ◌<◌, ltb, ◌==◌, ◌≡◌, refl, ap, sym, ◌∙◌, subst, arith, true, false,
  Bool-cases, inl, inr, Option, none, some, List, [], ◌∷◌, ◌++◌, append-nil, length, take, drop,
  replicate, length-append, length-replicate, length-take, length-drop, take-append-drop,
  if◌then◌else◌,
}
use nuords_proxy.Vector.{Vector, ok, and_then}
use nuords_proxy.Vector.Memory.{
  max_size, calc_capacity, set_item, destroy_items, set_items, move_items, before_increase,
}
use nuords_proxy.Vector.Changes.{outside, clear, insert, resized, extend, reserve, pack}
use nuords_proxy.Vector.Holds.{
  live, length-live, Holds, Gives, then-Gives, mono-Gives, Roomy, Fits, set_capacity-Fits, IsWide,
  calc_capacity_lem, before_increase-Roomy,
}
use nuords_proxy.Vector.Places.{set_item-at, destroy_items-at, set_items-at, move_items-up}
use nuords_proxy.Vector.Kept.{Next, split, set_item-end, Holds-parts, parts, after_decrease-Next}

module _ {A : Type 0} where
  pub clear-Next : (v : Vector A) (xs : List A) → Holds v xs → Gives (Next v xs []) (clear v)
  unfolding clear
  clear-Next v xs h = elim (Bool-cases (v.size == 0)) [
    | inl empty ↦
        rw empty (no_items xs h (ground (arith, h.sized)), λ narrow. ground (arith, h.sized))
    | inr filled ↦
        let w : Vector A = record (v) { size = 0 } in
        rw (filled, destroy_items-at w [] h.spare xs v.size 0 h.cells h.sized refl)
          (after_decrease-Next v _ xs [] (record {
            spare = replicate v.size none ++ h.spare;
            cells = refl;
            sized = refl;
            allocated = omega (
              arith,
              h.allocated,
              h.sized,
              length-append (replicate v.size none) h.spare,
              length-replicate {A = Option A} v.size none,
            );
          }))
  ]
    where
      no_items : (xs : List A) → Holds v xs → length xs ≡ 0 → Holds v []
      no_items [] h e = h
      no_items (x ∷ xs) h e = absurd (omega arith)

  -- Behind the first items of a vector with room.
  put :
      (v w : Vector A) (front rest : List A) (a : A) (i : ℕ)
      → Holds w (front ++ rest)
      → length (front ++ rest) < w.capacity
      → i ≡ length front
      → Gives
          (λ u. Holds u (front ++ a ∷ rest) × (u.capacity ≡ w.capacity))
          (and_then
            (if ltb i w.size then move_items (suc i) i (w.size - i) w else ok w)
            λ u. and_then (set_item i a u) (resized (suc u.size)))
  put v w front [] a i h room at =
      let k : Holds w front = subst (Holds w) (append-nil front) h in
      let last : ltb i w.size ≡ false = ground (arith, k.sized) in
      let nil : List A = [] in
      rw last (set_item-end w front a i k (omega (arith, room, length-append front nil)) at)
  put v w front (c ∷ rest) a i h room at =
      let long = length-append front (c ∷ rest) in
      let (d, more, e) = split h.spare (omega (arith, h.allocated)) in
      let wide : length h.spare ≡ suc (length more) = ap length e in
      let inside : ltb i w.size ≡ true = ground (arith, h.sized, long) in
      let at_live = at ∙ sym (length-live front) in
      let u : Vector A = record (w) {
        data_cells = live front ++ some c ∷ some c ∷ (live rest ++ more);
      } in
      rw
        (
          inside,
          move_items-up w (live front) (live rest) more (some c) d i (w.size - i)
              (parts w front (c ∷ rest) h ∙ ap (λ cs. live front ++ some c ∷ (live rest ++ cs)) e)
              at_live (omega (arith, h.sized, long, at, length-live rest)),
          set_item-at u (live front) (some c ∷ (live rest ++ more)) (some c) a i refl at_live,
        )
        (
          Holds-parts _ front (a ∷ c ∷ rest) more refl (omega (arith, h.sized, long))
              (omega (arith, h.allocated, long, wide)),
          refl,
        )

  pub insert-Next :
      (item_size : ℕ) (v : Vector A) (front rest : List A) (a : A) (i : ℕ)
      → Holds v (front ++ rest)
      → length (front ++ rest) < max_size item_size
      → IsWide item_size
      → i ≡ length front
      → Gives (Next v (front ++ rest) (front ++ a ∷ rest)) (insert item_size i (outside a) v)
  unfolding insert
  insert-Next item_size v front rest a i h few wide at =
      let long = length-append front rest in
      let long' = length-append front (a ∷ rest) in
      let inside : ltb v.size i ≡ false = ground (arith, h.sized, long) in
      rw inside (
        then-Gives (Roomy v (front ++ rest)) (Next v (front ++ rest) (front ++ a ∷ rest))
          (before_increase item_size 1 v) _ (before_increase-Roomy item_size v _ h few wide)
          (λ w (k, room, tight).
            mono-Gives _ (Next v (front ++ rest) (front ++ a ∷ rest)) _
              (λ u (g, e). (g, λ narrow. omega (arith, tight narrow, long, long')))
              (put v w front rest a i k room at)))

  -- `reserve` and the first step of `extend`.
  pub reserve-Holds :
      (sz : ℕ) (v : Vector A) (xs : List A)
      → Holds v xs
      → Gives (λ w. Holds w xs × (sz + 16 < 2 ^ 64 → sz ≤ w.capacity)) (reserve sz v)
  unfolding reserve
  reserve-Holds sz v xs h = elim (Bool-cases (ltb v.capacity (calc_capacity sz))) [
    | inl more ↦ rw more (
        mono-Gives (Fits xs (calc_capacity sz))
          (λ w. Holds w xs × (sz + 16 < 2 ^ 64 → sz ≤ w.capacity)) _
          (λ w (k, e). (k, λ small. omega (arith, (calc_capacity_lem sz small).0)))
          (set_capacity-Fits (calc_capacity sz) v xs h (ground (arith, h.allocated))))
    | inr enough ↦ rw enough (h, λ small. ground (arith, (calc_capacity_lem sz small).0))
  ]

  pub pack-Next : (v : Vector A) (xs : List A) → Holds v xs → Gives (Next v xs xs) (pack v)
  unfolding pack
  pack-Next v xs h = elim (Bool-cases (ltb v.size v.capacity)) [
    | inl more ↦ rw more (
        mono-Gives (Fits xs v.size) (Next v xs xs) _ (λ w (k, e). (k, λ _. omega (arith, h.sized)))
          (set_capacity-Fits v.size v xs h (omega (arith, h.sized))))
    | inr full ↦ rw full (h, λ narrow. narrow)
  ]

  -- The branches of `resize`.
  pub extend-Holds :
      (sz : ℕ) (a : A) (v : Vector A) (xs : List A)
      → Holds v xs
      → length xs ≤ sz
      → sz + 16 < 2 ^ 64
      → Gives (λ w. Holds w (xs ++ replicate (sz - length xs) a)) (extend sz (outside a) v)
  unfolding extend reserve
  extend-Holds sz a v xs h more small =
      then-Gives (λ w. Holds w xs × (sz + 16 < 2 ^ 64 → sz ≤ w.capacity))
        (λ w. Holds w (xs ++ replicate (sz - length xs) a)) (reserve sz v) _
        (reserve-Holds sz v xs h)
        (λ w (k, fits).
          let room : sz ≤ w.capacity = fits small in
          let m = sz - w.size in
          let gap = take m k.spare in
          let rest = drop m k.spare in
          subst
            (λ len.
              Gives (λ u. Holds u (xs ++ replicate (sz - len) a))
                (and_then (set_items m w.size a w) (resized sz)))
            k.sized
            (rw
              (set_items-at w (live xs) gap rest a m w.size
                (k.cells ∙ ap (λ cs. live xs ++ cs) (sym (take-append-drop m k.spare)))
                (omega (arith, length-take m k.spare, k.allocated, k.sized))
                (k.sized ∙ sym (length-live xs)))
              (Holds-parts _ xs (replicate m a) rest refl
                (omega (arith, k.sized, length-replicate m a))
                (omega
                  (arith, length-replicate m a, k.allocated, k.sized, length-drop m k.spare)))))

  pub shrink-Holds :
      (v : Vector A) (front gone : List A) (sz : ℕ)
      → Holds v (front ++ gone)
      → sz ≡ length front
      → Gives (λ w. Holds w front) (and_then (destroy_items (v.size - sz) sz v) (resized sz))
  shrink-Holds v front gone sz h at =
      let long = length-append front gone in
      rw
        (destroy_items-at v (live front) h.spare gone (v.size - sz) sz (parts v front gone h)
          (omega (arith, h.sized, long, at)) (at ∙ sym (length-live front)))
        (record {
          spare = replicate (v.size - sz) none ++ h.spare;
          cells = refl;
          sized = at;
          allocated = omega (
            arith,
            h.allocated,
            h.sized,
            long,
            length-append (replicate (v.size - sz) none) h.spare,
            length-replicate {A = Option A} (v.size - sz) none,
          );
        })
