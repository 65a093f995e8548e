-- ===== src/Vector/Refined.antt =====
-- A vector as the list of its items, under any sequence of operations.
use nuords_proxy.Prelude.{
  ℕ, suc, ◌+◌, ◌-◌, ◌≤◌, ltb, ◌==◌, ◌≡◌, refl, ap, sym, ◌∙◌, subst, arith, Bool, true, false, ◌&&◌,
  ◌||◌, Bool-cases, inl, inr, Option, none, some, List, [], ◌∷◌, ◌++◌, append-nil, length, take,
  drop, length-take, length-drop, take-append-drop,
}
use nuords_proxy.Vector.{Vector, Outcome, ok, throws, fault, and_then}
use nuords_proxy.Vector.Memory.{max_size}
use nuords_proxy.Vector.Changes.{outside, push_back, pop_back, insert, erase, erase_range, resize}
use nuords_proxy.Vector.Listed.{
  Op, push_back_op, pop_back_op, insert_op, erase_op, erase_range_op, resize_op, reserve_op,
  pack_op, clear_op, apply, apply_list, is_frugal, Agrees, run, run_list, then_list, are_frugal,
  drop-cons, drop-end, take-end, drop-drop,
}
use nuords_proxy.Vector.Holds.{Holds, Gives, mono-Gives, before_increase-throws, IsWide}
use nuords_proxy.Vector.Kept.{Next, push_back-Next, pop_back-Next, erase-Next, erase_range-Next}
use nuords_proxy.Vector.Sizes.{
  clear-Next, insert-Next, reserve-Holds, pack-Next, extend-Holds, shrink-Holds,
}

and_parts : (a b : Bool) → (a && b) ≡ true → (a ≡ true) × (b ≡ true)
and_parts true b e = (refl, e)
and_parts false b e = absurd cc

module _ {A : Type 0} (item_size : ℕ) where
  Gives-Agrees :
      (frugal : Bool) (v : Vector A) (xs ys : List A) (m : Outcome (Vector A))
      → Gives (Next v xs ys) m
      → Agrees frugal v xs m (some ys)
  Gives-Agrees frugal v xs ys (ok u) (h, t) = (h, λ _. t)
  Gives-Agrees frugal v xs ys throws h = h
  Gives-Agrees frugal v xs ys fault h = h

  Holds-Agrees :
      (v : Vector A) (xs ys : List A) (m : Outcome (Vector A))
      → Gives (λ u. Holds u ys) m
      → Agrees false v xs m (some ys)
  Holds-Agrees v xs ys (ok u) h = (h, λ e. absurd cc)
  Holds-Agrees v xs ys throws h = h
  Holds-Agrees v xs ys fault h = h

  split_at : (v : Vector A) (xs : List A) (i : ℕ) → Holds v xs → Holds v (take i xs ++ drop i xs)
  split_at v xs i h = subst (Holds v) (sym (take-append-drop i xs)) h

  push_back-throws :
      (a : A) (v : Vector A) (xs : List A)
      → Holds v xs
      → max_size item_size ≤ length xs
      → push_back item_size (outside a) v ≡ throws
  unfolding push_back
  push_back-throws a v xs h many = rw (before_increase-throws item_size v xs h many) refl

  insert-throws :
      (i : ℕ) (a : A) (v : Vector A) (xs : List A)
      → Holds v xs
      → i ≤ length xs
      → max_size item_size ≤ length xs
      → insert item_size i (outside a) v ≡ throws
  unfolding insert
  insert-throws i a v xs h inside many =
      let near : ltb v.size i ≡ false = ground (arith, h.sized) in
      rw (near, before_increase-throws item_size v xs h many) refl

  push-Agrees :
      (a : A) (v : Vector A) (xs : List A)
      → IsWide item_size
      → Holds v xs
      → Agrees true v xs
          (push_back item_size (outside a) v)
          (apply_list item_size (push_back_op a) xs)
  push-Agrees a v xs wide h = elim (Bool-cases (ltb (length xs) (max_size item_size))) [
    | inl few ↦
        rw few (Gives-Agrees true v xs _ _ (push_back-Next item_size v xs a h (ground arith) wide))
    | inr many ↦ rw (many, push_back-throws a v xs h (ground arith)) tt
  ]

  pop-Agrees :
      (v : Vector A) (xs : List A)
      → Holds v xs
      → Agrees true v xs (pop_back v) (apply_list item_size pop_back_op xs)
  unfolding pop_back
  pop-Agrees v [] h =
      let empty : (v.size == 0) ≡ true = ground (arith, h.sized) in rw empty (h, λ _ narrow. narrow)
  pop-Agrees v (x ∷ xs) h =
      let n = length (x ∷ xs) - 1 in
      let front = take n (x ∷ xs) in
      let (last, e) = drop-cons (x ∷ xs) n (omega arith) in
      let whole : front ++ last ∷ [] ≡ x ∷ xs =
        ap (λ ys. front ++ ys)
          (ap (◌∷◌ last) (sym (drop-end (x ∷ xs) (suc n) (omega arith))) ∙ sym e)
        ∙ take-append-drop n (x ∷ xs) in
      subst (λ ys. Agrees true v ys (pop_back v) (some front)) whole
        (Gives-Agrees true v _ front _ (pop_back-Next v front last (subst (Holds v) (sym whole) h)))

  insert-Agrees :
      (i : ℕ) (a : A) (v : Vector A) (xs : List A)
      → IsWide item_size
      → Holds v xs
      → Agrees true v xs
          (insert item_size i (outside a) v)
          (apply_list item_size (insert_op i a) xs)
  unfolding insert
  insert-Agrees i a v xs wide h = elim (Bool-cases (ltb (length xs) i)) [
    | inl out ↦ let far : ltb v.size i ≡ true = ground (arith, h.sized) in rw (out, far) tt
    | inr inside ↦ rw inside (elim (Bool-cases (ltb (length xs) (max_size item_size))) [
      | inl few ↦
          let k = split_at v xs i h in
          let whole = take-append-drop i xs in
          let at : i ≡ length (take i xs) = ground (arith, length-take i xs) in
          rw few (
            subst
              (λ ys.
                Agrees true v ys (insert item_size i (outside a) v)
                  (some (take i xs ++ a ∷ drop i xs)))
              whole
              (Gives-Agrees true v _ _ _ (
                insert-Next item_size v (take i xs) (drop i xs) a i k (rw whole (ground arith)) wide
                  at)))
      | inr many ↦ rw (many, insert-throws i a v xs h (ground arith) (ground arith)) tt
    ])
  ]

  erase-Agrees :
      (i : ℕ) (v : Vector A) (xs : List A)
      → Holds v xs
      → Agrees true v xs (erase i v) (apply_list item_size (erase_op i) xs)
  unfolding erase
  erase-Agrees i v xs h = elim (Bool-cases (ltb (length xs) i)) [
    | inl out ↦ let far : ltb v.size i ≡ true = ground (arith, h.sized) in rw (out, far) tt
    | inr inside ↦ rw inside (elim (Bool-cases (i == length xs)) [
      | inl end ↦
          let near : ltb v.size i ≡ false = ground (arith, h.sized) in
          let at : (i == v.size) ≡ true = ground (arith, h.sized) in
          rw
            (
              near,
              at,
              take-end xs i (ground arith),
              drop-end xs (suc i) (ground arith),
              append-nil xs,
            )
            (h, λ _ narrow. narrow)
      | inr before ↦
          let (x, e) = drop-cons xs i (ground arith) in
          let whole : take i xs ++ x ∷ drop (suc i) xs ≡ xs =
            ap (λ ys. take i xs ++ ys) (sym e) ∙ take-append-drop i xs in
          let at : i ≡ length (take i xs) = ground (arith, length-take i xs) in
          subst (λ ys. Agrees true v ys (erase i v) (some (take i xs ++ drop (suc i) xs))) whole
            (Gives-Agrees true v _ _ _
              (erase-Next v (take i xs) (drop (suc i) xs) x i (subst (Holds v) (sym whole) h) at))
    ])
  ]

  erase_range-Agrees :
      (i j : ℕ) (v : Vector A) (xs : List A)
      → Holds v xs
      → Agrees true v xs (erase_range i j v) (apply_list item_size (erase_range_op i j) xs)
  unfolding erase_range
  erase_range-Agrees i j v xs h =
      elim (Bool-cases (ltb (length xs) i || ltb (length xs) j || ltb j i)) [
        | inl out ↦
            let far : (ltb v.size i || ltb v.size j || ltb j i) ≡ true =
              ap (λ n. ltb n i || ltb n j || ltb j i) h.sized ∙ out in
            rw (out, far) tt
        | inr inside ↦
            let front = take i xs in
            let gone = take (j - i) (drop i xs) in
            let lim : (i ≤ j) × (j ≤ length xs) = ground arith in
            let rest_is : drop (j - i) (drop i xs) ≡ drop j xs =
              drop-drop xs i (j - i) j (omega (arith, lim.0)) in
            let whole : front ++ (gone ++ drop j xs) ≡ xs =
              ap (λ ys. front ++ ys)
                (ap (λ ys. gone ++ ys) (sym rest_is) ∙ take-append-drop (j - i) (drop i xs))
              ∙ take-append-drop i xs in
            let k : Holds v (front ++ (gone ++ drop j xs)) = subst (Holds v) (sym whole) h in
            let at : i ≡ length front = omega (arith, lim.0, lim.1, length-take i xs) in
            let at_gap : j ≡ length front + length gone =
              omega (arith, lim.0, lim.1, at, length-take (j - i) (drop i xs), length-drop i xs) in
            rw inside (
              subst (λ ys. Agrees true v ys (erase_range i j v) (some (front ++ drop j xs))) whole
                (Gives-Agrees true v _ _ _
                  (erase_range-Next v front gone (drop j xs) i j k at at_gap)))
      ]

  resize-Agrees :
      (n : ℕ) (a : A) (v : Vector A) (xs : List A)
      → IsWide item_size
      → Holds v xs
      → Agrees false v xs
          (resize item_size n (outside a) v)
          (apply_list item_size (resize_op n a) xs)
  unfolding resize
  resize-Agrees n a v xs wide h = elim (Bool-cases (n == length xs)) [
    | inl same ↦
        let kept : (n == v.size) ≡ true = ground (arith, h.sized) in
        rw (same, kept) (h, λ e. absurd cc)
    | inr other ↦
        let changed : (n == v.size) ≡ false = ground (arith, h.sized) in
        rw (other, changed)
          (elim (Bool-cases (ltb (max_size item_size) n)) [
            | inl many ↦ rw many tt
            | inr few ↦ rw few (elim (Bool-cases (ltb v.size n)) [
              | inl more ↦
                  let above : length xs ≤ n = ground (arith, h.sized) in
                  rw (more, take-end xs n above)
                    (Holds-Agrees v xs _ _ (extend-Holds n a v xs h above (ground arith)))
              | inr less ↦
                  let at : n ≡ length (take n xs) = ground (arith, length-take n xs, h.sized) in
                  let nothing : n - length xs ≡ 0 = ground (arith, h.sized) in
                  rw (less, nothing, append-nil (take n xs))
                    (Holds-Agrees v xs _ _
                      (shrink-Holds v (take n xs) (drop n xs) n (split_at v xs n h) at))
            ])
          ])
  ]

  apply-Agrees :
      (op : Op A) (v : Vector A) (xs : List A)
      → IsWide item_size
      → Holds v xs
      → Agrees (is_frugal op) v xs (apply item_size op v) (apply_list item_size op xs)
  apply-Agrees (push_back_op a) v xs wide h = push-Agrees a v xs wide h
  apply-Agrees pop_back_op v xs wide h = pop-Agrees v xs h
  apply-Agrees (insert_op i a) v xs wide h = insert-Agrees i a v xs wide h
  apply-Agrees (erase_op i) v xs wide h = erase-Agrees i v xs h
  apply-Agrees (erase_range_op i j) v xs wide h = erase_range-Agrees i j v xs h
  apply-Agrees (resize_op n a) v xs wide h = resize-Agrees n a v xs wide h
  apply-Agrees (reserve_op n) v xs wide h =
      Holds-Agrees v xs xs _
        (mono-Gives _ (λ u. Holds u xs) _ (λ u (k, _). k) (reserve-Holds n v xs h))
  apply-Agrees pack_op v xs wide h = Gives-Agrees true v xs xs _ (pack-Next v xs h)
  apply-Agrees clear_op v xs wide h = Gives-Agrees true v xs [] _ (clear-Next v xs h)

  then-Agrees :
      (first rest : Bool) (v : Vector A) (xs : List A) (m : Outcome (Vector A))
      (found : Option (List A)) (next : Vector A → Outcome (Vector A))
      (next_list : List A → Option (List A))
      → Agrees first v xs m found
      → ((w : Vector A) (ys : List A) → Holds w ys → Agrees rest w ys (next w) (next_list ys))
      → Agrees (first && rest) v xs (and_then m next) (then_list found next_list)
  then-Agrees first rest v xs (ok w) (some ys) next next_list (h, t) k =
      joined (next w) (next_list ys) (k w ys h)
    where
      joined :
          (m : Outcome (Vector A)) (found : Option (List A))
          → Agrees rest w ys m found
          → Agrees (first && rest) v xs m found
      joined (ok u) (some zs) (g, t') =
          (g, λ both narrow. let (one, two) = and_parts first rest both in t' two (t one narrow))
      joined (ok u) none g = g
      joined throws (some zs) g = g
      joined throws none g = g
      joined fault found g = g
  then-Agrees first rest v xs (ok w) none next next_list h k = absurd h
  then-Agrees first rest v xs throws (some ys) next next_list h k = absurd h
  then-Agrees first rest v xs throws none next next_list h k = tt
  then-Agrees first rest v xs fault found next next_list h k = h

  pub run-Agrees :
      (ops : List (Op A)) (v : Vector A) (xs : List A)
      → IsWide item_size
      → Holds v xs
      → Agrees (are_frugal ops) v xs (run item_size ops v) (run_list item_size ops xs)
  unfolding run
  run-Agrees [] v xs wide h = (h, λ _ narrow. narrow)
  run-Agrees (op ∷ ops) v xs wide h =
      then-Agrees (is_frugal op) (are_frugal ops) v xs _ _ _ _ (apply-Agrees op v xs wide h)
        (λ w ys k. run-Agrees ops w ys wide k)
