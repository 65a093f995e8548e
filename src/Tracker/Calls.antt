-- ===== src/Tracker/Calls.antt =====
-- The callbacks of src/nrdnb_client.cpp, as pairs of a function and its argument. `none` is NULL.
use nuords_proxy.Prelude.{
  ◌≡◌, refl, ap, if_true, arith, ℕ, Bool, true, false, ◌&&◌, ◌||◌, ◌==◌, if◌then◌else◌, Option,
  none, some, List, [], ◌∷◌, ◌++◌,
}
use nuords_proxy.Tracker.{Event, Tracker}

abbrev pub same_call : ℕ × ℕ → ℕ × ℕ → Bool
same_call (c, p) (d, q) = (c == d) && (p == q)

unfoldable pub has_call : ℕ × ℕ → List (ℕ × ℕ) → Bool
has_call c [] = false
has_call c (d ∷ calls) = same_call d c || has_call c calls

unfoldable pub erase_call : ℕ × ℕ → List (ℕ × ℕ) → List (ℕ × ℕ)
erase_call c [] = []
erase_call c (d ∷ calls) = if same_call d c then calls else d ∷ erase_call c calls

unfoldable pub register_callback : Option ℕ → ℕ → Tracker → Bool × Tracker
register_callback none par t = (false, t)
register_callback (some cbc) par t =
    if has_call (cbc, par) t.cbcs
    then (true, t)
    else (true, record t { cbcs = t.cbcs ++ (cbc, par) ∷ [] })

unfoldable pub unregister_callback : Option ℕ → ℕ → Tracker → Bool × Tracker
unregister_callback none par t = (false, t)
unregister_callback (some cbc) par t = (true, record t { cbcs = erase_call (cbc, par) t.cbcs })

-- Every callback is called, and one that returns true is enough.
unfoldable pub raise_event : (ℕ × ℕ → Event → Bool) → Event → List (ℕ × ℕ) → Bool
raise_event call event [] = false
raise_event call event (c ∷ calls) = call c event || raise_event call event calls

has_call-snoc : (c : ℕ × ℕ) (calls : List (ℕ × ℕ)) → has_call c (calls ++ c ∷ []) ≡ true
unfolding has_call
has_call-snoc (c, p) [] = ground arith
has_call-snoc c (d ∷ calls) = rw (has_call-snoc c calls) (or_true (same_call d c))
  where
    or_true : (b : Bool) → (b || true) ≡ true
    or_true true = refl
    or_true false = refl

or_parts : (a b : Bool) → (a || b) ≡ false → (a ≡ false) × (b ≡ false)
or_parts true b e = cc
or_parts false b e = (refl, e)

erase_call-snoc :
    (c : ℕ × ℕ) (calls : List (ℕ × ℕ))
    → has_call c calls ≡ false
    → erase_call c (calls ++ c ∷ []) ≡ calls
unfolding has_call erase_call
erase_call-snoc (c, p) [] h = ground arith
erase_call-snoc c (d ∷ calls) h =
    let (other, rest) = or_parts (same_call d c) (has_call c calls) h in
    rw other (ap (◌∷◌ d) (erase_call-snoc c calls rest))

-- A callback that is not registered: registering it adds it, registering it again changes nothing,
-- and taking it back leaves the callbacks as they were.
pub register_callback-unregister :
    (cbc par : ℕ) (t : Tracker)
    → has_call (cbc, par) t.cbcs ≡ false
    → let u = (register_callback (some cbc) par t).1 in
      (has_call (cbc, par) u.cbcs ≡ true)
      × (register_callback (some cbc) par u ≡ (true, u))
      × (unregister_callback (some cbc) par u ≡ (true, t))
unfolding register_callback unregister_callback
register_callback-unregister cbc par t h =
    let u = record t { cbcs = t.cbcs ++ (cbc, par) ∷ [] } in
    let known = has_call-snoc (cbc, par) t.cbcs in
    rw h (
      known,
      if_true (has_call (cbc, par) u.cbcs) (true, u) _ known,
      ap (λ calls. (true, record t { cbcs = calls })) (erase_call-snoc (cbc, par) t.cbcs h),
    )
