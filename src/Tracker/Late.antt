-- ===== src/Tracker/Late.antt =====
-- When `check_svrs` finds a server that is late.
use nuords_proxy.Prelude.{
  ℕ, ◌<◌, ◌≡◌, ◌≢◌, refl, sym, ap, ◌∙◌, subst, ◌||◌, true, false, Bool-cases, if◌then◌else◌, some,
  some-injective, inl, inr, List, [], ◌∷◌, Bytes, All, equal, equal_iff, equal_self, arith,
}
use nuords_proxy.Tracker.{Status, waiting, here, listed, lost, Item}
use nuords_proxy.Tracker.Items.{is_lost, is_stale, elapsed, check_items}
use nuords_proxy.Tracker.View.{find_item, AreDistinct, find_item-fresh}
use nuords_proxy.Tracker.Moves.{IsLate}

check_items-rfr :
    (tref now : ℕ) (i : Item) (svrs : List Item)
    → (check_items tref now (i ∷ svrs)).2 ≡ (
        if is_lost i.state
        then (check_items tref now svrs).2
        else is_stale tref now i || (check_items tref now svrs).2)
unfolding check_items
check_items-rfr tref now i svrs = elim (Bool-cases (is_lost i.state)) [
  | inl gone ↦ rw gone refl
  | inr there ↦ rw there refl
]

not_lost : (s : Status) → is_lost s ≡ false → s ≢ lost
not_lost s h e = cc (ap is_lost e)

is_lost-false : (s : Status) → s ≢ lost → is_lost s ≡ false
is_lost-false waiting h = refl
is_lost-false here h = refl
is_lost-false listed h = refl
is_lost-false lost h = absurd (h refl)

is_stale_lem :
    (tref now : ℕ) (i : Item)
    → is_stale tref now i ≡ true
    → (0 < tref) × (tref < elapsed now i.time)
unfolding is_stale
is_stale_lem tref now i h = (ground arith, ground arith)

is_stale-true :
    (tref now : ℕ) (i : Item) → 0 < tref → tref < elapsed now i.time → is_stale tref now i ≡ true
unfolding is_stale
is_stale-true tref now i p q = ground arith

-- An item of the rest is found behind the first, which has another identifier.
find_item-rest :
    (i j : Item) (svrs : List Item) (k : Bytes)
    → All (λ (j : Item). i.lsid ≢ j.lsid) svrs
    → find_item svrs k ≡ some j
    → find_item (i ∷ svrs) k ≡ some j
find_item-rest i j svrs k apart e = elim (Bool-cases (equal i.lsid k)) [
  | inl same ↦
      let fresh =
        find_item-fresh svrs k
          (subst (λ b. All (λ (j : Item). b ≢ j.lsid) svrs) ((equal_iff i.lsid k).0 same) apart) in
      cc (e, fresh)
  | inr other ↦ rw other e
]

later :
    (tref now : ℕ) (i : Item) (svrs : List Item)
    → All (λ (j : Item). i.lsid ≢ j.lsid) svrs
    → IsLate tref now (find_item svrs)
    → IsLate tref now (find_item (i ∷ svrs))
later tref now i svrs apart (k, j, e, there, on, past) =
    (k, j, find_item-rest i j svrs k apart e, there, on, past)

pub check_items-IsLate :
    (tref now : ℕ) (svrs : List Item)
    → AreDistinct svrs
    → (check_items tref now svrs).2 ≡ true
    → IsLate tref now (find_item svrs)
unfolding check_items
check_items-IsLate tref now [] h e = absurd cc
check_items-IsLate tref now (i ∷ svrs) (apart, h) e =
    let found = sym (check_items-rfr tref now i svrs) ∙ e in
    elim (Bool-cases (is_lost i.state)) [
      | inl gone ↦
          later tref now i svrs apart
            (check_items-IsLate tref now svrs h (sym (ap_if gone) ∙ found))
      | inr there ↦ elim (Bool-cases (is_stale tref now i)) [
        | inl stale ↦
            let (on, past) = is_stale_lem tref now i stale in
            (i.lsid, i, rw (equal_self i.lsid) refl, not_lost i.state there, on, past)
        | inr fine ↦
            later tref now i svrs apart
              (check_items-IsLate tref now svrs h (sym (ap_or there fine) ∙ found))
      ]
    ]
  where
    ap_if :
        is_lost i.state ≡ true
        → (if is_lost i.state
            then (check_items tref now svrs).2
            else is_stale tref now i || (check_items tref now svrs).2)
          ≡ (check_items tref now svrs).2
    ap_if gone = rw gone refl

    ap_or :
        is_lost i.state ≡ false
        → is_stale tref now i ≡ false
        → (if is_lost i.state
            then (check_items tref now svrs).2
            else is_stale tref now i || (check_items tref now svrs).2)
          ≡ (check_items tref now svrs).2
    ap_or there fine = rw (there, fine) refl

pub IsLate-check_items :
    (tref now : ℕ) (svrs : List Item)
    → IsLate tref now (find_item svrs)
    → (check_items tref now svrs).2 ≡ true
IsLate-check_items tref now [] (k, j, e, there, on, past) = cc
IsLate-check_items tref now (i ∷ svrs) (k, j, e, there, on, past) =
    check_items-rfr tref now i svrs ∙ elim (Bool-cases (equal i.lsid k)) [
      | inl same ↦
          let e' : i ≡ j =
            some-injective i j (sym (ap (λ b. if b then some i else find_item svrs k) same) ∙ e) in
          let fine : is_lost i.state ≡ false =
            is_lost-false i.state (λ f. there (ap (λ (x : Item). x.state) (sym e') ∙ f)) in
          let stale : is_stale tref now i ≡ true =
            subst (λ x. is_stale tref now x ≡ true) (sym e') (is_stale-true tref now j on past) in
          rw (fine, stale) refl
      | inr other ↦
          let e' : find_item svrs k ≡ some j =
            sym (ap (λ b. if b then some i else find_item svrs k) other) ∙ e in
          let rest = IsLate-check_items tref now svrs (k, j, e', there, on, past) in ground arith
    ]
