-- ===== src/Tracker/View.antt =====
-- The list of servers as a map from identifiers to items.
use nuords_proxy.Prelude.{
  ℕ, ◌==◌, ◌≡◌, refl, sym, ap, subst, ◌∙◌, ◌≢◌, Bool, true, false, Bool-cases, if◌then◌else◌,
  if_true, Option, none, some, inl, inr, List, [], ◌∷◌, Bytes, All, equal, equal_iff, equal_self,
}
use nuords_proxy.Tracker.{Item}
use nuords_proxy.Tracker.Items.{
  is_lost, is_here, lose, meet, renew, arrive, place, list_here, check_items, refresh_item,
  refresh_items,
}

abbrev pub find_item : List Item → Bytes → Option Item
find_item [] k = none
find_item (i ∷ svrs) k = if equal i.lsid k then some i else find_item svrs k

abbrev pub AreDistinct : List Item → Type 0
AreDistinct [] = Unit
AreDistinct (i ∷ svrs) = All (λ (j : Item). i.lsid ≢ j.lsid) svrs × AreDistinct svrs

-- What a message makes of what is known of its server.
abbrev pub answer : ℕ → ℕ → Item → Option Item → Item
answer msg now item none = arrive now item
answer msg now item (some i) = renew msg now item i

-- A lost item is dropped.
abbrev pub sweep_item : Option Item → Option Item
sweep_item none = none
sweep_item (some i) = if is_lost i.state then none else some (list_here i)

abbrev pub map_item : (Item → Item) → Option Item → Option Item
map_item f none = none
map_item f (some i) = some (f i)

pub renew-lsid :
    (msg now : ℕ) (item i : Item) → i.lsid ≡ item.lsid → (renew msg now item i).lsid ≡ item.lsid
unfolding renew lose meet
renew-lsid msg now item i e = elim (Bool-cases (msg == 3)) [
  | inl gone ↦ rw gone e
  | inr there ↦ rw there refl
]

at_known :
    (msg now : ℕ) (item i : Item) (rest : Option Item) (b : Bool)
    → (if b then some (renew msg now item i) else rest) ≡ (
        if b
        then some (answer msg now item (if b then some i else rest))
        else if b
        then some i
        else rest)
at_known msg now item i rest true = refl
at_known msg now item i rest false = refl

apart : (a b k : Bytes) → equal a b ≡ false → equal a k ≡ true → equal b k ≡ false
apart a b k other first = elim (Bool-cases (equal b k)) [
  | inl same ↦
      cc (other, (equal_iff a b).1 ((equal_iff a k).0 first ∙ sym ((equal_iff b k).0 same)))
  | inr e ↦ e
]

-- The item that a message reports is the one that the list holds from then on.
pub place-find_item :
    (msg now : ℕ) (item : Item) (svrs : List Item) (k : Bytes)
    → find_item (place msg now item svrs).1 k ≡ (
        if equal item.lsid k
        then some (answer msg now item (find_item svrs k))
        else find_item svrs k)
unfolding place arrive
place-find_item msg now item [] k = refl
place-find_item msg now item (i ∷ svrs) k = elim (Bool-cases (equal i.lsid item.lsid)) [
  | inl same ↦
      let e = (equal_iff i.lsid item.lsid).0 same in
      let f : equal (renew msg now item i).lsid k ≡ equal item.lsid k =
        ap (λ s. equal s k) (renew-lsid msg now item i e) in
      let g : equal i.lsid k ≡ equal item.lsid k = ap (λ s. equal s k) e in
      rw (same, f, g) (at_known msg now item i (find_item svrs k) (equal item.lsid k))
  | inr other ↦ elim (Bool-cases (equal i.lsid k)) [
    | inl first ↦ rw (other, first, apart i.lsid item.lsid k other first) refl
    | inr later ↦ rw (other, later) (place-find_item msg now item svrs k)
  ]
]

pub find_item-fresh :
    (svrs : List Item) (k : Bytes) → All (λ (j : Item). k ≢ j.lsid) svrs → find_item svrs k ≡ none
find_item-fresh [] k h = refl
find_item-fresh (j ∷ svrs) k (hj, h) = elim (Bool-cases (equal j.lsid k)) [
  | inl same ↦ absurd (hj (sym ((equal_iff j.lsid k).0 same)))
  | inr other ↦ rw other (find_item-fresh svrs k h)
]

pub list_here-lsid : (i : Item) → (list_here i).lsid ≡ i.lsid
list_here-lsid i = elim (Bool-cases (is_here i.state)) [
  | inl new ↦ rw new refl
  | inr old ↦ rw old refl
]

-- What a check of the list does to a map, where identifiers differ.
pub check_items-find_item :
    (tref now : ℕ) (svrs : List Item) (k : Bytes)
    → AreDistinct svrs
    → find_item (check_items tref now svrs).0 k ≡ sweep_item (find_item svrs k)
unfolding check_items
check_items-find_item tref now [] k h = refl
check_items-find_item tref now (i ∷ svrs) k (hi, h) =
    let rest = check_items-find_item tref now svrs k h in
    elim (Bool-cases (is_lost i.state)) [
      | inl gone ↦ elim (Bool-cases (equal i.lsid k)) [
        | inl same ↦
            rw (gone, same, gone)
              (rest
                ∙ ap sweep_item (
                    find_item-fresh svrs k (
                      subst (λ b. All (λ (j : Item). b ≢ j.lsid) svrs) ((equal_iff i.lsid k).0 same)
                        hi)))
        | inr other ↦ rw (gone, other) rest
      ]
      | inr there ↦
          let e : equal (list_here i).lsid k ≡ equal i.lsid k =
            ap (λ s. equal s k) (list_here-lsid i) in
          elim (Bool-cases (equal i.lsid k)) [
            | inl same ↦ rw (there, e, same, there) refl
            | inr other ↦ rw (there, e, other) rest
          ]
    ]

refresh_item-lsid : (lostw : Bool) (now : ℕ) (i : Item) → (refresh_item lostw now i).lsid ≡ i.lsid
unfolding refresh_item
refresh_item-lsid lostw now i = refl

pub refresh_items-find_item :
    (lostw : Bool) (now : ℕ) (svrs : List Item) (k : Bytes)
    → find_item (refresh_items lostw now svrs) k
      ≡ map_item (refresh_item lostw now) (find_item svrs k)
unfolding refresh_items refresh_item
refresh_items-find_item lostw now [] k = refl
refresh_items-find_item lostw now (i ∷ svrs) k = elim (Bool-cases (equal i.lsid k)) [
  | inl same ↦ rw same refl
  | inr other ↦ rw other (refresh_items-find_item lostw now svrs k)
]

place-reports :
    (msg now : ℕ) (item : Item) (svrs : List Item)
    → (place msg now item svrs).0 ≡ answer msg now item (find_item svrs item.lsid)
unfolding place
place-reports msg now item [] = refl
place-reports msg now item (i ∷ svrs) = elim (Bool-cases (equal i.lsid item.lsid)) [
  | inl same ↦ rw same refl
  | inr other ↦ rw other (place-reports msg now item svrs)
]

-- A message about a server: what is reported is what the list holds of it from then on. A server
-- that was known is lost if it says so; one that was not known is reported as new, whatever it says.
pub place-answer :
    (msg now : ℕ) (item : Item) (svrs : List Item)
    → let (reported, placed) = place msg now item svrs in
      (reported ≡ answer msg now item (find_item svrs item.lsid))
      × (find_item placed item.lsid ≡ some reported)
place-answer msg now item svrs =
    let reports = place-reports msg now item svrs in
    (
      reports,
      place-find_item msg now item svrs item.lsid
          ∙ if_true (equal item.lsid item.lsid) _ _ (equal_self item.lsid)
          ∙ ap some (sym reports),
    )
