-- ===== src/Tracker/Checks.antt =====
-- The tracker's list under any sequence of messages, checks and refreshes.
use nuords_proxy.Prelude.{
  ℕ, sym, ◌∙◌, ◌≢◌, subst, Bool, Bool-cases, inl, inr, List, [], ◌∷◌, Bytes, All, equal, equal_iff,
}
use nuords_proxy.Inet.{Addr}
use nuords_proxy.Inet.Hosts.{Resolver}
use nuords_proxy.Tracker.{Item, Message, Tracker}
use nuords_proxy.Tracker.Items.{
  is_lost, arrive, place, on_message, check_items, check_svrs, refresh_item, refresh_items,
  refresh_servers_list,
}
use nuords_proxy.Tracker.View.{AreDistinct, renew-lsid, list_here-lsid}

place-other :
    (msg now : ℕ) (item : Item) (k : Bytes) (svrs : List Item)
    → k ≢ item.lsid
    → All (λ (j : Item). k ≢ j.lsid) svrs
    → All (λ (j : Item). k ≢ j.lsid) (place msg now item svrs).1
unfolding place arrive
place-other msg now item k [] ne h = (ne, tt)
place-other msg now item k (i ∷ svrs) ne (hi, h) = elim (Bool-cases (equal i.lsid item.lsid)) [
  | inl same ↦
      rw same ((λ e. ne (e ∙ renew-lsid msg now item i ((equal_iff i.lsid item.lsid).0 same))), h)
  | inr other ↦ rw other (hi, place-other msg now item k svrs ne h)
]

pub place-AreDistinct :
    (msg now : ℕ) (item : Item) (svrs : List Item)
    → AreDistinct svrs
    → AreDistinct (place msg now item svrs).1
unfolding place
place-AreDistinct msg now item [] h = (tt, tt)
place-AreDistinct msg now item (i ∷ svrs) (hi, h) = elim (Bool-cases (equal i.lsid item.lsid)) [
  | inl same ↦
      let e = (equal_iff i.lsid item.lsid).0 same in
      rw same (
        subst (λ k. All (λ (j : Item). k ≢ j.lsid) svrs) (e ∙ sym (renew-lsid msg now item i e)) hi,
        h,
      )
  | inr other ↦ rw other (
    place-other msg now item i.lsid svrs (λ e. cc (other, (equal_iff i.lsid item.lsid).1 e)) hi,
    place-AreDistinct msg now item svrs h,
  )
]

check_items-other :
    (tref now : ℕ) (k : Bytes) (svrs : List Item)
    → All (λ (j : Item). k ≢ j.lsid) svrs
    → All (λ (j : Item). k ≢ j.lsid) (check_items tref now svrs).0
unfolding check_items
check_items-other tref now k [] h = tt
check_items-other tref now k (i ∷ svrs) (hi, h) = elim (Bool-cases (is_lost i.state)) [
  | inl gone ↦ rw gone (check_items-other tref now k svrs h)
  | inr there ↦ rw there ((λ e. hi (e ∙ list_here-lsid i)), check_items-other tref now k svrs h)
]

pub check_items-AreDistinct :
    (tref now : ℕ) (svrs : List Item) → AreDistinct svrs → AreDistinct (check_items tref now svrs).0
unfolding check_items
check_items-AreDistinct tref now [] h = tt
check_items-AreDistinct tref now (i ∷ svrs) (hi, h) = elim (Bool-cases (is_lost i.state)) [
  | inl gone ↦ rw gone (check_items-AreDistinct tref now svrs h)
  | inr there ↦ rw there (
    subst (λ k. All (λ (j : Item). k ≢ j.lsid) (check_items tref now svrs).0)
        (sym (list_here-lsid i)) (check_items-other tref now i.lsid svrs hi),
    check_items-AreDistinct tref now svrs h,
  )
]

refresh_items-other :
    (lostw : Bool) (now : ℕ) (k : Bytes) (svrs : List Item)
    → All (λ (j : Item). k ≢ j.lsid) svrs
    → All (λ (j : Item). k ≢ j.lsid) (refresh_items lostw now svrs)
unfolding refresh_items refresh_item
refresh_items-other lostw now k [] h = tt
refresh_items-other lostw now k (i ∷ svrs) (hi, h) = (hi, refresh_items-other lostw now k svrs h)

pub refresh_items-AreDistinct :
    (lostw : Bool) (now : ℕ) (svrs : List Item)
    → AreDistinct svrs
    → AreDistinct (refresh_items lostw now svrs)
unfolding refresh_items refresh_item
refresh_items-AreDistinct lostw now [] h = tt
refresh_items-AreDistinct lostw now (i ∷ svrs) (hi, h) =
    (refresh_items-other lostw now i.lsid svrs hi, refresh_items-AreDistinct lostw now svrs h)

-- The steps of the two threads and of the proxy.
pub data Step : Type 0 where
  message : ℕ → Message → Addr → Step
  check : ℕ → Step
  refresh_by : Bool → ℕ → Step

module _ (resolver : Resolver) (itos : ℕ → Bytes) where
  abbrev pub take_step : Step → Tracker → Tracker
  take_step (message now m addr) t = record t {
    svrs = (on_message resolver itos now m addr t.svrs).0;
  }
  take_step (check now) t = (check_svrs now t).0
  take_step (refresh_by clear now) t = (refresh_servers_list clear now t).1

  abbrev pub take_steps : List Step → Tracker → Tracker
  take_steps [] t = t
  take_steps (s ∷ steps) t = take_steps steps (take_step s t)
