-- ===== src/Tracker/Tables.antt =====
-- The tables by which the tracker's map moves, from the tests of the code.
use nuords_proxy.Prelude.{
  ℕ, ◌≡◌, ◌≢◌, refl, sym, ap, ◌∙◌, ◌==◌, ◌&&◌, ◌||◌, Bool, true, false, Bool-cases, if◌then◌else◌,
  if_true, if_false, Option, none, some, inl, inr, List, Bytes, equal, equal_iff, equal_self, arith,
}
use nuords_proxy.Tracker.{Status, waiting, here, listed, lost, Item}
use nuords_proxy.Tracker.Items.{
  is_lost, is_waiting, is_listed, lose, meet, renew, arrive, place, list_here, refresh_item,
}
use nuords_proxy.Tracker.View.{find_item, answer, sweep_item, map_item, place-find_item}
use nuords_proxy.Tracker.Moves.{IsHandled, met_as, gone_down, Heard, swept_as, swept, aged_as, aged}

pub sweep-swept : (o : Option Item) → sweep_item o ≡ swept o
sweep-swept none = refl
sweep-swept (some i) = by_state i i.state refl
  where
    by_state :
        (i : Item) (s : Status)
        → i.state ≡ s
        → (if is_lost i.state then none else some (list_here i)) ≡ swept_as i.state i
    by_state i waiting e = rw e refl
    by_state i here e = rw e refl
    by_state i listed e = rw e refl
    by_state i lost e = rw e refl

state-aged :
    (lostw : Bool) (s : Status)
    → (if lostw && is_waiting s then lost else if is_listed s then waiting else s) ≡ aged_as lostw s
state-aged true waiting = refl
state-aged false waiting = refl
state-aged true listed = refl
state-aged false listed = refl
state-aged true here = refl
state-aged false here = refl
state-aged true lost = refl
state-aged false lost = refl

pub refresh-aged :
    (lostw : Bool) (now : ℕ) (o : Option Item)
    → map_item (refresh_item lostw now) o ≡ aged lostw now o
unfolding refresh_item
refresh-aged lostw now none = refl
refresh-aged lostw now (some i) =
    ap (λ s. some (record i { time = now; state = s })) (state-aged lostw i.state)

state-met :
    (same : Bool) (s : Status)
    → (if same && (is_waiting s || is_listed s) then listed else here) ≡ met_as same s
state-met true waiting = refl
state-met true listed = refl
state-met true here = refl
state-met true lost = refl
state-met false waiting = refl
state-met false listed = refl
state-met false here = refl
state-met false lost = refl

renew-down : (msg now : ℕ) (item i : Item) → msg ≡ 3 → renew msg now item i ≡ gone_down i
unfolding renew lose
renew-down msg now item i e = if_true (msg == 3) _ _ (ground arith)

renew-known :
    (msg now : ℕ) (item i : Item)
    → msg ≢ 3
    → renew msg now item i
      ≡ record item { time = now; state = met_as (equal item.name i.name) i.state }
unfolding renew meet
renew-known msg now item i ne =
    if_false (msg == 3) _ _ (ground arith)
    ∙ ap (λ s. record item { time = now; state = s }) (state-met (equal item.name i.name) i.state)

pub place-Heard :
    (msg now : ℕ) (item : Item) (svrs : List Item)
    → Heard msg now item (find_item svrs) (find_item (place msg now item svrs).1)
unfolding arrive
place-Heard msg now item svrs =
    let found = place-find_item msg now item svrs in
    let own = found item.lsid ∙ if_true (equal item.lsid item.lsid) _ _ (equal_self item.lsid) in
    record {
      others = λ k ne. found k ∙ if_false (equal item.lsid k) _ _ (apart k ne);
      unknown = λ e. own ∙ ap (λ o. some (answer msg now item o)) e;
      down = λ m i e.
          own ∙ ap (λ o. some (answer msg now item o)) e ∙ ap some (renew-down msg now item i m);
      known = λ m i e.
          own ∙ ap (λ o. some (answer msg now item o)) e ∙ ap some (renew-known msg now item i m);
    }
  where
    apart : (k : Bytes) → k ≢ item.lsid → equal item.lsid k ≡ false
    apart k ne = elim (Bool-cases (equal item.lsid k)) [
      | inl same ↦ absurd (ne (sym ((equal_iff item.lsid k).0 same)))
      | inr other ↦ other
    ]

pub handled_lem : (msg : ℕ) → ((msg == 2) || (msg == 3) || (msg == 5)) ≡ true → IsHandled msg
handled_lem msg e = elim (Bool-cases (msg == 2)) [
  | inl two ↦ inl (ground arith)
  | inr not_two ↦ elim (Bool-cases (msg == 3)) [
    | inl three ↦ inr (inl (ground arith))
    | inr not_three ↦ inr (inr (ground arith))
  ]
]

pub unhandled_lem : (msg : ℕ) → ((msg == 2) || (msg == 3) || (msg == 5)) ≡ false → IsHandled msg → ⊥
unhandled_lem msg e h = ground arith
