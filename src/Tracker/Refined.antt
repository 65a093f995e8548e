-- ===== src/Tracker/Refined.antt =====
-- The tracker as a map from identifiers to items.
use nuords_proxy.Prelude.{
  ℕ, ◌≡◌, refl, sym, ap, ◌∙◌, subst, ◌==◌, ◌||◌, Bool, true, false, Bool-cases, if◌then◌else◌,
  if_true, if_false, none, inl, inr, List, [], ◌∷◌, Bytes, not,
}
use nuords_proxy.Inet.{Addr}
use nuords_proxy.Inet.Hosts.{Resolver}
use nuords_proxy.Tracker.{Message, Tracker}
use nuords_proxy.Tracker.Items.{
  item_of, on_message, check_items, refresh_items, check_svrs, refresh_svrs, refresh_servers_list,
}
use nuords_proxy.Tracker.View.{
  find_item, AreDistinct, check_items-find_item, refresh_items-find_item,
}
use nuords_proxy.Tracker.Checks.{
  place-AreDistinct, check_items-AreDistinct, refresh_items-AreDistinct, Step, message, check,
  refresh_by, take_step, take_steps,
}
use nuords_proxy.Tracker.Moves.{
  swept, aged, Moves, heard, ignored, in_time, late, refreshed, cleared, stopped, Reaches, done,
  then_move,
}
use nuords_proxy.Tracker.Tables.{sweep-swept, refresh-aged, place-Heard, handled_lem, unhandled_lem}
use nuords_proxy.Tracker.Late.{check_items-IsLate, IsLate-check_items}

-- From one tracker to the next: the identifiers stay different, the map makes the move of the step,
-- and what the moves depend on stays.
pub record Follows (resolver : Resolver) (itos : ℕ → Bytes) (s : Step) (t u : Tracker)
    : Type 0 where
  pub distinct : AreDistinct u.svrs
  pub moves : Moves resolver itos t.tref t.created (find_item t.svrs) (find_item u.svrs) s
  pub created : u.created ≡ t.created
  pub tref : u.tref ≡ t.tref

refresh_svrs-on :
    (lostw : Bool) (now : ℕ) (t : Tracker)
    → t.created ≡ true
    → refresh_svrs lostw now t
      ≡ record t { svrs = refresh_items lostw now t.svrs; refr = true; sock = none }
unfolding refresh_svrs
refresh_svrs-on lostw now t on = if_false (not t.created) _ _ (ap not on)

refresh_svrs-off :
    (lostw : Bool) (now : ℕ) (t : Tracker) → t.created ≡ false → refresh_svrs lostw now t ≡ t
unfolding refresh_svrs
refresh_svrs-off lostw now t off = if_true (not t.created) _ _ (ap not off)

refresh_servers_list-on :
    (clear : Bool) (now : ℕ) (t : Tracker)
    → t.created ≡ true
    → (refresh_servers_list clear now t).1
      ≡ refresh_svrs false now (if clear then record t { svrs = [] } else t)
unfolding refresh_servers_list
refresh_servers_list-on clear now t on =
    ap (λ (x : Bool × Tracker). x.1) (if_false (not t.created) _ _ (ap not on))

refresh_servers_list-off :
    (clear : Bool) (now : ℕ) (t : Tracker)
    → t.created ≡ false
    → (refresh_servers_list clear now t).1 ≡ t
unfolding refresh_servers_list
refresh_servers_list-off clear now t off =
    ap (λ (x : Bool × Tracker). x.1) (if_true (not t.created) _ _ (ap not off))

module _ (resolver : Resolver) (itos : ℕ → Bytes) where
  message-Follows :
      (now : ℕ) (m : Message) (addr : Addr) (t : Tracker)
      → AreDistinct t.svrs
      → Follows resolver itos
          (message now m addr)
          t
          (record t { svrs = (on_message resolver itos now m addr t.svrs).0 })
  unfolding on_message
  message-Follows now m addr t h =
      elim (Bool-cases ((m.msg == 2) || (m.msg == 3) || (m.msg == 5))) [
        | inl ours ↦
            let item = item_of resolver itos m addr in
            rw ours (record {
              distinct = place-AreDistinct m.msg now item t.svrs h;
              moves = heard now m addr (handled_lem m.msg ours) (place-Heard m.msg now item t.svrs);
              created = refl;
              tref = refl;
            })
        | inr other ↦ rw other (record {
          distinct = h;
          moves = ignored now m addr (unhandled_lem m.msg other) (λ k. refl);
          created = refl;
          tref = refl;
        })
      ]

  check-Follows :
      (now : ℕ) (t : Tracker)
      → AreDistinct t.svrs
      → Follows resolver itos (check now) t (check_svrs now t).0
  unfolding check_svrs
  check-Follows now t h =
      let svrs = (check_items t.tref now t.svrs).0 in
      let checked = record t { svrs = svrs } in
      let apart = check_items-AreDistinct t.tref now t.svrs h in
      let sweeps : (k : Bytes) → find_item svrs k ≡ swept (find_item t.svrs k) =
        λ k. check_items-find_item t.tref now t.svrs k h ∙ sweep-swept (find_item t.svrs k) in
      elim (Bool-cases (check_items t.tref now t.svrs).2) [
        | inl slow ↦ elim (Bool-cases t.created) [
          | inl on ↦
              rw (slow, refresh_svrs-on true now checked on)
                (record {
                  distinct = refresh_items-AreDistinct true now svrs apart;
                  moves = late now (check_items-IsLate t.tref now t.svrs h slow) on (λ k.
                      refresh_items-find_item true now svrs k
                      ∙ refresh-aged true now (find_item svrs k)
                      ∙ ap (aged true now) (sweeps k));
                  created = refl;
                  tref = refl;
                })
          | inr off ↦
              rw (slow, refresh_svrs-off true now checked off)
                (record {
                  distinct = apart;
                  moves = in_time now (λ (_, on). cc (on, off)) sweeps;
                  created = refl;
                  tref = refl;
                })
        ]
        | inr fine ↦ rw fine (record {
          distinct = apart;
          moves =
              in_time now (λ (slow, _). cc (fine, IsLate-check_items t.tref now t.svrs slow))
                sweeps;
          created = refl;
          tref = refl;
        })
      ]

  refresh-Follows :
      (clear : Bool) (now : ℕ) (t : Tracker)
      → AreDistinct t.svrs
      → Follows resolver itos (refresh_by clear now) t (refresh_servers_list clear now t).1
  refresh-Follows clear now t h = elim (Bool-cases t.created) [
    | inr off ↦
        subst (Follows resolver itos (refresh_by clear now) t)
          (sym (refresh_servers_list-off clear now t off))
          (record {
            distinct = h;
            moves = stopped clear now off (λ k. refl);
            created = refl;
            tref = refl;
          })
    | inl on ↦ running clear on
  ]
    where
      running :
          (clear : Bool)
          → t.created ≡ true
          → Follows resolver itos (refresh_by clear now) t (refresh_servers_list clear now t).1
      running true on =
          subst (Follows resolver itos (refresh_by true now) t)
            (sym (
              refresh_servers_list-on true now t on
              ∙ refresh_svrs-on false now (record t { svrs = [] }) on))
            (record {
              distinct = refresh_items-AreDistinct false now [] tt;
              moves = cleared now on (λ k. refresh_items-find_item false now [] k);
              created = refl;
              tref = refl;
            })
      running false on =
          subst (Follows resolver itos (refresh_by false now) t)
            (sym (refresh_servers_list-on false now t on ∙ refresh_svrs-on false now t on))
            (record {
              distinct = refresh_items-AreDistinct false now t.svrs h;
              moves = refreshed now on (λ k.
                  refresh_items-find_item false now t.svrs k
                  ∙ refresh-aged false now (find_item t.svrs k));
              created = refl;
              tref = refl;
            })

  step-Follows :
      (s : Step) (t : Tracker)
      → AreDistinct t.svrs
      → Follows resolver itos s t (take_step resolver itos s t)
  step-Follows (message now m addr) t h = message-Follows now m addr t h
  step-Follows (check now) t h = check-Follows now t h
  step-Follows (refresh_by clear now) t h = refresh-Follows clear now t h

  -- Any sequence of messages, checks and refreshes, from a list with different identifiers: the list
  -- keeps them different, and seen as a map from identifiers to items, whatever its order, it makes one
  -- move for each step, in order. A message that is handled changes the item of its own identifier
  -- only: one not known is new, a known one that goes down is lost, any other takes what is told of it;
  -- any other message changes nothing. A check drops the items that are lost and lists the new ones,
  -- and, exactly if one of the rest is late and the tracker runs, ages all, those that waited being
  -- lost. A refresh ages all, or forgets all if asked to, and a tracker that does not run leaves them.
  pub take_steps-Follows :
      (steps : List Step) (t : Tracker)
      → AreDistinct t.svrs
      → let u = take_steps resolver itos steps t in
        AreDistinct u.svrs
        × Reaches resolver itos t.tref t.created steps (find_item t.svrs) (find_item u.svrs)
  take_steps-Follows [] t h = (h, done)
  take_steps-Follows (s ∷ steps) t h =
      let u = take_step resolver itos s t in
      let w = take_steps resolver itos steps u in
      let f = step-Follows s t h in
      let (distinct, reaches) = take_steps-Follows steps u f.distinct in
      (
        distinct,
        then_move s steps f.moves (
            subst
              (λ r. Reaches resolver itos r t.created steps (find_item u.svrs) (find_item w.svrs))
              f.tref
              (subst
                (λ c. Reaches resolver itos u.tref c steps (find_item u.svrs) (find_item w.svrs))
                f.created reaches)),
      )
