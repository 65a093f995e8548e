-- ===== src/Health/Effects.antt =====
-- What a report makes of one server.
use nuords_proxy.Prelude.{
  ℕ, ◌+◌, ◌^◌, to_unsigned, ◌≤◌, ◌<◌, ◌≡◌, ◌≢◌, refl, sym, ap, subst, ◌∙◌, ◌⊎◌, inl, inr, ◌==◌,
  ◌&&◌, not, leb, ltb, Bool-cases, true, false, if◌then◌else◌, min, arith, if_true, if_false,
}
use nuords_proxy.Inet.Parse.{is_same_host}
use nuords_proxy.Proxy.{Info, Server}
use nuords_proxy.Proxy.Servers.{server_is_active, server_deactivate}
use nuords_proxy.Tracker.{Status, waiting, here, listed, lost, Item}
use nuords_proxy.Health.{Settings}
use nuords_proxy.Health.Reports.{
  to_int, sync_slots, sync_port, take_info, follow_state, take_report, report_server, version,
}
use nuords_proxy.Health.Timed.{deactivate-active}

-- The limit that a report gives.
abbrev pub synced : ℕ → Info → ℕ → ℕ
synced mode info slots = if leb 3 mode && not (info.cmax == 0) then min info.cmax slots else slots

-- A report that is taken: from the server's host, wanted, not before the first check, and in the
-- version that is understood.
abbrev pub IsTaken : Settings → Item → Server → Type 0
IsTaken set item s =
    (is_same_host set.resolver s.host item.host ≡ true)
    × (2 ≤ s.check_mode)
    × (s.first_check ≡ false)
    × (item.info.pver ≡ version)

-- What a report makes of a server `s` at a time: the server `t`.
pub record Reported (set : Settings) (now : ℕ) (item : Item) (s t : Server) : Type 0 where
  pub elsewhere : is_same_host set.resolver s.host item.host ≡ false → t ≡ s
  pub unwanted : (s.check_mode < 2) ⊎ (s.first_check ≡ true) → t ≡ s
  pub degraded :
      is_same_host set.resolver s.host item.host ≡ true
      → 2 ≤ s.check_mode
      → s.first_check ≡ false
      → item.info.pver ≢ version
      → t ≡ record s { info_time = now + set.info_period; check_mode = 1 }
  pub gone :
      IsTaken set item s
      → item.state ≡ lost
      → (server_is_active t ≡ false)
        × (t.num_faults ≡ 0)
        × (t.max_slots ≡ s.max_slots)
        × (t.port ≡ s.port)
  pub there :
      IsTaken set item s
      → (item.state ≡ here) ⊎ (item.state ≡ listed)
      → (t.info ≡ item.info) × (t.max_slots ≡ synced s.check_mode item.info s.max_slots)
  pub moved :
      IsTaken set item s
      → (item.state ≡ here) ⊎ (item.state ≡ listed)
      → 3 ≤ s.check_mode
      → item.info.port ≢ 0
      → item.info.port < 2 ^ 32
      → to_unsigned t.port ≡ item.info.port
  pub stays : IsTaken set item s → (s.check_mode ≡ 2) ⊎ (item.info.port ≡ 0) → t.port ≡ s.port
  pub unsure :
      IsTaken set item s → item.state ≡ waiting → t ≡ record s { info_time = now + set.info_period }

to_unsigned-to_int : (n : ℕ) → n < 2 ^ 32 → to_unsigned (to_int n) ≡ n
to_unsigned-to_int n h = ground arith

sync_port-lem :
    (s : Server)
    → let t = sync_port s in
      (t.info ≡ s.info)
      × (t.max_slots ≡ s.max_slots)
      × (s.info.port ≢ 0 → s.info.port < 2 ^ 32 → to_unsigned t.port ≡ s.info.port)
      × (s.info.port ≡ 0 → t.port ≡ s.port)
unfolding sync_port
sync_port-lem s =
    elim (Bool-cases (not (s.info.port == 0) && not (to_unsigned s.port == s.info.port))) [
      | inl moved ↦ rw moved (
        refl,
        refl,
        λ some_port small. to_unsigned-to_int s.info.port small,
        λ no_port. ground arith,
      )
      | inr same ↦ rw same (refl, refl, λ some_port small. ground arith, λ no_port. refl)
    ]

sync_slots-lem :
    (s : Server)
    → let t = sync_slots s in
      (t.info ≡ s.info)
      × (t.port ≡ s.port)
      × (t.max_slots
          ≡ (if not (s.info.cmax == 0) then min s.info.cmax s.max_slots else s.max_slots))
unfolding sync_slots
sync_slots-lem s = elim (Bool-cases (not (s.info.cmax == 0) && ltb s.info.cmax s.max_slots)) [
  | inl less ↦ rw less (refl, refl, ground arith)
  | inr enough ↦ rw enough (refl, refl, ground arith)
]

take_info-lem :
    (info : Info) (s : Server)
    → let t = take_info info s in
      (t.info ≡ info)
      × (t.max_slots ≡ synced s.check_mode info s.max_slots)
      × (3 ≤ s.check_mode → info.port ≢ 0 → info.port < 2 ^ 32 → to_unsigned t.port ≡ info.port)
      × ((s.check_mode ≡ 2) ⊎ (info.port ≡ 0) → t.port ≡ s.port)
unfolding take_info
take_info-lem info s =
    let told = record s { info = info } in
    let (i, m, new_port, old_port) = sync_port-lem (sync_slots told) in
    let (j, kept, n) = sync_slots-lem told in
    elim (Bool-cases (leb 3 s.check_mode)) [
      | inl syncs ↦ rw syncs (
        i ∙ j,
        m ∙ n,
        λ _ some_port small.
            new_port (λ e. some_port (sym (ap (λ (f : Info). f.port) j) ∙ e))
              (subst (λ (f : Info). f.port < 2 ^ 32) (sym j) small)
            ∙ ap (λ (f : Info). f.port) j,
        λ calm. elim calm [
          | inl two ↦ absurd (ground (arith, syncs))
          | inr no_port ↦ old_port (ap (λ (f : Info). f.port) j ∙ no_port) ∙ kept
        ],
      )
      | inr keeps ↦ rw keeps (refl, refl, λ wide. absurd (ground (arith, keeps)), λ _. refl)
    ]

deactivated :
    (s : Server)
    → let t = server_deactivate s in
      (server_is_active t ≡ false)
      × (t.num_faults ≡ 0)
      × (t.max_slots ≡ s.max_slots)
      × (t.port ≡ s.port)
unfolding server_deactivate
deactivated s = (deactivate-active s, refl, refl, refl)

-- What `follow_state` makes of a server, for each state of an item.
abbrev Followed : Item → Server → Server → Type 0
Followed item s t =
    (item.state ≡ lost
      → (server_is_active t ≡ false)
        × (t.num_faults ≡ 0)
        × (t.max_slots ≡ s.max_slots)
        × (t.port ≡ s.port))
    × ((item.state ≡ here) ⊎ (item.state ≡ listed)
        → (t.info ≡ item.info) × (t.max_slots ≡ synced s.check_mode item.info s.max_slots))
    × ((item.state ≡ here) ⊎ (item.state ≡ listed)
        → 3 ≤ s.check_mode
        → item.info.port ≢ 0
        → item.info.port < 2 ^ 32
        → to_unsigned t.port ≡ item.info.port)
    × ((s.check_mode ≡ 2) ⊎ (item.info.port ≡ 0) → t.port ≡ s.port)
    × (item.state ≡ waiting → t ≡ s)

follow_state-Followed :
    (item : Item) (state : Status) (s : Server)
    → item.state ≡ state
    → Followed item s (follow_state state item.info s)
unfolding follow_state
follow_state-Followed item waiting s e = (
  λ f. cc,
  λ f. elim f [ inl g ↦ cc | inr g ↦ cc ],
  λ f. elim f [ inl g ↦ cc | inr g ↦ cc ],
  λ f. refl,
  λ f. refl,
)
follow_state-Followed item here s e =
    let (i, m, new_port, old_port) = take_info-lem item.info s in
    (λ f. cc, λ f. (i, m), λ f. new_port, old_port, λ f. cc)
follow_state-Followed item listed s e =
    let (i, m, new_port, old_port) = take_info-lem item.info s in
    (λ f. cc, λ f. (i, m), λ f. new_port, old_port, λ f. cc)
follow_state-Followed item lost s e = (
  λ f. deactivated s,
  λ f. elim f [ inl g ↦ cc | inr g ↦ cc ],
  λ f. elim f [ inl g ↦ cc | inr g ↦ cc ],
  λ f. (deactivated s).3,
  λ f. cc,
)

-- The two branches of `report_server` that do not leave the server alone.
report_server-told :
    (set : Settings) (now : ℕ) (item : Item) (s : Server)
    → is_same_host set.resolver s.host item.host ≡ true
    → 2 ≤ s.check_mode
    → s.first_check ≡ false
    → report_server set now item s
      ≡ take_report item (record s { info_time = now + set.info_period })
unfolding report_server
report_server-told set now item s same wanted known =
    let told = record s { info_time = now + set.info_period } in
    let asked : (leb 2 s.check_mode && not s.first_check) ≡ true = ground arith in
    if_false (not (is_same_host set.resolver s.host item.host)) s _ (ap not same)
    ∙ if_true (leb 2 s.check_mode && not s.first_check) (take_report item told) s asked

report_server-taken :
    (set : Settings) (now : ℕ) (item : Item) (s : Server)
    → IsTaken set item s
    → report_server set now item s
      ≡ follow_state item.state item.info (record s { info_time = now + set.info_period })
unfolding take_report
report_server-taken set now item s (same, wanted, known, understood) =
    let reads : not (item.info.pver == version) ≡ false = ground arith in
    report_server-told set now item s same wanted known
    ∙ if_false (not (item.info.pver == version)) _ _ reads

taken-Followed :
    (set : Settings) (now : ℕ) (item : Item) (s : Server)
    → IsTaken set item s
    → Followed item (record s { info_time = now + set.info_period }) (report_server set now item s)
taken-Followed set now item s taken =
    let told = record s { info_time = now + set.info_period } in
    subst (Followed item told) (sym (report_server-taken set now item s taken))
      (follow_state-Followed item item.state told refl)

-- A report, at any server. One of another host, or one that is not wanted or comes before the first
-- check, changes nothing; one in another version only sets the time of the next request and the check
-- mode 1. Of the rest: a server that has gone is not active and has no faults, and keeps its limit
-- and its port; one that is there takes all the information over; only if its limits are
-- synchronized, it takes a limit that is not 0 and less than its own, and a port that is not 0; and a
-- server that still waits only gets the time of the next request.
pub report_server-Reported :
    (set : Settings) (now : ℕ) (item : Item) (s : Server)
    → Reported set now item s (report_server set now item s)
unfolding report_server take_report
report_server-Reported set now item s = record {
  elsewhere =
      λ other. if_true (not (is_same_host set.resolver s.host item.host)) s _ (ap not other);
  unwanted = λ off. ground arith;
  degraded = λ same wanted known strange.
      let reads : not (item.info.pver == version) ≡ true = ground arith in
      report_server-told set now item s same wanted known
      ∙ if_true (not (item.info.pver == version)) _ _ reads;
  gone = λ taken. (taken-Followed set now item s taken).0;
  there = λ taken. (taken-Followed set now item s taken).1;
  moved = λ taken. (taken-Followed set now item s taken).2;
  stays = λ taken. (taken-Followed set now item s taken).3;
  unsure = λ taken. (taken-Followed set now item s taken).4;
}
