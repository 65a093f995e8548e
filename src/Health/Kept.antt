-- ===== src/Health/Kept.antt =====
-- What no event changes in a server.
use nuords_proxy.Prelude.{
  ℕ, ◌+◌, ◌≤◌, ◌≡◌, refl, ◌∙◌, ◌==◌, ◌&&◌, not, leb, ltb, Bool-cases, inl, inr, Bool, true, false,
  if◌then◌else◌, List, [], ◌∷◌, arith,
}
use nuords_proxy.Inet.Parse.{is_same_host}
use nuords_proxy.Proxy.{Info, Server}
use nuords_proxy.Proxy.Servers.{server_activate, server_deactivate}
use nuords_proxy.Tracker.{
  Status, waiting, here, listed, lost, Item, Event, started, stopped, restart, refresh, svr_list,
  on_error, on_info, on_timer, svr_info, svr_here, svr_lost,
}
use nuords_proxy.Health.{Probe, Settings}
use nuords_proxy.Health.Reports.{
  sync_slots, sync_port, take_info, follow_state, take_report, report_server, report_servers,
  version,
}
use nuords_proxy.Health.Timer.{
  set_status, check_status, request_info, time_server, time_servers, is_checked, is_due,
  check_server,
}
use nuords_proxy.Health.Callback.{on_item, info_callback}

-- The name, the host, the weight, the redundancy and the slots in use stay; the limit of slots may
-- fall, but not to 0, the check mode may fall, and a server that has been checked stays so.
pub record Kept (old new : Server) : Type 0 where
  pub name : new.name ≡ old.name
  pub host : new.host ≡ old.host
  pub weight : new.max_weight ≡ old.max_weight
  pub redundant : new.redundant ≡ old.redundant
  pub slots : new.num_slots ≡ old.num_slots
  pub limit : new.max_slots ≤ old.max_slots
  pub positive : 1 ≤ old.max_slots → 1 ≤ new.max_slots
  pub mode : new.check_mode ≤ old.check_mode
  pub checked : old.first_check ≡ false → new.first_check ≡ false

with-Kept :
    (s t : Server)
    → (t.name ≡ s.name)
      × (t.host ≡ s.host)
      × (t.max_weight ≡ s.max_weight)
      × (t.redundant ≡ s.redundant)
      × (t.num_slots ≡ s.num_slots)
    → t.max_slots ≤ s.max_slots
    → (1 ≤ s.max_slots → 1 ≤ t.max_slots)
    → t.check_mode ≤ s.check_mode
    → (s.first_check ≡ false → t.first_check ≡ false)
    → Kept s t
with-Kept s t (a, b, c, d, e) f g h i = record {
  name = a;
  host = b;
  weight = c;
  redundant = d;
  slots = e;
  limit = f;
  positive = g;
  mode = h;
  checked = i;
}

same-Kept : (s : Server) → Kept s s
same-Kept s =
    with-Kept s s (refl, refl, refl, refl, refl) (omega arith) (λ h. h) (omega arith) (λ h. h)

-- Fields that `Kept` does not speak of may change.
alike-Kept :
    (s t : Server)
    → (t.name ≡ s.name)
      × (t.host ≡ s.host)
      × (t.max_weight ≡ s.max_weight)
      × (t.redundant ≡ s.redundant)
      × (t.num_slots ≡ s.num_slots)
      × (t.max_slots ≡ s.max_slots)
      × (t.check_mode ≡ s.check_mode)
      × (t.first_check ≡ s.first_check)
    → Kept s t
alike-Kept s t (a, b, c, d, e, f, g, h) =
    with-Kept s t (a, b, c, d, e) (omega (arith, f)) (λ l. omega (arith, f, l)) (omega (arith, g))
      (λ l. h ∙ l)

then-Kept : (s t u : Server) → Kept s t → Kept t u → Kept s u
then-Kept s t u h k = record {
  name = k.name ∙ h.name;
  host = k.host ∙ h.host;
  weight = k.weight ∙ h.weight;
  redundant = k.redundant ∙ h.redundant;
  slots = k.slots ∙ h.slots;
  limit = omega (arith, h.limit, k.limit);
  positive = λ l. k.positive (h.positive l);
  mode = omega (arith, h.mode, k.mode);
  checked = λ l. k.checked (h.checked l);
}

if_Kept : (b : Bool) (s t u : Server) → Kept s t → Kept s u → Kept s (if b then t else u)
if_Kept true s t u h k = h
if_Kept false s t u h k = k

if_by :
    {A : Type 0} (f : A → Server) (s : Server) (b : Bool) (x y : A)
    → Kept s (f x)
    → Kept s (f y)
    → Kept s (f (if b then x else y))
if_by f s true x y h k = h
if_by f s false x y h k = k

sync_slots-Kept : (s : Server) → Kept s (sync_slots s)
unfolding sync_slots
sync_slots-Kept s = elim (Bool-cases (not (s.info.cmax == 0) && ltb s.info.cmax s.max_slots)) [
  | inl less ↦ rw less (
      with-Kept s (record s { max_slots = s.info.cmax }) (refl, refl, refl, refl, refl)
        (ground arith) (λ h. ground arith) (omega arith) (λ h. h))
  | inr enough ↦ rw enough (same-Kept s)
]

sync_port-Kept : (s : Server) → Kept s (sync_port s)
unfolding sync_port
sync_port-Kept s =
    if_Kept _ s _ s (alike-Kept s _ (refl, refl, refl, refl, refl, refl, refl, refl)) (same-Kept s)

take_info-Kept : (info : Info) (s : Server) → Kept s (take_info info s)
unfolding take_info
take_info-Kept info s =
    let told = record s { info = info } in
    let first : Kept s told = alike-Kept s told (refl, refl, refl, refl, refl, refl, refl, refl) in
    if_Kept (leb 3 s.check_mode) s (sync_port (sync_slots told)) told
      (then-Kept s told _ first (
        then-Kept told (sync_slots told) _ (sync_slots-Kept told)
          (sync_port-Kept (sync_slots told))))
      first

server_activate-Kept : (s : Server) → Kept s (server_activate s)
unfolding server_activate
server_activate-Kept s = alike-Kept s _ (refl, refl, refl, refl, refl, refl, refl, refl)

server_deactivate-Kept : (s : Server) → Kept s (server_deactivate s)
unfolding server_deactivate
server_deactivate-Kept s = alike-Kept s _ (refl, refl, refl, refl, refl, refl, refl, refl)

follow_state-Kept : (state : Status) (info : Info) (s : Server) → Kept s (follow_state state info s)
unfolding follow_state
follow_state-Kept waiting info s = same-Kept s
follow_state-Kept here info s = take_info-Kept info s
follow_state-Kept listed info s = take_info-Kept info s
follow_state-Kept lost info s = server_deactivate-Kept s

take_report-Kept :
    (item : Item) (s : Server) → leb 2 s.check_mode ≡ true → Kept s (take_report item s)
unfolding take_report
take_report-Kept item s wanted =
    if_Kept (not (item.info.pver == version)) s _ _
      (with-Kept s (record s { check_mode = 1 }) (refl, refl, refl, refl, refl) (omega arith)
        (λ h. h) (ground arith) (λ h. h))
      (follow_state-Kept item.state item.info s)

report_server-Kept :
    (set : Settings) (now : ℕ) (item : Item) (s : Server) → Kept s (report_server set now item s)
unfolding report_server
report_server-Kept set now item s =
    let told = record s { info_time = now + set.info_period } in
    if_Kept (not (is_same_host set.resolver s.host item.host)) s s _ (same-Kept s)
      (elim (Bool-cases (leb 2 s.check_mode)) [
        | inl wanted ↦ rw wanted (
            if_Kept (not s.first_check) s _ s
              (then-Kept s told _
                (alike-Kept s told (refl, refl, refl, refl, refl, refl, refl, refl))
                (take_report-Kept item told wanted))
              (same-Kept s))
        | inr unwanted ↦ rw unwanted (same-Kept s)
      ])

set_status-Kept : (set : Settings) (probe : Probe) (s : Server) → Kept s (set_status set probe s)
unfolding set_status
set_status-Kept set probe s =
    if_Kept (is_checked set s) s _ s
      (if_Kept (check_server set probe s.host s.port) s _ _ (server_activate-Kept s)
        (server_deactivate-Kept s))
      (same-Kept s)

check_status-Kept :
    (set : Settings) (probe : Probe) (now : ℕ) (s : Server)
    → Kept s (check_status set probe now s).1
unfolding check_status
check_status-Kept set probe now s =
    if_by (λ (x : ℕ × Server). x.1) s (is_due now s) _ (now, s)
      (then-Kept s (set_status set probe s) _ (set_status-Kept set probe s)
        (alike-Kept (set_status set probe s) _ (refl, refl, refl, refl, refl, refl, refl, refl)))
      (same-Kept s)

request_info-Kept :
    (set : Settings) (probe : Probe) (now : ℕ) (s : Server)
    → Kept s (request_info set probe (now, s)).1
unfolding request_info
request_info-Kept set probe now s =
    let seen = record s { first_check = false } in
    let asked = record seen { info_time = probe.time_info + set.info_period } in
    if_by (λ (x : ℕ × Server × Bool). x.1) s _ (probe.time_info, asked, true) (now, seen, false)
      (with-Kept s asked (refl, refl, refl, refl, refl) (omega arith) (λ h. h) (omega arith)
        (λ h. refl))
      (with-Kept s seen (refl, refl, refl, refl, refl) (omega arith) (λ h. h) (omega arith)
        (λ h. refl))

-- One after the other.
abbrev pub AllKept : List Server → List Server → Type 0
AllKept [] [] = Unit
AllKept (s ∷ old) (t ∷ new) = Kept s t × AllKept old new
AllKept [] (t ∷ new) = ⊥
AllKept (s ∷ old) [] = ⊥

AllKept-same : (svrs : List Server) → AllKept svrs svrs
AllKept-same [] = tt
AllKept-same (s ∷ svrs) = (same-Kept s, AllKept-same svrs)

report_servers-AllKept :
    (set : Settings) (now : ℕ) (item : Item) (svrs : List Server)
    → AllKept svrs (report_servers set now item svrs)
unfolding report_servers
report_servers-AllKept set now item [] = tt
report_servers-AllKept set now item (s ∷ svrs) =
    (report_server-Kept set now item s, report_servers-AllKept set now item svrs)

time_servers-AllKept :
    (set : Settings) (probe : Server → Probe) (now : ℕ) (svrs : List Server)
    → AllKept svrs (time_servers set probe now svrs)
unfolding time_servers
time_servers-AllKept set probe now [] = tt
time_servers-AllKept set probe now (s ∷ svrs) =
    let (later, t) = check_status set (probe s) now s in
    (
      then-Kept s t _ (check_status-Kept set (probe s) now s)
          (request_info-Kept set (probe s) later t),
      time_servers-AllKept set probe (time_server set (probe s) now s).0 svrs,
    )

on_item-AllKept :
    (set : Settings) (probe : Server → Probe) (now : ℕ) (item : Item) (svrs : List Server)
    → AllKept svrs (on_item set probe now item svrs)
unfolding on_item
on_item-AllKept set probe now item svrs = elim (Bool-cases (item.info.kind == 1)) [
  | inl known ↦ rw known (report_servers-AllKept set now item svrs)
  | inr other ↦ rw other (time_servers-AllKept set probe now svrs)
]

-- Whatever event arrives and whatever the system answers: of each server the name, the host, the
-- weight, the redundancy and the slots in use stay, its limit of slots and its check mode may fall
-- but never rise, a limit of at least one does not fall to none, and a server that has been checked
-- once counts as checked.
pub info_callback-AllKept :
    (set : Settings) (probe : Server → Probe) (now : ℕ) (event : Event) (svrs : List Server)
    → AllKept svrs (info_callback set probe now event svrs)
unfolding info_callback
info_callback-AllKept set probe now started svrs = AllKept-same svrs
info_callback-AllKept set probe now stopped svrs = AllKept-same svrs
info_callback-AllKept set probe now restart svrs = AllKept-same svrs
info_callback-AllKept set probe now refresh svrs = AllKept-same svrs
info_callback-AllKept set probe now svr_list svrs = AllKept-same svrs
info_callback-AllKept set probe now on_error svrs = AllKept-same svrs
info_callback-AllKept set probe now on_info svrs = AllKept-same svrs
info_callback-AllKept set probe now on_timer svrs = time_servers-AllKept set probe now svrs
info_callback-AllKept set probe now (svr_info item) svrs = on_item-AllKept set probe now item svrs
info_callback-AllKept set probe now (svr_here item) svrs = on_item-AllKept set probe now item svrs
info_callback-AllKept set probe now (svr_lost item) svrs = on_item-AllKept set probe now item svrs
