-- ===== src/Examples/Network.antt =====
-- A tracker of two servers and the events of one, and the theorems applied to them.
use nuords_proxy.Prelude.{
  ℕ, ◌≤◌, ◌≡◌, refl, true, false, some, List, [], ◌∷◌, Bytes, codes, equal, arith, ◌*◌, suc,
}
use nuords_proxy.Inet.{ipv4}
use nuords_proxy.Proxy.{Info, Server}
use nuords_proxy.Tracker.{Item, listed, waiting, Tracker, svr_here}
use nuords_proxy.Tracker.Items.{place}
use nuords_proxy.Tracker.View.{find_item, AreDistinct, answer, place-answer}
use nuords_proxy.Tracker.Checks.{Step, message, check, refresh_by, take_steps}
use nuords_proxy.Tracker.Moves.{Reaches}
use nuords_proxy.Tracker.Refined.{take_steps-Follows}
use nuords_proxy.Tracker.Settings.{
  set_reconnect_time, restart_delay, pauses, Paused, set_reconnect_time-pauses,
}
use nuords_proxy.Tracker.Calls.{
  has_call, register_callback, unregister_callback, register_callback-unregister,
}
use nuords_proxy.Health.{Probe, Settings}
use nuords_proxy.Health.Reports.{report_server, version}
use nuords_proxy.Health.Callback.{info_callback}
use nuords_proxy.Health.Kept.{AllKept, info_callback-AllKept}
use nuords_proxy.Health.Timed.{Timed}
use nuords_proxy.Health.Effects.{Reported, report_server-Reported}
use nuords_proxy.Examples.World.{server, resolver}

abbrev info : Info
info = record (server.info) { kind = 1; pver = version; cmax = 5 }

abbrev item : Item
item = record {
  info = info;
  name = codes "one";
  host = codes "10.0.0.1";
  lsid = codes "10.0.0.1:8080";
  state = listed;
  time = 100;
}

abbrev other : Item
other = record item { lsid = codes "10.0.0.2:8080"; state = waiting; time = 90 }

abbrev pub tracker : Tracker
tracker = record {
  svrs = item ∷ other ∷ [];
  cbcs = (1, 0) ∷ [];
  tout = 15;
  tref = 300;
  port = 4073;
  host = codes "0.0.0.0";
  refr = false;
  sock = some 3;
  created = true;
}

abbrev itos : ℕ → Bytes
itos n = codes "8080"

abbrev steps : List Step
steps =
    message 110 (record { msg = 3; name = codes "two"; info = info }) (ipv4 1)
    ∷ check 111
    ∷ refresh_by false 120
    ∷ []

take_steps-Follows_example :
    let u = take_steps resolver itos steps tracker in
    AreDistinct u.svrs
    × Reaches resolver itos 300 true steps (find_item tracker.svrs) (find_item u.svrs)
unfolding equal
take_steps-Follows_example =
    take_steps-Follows resolver itos steps tracker ((ground arith, tt), (tt, tt))

set_reconnect_time-pauses_example :
    let u = set_reconnect_time 300 tracker in
    (1 ≤ u.tout)
    × (restart_delay u ≡ u.tout * 1000)
    × Paused (u.tout * 1000) (pauses (suc (restart_delay u)) (restart_delay u))
set_reconnect_time-pauses_example = set_reconnect_time-pauses 300 tracker

register_callback-unregister_example :
    let u = (register_callback (some 2) 0 tracker).1 in
    (has_call (2, 0) u.cbcs ≡ true)
    × (register_callback (some 2) 0 u ≡ (true, u))
    × (unregister_callback (some 2) 0 u ≡ (true, tracker))
unfolding has_call
register_callback-unregister_example = register_callback-unregister 2 0 tracker refl

place-answer_example :
    let (reported, placed) = place 3 110 item tracker.svrs in
    (reported ≡ answer 3 110 item (find_item tracker.svrs item.lsid))
    × (find_item placed item.lsid ≡ some reported)
place-answer_example = place-answer 3 110 item tracker.svrs

abbrev settings : Settings
settings = record { resolver = resolver; info_period = 15; status_period = 300; terminated = false }

abbrev probe : Probe
probe = record { socket = λ _. some 6; connects = λ _ _ _. true; time_check = 130; time_info = 131 }

info_callback-AllKept_example :
    AllKept (server ∷ []) (info_callback settings (λ _. probe) 120 (svr_here item) (server ∷ []))
info_callback-AllKept_example =
    info_callback-AllKept settings (λ _. probe) 120 (svr_here item) (server ∷ [])

abbrev checked_server : Server
checked_server = record server { check_mode = 3; first_check = false }

report_server-Reported_example :
    Reported settings 120 item checked_server (report_server settings 120 item checked_server)
report_server-Reported_example = report_server-Reported settings 120 item checked_server
