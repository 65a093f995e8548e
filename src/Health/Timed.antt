-- ===== src/Health/Timed.antt =====
-- What the timer makes of one server.
use nuords_proxy.Prelude.{ℕ, ◌+◌, ◌≤◌, ◌<◌, ◌≡◌, ◌≢◌, ◌⊎◌, ◌↔◌, Bool, true, false, arith}
use nuords_proxy.Proxy.{Server}
use nuords_proxy.Proxy.Servers.{server_is_active, server_deactivate}
use nuords_proxy.Health.{Probe, Settings}
use nuords_proxy.Health.Timer.{check_server}

pub deactivate-active : (s : Server) → server_is_active (server_deactivate s) ≡ false
unfolding server_is_active server_deactivate
deactivate-active s = ground arith

-- A check is due, for a server that is watched, at its first timer and once its time is over.
abbrev pub Due : ℕ → Server → Type 0
Due now s = (1 ≤ s.check_mode) × ((s.first_check ≡ true) ⊎ (s.stat_time < now))

-- What a timer makes of a server `s`: the server `t`, and whether its information is asked for.
pub record Timed (set : Settings) (probe : Probe) (now : ℕ) (s t : Server) (asked : Bool)
    : Type 0 where
  pub known : t.first_check ≡ false
  pub checked :
      Due now s
      → set.terminated ≡ false
      → (s.first_check ≡ true) ⊎ (server_is_active s ≡ false) ⊎ (s.num_slots ≡ 0)
      → server_is_active t ≡ check_server set probe s.host s.port
  pub spared :
      s.first_check ≡ false
      → server_is_active s ≡ true
      → s.num_slots ≢ 0
      → server_is_active t ≡ true
  pub ending : set.terminated ≡ true → server_is_active t ≡ server_is_active s
  pub again : Due now s → t.stat_time ≡ probe.time_check + set.status_period
  pub early :
      (s.check_mode ≡ 0) ⊎ (s.first_check ≡ false) × (now ≤ s.stat_time)
      → (server_is_active t ≡ server_is_active s) × (t.stat_time ≡ s.stat_time)
  pub asks :
      asked ≡ true
      → (server_is_active t ≡ true)
        × (2 ≤ s.check_mode)
        × (t.info_time ≡ probe.time_info + set.info_period)
  pub in_time :
      Due now s
      → server_is_active t ≡ true
      → 2 ≤ s.check_mode
      → (asked ≡ true) ↔ (s.info_time < probe.time_check)
