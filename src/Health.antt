-- ===== src/Health.antt =====
-- `nrdpx_info_callback` and `nrdpx_check_server` of src/nrdpx_server.cpp: what the events of the
-- tracker and its timer do to the servers of the proxy. What is logged is left out.
pub mod Reports
pub mod Timer
pub mod Callback
pub mod Kept
pub mod Timed
pub mod Effects
use nuords_proxy.Prelude.{ℕ, ℤ, Bool, Option}
use nuords_proxy.Inet.{Family, Addr}
use nuords_proxy.Inet.Hosts.{Resolver}

-- What the system answers while one server is looked at: a socket, whether `connect` succeeds, and
-- the clock after the check and after the request.
pub record Probe : Type 0 where
  pub socket : Family → Option ℕ
  pub connects : ℕ → Addr → ℤ → Bool
  pub time_check : ℕ
  pub time_info : ℕ

-- The settings of the proxy that are read here; `terminated` is `__terminated`.
pub record Settings : Type 0 where
  pub resolver : Resolver
  pub info_period : ℕ
  pub status_period : ℕ
  pub terminated : Bool
