-- ===== src/Process.antt =====
-- The process around the proxy, in src/nrdpx_server.cpp: the settings of the command line, the log,
-- the daemon with its pid file, and the end of the process.
pub mod Arguments
pub mod Logs
pub mod Daemon
pub mod Exit
pub mod Printed
pub mod Reported
pub mod Released
pub mod Once
pub mod Main
pub mod Lifetime
use nuords_proxy.Prelude.{ℕ, Bool, Bytes}

-- Where the log goes: the bits of `__log_out`.
pub record Outputs : Type 0 where
  pub file : Bool
  pub cons : Bool
  pub slog : Bool

pub data DaemonMode : Type 0 where
  no_daemon lite_daemon full_daemon : DaemonMode

-- The variables of the process. `log_open` is whether `__log_fdd` is not NULL.
pub record Process : Type 0 where
  pub log_out : Outputs
  pub log_lvl : ℕ
  pub log_app : Bool
  pub log_open : Bool
  pub pid_path : Bytes
  pub cfg_path : Bytes
  pub log_path : Bytes
  pub detached : Bool
  pub terminated : Bool
  pub daemon_mode : DaemonMode
