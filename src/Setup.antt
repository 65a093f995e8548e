-- ===== src/Setup.antt =====
-- What `nrdpx_load_config` of src/nrdpx_server.cpp sets in the proxy of src/nrdpx_server.h.
--
-- A client, a server or a balancer is numbered by its place in the list that it is pushed to, and a
-- pointer to one is that number. The arguments are `atoi` of the C library, the resolver, and what
-- is read of the file for each class of sections, for the file is opened four times.
pub mod Options
pub mod Clients
pub mod Servers
pub mod Balancers
pub mod Load
pub mod Bounds
pub mod Members
pub mod Ready
pub mod Start
pub mod Listeners
use nuords_proxy.Prelude.{ℕ, ℤ, Bool, List, Bytes}
use nuords_proxy.Proxy.{Client, Server, Balancer, CacheMode}

pub record Listener : Type 0 where
  pub host : Bytes
  pub port : ℤ

pub record Setup : Type 0 where
  pub listeners : List Listener
  pub info_enabled : Bool
  pub info_port : ℤ
  pub info_period : ℕ
  pub status_period : ℕ
  pub cache_timeout : ℕ
  pub cache_mode : CacheMode
  pub conn_timeout : ℕ
  pub max_faults : ℕ
  pub socket_mode : ℕ
  pub buffer_mode : ℕ
  pub max_buffer : ℕ
  pub clients : List Client
  pub servers : List Server
  pub balancers : List Balancer
