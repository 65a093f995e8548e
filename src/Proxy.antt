-- ===== src/Proxy.antt =====
-- src/nrdpx_server.h: the objects of the proxy, and the state that its functions share.
--
-- Servers, clients and balancers are made while the configuration is loaded and live until exit: a
-- pointer to one is its number, and `server_at` and the like follow it. Routes are made and deleted
-- all the time: `route_at` is the heap that holds them, and a deleted route is `none`. A socket is
-- its descriptor and `NRD_NOSOCK` is `none`; `closed` records what `nrdpx_socket_close` has closed,
-- the last one first. `next_addr` is above every address that was ever given out.
pub mod Defaults
pub mod Servers
pub mod Select
pub mod Run
pub mod Caching
pub mod Channels
pub mod Detect
pub mod Connect
pub mod Relay
pub mod Loop
pub mod Pace
pub mod Watch
pub mod Ownership
use nuords_proxy.Prelude.{ℕ, ℤ, Bool, Option, List, Bytes}
use nuords_proxy.Inet.{Cidr}
use nuords_proxy.Buffer.{Buffer}

-- `HNRD_NBINF::_mem` and `_cpu` of src/com/include/nrdnb.h.
pub record Usage : Type 0 where
  pub stat : ℕ
  pub free : ℕ
  pub used : ℕ

-- The parts of `HNRD_NBINF` that the proxy reads, `svc` included.
pub record Info : Type 0 where
  pub kind : ℕ
  pub cmax : ℕ
  pub pver : ℕ
  pub port : ℕ
  pub ccnt : ℕ
  pub stat : ℕ
  pub mem : Usage
  pub cpu : Usage

-- The slots and weights are `int`s that the configuration keeps at 0 or above.
pub record Server : Type 0 where
  pub name : Bytes
  pub info : Info
  pub host : Bytes
  pub port : ℤ
  pub info_port : ℤ
  pub stat_time : ℕ
  pub info_time : ℕ
  pub max_slots : ℕ
  pub num_slots : ℕ
  pub max_weight : ℕ
  pub num_faults : ℕ
  pub redundant : Bool
  pub check_mode : ℕ
  pub first_check : Bool

pub record Client : Type 0 where
  pub name : Bytes
  pub sources : List Cidr
  pub num_slots : ℕ
  pub max_slots : ℕ

pub data Method : Type 0 where
  by_busyness by_requests : Method

-- The bits `B_METRIC_CAP`, `B_METRIC_MEM` and `B_METRIC_CPU`.
pub record Metrics : Type 0 where
  pub cap : Bool
  pub mem : Bool
  pub cpu : Bool

pub record Balancer : Type 0 where
  pub name : Bytes
  pub clients : List ℕ
  pub servers : List ℕ
  pub metrics : Metrics
  pub method : Method

pub record Route : Type 0 where
  pub balancer : Option ℕ
  pub client : Option ℕ
  pub server : Option ℕ
  pub cached : Bool
  pub act_time : ℕ
  pub num_slots : ℕ

pub data CacheMode : Type 0 where
  none_mode temp_mode perm_mode : CacheMode

pub record Cache : Type 0 where
  pub mode : CacheMode
  pub routes : List (Bytes × ℕ)
  pub timeout : ℕ
  pub chktime : ℕ

-- `self` is the address of the object. The sockets and the inputs of a side share its name.
pub record Channel : Type 0 where
  pub self : ℕ
  pub id : ℕ
  pub route : ℕ
  pub conn_time : ℕ
  pub connected : Bool
  pub source : Option ℕ
  pub target : Option ℕ
  pub source_input : Buffer
  pub target_input : Buffer

pub record Proxy : Type 0 where
  pub server_at : ℕ → Server
  pub client_at : ℕ → Client
  pub balancer_at : ℕ → Balancer
  pub balancers : List ℕ
  pub route_at : ℕ → Option Route
  pub next_addr : ℕ
  pub channels : List Channel
  pub id_count : ℕ
  pub cache : Cache
  pub max_faults : ℕ
  pub conn_timeout : ℕ
  pub max_buffer : ℕ
  pub socket_mode : ℕ
  pub buffer_mode : ℕ
  pub closed : List ℕ
