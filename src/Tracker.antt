-- ===== src/Tracker.antt =====
-- src/nrdnb_client.h: the tracker of servers, which hears their messages on the network.
--
-- One thread handles messages and another one checks the list twice a second; the lists are locked,
-- so that an operation on them is one step. A socket is its descriptor, a function pointer is a
-- number, and the events that an operation raises are returned in order.
pub mod Items
pub mod Calls
pub mod Checks
pub mod View
pub mod Moves
pub mod Late
pub mod Tables
pub mod Refined
pub mod Settings
use nuords_proxy.Prelude.{ℕ, Bool, Option, List, Bytes}
use nuords_proxy.Proxy.{Info}

-- `NRDNBS_WAIT`, `NRDNBS_HERE`, `NRDNBS_LIST` and `NRDNBS_LOST`.
pub data Status : Type 0 where
  waiting here listed lost : Status

-- The name of a machine stands in `info`, which the proxy reads no further.
pub record Item : Type 0 where
  pub info : Info
  pub name : Bytes
  pub host : Bytes
  pub lsid : Bytes
  pub state : Status
  pub time : ℕ

-- A datagram with the right signature: its number, and its data as server information.
pub record Message : Type 0 where
  pub msg : ℕ
  pub name : Bytes
  pub info : Info

pub data Event : Type 0 where
  started stopped restart refresh svr_list on_error on_info on_timer : Event
  svr_info svr_here svr_lost : Item → Event

-- `created` tells whether the thread runs.
pub record Tracker : Type 0 where
  pub svrs : List Item
  pub cbcs : List (ℕ × ℕ)
  pub tout : ℕ
  pub tref : ℕ
  pub port : ℕ
  pub host : Bytes
  pub refr : Bool
  pub sock : Option ℕ
  pub created : Bool
