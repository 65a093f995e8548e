-- ===== src/Health/Timer.antt =====
-- The timer: `nrdpx_check_server`, and the requests for information.
use nuords_proxy.Prelude.{
  ℕ, ◌+◌, ℤ, is_null, Bool, true, false, ◌&&◌, ◌||◌, not, ltb, leb, ◌==◌, if◌then◌else◌, Option,
  none, some, List, [], ◌∷◌, Bytes, is_empty,
}
use nuords_proxy.Inet.{Addr, family_of}
use nuords_proxy.Inet.Hosts.{host_to_addr}
use nuords_proxy.Proxy.{Server}
use nuords_proxy.Proxy.Servers.{
  server_is_active, server_activate, server_deactivate, server_slot_count,
}
use nuords_proxy.Health.{Probe, Settings}

abbrev pub connects_on : Probe → Addr → ℤ → Option ℕ → Bool
connects_on probe addr port none = false
connects_on probe addr port (some sock) = probe.connects sock addr port

abbrev pub connects_to : Probe → ℤ → Option Addr → Bool
connects_to probe port none = false
connects_to probe port (some addr) = connects_on probe addr port (probe.socket (family_of addr))

-- The socket is closed afterwards; one that an earlier check has left open is closed first.
unfoldable pub check_server : Settings → Probe → Bytes → ℤ → Bool
check_server set probe host port =
    if is_null port || is_empty host
    then false
    else connects_to probe port (host_to_addr set.resolver host false)

-- A server is connected to if it has not been checked yet, is not active, or has no channel.
abbrev pub is_checked : Settings → Server → Bool
is_checked set svr =
    not set.terminated
    && (svr.first_check || not (server_is_active svr) || server_slot_count svr == 0)

unfoldable pub set_status : Settings → Probe → Server → Server
set_status set probe svr =
    if is_checked set svr
    then if check_server set probe svr.host svr.port
      then server_activate svr
      else server_deactivate svr
    else svr

-- `NRDPX_CHECK_MODE_CONN` is 1.
abbrev pub is_due : ℕ → Server → Bool
is_due now svr = leb 1 svr.check_mode && (svr.first_check || ltb svr.stat_time now)

-- The server, and the time after it.
unfoldable pub check_status : Settings → Probe → ℕ → Server → ℕ × Server
check_status set probe now svr =
    if is_due now svr
    then (
      probe.time_check,
      record (set_status set probe svr) { stat_time = probe.time_check + set.status_period },
    )
    else (now, svr)

-- The server, the time after it, and whether its information is requested.
unfoldable pub request_info : Settings → Probe → ℕ × Server → ℕ × Server × Bool
request_info set probe (now, svr) =
    let seen = record svr { first_check = false } in
    if server_is_active svr && leb 2 svr.check_mode && ltb svr.info_time now
    then (probe.time_info, record seen { info_time = probe.time_info + set.info_period }, true)
    else (now, seen, false)

abbrev pub time_server : Settings → Probe → ℕ → Server → ℕ × Server × Bool
time_server set probe now svr = request_info set probe (check_status set probe now svr)

-- The probe of each server is what the system answers while it is looked at.
unfoldable pub time_servers : Settings → (Server → Probe) → ℕ → List Server → List Server
time_servers set probe now [] = []
time_servers set probe now (svr ∷ svrs) =
    let (later, looked, _) = time_server set (probe svr) now svr in
    looked ∷ time_servers set probe later svrs
