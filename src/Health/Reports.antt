-- ===== src/Health/Reports.antt =====
-- An event of the tracker with the information of a server.
use nuords_proxy.Prelude.{
  ℕ, ◌+◌, ◌-◌, ◌^◌, ℤ, pos, negsuc, to_unsigned, ◌&&◌, not, ltb, leb, ◌==◌, if◌then◌else◌, List, [],
  ◌∷◌,
}
use nuords_proxy.Inet.Parse.{is_same_host}
use nuords_proxy.Proxy.{Info, Server}
use nuords_proxy.Proxy.Servers.{server_deactivate}
use nuords_proxy.Tracker.{Status, waiting, here, listed, lost, Item}
use nuords_proxy.Health.{Settings}

-- An `unsigned int` as an `int`.
abbrev pub to_int : ℕ → ℤ
to_int n = if ltb n (2 ^ 31) then pos n else negsuc (2 ^ 32 - 1 - n)

unfoldable pub sync_slots : Server → Server
sync_slots svr =
    if not (svr.info.cmax == 0) && ltb svr.info.cmax svr.max_slots
    then record svr { max_slots = svr.info.cmax }
    else svr

unfoldable pub sync_port : Server → Server
sync_port svr =
    if not (svr.info.port == 0) && not (to_unsigned svr.port == svr.info.port)
    then record svr { port = to_int svr.info.port }
    else svr

-- `NRDPX_CHECK_MODE_SYNC` is 3.
unfoldable pub take_info : Info → Server → Server
take_info info svr =
    if leb 3 svr.check_mode
    then sync_port (sync_slots (record svr { info = info }))
    else record svr { info = info }

unfoldable pub follow_state : Status → Info → Server → Server
follow_state waiting info svr = svr
follow_state here info svr = take_info info svr
follow_state listed info svr = take_info info svr
follow_state lost info svr = server_deactivate svr

-- `NRD_MAKEUINT(0,5)` is the version that is understood; otherwise the check mode is degraded.
abbrev pub version : ℕ
version = 327680

unfoldable pub take_report : Item → Server → Server
take_report item svr =
    if not (item.info.pver == version)
    then record svr { check_mode = 1 }
    else follow_state item.state item.info svr

-- A server of that host whose information is wanted. It has been checked before.
unfoldable pub report_server : Settings → ℕ → Item → Server → Server
report_server set now item svr =
    if not (is_same_host set.resolver svr.host item.host)
    then svr
    else if leb 2 svr.check_mode && not svr.first_check
    then take_report item (record svr { info_time = now + set.info_period })
    else svr

unfoldable pub report_servers : Settings → ℕ → Item → List Server → List Server
report_servers set now item [] = []
report_servers set now item (svr ∷ svrs) =
    report_server set now item svr ∷ report_servers set now item svrs
