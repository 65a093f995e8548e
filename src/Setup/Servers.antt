-- ===== src/Setup/Servers.antt =====
-- The loop of `nrdpx_load_config` over the sections of servers.
use nuords_proxy.Prelude.{
  ℕ, ℤ, pos, is_null, at_least, fit_within, to_unsigned, Bool, false, not, ◌&&◌, ◌==◌, leb,
  if◌then◌else◌, List, [], ◌∷◌, length, Bytes, codes, is_empty,
}
use nuords_proxy.Inet.Parse.{parse_host_port}
use nuords_proxy.Config.{Section}
use nuords_proxy.Config.Sections.{get_string, get_integer, get_boolean}
use nuords_proxy.Proxy.{Server}
use nuords_proxy.Proxy.Defaults.{new_server}
use nuords_proxy.Proxy.Servers.{server_activate}
use nuords_proxy.Setup.Clients.{link_if, push_if}

-- The address and the limits, and the check mode before it is degraded.
unfoldable pub set_address : Bytes → ℤ → Server → Server
set_address host port svr =
    let info = svr.info in
    record svr { host = host; port = port; info = record info { port = to_unsigned port } }

-- `NRDPX_CHECK_MODE_INFO` is 2 and `NRDPX_CHECK_MODE_CONN` is 1.
unfoldable pub set_check : (Bytes → ℤ) → Bool → Section → ℕ → Server → Server
set_check atoi info_enabled sc mode svr =
    if not (leb 2 mode)
    then record svr { check_mode = mode }
    else if info_enabled
    then record svr {
      check_mode = mode;
      info_port = get_integer atoi sc (codes "info_port") svr.info_port;
    }
    else record svr { check_mode = 1 }

unfoldable pub set_limits : (Bytes → ℤ) → Section → Server → Server
set_limits atoi sc svr = record svr {
  max_slots = at_least 0 (get_integer atoi sc (codes "max_slots") (pos svr.max_slots));
  max_weight = fit_within (get_integer atoi sc (codes "max_weight") (pos svr.max_weight)) 1 100;
  redundant = get_boolean sc (codes "redundant") false;
}

unfoldable pub server_of : (Bytes → ℤ) → Bool → Section → Server
server_of atoi info_enabled sc =
    let (host, port) = parse_host_port atoi (get_string sc (codes "address") []) new_server.port in
    let mode =
      fit_within (get_integer atoi sc (codes "check_mode") (pos new_server.check_mode)) 0 3 in
    set_limits atoi sc (
      set_check atoi info_enabled sc mode
        (set_address host port (record new_server { name = sc.name })))

-- A server without an address or without slots is ignored.
abbrev pub is_valid_server : Server → Bool
is_valid_server svr = not (is_empty svr.host) && not (is_null svr.port) && not (svr.max_slots == 0)

unfoldable pub load_servers :
    (Bytes → ℤ) → Bool → List Section → List Server → List Server × List Section
load_servers atoi info_enabled [] servers = (servers, [])
load_servers atoi info_enabled (sc ∷ rest) servers =
    let svr = server_of atoi info_enabled sc in
    let kept = is_valid_server svr in
    let (loaded, linked) =
      load_servers atoi info_enabled rest (push_if kept (server_activate svr) servers) in
    (loaded, link_if kept (length servers) sc ∷ linked)
