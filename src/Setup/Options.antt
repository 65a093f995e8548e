-- ===== src/Setup/Options.antt =====
-- The constructor of the proxy, the listeners, and the options of the section `proxy`, in
-- `nrdpx_load_config`. The parts that log are left out.
use nuords_proxy.Prelude.{
  ℕ, ℤ, pos, negsuc, is_null, at_least, fit_within, true, ltb, ◌==◌, if◌then◌else◌, List, [], ◌∷◌,
  Bytes, codes, is_empty,
}
use nuords_proxy.Inet.Parse.{parse_host_port}
use nuords_proxy.Buffer.{buffer_size_min, buffer_size_max}
use nuords_proxy.Config.{Section}
use nuords_proxy.Config.Sections.{get_strings, get_integer, get_boolean, key_exists}
use nuords_proxy.Proxy.{CacheMode, none_mode, temp_mode}
use nuords_proxy.Setup.{Listener, Setup}

unfoldable pub new_setup : Setup
new_setup = record {
  listeners = [];
  info_enabled = true;
  info_port = pos 4073;
  info_period = 15;
  status_period = 300;
  cache_timeout = 60;
  cache_mode = temp_mode;
  conn_timeout = 30;
  max_faults = 2;
  socket_mode = 0;
  buffer_mode = 0;
  max_buffer = buffer_size_max;
  clients = [];
  servers = [];
  balancers = [];
}

-- The constructors of `nrdpx_listener_t`: any address and the port of remote desktops by default.
unfoldable pub new_listener : Bytes → ℤ → Listener
new_listener host port = record {
  host = if is_empty host then codes "0.0.0.0" else host;
  port = if is_null port then pos 3389 else port;
}

unfoldable pub parse_listener : (Bytes → ℤ) → Bytes → Listener
parse_listener atoi a = let (host, port) = parse_host_port atoi a (pos 0) in new_listener host port

abbrev pub parse_listeners : (Bytes → ℤ) → List Bytes → List Listener
parse_listeners atoi [] = []
parse_listeners atoi (a ∷ rest) = parse_listener atoi a ∷ parse_listeners atoi rest

unfoldable pub load_listeners : (Bytes → ℤ) → Section → List Listener
load_listeners atoi sc =
    if key_exists sc (codes "listeners")
    then parse_listeners atoi (get_strings sc (codes "listeners")).0
    else new_listener (codes "0.0.0.0") (pos 3389) ∷ new_listener (codes "[::]") (pos 3389) ∷ []

-- At least 5, or 0 to have no cache.
abbrev pub fit_timeout : ℤ → ℕ
fit_timeout (pos n) = if n == 0 then 0 else if ltb n 5 then 5 else n
fit_timeout (negsuc n) = 5

abbrev pub mode_of : ℕ → CacheMode
mode_of timeout = if ltb 0 timeout then temp_mode else none_mode

unfoldable pub load_info : (Bytes → ℤ) → Section → Setup → Setup
load_info atoi sc setup =
    if setup.info_enabled
    then record setup {
      info_port = get_integer atoi sc (codes "info_port") setup.info_port;
      info_period = at_least 10 (get_integer atoi sc (codes "info_period") (pos setup.info_period));
    }
    else setup

unfoldable pub load_periods : (Bytes → ℤ) → Section → Setup → Setup
load_periods atoi sc setup =
    let timeout = fit_timeout (get_integer atoi sc (codes "cache_timeout") (pos 60)) in
    record setup {
      status_period =
          at_least 60 (get_integer atoi sc (codes "status_period") (pos setup.status_period));
      cache_timeout = timeout;
      cache_mode = mode_of timeout;
      conn_timeout =
          fit_within (get_integer atoi sc (codes "conn_timeout") (pos setup.conn_timeout)) 10 900;
      max_faults = at_least 1 (get_integer atoi sc (codes "max_faults") (pos setup.max_faults));
    }

unfoldable pub load_buffers : (Bytes → ℤ) → Section → Setup → Setup
load_buffers atoi sc setup = record setup {
  socket_mode = fit_within (get_integer atoi sc (codes "socket_mode") (pos setup.socket_mode)) 0 2;
  buffer_mode = fit_within (get_integer atoi sc (codes "buffer_mode") (pos setup.buffer_mode)) 0 2;
  max_buffer =
      fit_within (get_integer atoi sc (codes "max_buffer") (pos setup.max_buffer)) buffer_size_min
        buffer_size_max;
}

abbrev pub load_options : (Bytes → ℤ) → Section → Setup → Setup
load_options atoi sc setup =
    let enabled = get_boolean sc (codes "info_enabled") setup.info_enabled in
    let listening = record setup { listeners = load_listeners atoi sc; info_enabled = enabled } in
    load_buffers atoi sc (load_periods atoi sc (load_info atoi sc listening))
