-- ===== src/Proxy/Connect.antt =====
-- `nrdpx_channel_create` of src/nrdpx_server.cpp and `nrdpx_socket_create` and
-- `nrdpx_socket_connect` of src/nrdpx_socket.cpp: a channel for a connection that was accepted, or
-- for one whose server has failed.
use nuords_proxy.Prelude.{
  ℕ, ℤ, is_null, Bool, true, false, ◌&&◌, not, ◌==◌, same_ptr, is_empty, if◌then◌else◌, Option,
  none, some, [], Bytes,
}
use nuords_proxy.Inet.{Family, Addr, family_of}
use nuords_proxy.Inet.Hosts.{Resolver, Errno, host_to_addr, addr_to_host, is_error_fatal}
use nuords_proxy.Proxy.{Server, Channel}
use nuords_proxy.Proxy.Run.{
  Cmd, pure, ◌>>=◌, ◌>>◌, get, follow, load_route, free_route, new_route, socket_close,
}
use nuords_proxy.Proxy.Caching.{cache_find, cache_add, cache_remove}
use nuords_proxy.Proxy.Channels.{channel_new, add_channel}
use nuords_proxy.Proxy.Detect.{detect_route, empty_route}
use nuords_proxy.Proxy.Select.{Double}

-- What the system answers in one call of `nrdpx_channel_create`: `getpeername`, `socket` and the
-- switch to non-blocking mode, `connect` (0 or an error number), and the three readings of the clock
-- besides `now`: in `find`, in the channel's constructor and in `add`.
pub record Os : Type 0 where
  pub resolver : Resolver
  pub errno : Errno
  pub getpeername : ℕ → Option Addr
  pub socket : Family → Option ℕ
  pub set_nonblocking : ℕ → Bool
  pub connect : ℕ → Addr → ℤ → ℕ
  pub time_find : ℕ
  pub time_open : ℕ
  pub time_add : ℕ

-- `nrdpx_socket_create(family, false)`, from what `socket` returns.
unfoldable pub set_up : Os → Option ℕ → Cmd (Option ℕ)
set_up os none = pure none
set_up os (some s) =
    if os.set_nonblocking s then pure (some s) else (do socket_close (some s); pure none)

abbrev pub socket_create : Os → Family → Cmd (Option ℕ)
socket_create os family = set_up os (os.socket family)

unfoldable pub is_refused : Os → ℕ → Addr → ℤ → Bool
is_refused os sock addr port =
    let error = os.connect sock addr port in not (error == 0) && is_error_fatal os.errno error true

-- The cached route, unless it leads to the server that has failed.
unfoldable pub use_cached : Bytes → Option ℕ → Option ℕ → Cmd (Option ℕ)
use_cached src_host nosvr none = pure none
use_cached src_host nosvr (some a) = do
  r ← load_route a
  if same_ptr r.server nosvr then (do cache_remove src_host; pure none) else pure (some a)

-- A route is made for the host when none is cached.
unfoldable pub use_route : Double → Addr → Option ℕ → Option ℕ → Cmd ℕ
use_route d addr nosvr (some a) = pure a
use_route d addr nosvr none = do
  p ← get
  new_route (detect_route d p addr nosvr [] p.balancers empty_route)

unfoldable pub obtain_route : Double → ℕ → Addr → Bytes → Option ℕ → Cmd ℕ
obtain_route d time addr src_host nosvr = do
  found ← cache_find time src_host
  cached ← use_cached src_host nosvr found
  use_route d addr nosvr cached

-- Where `goto ret_point` leaves: with the server's socket, on a route that leads to a server.
pub data Attempt : Type 0 where
  failed : Option ℕ → Attempt
  connected : Option ℕ → Attempt

unfoldable pub connect_on : Os → Addr → ℤ → Option ℕ → Cmd Attempt
connect_on os addr port none = pure (failed none)
connect_on os addr port (some s) =
    if is_refused os s addr port then pure (failed (some s)) else pure (connected (some s))

unfoldable pub connect_to : Os → ℤ → Option Addr → Cmd Attempt
connect_to os port none = pure (failed none)
connect_to os port (some addr) = do
  sock ← socket_create os (family_of addr)
  connect_on os addr port sock

-- The checks on the server, and the connection to it.
unfoldable pub open_server : Os → Server → Cmd Attempt
open_server os svr =
    if is_null svr.port
    then pure (failed none)
    else connect_to os svr.port (host_to_addr os.resolver svr.host false)

unfoldable pub check_route : Option ℕ → Option ℕ → Option ℕ → Bool
check_route (some balancer) (some client) (some server) = true
check_route _ _ _ = false

unfoldable pub attempt_route : Os → ℕ → Cmd Attempt
attempt_route os a = do
  r ← load_route a
  if not (check_route r.balancer r.client r.server)
      then pure (failed none)
      else (do svr ← follow r.server; p ← get; open_server os (p.server_at svr))

-- `ret_point` without a channel, once a route is at hand.
unfoldable pub give_up : Bytes → Option ℕ → Option ℕ → ℕ → Cmd (Option Channel)
give_up src_host svr_sock src_sock a = do
  socket_close svr_sock
  socket_close src_sock
  r ← load_route a
  if r.cached then cache_remove src_host else free_route a
  pure none

-- `ret_point` with a channel.
unfoldable pub install : ℕ → Bytes → ℕ → Channel → Cmd (Option Channel)
install time src_host a chn = do
  r ← load_route a
  if r.cached then pure false else cache_add time src_host a
  add_channel chn
  pure (some chn)

unfoldable pub finish : Os → ℕ → Bytes → Option ℕ → ℕ → Attempt → Cmd (Option Channel)
finish os now src_host src_sock a (failed svr_sock) = give_up src_host svr_sock src_sock a
finish os now src_host src_sock a (connected svr_sock) = do
  chn ← channel_new os.time_open src_sock svr_sock a now
  install os.time_add src_host a chn

unfoldable pub refuse_source : Option ℕ → Cmd (Option Channel)
refuse_source src_sock = do socket_close src_sock; pure none

unfoldable pub serve : Double → Os → ℕ → ℕ → Option ℕ → Addr → Bytes → Cmd (Option Channel)
serve d os src_sock now nosvr addr src_host = do
  a ← obtain_route d os.time_find addr src_host nosvr
  result ← attempt_route os a
  finish os now src_host (some src_sock) a result

unfoldable pub accept_peer : Double → Os → ℕ → ℕ → Option ℕ → Option Addr → Cmd (Option Channel)
accept_peer d os src_sock now nosvr none = refuse_source (some src_sock)
accept_peer d os src_sock now nosvr (some addr) =
    let src_host = addr_to_host os.resolver addr in
    if is_empty src_host
    then refuse_source (some src_sock)
    else serve d os src_sock now nosvr addr src_host

abbrev pub channel_create : Double → Os → ℕ → ℕ → Option ℕ → Cmd (Option Channel)
channel_create d os src_sock now nosvr =
    accept_peer d os src_sock now nosvr (os.getpeername src_sock)
