-- ===== src/Proxy/Loop.antt =====
-- `nrdpx_main_proc` of src/nrdpx_server.cpp: the sockets that are accepted, and the loop over the
-- channels, with the failure of a connection and the switch to another server.
pub mod Places
pub mod Sound
pub mod Start
use nuords_proxy.Prelude.{
  ℕ, zero, suc, ◌+◌, Bool, true, false, ◌&&◌, ◌||◌, not, leb, ltb, ◌==◌, if◌then◌else◌, Option,
  none, some, List, [], ◌∷◌,
}
use nuords_proxy.Inet.Hosts.{is_error_fatal}
use nuords_proxy.Buffer.{content}
use nuords_proxy.Proxy.{Proxy, Channel}
use nuords_proxy.Proxy.Servers.{server_deactivate}
use nuords_proxy.Proxy.Run.{Cmd, pure, ◌>>=◌, ◌>>◌, get, modify, follow, load_route, put_at}
use nuords_proxy.Proxy.Select.{Double}
use nuords_proxy.Proxy.Channels.{set_channels, del_channel}
use nuords_proxy.Proxy.Connect.{Os, channel_create}
use nuords_proxy.Proxy.Relay.{Net, Traffic, Alive, relay}

-- The error of a socket that is still connecting, unless it only says that it is.
unfoldable pub connect_error : Net → Option ℕ → Bool
connect_error net none = true
connect_error net (some s) =
    let error = net.socket_error s in not (error == 0) && is_error_fatal net.errno error true

-- A connection that has failed, or takes longer than `conn_timeout` allows.
unfoldable pub has_failed : Net → ℕ → ℕ → Channel → Bool
has_failed net timeout now chn =
    not chn.connected && (ltb (chn.conn_time + timeout) now || connect_error net chn.target)

-- `++num_faults`, and the end of a server that has too many.
unfoldable pub count_fault : ℕ → Cmd (Unit {0})
count_fault s = modify λ p.
    let svr = p.server_at s in
    let faulty = record svr { num_faults = svr.num_faults + 1 } in
    record p {
      server_at =
          put_at s (if leb p.max_faults faulty.num_faults then server_deactivate faulty else faulty)
            p.server_at;
    }

-- `nrdpx_channel_create` on the socket of a channel; at `NRD_NOSOCK` it finds no peer.
unfoldable pub retry : Double → Os → ℕ → ℕ → Option ℕ → Cmd (Option Channel)
retry d os now server none = pure none
retry d os now server (some src) = channel_create d os src now (some server)

unfoldable pub nth : ℕ → List Channel → Option Channel
nth i [] = none
nth zero (c ∷ chns) = some c
nth (suc i) (c ∷ chns) = nth i chns

unfoldable pub replace : ℕ → Channel → List Channel → List Channel
replace i chn [] = []
replace zero chn (c ∷ chns) = chn ∷ chns
replace (suc i) chn (c ∷ chns) = c ∷ replace i chn chns

-- A write to the object that `channels[i]` points to.
unfoldable pub store_channel : ℕ → Channel → Cmd (Unit {0})
store_channel i chn = do p ← get; set_channels (replace i chn p.channels)

-- The source socket goes on to the new channel, so the failed one must not close it.
unfoldable pub fail_over : Double → Os → ℕ → ℕ → ℕ → Channel → Cmd (Unit {0})
fail_over d os now time i chn = do
  r ← load_route chn.route
  server ← follow r.server
  count_fault server
  retry d os now server chn.source
  store_channel i (record chn { source = none })
  del_channel time chn.self

-- What has come in and is not sent yet, when a pass begins.
abbrev pub in_hand : Channel → Traffic
in_hand chn = record {
  from_source = content chn.source_input;
  to_target = [];
  from_target = content chn.target_input;
  to_source = [];
}

unfoldable pub settle : ℕ → ℕ → ℕ → Alive → Cmd Bool
settle time i self none = do del_channel time self; pure true
settle time i self (some (chn, t)) = do store_channel i chn; pure false

-- One turn of the loop: whether the channel is gone, and its place taken by the next one.
unfoldable pub visit : Double → Os → Net → Bool → ℕ → ℕ → ℕ → Channel → Cmd Bool
visit d os net selected now time i chn = do
  p ← get
  if has_failed net p.conn_timeout now chn
      then (do fail_over d os now time i chn; pure true)
      else if not selected
      then pure false
      else (do a ← relay net chn (in_hand chn); settle time i chn.self a)

-- The answers of the system in the turns of a pass, and the clock when a channel is destroyed.
pub record Turn : Type 0 where
  pub os : Os
  pub net : Net
  pub time : ℕ

-- The loop over the channels, for as many turns as are given; `false` if these did not suffice.
unfoldable pub turn_at : Double → Bool → ℕ → List Turn → ℕ → Option Channel → Cmd Bool
turn_at d selected now answers i none = pure true
turn_at d selected now [] i (some chn) = pure false
turn_at d selected now (turn ∷ rest) i (some chn) = do
  gone ← visit d turn.os turn.net selected now turn.time i chn
  p ← get
  let j = if gone then i else suc i
  turn_at d selected now rest j (nth j p.channels)

unfoldable pub turns : Double → Bool → ℕ → List Turn → ℕ → Cmd Bool
turns d selected now answers i = do p ← get; turn_at d selected now answers i (nth i p.channels)

-- The sockets that `accept` gave, each with what the system answers for it.
unfoldable pub accept_all : Double → ℕ → List (ℕ × Os) → Cmd (Unit {0})
accept_all d now [] = pure tt
accept_all d now ((sock, os) ∷ rest) = do channel_create d os sock now none; accept_all d now rest

-- One pass of the main loop; `selected` is whether `select` found a socket.
unfoldable pub main_pass : Double → Bool → ℕ → List (ℕ × Os) → List Turn → Cmd Bool
main_pass d selected now accepted answers = do
  if selected then accept_all d now accepted else pure tt
  turns d selected now answers 0

-- What the system answers in one pass of the main loop.
pub record Pass : Type 0 where
  pub selected : Bool
  pub now : ℕ
  pub accepted : List (ℕ × Os)
  pub answers : List Turn

-- The main loop, for as many passes as it makes before the proxy is told to end.
unfoldable pub main_loop : Double → List Pass → Cmd (Unit {0})
main_loop d [] = pure tt
main_loop d (pass ∷ rest) = do
  main_pass d pass.selected pass.now pass.accepted pass.answers
  main_loop d rest
