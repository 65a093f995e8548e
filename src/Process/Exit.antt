-- ===== src/Process/Exit.antt =====
-- The end of the process, in src/nrdpx_server.cpp: the destructor of the proxy, the signals, and the
-- removal of the pid file.
use nuords_proxy.Prelude.{
  ℕ, suc, Bool, true, false, not, ◌&&◌, if◌then◌else◌, Option, none, some, List, [], ◌∷◌, Bytes,
  is_empty,
}
use nuords_proxy.Proxy.{Channel}
use nuords_proxy.Proxy.Run.{Cmd, pure, ◌>>=◌, ◌>>◌, get, socket_close}
use nuords_proxy.Proxy.Channels.{channel_delete, set_channels}
use nuords_proxy.Process.{Process}

-- The destructors of the channels; `time` is what the clock gives for each.
unfoldable pub delete_channels : (Channel → ℕ) → List Channel → Cmd (Unit {0})
delete_channels time [] = pure tt
delete_channels time (c ∷ chns) = do channel_delete (time c) c; delete_channels time chns

-- The destructors of the listeners, by their sockets.
unfoldable pub close_sockets : List (Option ℕ) → Cmd (Unit {0})
close_sockets [] = pure tt
close_sockets (s ∷ socks) = do socket_close s; close_sockets socks

-- The first two loops of the destructor of the proxy. The balancers, servers and clients, that it
-- deletes after them, are not modelled as objects that end.
unfoldable pub release_channels : (Channel → ℕ) → List (Option ℕ) → Cmd (Unit {0})
release_channels time socks = do
  close_sockets socks
  p ← get
  delete_channels time p.channels
  set_channels []

-- The process while it ends: the sockets of its listeners, those that were closed, the files that
-- were removed, how often the check of a server was aborted, and whether it has exited.
pub record Ending : Type 0 where
  pub process : Process
  pub listeners : List (Option ℕ)
  pub closed : List ℕ
  pub unlinked : List Bytes
  pub aborts : ℕ
  pub exited : Bool

unfoldable pub release_pid : Ending → Ending
release_pid e =
    let p = e.process in
    if p.detached && not (is_empty p.pid_path)
    then record e { process = record p { pid_path = [] }; unlinked = p.pid_path ∷ e.unlinked }
    else e

abbrev pub add_open : List (Option ℕ) → List ℕ → List ℕ
add_open [] closed = closed
add_open (none ∷ socks) closed = add_open socks closed
add_open (some s ∷ socks) closed = add_open socks (s ∷ closed)

abbrev pub all_closed : List (Option ℕ) → List (Option ℕ)
all_closed [] = []
all_closed (s ∷ socks) = none ∷ all_closed socks

abbrev pub close_listeners : Ending → Ending
close_listeners e = record e {
  listeners = all_closed e.listeners;
  closed = add_open e.listeners e.closed;
}

abbrev pub log_to_slog : Process → Process
log_to_slog p = let out = p.log_out in record p { log_out = record out { slog = true } }

unfoldable pub term_proc : Ending → Ending
term_proc e =
    if e.process.terminated
    then e
    else close_listeners
        (record e { process = record (e.process) { terminated = true }; aborts = suc e.aborts })

-- SIGTERM, SIGINT or SIGHUP; SIGALRM.
pub data Signal : Type 0 where
  term alarm : Signal

unfoldable pub signal_handler : Signal → Ending → Ending
unfolding term_proc release_pid
signal_handler term e = term_proc e
signal_handler alarm e =
    if e.process.terminated
    then (let f = release_pid e in record f { process = log_to_slog f.process; exited = true })
    else record e { aborts = suc e.aborts }

-- The state of the process after `nrdpx_exit_proc`, which also deletes the proxy.
unfoldable pub exit_proc : Ending → Ending
unfolding release_pid
exit_proc e =
    let f = release_pid (close_listeners e) in
    record f { process = record (log_to_slog f.process) { log_open = false }; listeners = [] }

pub data Event : Type 0 where
  signalled : Signal → Event
  finished : Event

unfoldable pub on_event : Event → Ending → Ending
unfolding signal_handler exit_proc
on_event (signalled s) e = if e.exited then e else signal_handler s e
on_event finished e = if e.exited then e else exit_proc e

unfoldable pub on_events : List Event → Ending → Ending
unfolding on_event
on_events [] e = e
on_events (v ∷ events) e = on_events events (on_event v e)
