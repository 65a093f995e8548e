-- ===== src/Process/Main.antt =====
-- `main` of src/nrdpx_server.cpp as a whole, up to the loop that serves or the one that waits for the
-- end, and `nrdpx_fail_proc`. Signals arrive only from there on.
use nuords_proxy.Prelude.{
  ℕ, Bool, true, false, not, ◌||◌, if◌then◌else◌, to_unsigned, Option, none, some, List, [], ◌∷◌,
  Bytes,
}
use nuords_proxy.Inet.Hosts.{Resolver}
use nuords_proxy.Socket.Listen.{Deed}
use nuords_proxy.Socket.Listen as Listen
use nuords_proxy.Setup.{Setup}
use nuords_proxy.Setup.Load.{load_config}
use nuords_proxy.Setup.Listeners.{Listening, listen_all}
use nuords_proxy.Tracker.{Tracker}
use nuords_proxy.Tracker.Calls.{register_callback}
use nuords_proxy.Tracker.Settings.{Wire, start_info_tracker, set_reconnect_time}
use nuords_proxy.Process.{Process}
use nuords_proxy.Process.Arguments.{
  Parsed, settings, prints_license, prints_help, prints_version, new_process, parse_args,
}
use nuords_proxy.Process.Logs.{is_daemon, log_init}
use nuords_proxy.Process.Daemon.{real_path, Answers, Created, runs, exits, create_daemon}
use nuords_proxy.Process.Exit.{Ending}

-- What the system answers to `main`; `read` is what the configuration file at a path holds, once for
-- each class, and `info_callback` the address of `nrdpx_info_callback`.
pub record World : Type 0 where
  pub cwd : Option Bytes
  pub realpath : Bytes → Option Bytes
  pub daemon : Answers
  pub opens_log : Bool
  pub resolver : Resolver
  pub read : Bytes → Bytes → Option Bytes
  pub listens : List Listen.Answers
  pub wire : Wire
  pub info_callback : ℕ

unfoldable pub full_paths : World → Process → Process
full_paths w p = record p {
  cfg_path = real_path w.cwd w.realpath p.cfg_path;
  log_path = real_path w.cwd w.realpath p.log_path;
  pid_path = real_path w.cwd w.realpath p.pid_path;
}

-- The callback, and the tracker if it is enabled. `uPort` is unsigned.
unfoldable pub start_tracker : World → Setup → Tracker → Tracker
start_tracker w s t =
    let u = (register_callback (some w.info_callback) 0 t).1 in
    if s.info_enabled
    then (start_info_tracker w.wire [] (to_unsigned s.info_port)
        (record (set_reconnect_time 300 u) { tref = 0 })).1
    else u

-- The failure is logged to the system, and to the console of what is no daemon.
unfoldable pub fail_proc : Ending → Ending
fail_proc e =
    let p = e.process in
    let out = p.log_out in
    record e {
      process = record p {
        log_out = record out { slog = true; cons = out.cons || not (is_daemon p.daemon_mode) };
      };
    }

-- Where `main` stands: it has returned after a text; the process has exited while the daemon was
-- created; it waits in `nrdpx_fail_proc`; it serves in `nrdpx_main_proc`. With a list of answers that
-- is too short it is not known.
pub data Stage : Type 0 where
  prints : Parsed → Stage
  leaves : ℕ → Stage
  fails : Ending → List Deed → Stage
  serves : Setup → Tracker → Ending → List Deed → Stage
  unanswered : Setup → Stage

abbrev pub socks_of : List Listening → List (Option ℕ)
socks_of [] = []
socks_of (l ∷ ls) = l.sock ∷ socks_of ls

-- The process before the listeners are created.
abbrev pub begun : Process → Ending
begun p = record {
  process = p;
  listeners = [];
  closed = [];
  unlinked = [];
  aborts = 0;
  exited = false;
}

module _ (w : World) (t : Tracker) where
  unfoldable pub after_listen : Setup → Ending → Option (List Listening) × List Deed → Stage
  after_listen s e (none, done) = unanswered s
  after_listen s e (some [], done) = fails (fail_proc e) done
  after_listen s e (some (l ∷ ls), done) =
      serves s (start_tracker w s t) (record e { listeners = socks_of (l ∷ ls) }) done

  unfoldable pub after_config : Ending → Option Setup → Stage
  unfolding after_listen
  after_config e none = fails (fail_proc e) []
  after_config e (some s) = after_listen s e (listen_all w.resolver w.listens s.listeners)

  unfoldable pub after_daemon : Created → Stage
  unfolding after_config
  after_daemon (exits code) = leaves code
  after_daemon (runs p) =
      let q = log_init w.opens_log p in
      after_config (begun q) (load_config w.resolver w.daemon.atoi (w.read q.cfg_path))

  unfoldable pub after_args : Parsed → Stage
  unfolding after_daemon
  after_args (settings p) = after_daemon (create_daemon w.daemon (full_paths w p))
  after_args prints_license = prints prints_license
  after_args prints_help = prints prints_help
  after_args prints_version = prints prints_version

  unfoldable pub start_main : List Bytes → Stage
  unfolding after_args
  start_main args = after_args (parse_args w.daemon.atoi none args new_process)
