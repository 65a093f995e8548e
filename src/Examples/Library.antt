-- ===== src/Examples/Library.antt =====
-- A vector through some operations, a command line, a log and the end of a process, with the theorems
-- applied to them.
use nuords_proxy.Prelude.{
  ℕ, pos, ◌<◌, ◌≡◌, refl, arith, true, false, none, some, List, [], ◌∷◌, codes,
}
use nuords_proxy.Vector.{Vector, fault}
use nuords_proxy.Vector.Changes.{inside, push_back}
use nuords_proxy.Vector.Holds.{Holds, Gives}
use nuords_proxy.Vector.Listed.{Op, push_back_op, insert_op, erase_op}
use nuords_proxy.Vector.Own.{push_back-own}
use nuords_proxy.Proxy.Run.{◌>>◌}
use nuords_proxy.Proxy.Ownership.{Safe}
use nuords_proxy.Proxy.Loop.{main_loop}
use nuords_proxy.Process.{Process, full_daemon}
use nuords_proxy.Process.Arguments.{new_process, parse_args, settings}
use nuords_proxy.Process.Printed.{
  print_settings, make_settings, log_to, appends, detaches, parse_args-print_settings,
}
use nuords_proxy.Process.Logs.{log_init, log_write, discard_stdio}
use nuords_proxy.Process.Daemon.{
  Answers, child, runs, create_daemon, create_mode, detach, find_pid, retain_pid,
}
use nuords_proxy.Process.Reported.{IsLogged, log_init-IsLogged}
use nuords_proxy.Process.Exit.{signalled, finished, term, alarm, on_events, release_channels}
use nuords_proxy.Process.Released.{OnlyCached, main_loop-release_channels}
use nuords_proxy.Process.Once.{Once, on_events-Once}
use nuords_proxy.Tracker.Settings.{Wire}
use nuords_proxy.Process.Main.{World, start_main}
use nuords_proxy.Process.Lifetime.{Releases, start_main-Releases}
use nuords_proxy.Examples.Files.{read}
use nuords_proxy.Examples.Network.{tracker}
use nuords_proxy.Examples.Sockets.{both}
use nuords_proxy.Examples.World.{resolver, naturals, proxy, net-Obeys}
use nuords_proxy.Examples.Runs.{pass, proxy-Steady}

abbrev changes : List (Op ℕ)
changes = push_back_op 5 ∷ push_back_op 7 ∷ insert_op 1 6 ∷ erase_op 0 ∷ []

abbrev pair_of : ℕ → ℕ → Vector ℕ
pair_of a b = record { data_cells = some a ∷ some b ∷ none ∷ []; capacity = 3; size = 2 }

pair_of-Holds : (a b : ℕ) → Holds (pair_of a b) (a ∷ b ∷ [])
pair_of-Holds a b = record { spare = none ∷ []; cells = refl; sized = refl; allocated = refl }

push_back-own_example :
    let v = pair_of 6 7 in
    (v.size ≡ v.capacity → push_back 8 (inside 0) v ≡ fault)
    × (v.size < v.capacity → Gives (λ u. Holds u (6 ∷ 7 ∷ 6 ∷ [])) (push_back 8 (inside 0) v))
push_back-own_example =
    push_back-own 8 (pair_of 6 7) [] (7 ∷ []) 6 0 (pair_of-Holds 6 7) refl (omega arith)
      (omega arith)

parse_args-print_settings_example :
    parse_args
      (λ _. pos 4)
      none
      (print_settings (log_to (codes "-la") ∷ appends ∷ detaches ∷ []))
      new_process
    ≡ settings
        (make_settings (λ _. pos 4) (log_to (codes "-la") ∷ appends ∷ detaches ∷ []) new_process)
parse_args-print_settings_example =
    parse_args-print_settings (λ _. pos 4) (log_to (codes "-la") ∷ appends ∷ detaches ∷ [])
      new_process

abbrev answers : Answers
answers = record {
  atoi = λ _. pos 12;
  alive = λ _. false;
  content = some (codes "12");
  fork = child;
  setsid = true;
  writes = true;
}

abbrev asked : Process
asked = make_settings (λ _. pos 4) (detaches ∷ []) new_process

abbrev detached : Process
detached = record asked { detached = true }

created : create_daemon answers asked ≡ runs detached
unfolding create_daemon create_mode detach find_pid retain_pid discard_stdio new_process
created = refl

log_init-IsLogged_example : IsLogged full_daemon (log_write 3 (log_init false detached))
unfolding new_process
log_init-IsLogged_example = log_init-IsLogged answers false asked detached 3 created (omega arith)

main_loop-release_channels_example :
    Safe
      (λ _ q. (q.channels ≡ []) × OnlyCached q)
      ((main_loop naturals (pass ∷ []) >> release_channels (λ _. 40) (some 3 ∷ [])) proxy)
main_loop-release_channels_example =
    main_loop-release_channels naturals (pass ∷ []) (λ _. 40) (some 3 ∷ []) proxy
      ((net-Obeys, (net-Obeys, tt)), tt) proxy-Steady

on_events-Once_example : Once detached (some 3 ∷ none ∷ []) (
    on_events (signalled term ∷ signalled term ∷ finished ∷ signalled alarm ∷ []) (record {
      process = detached;
      listeners = some 3 ∷ none ∷ [];
      closed = [];
      unlinked = [];
      aborts = 0;
      exited = false;
    }))
on_events-Once_example =
    on_events-Once detached (some 3 ∷ none ∷ [])
      (signalled term ∷ signalled term ∷ finished ∷ signalled alarm ∷ []) 0

abbrev wire : Wire
wire = record {
  resolver = resolver;
  create = true;
  socket = λ _. some 9;
  bind = λ _ _ _. true;
  send_len = λ _ _ _ _. true;
}

abbrev world : World
world = record {
  cwd = some (codes "/srv");
  realpath = λ path. none;
  daemon = answers;
  opens_log = true;
  resolver = resolver;
  read = λ path. read;
  listens = both;
  wire = wire;
  info_callback = 1;
}

start_main-Releases_example :
    Releases world
      (signalled term ∷ [])
      (start_main world tracker (codes "-dd" ∷ codes "-cf" ∷ codes "proxy.cfg" ∷ []))
start_main-Releases_example =
    start_main-Releases world tracker (codes "-dd" ∷ codes "-cf" ∷ codes "proxy.cfg" ∷ [])
      (signalled term ∷ [])
