-- ===== src/Process/Lifetime.antt =====
-- What `main` has released when the process ends.
use nuords_proxy.Prelude.{
  ℕ, ◌+◌, ◌<◌, ltb, ◌≡◌, ◌≢◌, refl, ap, sym, ◌∙◌, subst, arith, Bool, true, false, not, ◌&&◌,
  Bool-cases, inl, inr, if◌then◌else◌, is_empty, Option, none, some, List, [], ◌∷◌, Bytes, length,
}
use nuords_proxy.Inet.Hosts.{Resolver}
use nuords_proxy.Socket.Listen.{Deed}
use nuords_proxy.Setup.{Setup}
use nuords_proxy.Setup.Load.{load_config}
use nuords_proxy.Setup.Ready.{IsReady, load_config-IsReady}
use nuords_proxy.Setup.Listeners.{Listening, listen_all}
use nuords_proxy.Setup.Listeners.Balance.{
  opens, closes, hold, holds, IsBalanced, listen_all-IsBalanced,
}
use nuords_proxy.Setup.Listeners.Turns.{listen_all-short}
use nuords_proxy.Threads.Exclusion.{count}
use nuords_proxy.Tracker.{Tracker}
use nuords_proxy.Process.{Process}
use nuords_proxy.Process.Arguments.{Parsed, settings, prints_license, prints_help, prints_version}
use nuords_proxy.Process.Arguments.{new_process, parse_args}
use nuords_proxy.Process.Logs.{log_init}
use nuords_proxy.Process.Daemon.{Created, runs, exits, create_daemon}
use nuords_proxy.Process.Exit.{
  Ending, Event, add_open, close_listeners, release_pid, exit_proc, on_events,
}
use nuords_proxy.Process.Once.{PidOnce, SocksOnce, Once, exit_proc-Once, on_events-kept}
use nuords_proxy.Process.Main.{
  World, fail_proc, Stage, prints, leaves, fails, serves, unanswered, socks_of, begun, after_listen,
  after_config, after_daemon, after_args, start_main, full_paths,
}

-- The pid file that a process has to remove.
abbrev pub own_pid : Process → List Bytes
own_pid p = if p.detached && not (is_empty p.pid_path) then p.pid_path ∷ [] else []

and_false : (b : Bool) → b && false ≡ false
and_false true = refl
and_false false = refl

release_pid-own :
    (e : Ending)
    → (let p = (release_pid e).process in p.detached && not (is_empty p.pid_path)) ≡ false
unfolding release_pid
release_pid-own e = elim (Bool-cases (e.process.detached && not (is_empty e.process.pid_path))) [
  | inl held ↦ rw held (and_false e.process.detached)
  | inr idle ↦ rw (idle, idle) refl
]

PidOnce-own :
    (p : Process) (now : Bytes) (unlinked : List Bytes)
    → p.detached && not (is_empty now) ≡ false
    → PidOnce p.detached p.pid_path now unlinked
    → unlinked ≡ own_pid p
PidOnce-own p now unlinked gone (inl (e, f)) =
    let idle : p.detached && not (is_empty p.pid_path) ≡ false =
      ap (λ s. p.detached && not (is_empty s)) (sym e) ∙ gone in
    rw idle f
PidOnce-own p now unlinked gone (inr (d, filled, e, f)) = rw (d, filled) f

SocksOnce-end :
    (socks : List (Option ℕ)) (closed : List ℕ)
    → SocksOnce socks [] closed
    → closed ≡ add_open socks []
SocksOnce-end socks closed (inl (e, f)) = f ∙ ap (λ t. add_open t []) e
SocksOnce-end socks closed (inr (e, f)) = f

exit_proc-Once-own :
    (p : Process) (socks : List (Option ℕ)) (e : Ending)
    → Once p socks e
    → ((exit_proc e).unlinked ≡ own_pid p) × ((exit_proc e).closed ≡ add_open socks [])
unfolding exit_proc
exit_proc-Once-own p socks e once =
    let (same, pid, sock) = exit_proc-Once p socks e once in
    let gone = release_pid-own (close_listeners e) in
    (
      PidOnce-own p _ _
          (subst
            (λ d. d && not (is_empty (release_pid (close_listeners e)).process.pid_path) ≡ false)
            same gone)
          pid,
      SocksOnce-end socks _ sock,
    )

count-add_open :
    (n : ℕ) (s : Option ℕ) (socks : List (Option ℕ)) (m : ℕ) (c : List ℕ)
    → ((c : List ℕ) → count n (add_open socks c) ≡ m + count n c)
    → count n (add_open (s ∷ socks) c) ≡ holds n s + m + count n c
count-add_open n none socks m c rest = omega (arith, rest c)
count-add_open n (some t) socks m c rest = omega (arith, rest (t ∷ c))

count-socks_of :
    (n : ℕ) (ls : List Listening) (c : List ℕ)
    → count n (add_open (socks_of ls) c) ≡ hold n ls + count n c
count-socks_of n [] c = omega arith
count-socks_of n (l ∷ ls) c =
    count-add_open n l.sock (socks_of ls) (hold n ls) c (count-socks_of n ls)

-- At the end of a process that began with listeners: every socket that was opened is closed as often,
-- and the pid file is removed once if the process had one.
abbrev pub Released : Process → List Deed → Ending → Type 0
Released p done f =
    ((n : ℕ) → opens n done ≡ closes n done + count n f.closed) × (f.unlinked ≡ own_pid p)

-- What is released from each stage, if events are followed by `nrdpx_exit_proc`.
abbrev pub Releases : World → List Event → Stage → Type 0
Releases w events (prints text) = Unit
Releases w events (leaves code) = Unit
Releases w events (fails e done) = Released e.process done (exit_proc (on_events events e))
Releases w events (serves s t e done) =
    Released e.process done (exit_proc (on_events events e)) × (e.listeners ≢ []) × IsReady s
Releases w events (unanswered s) = length w.listens < length s.listeners

begun-Released :
    (r : Resolver) (events : List Event) (p : Process) (ls : List Listening) (done : List Deed)
    → IsBalanced r (ls, done)
    → Released p done (exit_proc (on_events events (record (begun p) { listeners = socks_of ls })))
begun-Released r events p ls done (even, held) =
    let e = record (begun p) { listeners = socks_of ls } in
    let once = on_events-kept events p (socks_of ls) e (refl, inl (refl, refl), inl (refl, refl)) in
    let (unlinked, closed) = exit_proc-Once-own p (socks_of ls) (on_events events e) once in
    (λ n. omega (arith, even n, count-socks_of n ls [], ap (count n) closed), unlinked)

after_listen-Releases :
    (w : World) (t : Tracker) (events : List Event) (s : Setup) (p : Process)
    (found : List Listening) (done : List Deed)
    → IsReady s
    → IsBalanced w.resolver (found, done)
    → Releases w events (after_listen w t s (begun p) (some found, done))
unfolding after_listen fail_proc
after_listen-Releases w t events s p [] done ready even =
    begun-Released w.resolver events (fail_proc (begun p)).process [] done even
after_listen-Releases w t events s p (l ∷ ls) done ready even =
    (begun-Released w.resolver events p (l ∷ ls) done even, (λ e. cc), ready)

after_listen-short :
    (w : World) (t : Tracker) (events : List Event) (s : Setup) (e : Ending)
    (found : Option (List Listening) × List Deed)
    → length w.listens < length s.listeners
    → found.0 ≡ none
    → Releases w events (after_listen w t s e found)
unfolding after_listen
after_listen-short w t events s e (none, done) few short = few
after_listen-short w t events s e (some ls, done) few short = absurd cc

after_config-Releases :
    (w : World) (t : Tracker) (events : List Event) (p : Process) (loaded : Option Setup)
    → ((s : Setup) → loaded ≡ some s → IsReady s)
    → Releases w events (after_config w t (begun p) loaded)
unfolding after_config fail_proc
after_config-Releases w t events p none ready =
    begun-Released w.resolver events (fail_proc (begun p)).process [] [] (λ _. refl, tt)
after_config-Releases w t events p (some s) ready =
    elim (Bool-cases (ltb (length w.listens) (length s.listeners))) [
      | inl few ↦
          after_listen-short w t events s (begun p) (listen_all w.resolver w.listens s.listeners)
            (ground arith) (listen_all-short w.resolver w.listens s.listeners (ground arith))
      | inr enough ↦
          let (found, made, even) =
            listen_all-IsBalanced w.resolver w.listens s.listeners (ground arith) in
          rw made (after_listen-Releases w t events s p found.0 found.1 (ready s refl) even)
    ]

after_daemon-Releases :
    (w : World) (t : Tracker) (events : List Event) (made : Created)
    → Releases w events (after_daemon w t made)
unfolding after_daemon
after_daemon-Releases w t events (exits code) = tt
after_daemon-Releases w t events (runs p) =
    let q = log_init w.opens_log p in
    let read = w.read q.cfg_path in
    after_config-Releases w t events q (load_config w.resolver w.daemon.atoi read)
      (λ s e. load_config-IsReady w.resolver w.daemon.atoi read s e)

after_args-Releases :
    (w : World) (t : Tracker) (events : List Event) (parsed : Parsed)
    → Releases w events (after_args w t parsed)
unfolding after_args
after_args-Releases w t events (settings p) =
    after_daemon-Releases w t events (create_daemon w.daemon (full_paths w p))
after_args-Releases w t events prints_license = tt
after_args-Releases w t events prints_help = tt
after_args-Releases w t events prints_version = tt

-- Whatever the command line and whatever the system answers: `main` returns after a text, exits while
-- it creates the daemon, fails, or serves, and then with a configuration that is in order and at least
-- one listener; only with fewer answers than there are listeners is it not known. Where it fails or
-- serves, whatever signals arrive before `nrdpx_exit_proc`: after that each socket that was opened for
-- a listener has been closed as often, and the pid file of a detached process has been removed once.
pub start_main-Releases :
    (w : World) (t : Tracker) (args : List Bytes) (events : List Event)
    → Releases w events (start_main w t args)
unfolding start_main
start_main-Releases w t args events =
    after_args-Releases w t events (parse_args w.daemon.atoi none args new_process)
