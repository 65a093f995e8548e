-- ===== src/Process/Once.antt =====
-- The pid file and the sockets of the listeners, while signals arrive and the process ends.
use nuords_proxy.Prelude.{
  ℕ, ◌≡◌, ◌⊎◌, refl, ap, sym, ◌∙◌, Bool, true, false, not, ◌&&◌, Bool-cases, inl, inr,
  if◌then◌else◌, is_empty, Option, List, [], ◌∷◌, Bytes,
}
use nuords_proxy.Process.{Process}
use nuords_proxy.Process.Exit.{
  Ending, Signal, term, alarm, Event, signalled, finished, add_open, all_closed, close_listeners,
  release_pid, term_proc, signal_handler, exit_proc, on_event, on_events,
}

-- The pid file of a detached process stands, or was removed once; that of any other is left alone.
abbrev pub PidOnce : Bool → Bytes → Bytes → List Bytes → Type 0
PidOnce detached path now unlinked =
    ((now ≡ path) × (unlinked ≡ []))
    ⊎ ((detached ≡ true) × (is_empty path ≡ false) × (now ≡ []) × (unlinked ≡ path ∷ []))

-- The sockets of the listeners are open, or were closed once.
abbrev pub SocksOnce : List (Option ℕ) → List (Option ℕ) → List ℕ → Type 0
SocksOnce socks now closed =
    ((now ≡ socks) × (closed ≡ []))
    ⊎ (((more : List ℕ) → add_open now more ≡ more) × (closed ≡ add_open socks []))

abbrev pub Once : Process → List (Option ℕ) → Ending → Type 0
Once p socks e =
    (e.process.detached ≡ p.detached)
    × PidOnce p.detached p.pid_path e.process.pid_path e.unlinked
    × SocksOnce socks e.listeners e.closed

all_closed-add_open :
    (socks : List (Option ℕ)) (closed : List ℕ) → add_open (all_closed socks) closed ≡ closed
all_closed-add_open [] closed = refl
all_closed-add_open (s ∷ socks) closed = all_closed-add_open socks closed

close-SocksOnce :
    (socks now : List (Option ℕ)) (closed : List ℕ)
    → SocksOnce socks now closed
    → SocksOnce socks (all_closed now) (add_open now closed)
close-SocksOnce socks now closed (inl (e, f)) = inr (all_closed-add_open now, rw (e, f) refl)
close-SocksOnce socks now closed (inr (e, f)) = inr (all_closed-add_open now, e closed ∙ f)

-- The removal of a pid file that is there and belongs to the process.
remove-PidOnce :
    (detached mine : Bool) (path now : Bytes) (unlinked : List Bytes)
    → mine ≡ detached
    → mine && not (is_empty now) ≡ true
    → PidOnce detached path now unlinked
    → PidOnce detached path [] (now ∷ unlinked)
remove-PidOnce detached false path now unlinked same held pid = cc
remove-PidOnce detached true path [] unlinked same held pid = cc
remove-PidOnce detached true path (c ∷ now) unlinked same held (inl (e, f)) =
    inr (sym same, ap is_empty (sym e), refl, rw (sym e, f) refl)
remove-PidOnce detached true path (c ∷ now) unlinked same held (inr (d, filled, e, f)) = cc

release_pid-Once :
    (p : Process) (socks : List (Option ℕ)) (e : Ending)
    → Once p socks e
    → Once p socks (release_pid e)
unfolding release_pid
release_pid-Once p socks e (same, pid, sock) =
    elim (Bool-cases (e.process.detached && not (is_empty e.process.pid_path))) [
      | inl held ↦ rw held (
        same,
        remove-PidOnce p.detached e.process.detached p.pid_path e.process.pid_path e.unlinked same
            held pid,
        sock,
      )
      | inr idle ↦ rw idle (same, pid, sock)
    ]

release_pid-listeners : (e : Ending) → (release_pid e).listeners ≡ e.listeners
unfolding release_pid
release_pid-listeners e =
    elim (Bool-cases (e.process.detached && not (is_empty e.process.pid_path))) [
      | inl held ↦ rw held refl
      | inr idle ↦ rw idle refl
    ]

close_listeners-Once :
    (p : Process) (socks : List (Option ℕ)) (e : Ending)
    → Once p socks e
    → Once p socks (close_listeners e)
close_listeners-Once p socks e (same, pid, sock) =
    (same, pid, close-SocksOnce socks e.listeners e.closed sock)

-- A list without an open socket may be dropped.
drop-SocksOnce :
    (socks now : List (Option ℕ)) (closed : List ℕ)
    → ((more : List ℕ) → add_open now more ≡ more)
    → SocksOnce socks now closed
    → SocksOnce socks [] closed
drop-SocksOnce socks now closed shut (inl (e, f)) =
    inr (λ more. refl, f ∙ sym (shut []) ∙ ap (λ t. add_open t []) e)
drop-SocksOnce socks now closed shut (inr (e, f)) = inr (λ more. refl, f)

if-Once :
    (p : Process) (socks : List (Option ℕ)) (b : Bool) (e f : Ending)
    → Once p socks e
    → Once p socks f
    → Once p socks (if b then e else f)
if-Once p socks true e f left right = left
if-Once p socks false e f left right = right

term_proc-Once :
    (p : Process) (socks : List (Option ℕ)) (e : Ending)
    → Once p socks e
    → Once p socks (term_proc e)
unfolding term_proc
term_proc-Once p socks e (same, pid, sock) =
    if-Once p socks e.process.terminated e _ (same, pid, sock)
      (same, pid, close-SocksOnce socks e.listeners e.closed sock)

signal_handler-Once :
    (s : Signal) (p : Process) (socks : List (Option ℕ)) (e : Ending)
    → Once p socks e
    → Once p socks (signal_handler s e)
unfolding signal_handler
signal_handler-Once term p socks e once = term_proc-Once p socks e once
signal_handler-Once alarm p socks e once =
    if-Once p socks e.process.terminated _ _ (release_pid-Once p socks e once) once

pub exit_proc-Once :
    (p : Process) (socks : List (Option ℕ)) (e : Ending)
    → Once p socks e
    → Once p socks (exit_proc e)
unfolding exit_proc
exit_proc-Once p socks e once =
    let c = close_listeners e in
    let r = release_pid-Once p socks c (close_listeners-Once p socks e once) in
    let shut = λ (more : List ℕ).
      ap (λ t. add_open t more) (release_pid-listeners c) ∙ all_closed-add_open e.listeners more in
    (r.0, r.1, drop-SocksOnce socks (release_pid c).listeners (release_pid c).closed shut r.2)

on_event-Once :
    (v : Event) (p : Process) (socks : List (Option ℕ)) (e : Ending)
    → Once p socks e
    → Once p socks (on_event v e)
unfolding on_event
on_event-Once (signalled s) p socks e once =
    if-Once p socks e.exited e _ once (signal_handler-Once s p socks e once)
on_event-Once finished p socks e once =
    if-Once p socks e.exited e _ once (exit_proc-Once p socks e once)

pub on_events-kept :
    (events : List Event) (p : Process) (socks : List (Option ℕ)) (e : Ending)
    → Once p socks e
    → Once p socks (on_events events e)
unfolding on_events
on_events-kept [] p socks e once = once
on_events-kept (v ∷ events) p socks e once =
    on_events-kept events p socks (on_event v e) (on_event-Once v p socks e once)

-- Whatever signals arrive, and whether or not the main loop ends among them: a detached process
-- removes its pid file at most once, any other process leaves it alone, and the sockets of the
-- listeners are closed together at most once.
pub on_events-Once :
    (p : Process) (socks : List (Option ℕ)) (events : List Event) (aborts : ℕ)
    → Once p socks (
        on_events events (record {
          process = p;
          listeners = socks;
          closed = [];
          unlinked = [];
          aborts = aborts;
          exited = false;
        }))
on_events-Once p socks events aborts =
    on_events-kept events p socks _ (refl, inl (refl, refl), inl (refl, refl))
