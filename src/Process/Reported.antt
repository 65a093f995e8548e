-- ===== src/Process/Reported.antt =====
-- Where the log goes once the process is set up.
use nuords_proxy.Prelude.{
  ℕ, ◌%◌, ◌≤◌, ltb, ◌≡◌, refl, sym, ◌∙◌, subst, arith, Bool, true, false, not, ◌&&◌, ◌||◌,
  Bool-cases, inl, inr, if◌then◌else◌, is_empty, is_some,
}
use nuords_proxy.Process.{Process, Outputs, DaemonMode, no_daemon, lite_daemon, full_daemon}
use nuords_proxy.Process.Logs.{
  is_daemon, any_output, without_file, log_init, log_write, discard_stdio,
}
use nuords_proxy.Process.Daemon.{
  Answers, Fork, failed, parent, child, Created, runs, exits, detach, create_mode, create_daemon,
  find_pid, retain_pid,
}

-- Something is written, and nothing to the console of a daemon.
abbrev pub IsLogged : DaemonMode → Outputs → Type 0
IsLogged mode out = (any_output out ≡ true) × ((is_daemon mode && out.cons) ≡ false)

-- With the log file open if it is meant.
abbrev pub Ready : DaemonMode → Outputs → Bool → Type 0
Ready mode out is_open =
    (any_output (record out { file = out.file && is_open }) ≡ true)
    × ((is_daemon mode && out.cons) ≡ false)

log_write-IsLogged :
    (type : ℕ) (p : Process)
    → type % 8 ≤ p.log_lvl
    → Ready p.daemon_mode p.log_out p.log_open
    → IsLogged p.daemon_mode (log_write type p)
unfolding log_write
log_write-IsLogged type p low ready =
    let passes : ltb p.log_lvl (type % 8) ≡ false = ground arith in rw passes ready

without_file-Ready :
    (mode : DaemonMode) (file cons slog opened : Bool)
    → (is_daemon mode && cons) ≡ false
    → (not (file || cons || slog) || file) ≡ true
    → let out : Outputs = record { file = file; cons = cons; slog = slog } in
      Ready mode (if opened then record out { file = true } else without_file mode out) opened
without_file-Ready mode file cons slog opened h e = (ground arith, ground arith)

-- The branch of `log_init` that leaves the outputs.
kept-Ready :
    (mode : DaemonMode) (file cons slog opened : Bool)
    → (is_daemon mode && cons) ≡ false
    → (not (file || cons || slog) || file) ≡ false
    → Ready mode (record { file = file; cons = cons; slog = slog }) opened
kept-Ready mode file cons slog opened h e = (ground arith, h)

log_init-Ready :
    (opens : Bool) (p : Process)
    → (is_daemon p.daemon_mode && p.log_out.cons) ≡ false
    → let q = log_init opens p in Ready q.daemon_mode q.log_out q.log_open
unfolding log_init
log_init-Ready opens p h = elim (Bool-cases (not (any_output p.log_out) || p.log_out.file)) [
  | inl meant ↦ rw meant (
      without_file-Ready p.daemon_mode p.log_out.file p.log_out.cons p.log_out.slog
        (if is_empty p.log_path then p.log_open else opens) h meant)
  | inr other ↦
      rw other
        (kept-Ready p.daemon_mode p.log_out.file p.log_out.cons p.log_out.slog p.log_open h other)
]

log_init-log_lvl : (opens : Bool) (p : Process) → (log_init opens p).log_lvl ≡ p.log_lvl
unfolding log_init
log_init-log_lvl opens p = ground arith

log_init-daemon_mode : (opens : Bool) (p : Process) → (log_init opens p).daemon_mode ≡ p.daemon_mode
unfolding log_init
log_init-daemon_mode opens p = ground arith

-- What a process that goes on keeps, and that a daemon has no console.
abbrev Kept : Process → Created → Type 0
Kept p (exits code) = Unit
Kept p (runs q) =
    (q.log_lvl ≡ p.log_lvl)
    × (q.daemon_mode ≡ p.daemon_mode)
    × ((is_daemon p.daemon_mode && q.log_out.cons) ≡ false)

if_Kept :
    (p : Process) (b : Bool) (x y : Created) → Kept p x → Kept p y → Kept p (if b then x else y)
if_Kept p true x y h k = h
if_Kept p false x y h k = k

detach-Kept :
    (w : Answers) (fork : Fork) (p : Process) → p.log_out.cons ≡ false → Kept p (detach w fork p)
unfolding detach
detach-Kept w failed p h = tt
detach-Kept w parent p h = tt
detach-Kept w child p h =
    if_Kept p (w.setsid && retain_pid w.writes p) _ _ (refl, refl, ground arith) tt

create_mode-Kept :
    (w : Answers) (mode : DaemonMode) (p : Process)
    → p.daemon_mode ≡ mode
    → Kept p (create_mode w mode p)
unfolding create_mode discard_stdio
create_mode-Kept w no_daemon p e = (refl, refl, rw e refl)
create_mode-Kept w lite_daemon p e = (refl, refl, rw e refl)
create_mode-Kept w full_daemon p e =
    elim (Bool-cases (is_some (find_pid w.atoi w.alive w.content p))) [
      | inl found ↦ rw found tt
      | inr alone ↦ rw alone (detach-Kept w w.fork (discard_stdio p) refl)
    ]

-- Once the daemon is created, if one is asked for, and the log is set up, every message of the log's
-- level or below it is written somewhere, whether the log file could be opened or not; and a daemon
-- writes nothing to the console.
pub log_init-IsLogged :
    (w : Answers) (opens : Bool) (p q : Process) (type : ℕ)
    → create_daemon w p ≡ runs q
    → type % 8 ≤ p.log_lvl
    → IsLogged p.daemon_mode (log_write type (log_init opens q))
unfolding create_daemon
log_init-IsLogged w opens p q type e low =
    let (lvl, mode, quiet) = subst (Kept p) e (create_mode-Kept w p.daemon_mode p refl) in
    let same = log_init-daemon_mode opens q ∙ mode in
    subst (λ m. IsLogged m (log_write type (log_init opens q))) same
      (log_write-IsLogged type (log_init opens q)
        (subst (λ n. type % 8 ≤ n) (sym (log_init-log_lvl opens q ∙ lvl)) low)
        (log_init-Ready opens q
          (subst (λ m. (is_daemon m && q.log_out.cons) ≡ false) (sym mode) quiet)))
