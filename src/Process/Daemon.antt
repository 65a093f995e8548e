-- ===== src/Process/Daemon.antt =====
-- `nrdpx_real_path`, `nrdpx_find_pid`, `nrdpx_retain_pid` and `nrdpx_create_daemon` of
-- src/nrdpx_server.cpp. What the system answers is an argument.
use nuords_proxy.Prelude.{
  ℕ, ℤ, pos, negsuc, Bool, true, not, ◌&&◌, ◌||◌, if◌then◌else◌, Option, none, some, is_some, [],
  ◌∷◌, ◌++◌, Bytes, is_empty, take, ◌==◌,
}
use nuords_proxy.Process.{Process, DaemonMode, no_daemon, lite_daemon, full_daemon}
use nuords_proxy.Process.Logs.{discard_stdio}

-- `getcwd`, and `realpath`, which fails on a file that is not there.
abbrev pub full_path : Option Bytes → Bytes → Bytes
full_path none s = s
full_path (some dir) s = dir ++ b'/' ∷ s

abbrev pub or_full : Option Bytes → Bytes → Bytes
or_full none full = full
or_full (some path) full = path

unfoldable pub real_path : Option Bytes → (Bytes → Option Bytes) → Bytes → Bytes
real_path cwd realpath [] = []
real_path cwd realpath (c ∷ s) =
    if c == b'/' then c ∷ s else (let full = full_path cwd (c ∷ s) in or_full (realpath full) full)

-- `(pid_t) NRD_NOPID` is -1.
abbrev pub known_pid : ℤ → Option ℤ
known_pid (negsuc n) = if n == 0 then none else some (negsuc n)
known_pid (pos n) = some (pos n)

abbrev pub if_alive : (ℤ → Bool) → Option ℤ → Option ℤ
if_alive alive none = none
if_alive alive (some pid) = if alive pid then some pid else none

-- From what the pid file holds; `alive` is whether `kill(pid, 0)` finds the process.
unfoldable pub find_pid : (Bytes → ℤ) → (ℤ → Bool) → Option Bytes → Process → Option ℤ
find_pid atoi alive none p = none
find_pid atoi alive (some content) p =
    if is_empty p.pid_path || is_empty content
    then none
    else if_alive alive (known_pid (atoi (take 31 content)))

-- `writes` is whether the pid file is opened and written.
unfoldable pub retain_pid : Bool → Process → Bool
retain_pid writes p = not (is_empty p.pid_path) && writes

-- What `fork` returns.
pub data Fork : Type 0 where
  failed parent child : Fork

-- The answers of the system while the daemon is created.
pub record Answers : Type 0 where
  pub atoi : Bytes → ℤ
  pub alive : ℤ → Bool
  pub content : Option Bytes
  pub fork : Fork
  pub setsid : Bool
  pub writes : Bool

-- The process goes on, or exits with a code.
pub data Created : Type 0 where
  runs : Process → Created
  exits : ℕ → Created

unfoldable pub detach : Answers → Fork → Process → Created
detach w failed p = exits 1
detach w parent p = exits 0
detach w child p =
    if w.setsid && retain_pid w.writes p then runs (record p { detached = true }) else exits 1

unfoldable pub create_mode : Answers → DaemonMode → Process → Created
unfolding detach find_pid
create_mode w no_daemon p = runs p
create_mode w lite_daemon p = runs (discard_stdio p)
create_mode w full_daemon p =
    if is_some (find_pid w.atoi w.alive w.content p)
    then exits 1
    else detach w w.fork (discard_stdio p)

unfoldable pub create_daemon : Answers → Process → Created
unfolding create_mode
create_daemon w p = create_mode w p.daemon_mode p
