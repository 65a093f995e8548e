-- ===== src/Process/Logs.antt =====
-- `nrdpx_log_init`, `nrdpx_log_write` and `nrdpx_discard_stdio` of src/nrdpx_server.cpp: where the
-- log goes. Its text is left out.
use nuords_proxy.Prelude.{ℕ, ◌%◌, ltb, Bool, true, false, not, ◌&&◌, ◌||◌, if◌then◌else◌, is_empty}
use nuords_proxy.Process.{Process, Outputs, DaemonMode, no_daemon, lite_daemon, full_daemon}
use nuords_proxy.Process.Arguments.{no_outputs}

abbrev pub is_daemon : DaemonMode → Bool
is_daemon no_daemon = false
is_daemon lite_daemon = true
is_daemon full_daemon = true

abbrev pub any_output : Outputs → Bool
any_output out = out.file || out.cons || out.slog

-- Where the log goes if its file cannot be opened and it goes nowhere else.
abbrev pub redirected : DaemonMode → Outputs
redirected mode =
    if is_daemon mode
    then record { file = false; cons = false; slog = true }
    else record { file = false; cons = true; slog = false }

abbrev pub without_file : DaemonMode → Outputs → Outputs
without_file mode out =
    let rest = record out { file = false } in if any_output rest then rest else redirected mode

-- `opens` is whether `fopen` opens the log file.
unfoldable pub log_init : Bool → Process → Process
log_init opens p =
    let out = p.log_out in
    if not (any_output out) || out.file
    then (let opened = if is_empty p.log_path then p.log_open else opens in
        record p {
          log_open = opened;
          log_out = if opened then record out { file = true } else without_file p.daemon_mode out;
        })
    else p

-- Where a message of a type is written.
unfoldable pub log_write : ℕ → Process → Outputs
log_write type p =
    let out = p.log_out in
    if ltb p.log_lvl (type % 8)
    then no_outputs
    else record { file = out.file && p.log_open; cons = out.cons; slog = out.slog }

unfoldable pub discard_stdio : Process → Process
discard_stdio p = let out = p.log_out in record p { log_out = record out { cons = false } }
