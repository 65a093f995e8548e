-- ===== src/Process/Arguments.antt =====
-- The command line: the loop over the arguments in `main` of src/nrdpx_server.cpp, outside Windows.
use nuords_proxy.Prelude.{
  ℕ, ℤ, true, false, ◌||◌, if◌then◌else◌, Option, none, some, List, [], ◌∷◌, Bytes, codes, is_empty,
  fit_within,
}
use nuords_proxy.Config.Texts.{same_text, starts_text}
use nuords_proxy.Process.{Process, Outputs, no_daemon, lite_daemon, full_daemon}

abbrev pub no_outputs : Outputs
no_outputs = record { file = false; cons = false; slog = false }

abbrev pub log_info : ℕ
log_info = 6

abbrev pub log_debug : ℕ
log_debug = 7

-- The variables as they are initialised.
unfoldable pub new_process : Process
new_process = record {
  log_out = no_outputs;
  log_lvl = log_info;
  log_app = false;
  log_open = false;
  pid_path = codes "/var/run/nrdproxyd.pid";
  cfg_path = codes "/etc/nuords/nrdproxyd.cfg";
  log_path = codes "/var/log/nrdproxyd.log";
  detached = false;
  terminated = false;
  daemon_mode = no_daemon;
}

-- What an argument asks for.
pub data Opt : Type 0 where
  cfg_file log_append log_file log_cons log_slog log_verbose log_level : Opt
  license help version : Opt
  full lite pid_file unknown : Opt

unfoldable pub option_of : Bytes → Opt
option_of ar =
    if same_text ar (codes "-cf")
    then cfg_file
    else if same_text ar (codes "-la")
    then log_append
    else if same_text ar (codes "-lf")
    then log_file
    else if same_text ar (codes "-lc")
    then log_cons
    else if same_text ar (codes "-ls")
    then log_slog
    else if same_text ar (codes "-lv")
    then log_verbose
    else if same_text ar (codes "-ll")
    then log_level
    else if same_text ar (codes "-c")
        || same_text ar (codes "--c")
        || same_text ar (codes "-w")
        || same_text ar (codes "--w")
    then license
    else if starts_text (codes "-h") ar || starts_text (codes "--h") ar
    then help
    else if starts_text (codes "-v") ar || starts_text (codes "--v") ar
    then version
    else if same_text ar (codes "-dd")
    then full
    else if same_text ar (codes "-dl")
    then lite
    else if same_text ar (codes "-pf")
    then pid_file
    else unknown

-- How the loop ends: with the settings, or with a text that is printed instead of a start.
pub data Parsed : Type 0 where
  settings : Process → Parsed
  prints_license prints_help prints_version : Parsed

abbrev pub to_file : Bytes → Process → Process
to_file path p =
    let out = p.log_out in record p { log_out = record out { file = true }; log_path = path }

abbrev pub to_cons : Process → Process
to_cons p = let out = p.log_out in record p { log_out = record out { cons = true } }

abbrev pub to_slog : Process → Process
to_slog p = let out = p.log_out in record p { log_out = record out { slog = true } }

-- `*argv[i] != '\0'`.
abbrev pub set_pid_path : Bytes → Process → Process
set_pid_path path p = if is_empty path then p else record p { pid_path = path }

-- What an argument leads to: the end of the loop, the next argument with other settings, or the next
-- argument as its value.
pub data Next : Type 0 where
  stops : Parsed → Next
  goes : Process → Next
  wants : Opt → Next

unfoldable pub take_opt : Opt → Process → Next
take_opt log_append p = goes (record p { log_app = true })
take_opt log_cons p = goes (to_cons p)
take_opt log_slog p = goes (to_slog p)
take_opt log_verbose p = goes (record p { log_lvl = log_debug })
take_opt license p = stops prints_license
take_opt help p = stops prints_help
take_opt version p = stops prints_version
take_opt full p = goes (record p { daemon_mode = full_daemon })
take_opt lite p = goes (record p { daemon_mode = lite_daemon })
take_opt unknown p = goes p
take_opt cfg_file p = wants cfg_file
take_opt log_file p = wants log_file
take_opt log_level p = wants log_level
take_opt pid_file p = wants pid_file

module _ (atoi : Bytes → ℤ) where
  unfoldable pub take_value : Opt → Bytes → Process → Process
  take_value cfg_file v p = record p { cfg_path = v }
  take_value log_file v p = to_file v p
  take_value log_level v p = record p { log_lvl = fit_within (atoi v) 0 7 }
  take_value pid_file v p = set_pid_path v p
  take_value _ v p = p

  -- The loop: with the option that the next argument is the value of, if there is one.
  unfoldable pub parse_args : Option Opt → List Bytes → Process → Parsed
  unfolding option_of take_opt take_value
  parse_args wanted [] p = settings p
  parse_args (some o) (v ∷ args) p = parse_args none args (take_value o v p)
  parse_args none (ar ∷ args) p = elim (if is_empty ar then goes p else take_opt (option_of ar) p) [
    | stops found ↦ found
    | goes q ↦ parse_args none args q
    | wants o ↦ parse_args (some o) args p
  ]
